-- ===== src/Handler/Marshal/Kept.antt =====
-- What a marshalled request keeps of the parameters and the headers.
use api_proxy.Prelude.{
  ◌≡◌, refl, true, false, List, [], ◌∷◌, ◌++◌, inl, inr, Bool-cases, All, All-map,
}
use mathlib.Core.List.{Memᴰ}
use mathlib.Core.List.Memᴰ
use api_proxy.Text.{Str, str_eq}
use api_proxy.Http.Header.{Header}
use api_proxy.Http.Query.{Values, first}
use api_proxy.Handler.Marshal.{
  Pair, Scan, hob, is_credential, scan_step, scan_values, is_passed, header_text, pass_headers,
}

module _ (a : Pair) where
  scan_step-keep : (k v : Str) (s : Scan) → Memᴰ a s.pairs → Memᴰ a (scan_step k v s).pairs
  unfolding scan_step
  scan_step-keep k v s m = elim (Bool-cases (is_credential k)) [
    | inl secret ↦ rw secret m
    | inr open' ↦ elim (Bool-cases (str_eq k hob)) [
      | inl code ↦ rw open' (rw code m)
      | inr other ↦ rw open' (rw other (Memᴰ.append_left _ m))
    ]
  ]

  scan_values-keep : (q : Values) (s : Scan) → Memᴰ a s.pairs → Memᴰ a (scan_values q s).pairs
  unfolding scan_values
  scan_values-keep [] s m = m
  scan_values-keep ((k, vs) ∷ q) s m =
      scan_values-keep q (scan_step k (first vs) s) (scan_step-keep k (first vs) s m)

-- A plain parameter is added, with its first value.
scan_step-add :
    (k v : Str) (s : Scan)
    → is_credential k ≡ false
    → str_eq k hob ≡ false
    → Memᴰ (record { key = k; value = v }) (scan_step k v s).pairs
unfolding scan_step
scan_step-add k v s open' other = rw open' (rw other (Memᴰ.append_right s.pairs (Memᴰ.head refl)))

-- All plain parameters are there, each with its first value.
abbrev pub Kept : Values → List Pair → Type 0
Kept q pairs =
    All
      (λ (e : Str × List Str).
        is_credential e.0 ≡ false
        → str_eq e.0 hob ≡ false
        → Memᴰ (record { key = e.0; value = first e.1 }) pairs)
      q

pub scan_values-Kept : (q : Values) (s : Scan) → Kept q (scan_values q s).pairs
unfolding scan_values
scan_values-Kept [] s = tt
scan_values-Kept ((k, vs) ∷ q) s = (
  λ open' other.
      scan_values-keep (record { key = k; value = first vs }) q (scan_step k (first vs) s)
        (scan_step-add k (first vs) s open' other),
  scan_values-Kept q (scan_step k (first vs) s),
)

pub Kept-append : (q : Values) (ps more : List Pair) → Kept q ps → Kept q (ps ++ more)
Kept-append q ps more = All-map (λ e h open' other. Memᴰ.append_left more (h open' other)) q

-- All headers that may be passed on are there.
abbrev pub AllPassed : Header → List Str → Type 0
AllPassed h texts =
    All (λ (e : Str × List Str). is_passed e.0 ≡ true → Memᴰ (header_text e.0 e.1) texts) h

pass_headers-tail :
    (e : Str × List Str) (h : Header) (text : Str)
    → Memᴰ text (pass_headers h)
    → Memᴰ text (pass_headers (e ∷ h))
unfolding pass_headers
pass_headers-tail (k, vs) h text m = elim (Bool-cases (is_passed k)) [
  | inl passed ↦ rw passed (Memᴰ.tail m)
  | inr dropped ↦ rw dropped m
]

pub pass_headers-AllPassed : (h : Header) → AllPassed h (pass_headers h)
unfolding pass_headers
pass_headers-AllPassed [] = tt
pass_headers-AllPassed ((k, vs) ∷ h) = (
  λ passed. rw passed (Memᴰ.head refl),
  All-map (λ e f passed. pass_headers-tail (k, vs) h (header_text e.0 e.1) (f passed)) h
      (pass_headers-AllPassed h),
)
