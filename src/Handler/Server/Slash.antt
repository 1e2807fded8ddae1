-- ===== src/Handler/Server/Slash.antt =====
-- A slash at the end of a path, which the filter of sensitive requests and H2 read differently.
use api_proxy.Prelude.{
  ℕ, ◌≡◌, ◌≢◌, refl, ◌∙◌, ap, Bool, true, false, ◌==◌, List, [], ◌∷◌, ◌++◌, ◌⊎◌, inl, inr,
  Bool-cases, if◌then◌else◌,
}
use api_proxy.Text.{Str, bytes, str_eq, split, cons_head, trim_prefix, join}
use api_proxy.Text.Laws.{str_eq_iff}
use api_proxy.Http.Request.{Request}
use api_proxy.Http.Writer.{Writer}
use api_proxy.Handler.Endpoint.{
  slash, clean, clean_all, clean_step, path_to_endpoint, is_rooted, or_dot, without_last, last_or,
  service_prefix,
}
use api_proxy.Handler.Mux.{matched, clean_path, rooted, ends_in_slash}
use api_proxy.Handler.Server.{patterns, Handlers, serve_found, serve_mux}
use api_proxy.Handler.Pci.Sensitive.{IsIn, is_listed-IsIn}
use api_proxy.Handler.Pci.{method_and_path, is_listed, is_sensitive_request, serve_pci}

cons_head-append :
    (c : ℕ) (ss : List Str) (t : Str)
    → ss ≢ []
    → cons_head c (ss ++ t ∷ []) ≡ cons_head c ss ++ t ∷ []
unfolding cons_head
cons_head-append c [] t h = absurd (h refl)
cons_head-append c (s ∷ ss) t h = refl

cons_head-given : (c : ℕ) (ss : List Str) → cons_head c ss ≢ []
unfolding cons_head
cons_head-given c [] = λ e. cc
cons_head-given c (s ∷ ss) = λ e. cc

split-given : (s : Str) → split s b'/' ≢ []
unfolding split
split-given [] = λ e. cc
split-given (c ∷ s) = elim (Bool-cases (c == b'/')) [
  | inl same ↦ rw same (λ e. cc)
  | inr other ↦ rw other (cons_head-given c (split s b'/'))
]

-- One blank element more.
split-slash : (s : Str) → split (s ++ slash) b'/' ≡ split s b'/' ++ [] ∷ []
unfolding split
split-slash [] = refl
split-slash (c ∷ s) = elim (Bool-cases (c == b'/')) [
  | inl same ↦ rw same (ap (λ ss. [] ∷ ss) (split-slash s))
  | inr other ↦
      rw other
        (ap (cons_head c) (split-slash s) ∙ cons_head-append c (split s b'/') [] (split-given s))
]

clean_all-blank :
    (rooted : Bool) (kept ss : List Str)
    → clean_all rooted kept (ss ++ [] ∷ []) ≡ clean_all rooted kept ss
unfolding clean_all clean_step
clean_all-blank rooted kept [] = refl
clean_all-blank rooted kept (s ∷ ss) = clean_all-blank rooted (clean_step rooted kept s) ss

-- A slash at the end of a path that is not blank is dropped when the path is cleaned.
clean-slash : (c : ℕ) (s : Str) → clean ((c ∷ s) ++ slash) ≡ clean (c ∷ s)
unfolding clean is_rooted
clean-slash c s =
    ap
      (λ kept. if str_eq (c ∷ []) slash then slash ++ join kept slash else or_dot (join kept slash))
      (ap (clean_all (str_eq (c ∷ []) slash) []) (split-slash (c ∷ s))
        ∙ clean_all-blank (str_eq (c ∷ []) slash) [] (split (c ∷ s) b'/'))

-- It stands for the same service and endpoint.
path_to_endpoint-slash :
    (c : ℕ) (s : Str) → path_to_endpoint ((c ∷ s) ++ slash) ≡ path_to_endpoint (c ∷ s)
unfolding path_to_endpoint
path_to_endpoint-slash c s =
    ap
      (λ p. (
        service_prefix ++ join (without_last (split (trim_prefix p slash) b'/')) (b'.' ∷ []),
        last_or [] (split (trim_prefix p slash) b'/'),
      ))
      (clean-slash c s)

ends_in_slash-append : (s : Str) → ends_in_slash (s ++ slash) ≡ true
unfolding ends_in_slash
ends_in_slash-append [] = refl
ends_in_slash-append (c ∷ []) = refl
ends_in_slash-append (c ∷ d ∷ s) = ends_in_slash-append (d ∷ s)

clean_path-slash :
    (s : Str)
    → clean (b'/' ∷ s) ≡ b'/' ∷ s
    → b'/' ∷ s ≢ slash
    → clean_path ((b'/' ∷ s) ++ slash) ≡ (b'/' ∷ s) ++ slash
unfolding clean_path rooted
clean_path-slash s is_clean below =
    let cleaned : clean ((b'/' ∷ s) ++ slash) ≡ b'/' ∷ s = clean-slash b'/' s ∙ is_clean in
    let other : str_eq (b'/' ∷ s) slash ≡ false = not_slash (Bool-cases _) in
    rw (ends_in_slash-append (b'/' ∷ s)) (rw cleaned (rw other refl))
  where
    not_slash :
        (str_eq (b'/' ∷ s) slash ≡ true) ⊎ (str_eq (b'/' ∷ s) slash ≡ false)
        → str_eq (b'/' ∷ s) slash ≡ false
    not_slash (inl same) = absurd (below ((str_eq_iff (b'/' ∷ s) slash).0 same))
    not_slash (inr other) = other

unlisted : (paths : List Str) (text : Str) → ¬ IsIn text paths → is_listed paths text ≡ false
unlisted paths text absent = elim (Bool-cases (is_listed paths text)) [
  | inl listed ↦ absurd (absent (is_listed-IsIn paths text listed))
  | inr other ↦ other
]

not_star : (s : Str) → str_eq ((b'/' ∷ s) ++ slash) (bytes "*") ≡ false
unfolding str_eq bytes
not_star s = refl

-- The request with a slash behind its path.
abbrev pub slashed : Request → Request
slashed r = record r { path = r.path ++ slash }

-- If a path is clean and more than a slash, and the sensitive paths do not list it with a slash behind
-- it, then the request with that slash passes the filter, whether or not they list it without; the mux
-- does not redirect it; and it stands for the same service and endpoint of H2.
pub serve_pci-slashed :
    (next : Writer → Request → Writer) (site : Handlers) (paths : List Str) (w : Writer)
    (r : Request) (s : Str)
    → r.path ≡ b'/' ∷ s
    → clean r.path ≡ r.path
    → r.path ≢ slash
    → ¬ IsIn (method_and_path (slashed r)) paths
    → (serve_pci next paths w (slashed r) ≡ next w (slashed r))
      × (serve_mux site w (slashed r)
          ≡ serve_found site (matched patterns (slashed r).path) w (slashed r))
      × (path_to_endpoint (slashed r).path ≡ path_to_endpoint r.path)
unfolding serve_pci is_sensitive_request serve_mux
serve_pci-slashed next site paths w r s is is_clean below absent =
    let free = unlisted paths (method_and_path (slashed r)) absent in
    let same : clean_path (slashed r).path ≡ (slashed r).path =
      rw is (clean_path-slash s (rw is at is_clean) (rw is at below)) in
    let path : str_eq (slashed r).path (bytes "*") ≡ false = rw is (not_star s) in
    let equal = (str_eq_iff (clean_path (slashed r).path) (slashed r).path).1 same in
    (
      rw free refl,
      elim (Bool-cases (str_eq r.method (bytes "CONNECT"))) [
        | inl connect ↦ rw path (rw connect refl)
        | inr other ↦ rw path (rw other (rw equal refl))
      ],
      rw is (path_to_endpoint-slash b'/' s),
    )
