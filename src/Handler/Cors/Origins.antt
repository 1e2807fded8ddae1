-- ===== src/Handler/Cors/Origins.antt =====
-- Which origins a pattern accepts.
use api_proxy.Prelude.{
  ℕ, ◌≤◌, ◌≡◌, refl, ap, ◌∙◌, true, false, ◌&&◌, ◌||◌, ◌==◌, some, List, [], ◌∷◌, ◌++◌, Bool-cases,
  Option-cases, inl, inr, ◌⊎◌, arith, All,
}
use api_proxy.Text.{Str, bytes}
use api_proxy.Handler.Cors.{
  after_name, is_digit, all_digits, is_port, is_rest, is_host, host_byte, is_below, after_scheme,
  is_authority, is_origin, any_origin, is_allowed, allowed_names,
}
use api_proxy.Handler.Cors.Names.{Fits, after_name-Fits}

abbrev pub IsDigit : ℕ → Type 0
IsDigit c = (48 ≤ c) × (c ≤ 57)

-- A letter, a digit, a dash, a dot or an underscore.
abbrev pub IsLabelByte : ℕ → Type 0
IsLabelByte c =
    (((97 ≤ c) × (c ≤ 122)) ⊎ ((65 ≤ c) × (c ≤ 90)))
    ⊎ (IsDigit c ⊎ ((c ≡ 45) ⊎ ((c ≡ 46) ⊎ (c ≡ 95))))

-- A port, or nothing.
abbrev pub IsPort : Str → Type 0
IsPort s = (s ≡ []) ⊎ ((d : ℕ) × (ds : Str) × (s ≡ b':' ∷ d ∷ ds) × All IsDigit (d ∷ ds))

-- The name, with a port or not.
abbrev pub IsHost : Str → Str → Type 0
IsHost name s = (host : Str) × (port : Str) × (s ≡ host ++ port) × Fits name host × IsPort port

-- A host below the name: one byte or more, a dot, and the name.
abbrev pub IsBelow : Str → Str → Type 0
IsBelow name s =
    (c : ℕ) × (label : Str) × (rest : Str) × (s ≡ c ∷ label ++ b'.' ∷ rest)
    × All IsLabelByte (c ∷ label)
    × IsHost name rest

-- What one pattern means.
abbrev pub IsOrigin : Str → Str → Type 0
IsOrigin name origin =
    (scheme : Str) × (s : Str) × (origin ≡ scheme ++ s)
    × ((scheme ≡ bytes "http://") ⊎ (scheme ≡ bytes "https://"))
    × (IsHost name s ⊎ IsBelow name s)

digit : (c : ℕ) → is_digit c ≡ true → IsDigit c
unfolding is_digit
digit c h = (ground (arith, h), ground (arith, h))

label_byte : (c : ℕ) → host_byte c ≡ true → IsLabelByte c
unfolding host_byte is_digit
label_byte c h = ground (arith, h)

all_digits-All : (s : Str) → all_digits s ≡ true → All IsDigit s
unfolding all_digits
all_digits-All [] h = tt
all_digits-All (c ∷ s) h =
    let d : is_digit c ≡ true = ground (arith, h) in
    let ds : all_digits s ≡ true = ground (arith, h) in (digit c d, all_digits-All s ds)

is_port-IsPort : (s : Str) → is_port s ≡ true → IsPort s
unfolding is_port
is_port-IsPort [] h = inl refl
is_port-IsPort (c ∷ []) h = cc
is_port-IsPort (c ∷ d ∷ s) h =
    let colon : c ≡ b':' = ground (arith, h) in
    let digits : all_digits (d ∷ s) ≡ true = ground (arith, h) in
    inr (d, s, ap (λ x. x ∷ d ∷ s) colon, all_digits-All (d ∷ s) digits)

is_host-IsHost : (name s : Str) → is_host name s ≡ true → IsHost name s
unfolding is_host is_rest
is_host-IsHost name s h = elim (Option-cases (after_name name s)) [
  | inl none' ↦ ground (arith, h, none')
  | inr (rest, at) ↦
      let (host, is, fits) = after_name-Fits name s rest at in
      let port : is_port rest ≡ true = ground (arith, h, at) in
      (host, rest, is, fits, is_port-IsPort rest port)
]

below-label :
    (name s : Str)
    → is_below true name s ≡ true
    → (label : Str) × (rest : Str) × (s ≡ label ++ b'.' ∷ rest)
      × All IsLabelByte label
      × IsHost name rest
unfolding is_below
below-label name [] h = cc
below-label name (c ∷ s) h = elim (Bool-cases (c == b'.' && is_host name s)) [
  | inl found ↦
      let dot : c ≡ b'.' = ground (arith, found) in
      let host : is_host name s ≡ true = ground (arith, found) in
      ([], s, ap (λ x. x ∷ s) dot, tt, is_host-IsHost name s host)
  | inr other ↦
      let byte : host_byte c ≡ true = ground (arith, h, other) in
      let below : is_below true name s ≡ true = ground (arith, h, other) in
      let (label, rest, is, bytes', host) = below-label name s below in
      (c ∷ label, rest, ap (λ t. c ∷ t) is, (label_byte c byte, bytes'), host)
]

is_below-IsBelow : (name s : Str) → is_below false name s ≡ true → IsBelow name s
unfolding is_below
is_below-IsBelow name [] h = cc
is_below-IsBelow name (c ∷ s) h =
    let byte : host_byte c ≡ true = ground (arith, h) in
    let below : is_below true name s ≡ true = ground (arith, h) in
    let (label, rest, is, bytes', host) = below-label name s below in
    (c, label, rest, ap (λ t. c ∷ t) is, (label_byte c byte, bytes'), host)

after_scheme-append : (p s t : Str) → after_scheme p s ≡ some t → s ≡ p ++ t
unfolding after_scheme
after_scheme-append [] s t e = cc
after_scheme-append (p ∷ ps) [] t e = cc
after_scheme-append (p ∷ ps) (c ∷ s) t e = elim (Bool-cases (p == c)) [
  | inr other ↦ cc
  | inl same ↦
      let later : after_scheme ps s ≡ some t = ground (arith, e, same) in
      let eq : c ≡ p = ground (arith, same) in
      ap (λ x. x ∷ s) eq ∙ ap (λ u. p ∷ u) (after_scheme-append ps s t later)
]

is_authority-IsOrigin :
    (name scheme origin : Str)
    → (scheme ≡ bytes "http://") ⊎ (scheme ≡ bytes "https://")
    → is_authority name (after_scheme scheme origin) ≡ true
    → IsOrigin name origin
unfolding is_authority
is_authority-IsOrigin name scheme origin known h =
    elim (Option-cases (after_scheme scheme origin)) [
      | inl none' ↦ ground (arith, h, none')
      | inr (s, at) ↦
          let either : (is_host name s || is_below false name s) ≡ true = ground (arith, h, at) in
          (
            scheme,
            s,
            after_scheme-append scheme origin s at,
            known,
            elim (Bool-cases (is_host name s)) [
              | inl host ↦ inl (is_host-IsHost name s host)
              | inr other ↦ inr (is_below-IsBelow name s (ground (arith, either, other)))
            ],
          )
    ]

is_origin-IsOrigin : (name origin : Str) → is_origin name origin ≡ true → IsOrigin name origin
unfolding is_origin
is_origin-IsOrigin name origin h =
    elim (Bool-cases (is_authority name (after_scheme (bytes "http://") origin))) [
      | inl plain ↦ is_authority-IsOrigin name (bytes "http://") origin (inl refl) plain
      | inr other ↦
          is_authority-IsOrigin name (bytes "https://") origin (inr refl) (ground (arith, h, other))
    ]

-- The name is one of the list.
abbrev pub IsIn : Str → List Str → Type 0
IsIn name [] = ⊥
IsIn name (n ∷ names) = (n ≡ name) ⊎ IsIn name names

any_origin-IsIn :
    (names : List Str) (origin : Str)
    → any_origin names origin ≡ true
    → (name : Str) × IsIn name names × IsOrigin name origin
unfolding any_origin
any_origin-IsIn [] origin h = cc
any_origin-IsIn (n ∷ names) origin h = elim (Bool-cases (is_origin n origin)) [
  | inl hit ↦ (n, inl refl, is_origin-IsOrigin n origin hit)
  | inr miss ↦
      let (name, i, is) = any_origin-IsIn names origin (ground (arith, h, miss)) in
      (name, inr i, is)
]

-- An origin is allowed only if it is http:// or https://, then one of the names, where a dot of the
-- name stands for any character but a line feed, or a label of letters, digits, dashes, dots and
-- underscores, a dot and such a name, and at the end a port or nothing.
pub is_allowed-IsOrigin :
    (origin : Str)
    → is_allowed origin ≡ true
    → (name : Str) × IsIn name allowed_names × IsOrigin name origin
unfolding is_allowed
is_allowed-IsOrigin origin h = any_origin-IsIn allowed_names origin h
