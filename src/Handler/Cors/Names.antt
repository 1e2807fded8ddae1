-- ===== src/Handler/Cors/Names.antt =====
-- What the names of the patterns match.
use api_proxy.Prelude.{
  ℕ, ◌≡◌, ◌≢◌, refl, ap, sym, ◌∙◌, Option, none, ◌==◌, some, [], ◌∷◌, ◌++◌, Bool-cases, inl, inr,
  ◌⊎◌, arith,
}
use mathlib.Core.List.{append_assoc}
use api_proxy.Text.{Str}
use api_proxy.Handler.Cors.Runes.{IsRune, after_any, after_any-IsRune}
use api_proxy.Handler.Cors.{after_char, after_name}

-- What a character of a name matches: itself, or for a dot any character but a line feed.
abbrev pub Matches : ℕ → Str → Type 0
Matches p mark = ((p ≡ b'.') × IsRune mark) ⊎ ((p ≢ b'.') × (mark ≡ p ∷ []))

-- A text that a name matches, character by character.
abbrev pub Fits : Str → Str → Type 0
Fits [] s = s ≡ []
Fits (p ∷ ps) s = (mark : Str) × (rest : Str) × (s ≡ mark ++ rest) × Matches p mark × Fits ps rest

after_char-Matches :
    (p : ℕ) (s rest : Str)
    → after_char p s ≡ some rest
    → (mark : Str) × (s ≡ mark ++ rest) × Matches p mark
unfolding after_char
after_char-Matches p [] rest e = cc
after_char-Matches p (c ∷ s) rest e = elim (Bool-cases (p == b'.')) [
  | inl dot ↦
      let any : after_any c s ≡ some rest = ground (arith, e, dot) in
      let (tail, is, rune) = after_any-IsRune c s rest any in
      (c ∷ tail, ap (λ t. c ∷ t) is, inl (ground (arith, dot), rune))
  | inr plain ↦ elim (Bool-cases (p == c)) [
    | inr other ↦ cc
    | inl same ↦
        let eq : c ≡ p = ground (arith, same) in
        let later : s ≡ rest = cc in
        (
          p ∷ [],
          ap (λ x. x ∷ s) eq ∙ ap (λ t. p ∷ t) later,
          inr (λ is. ground (arith, plain), refl),
        )
  ]
]

pub after_name-Fits :
    (name s rest : Str)
    → after_name name s ≡ some rest
    → (host : Str) × (s ≡ host ++ rest) × Fits name host
unfolding after_name
after_name-Fits [] s rest e = ([], cc, refl)
after_name-Fits (p ∷ ps) s rest e =
    by_char (λ t e'. after_name-Fits ps t rest e') (after_char p s) refl e
  where
    by_char :
        ((t : Str) → after_name ps t ≡ some rest → (host : Str) × (t ≡ host ++ rest) × Fits ps host)
        → (o : Option Str) → after_char p s ≡ o
        → elim o [ none ↦ none | some t ↦ after_name ps t ] ≡ some rest
        → (host : Str) × (s ≡ host ++ rest) × Fits (p ∷ ps) host
    by_char later none at e' = cc
    by_char later (some t) at e' =
        let (mark, is, matches) = after_char-Matches p s t at in
        let (host, is', fits) = later t e' in
        (
          mark ++ host,
          is ∙ (ap (λ x. mark ++ x) is' ∙ sym (append_assoc mark host rest)),
          (mark, host, refl, matches, fits),
        )
