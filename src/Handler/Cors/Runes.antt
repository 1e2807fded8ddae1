-- ===== src/Handler/Cors/Runes.antt =====
-- The characters of a text in UTF-8, as the dot of a pattern takes them (for the patterns of
-- handler/cors.go): a byte that begins no character counts as one.
use api_proxy.Prelude.{
  ℕ, zero, suc, ◌≤◌, ◌≡◌, ◌≢◌, ◌∙◌, refl, ap, leb, ◌==◌, ◌&&◌, Bool, Bool-cases, true, Option, none,
  some, [], ◌∷◌, ◌++◌, if◌then◌else◌, inl, inr, ◌⊎◌, arith, length, All,
}
use api_proxy.Text.{Str}

-- How many bytes follow the first one of a character.
unfoldable pub tail_length : ℕ → ℕ
tail_length c =
    if leb 194 c && leb c 223
    then 1
    else if leb 224 c && leb c 239
    then 2
    else if leb 240 c && leb c 244
    then 3
    else 0

unfoldable pub is_between : ℕ → ℕ → ℕ → Bool
is_between low high c = leb low c && leb c high

-- The least and the greatest second byte: no character has a longer form than it needs, and
-- neither surrogates nor what is beyond the last character.
unfoldable pub second_low : ℕ → ℕ
second_low c = if c == 224 then 160 else if c == 240 then 144 else 128

unfoldable pub second_high : ℕ → ℕ
second_high c = if c == 237 then 159 else if c == 244 then 143 else 191

-- The text behind `n` bytes that continue a character.
unfoldable pub after_tail : ℕ → Str → Option Str
after_tail zero s = some s
after_tail (suc n) [] = none
after_tail (suc n) (c ∷ s) =
    let rest = after_tail n s in if is_between 128 191 c then rest else none

-- The text behind a character of several bytes of which the first is `c`.
unfoldable pub after_wide : ℕ → ℕ → Str → Option Str
after_wide zero c s = none
after_wide (suc n) c [] = none
after_wide (suc n) c (d ∷ s) =
    if is_between (second_low c) (second_high c) d then after_tail n s else none

unfoldable pub or_one : Str → Option Str → Option Str
or_one s none = some s
or_one s (some rest) = some rest

-- The text behind the character that begins with `c`, which is not a line feed.
unfoldable pub after_any : ℕ → Str → Option Str
after_any c s = if c == 10 then none else or_one s (after_wide (tail_length c) c s)

-- A character but a line feed: one byte, or one of 194 or more with up to three from 128 to 191.
abbrev pub IsRune : Str → Type 0
IsRune [] = ⊥
IsRune (c ∷ tail) =
    (c ≢ 10)
    × ((tail ≡ []) ⊎ ((194 ≤ c) × (length tail ≤ 3) × All (λ b. (128 ≤ b) × (b ≤ 191)) tail))

after_tail-append :
    (n : ℕ) (s rest : Str)
    → after_tail n s ≡ some rest
    → (tail : Str) × (s ≡ tail ++ rest) × (length tail ≡ n) × All (λ b. (128 ≤ b) × (b ≤ 191)) tail
unfolding after_tail is_between
after_tail-append zero s rest e = ([], cc, refl, tt)
after_tail-append (suc n) [] rest e = cc
after_tail-append (suc n) (c ∷ s) rest e = elim (Bool-cases (leb 128 c && leb c 191)) [
  | inr other ↦ cc
  | inl byte ↦
      let later : after_tail n s ≡ some rest = ground (arith, e, byte) in
      let (tail, is, long, bytes') = after_tail-append n s rest later in
      (
        c ∷ tail,
        ap (λ t. c ∷ t) is,
        ap suc long,
        ((ground (arith, byte), ground (arith, byte)), bytes'),
      )
]

second_byte : (c d : ℕ) → is_between (second_low c) (second_high c) d ≡ true → (128 ≤ d) × (d ≤ 191)
unfolding is_between second_low second_high
second_byte c d h = (ground (arith, h), ground (arith, h))

lead_byte : (c n : ℕ) → tail_length c ≡ suc n → (194 ≤ c) × (n ≤ 2)
unfolding tail_length
lead_byte c n h = (ground (arith, h), ground (arith, h))

after_wide-append :
    (n c : ℕ) (s rest : Str)
    → tail_length c ≡ n
    → after_wide n c s ≡ some rest
    → (tail : Str) × (s ≡ tail ++ rest)
      × (194 ≤ c)
      × (length tail ≤ 3)
      × All (λ b. (128 ≤ b) × (b ≤ 191)) tail
unfolding after_wide
after_wide-append zero c s rest lead e = cc
after_wide-append (suc n) c [] rest lead e = cc
after_wide-append (suc n) c (d ∷ s) rest lead e =
    elim (Bool-cases (is_between (second_low c) (second_high c) d)) [
      | inr other ↦ cc
      | inl byte ↦
          let later : after_tail n s ≡ some rest = ground (arith, e, byte) in
          let (tail, is, long, bytes') = after_tail-append n s rest later in
          let (high, few) = lead_byte c n lead in
          (
            d ∷ tail,
            ap (λ t. d ∷ t) is,
            high,
            omega (arith, long, few),
            (second_byte c d byte, bytes'),
          )
    ]

-- What lies before the text behind a character is that character.
pub after_any-IsRune :
    (c : ℕ) (s rest : Str)
    → after_any c s ≡ some rest
    → (tail : Str) × (s ≡ tail ++ rest) × IsRune (c ∷ tail)
unfolding after_any
after_any-IsRune c s rest e = elim (Bool-cases (c == 10)) [
  | inl feed ↦ cc
  | inr other ↦
      let apart : c ≢ 10 = λ is. ground (arith, other) in
      let found : or_one s (after_wide (tail_length c) c s) ≡ some rest =
        ground (arith, e, other) in
      by_width apart (after_wide (tail_length c) c s) refl found
]
  where
    by_width :
        c ≢ 10
        → (o : Option Str) → after_wide (tail_length c) c s ≡ o
        → or_one s o ≡ some rest
        → (tail : Str) × (s ≡ tail ++ rest) × IsRune (c ∷ tail)
    by_width apart none is found = ([], unfold or_one in cc, (apart, inl refl))
    by_width apart (some rest') is found =
        let same : some rest' ≡ some rest = unfold or_one in found in
        let (tail, at, high, few, bytes') =
          after_wide-append (tail_length c) c s rest refl (is ∙ same) in
        (tail, at, (apart, inr (high, few, bytes')))
