-- ===== src/ControlPlane/Float/Quotient.antt =====
-- The bounds of a quotient.
use api_proxy.Prelude.{
  ℕ, zero, suc, ◌+◌, ◌-◌, ◌*◌, ◌/◌, ◌%◌, ◌^◌, ◌≤◌, ◌<◌, ◌≡◌, refl, ap, ◌∙◌, true, false, ltb, leb,
  ◌==◌, if◌then◌else◌, Bool-cases, inl, inr, arith, ◌⊎◌, ltb→lt, lt→ltb,
}
use native.Mathlib.Nat.{
  pow-le-pow_right, le-div_iff_mul-le, div-le_self, mul-div_cancel_left, mul-mod_right,
}
use native.Mathlib.Omega.{pow_step}
use api_proxy.ControlPlane.Float.{
  bit_length, drop_bits, round24, add32, long_quotient, div32, unit32,
}
use api_proxy.ControlPlane.Float.Rounding.{round24_mono, drop_bits-low, drop_bits-up, pow_sum}
use api_proxy.ControlPlane.Float.Lengths.{
  bit_length_mono, bit_length-bounds, bit_length-low, pow_lt,
}

-- The quotient is at least 1 if its dividend is not the smaller, and otherwise less.
long_quotient-low : (a b : ℕ) → 0 < b → b ≤ a → 2 ^ 175 ≤ long_quotient a b
unfolding long_quotient
long_quotient-low a b positive le =
    let reaches : 2 ^ 174 ≤ a * 2 ^ 174 / b =
      (le-div_iff_mul-le {x = 2 ^ 174} {y = a * 2 ^ 174} positive).1 (omega (arith, le)) in
    ground (arith, reaches)

quotient-less : (a b : ℕ) → 0 < b → a < b → a * 2 ^ 174 / b < 2 ^ 174
quotient-less a b positive less = elim (Bool-cases (leb (2 ^ 174) (a * 2 ^ 174 / b))) [
  | inl reaches ↦ absurd (
      omega (
        arith,
        less,
        (le-div_iff_mul-le {x = 2 ^ 174} {y = a * 2 ^ 174} positive).0 (ground (arith, reaches)),
      ))
  | inr other ↦ ground (arith, other)
]

long_quotient-less : (a b : ℕ) → 0 < b → a < b → long_quotient a b < 2 ^ 175
unfolding long_quotient
long_quotient-less a b positive less =
    let q = quotient-less a b positive less in
    elim (Bool-cases (a * 2 ^ 174 % b == 0)) [
      | inl whole ↦ rw whole (omega (arith, q))
      | inr part ↦ rw part (omega (arith, q))
    ]

-- How many bits are dropped.
abbrev dropped : ℕ → ℕ
dropped n = if ltb (bit_length 512 n - 24) 26 then 26 else bit_length 512 n - 24

length-175 : bit_length 512 (2 ^ 175 - 1) ≡ 175
unfolding bit_length
length-175 = refl

dropped-up : (n : ℕ) → n < 2 ^ 175 → dropped n ≤ 175
dropped-up n h =
    let len = bit_length_mono 512 n (2 ^ 175 - 1) (omega arith) (omega (arith, h)) in
    ground (arith, len, length-175)

power_split : (k s : ℕ) → s ≤ k → 2 ^ k ≡ 2 ^ (k - s) * 2 ^ s
power_split k s le = ap (λ j. 2 ^ j) (omega (arith, le)) ∙ pow_sum (k - s) s

drop-up : (n : ℕ) → n < 2 ^ 175 → drop_bits n (dropped n) ≤ 2 ^ 175
drop-up n h =
    let e = power_split 175 (dropped n) (dropped-up n h) in
    omega (arith, e, drop_bits-up n (dropped n) (2 ^ (175 - dropped n)) (omega (arith, e, h)))

long : (n : ℕ) → n < 2 ^ 512 → 2 ^ 175 ≤ n → 175 < bit_length 512 n
long n finite le =
    let (up, _) = bit_length-bounds 512 n finite in
    pow_lt 175 (bit_length 512 n) (omega (arith, le, up))

drop-low : (n : ℕ) → n < 2 ^ 512 → 2 ^ 175 ≤ n → 2 ^ 175 ≤ drop_bits n (dropped n)
drop-low n finite le =
    let len = long n finite le in
    let size : bit_length 512 n - 1 - dropped n + dropped n ≡ bit_length 512 n - 1 =
      ground (arith, len) in
    let le_size : dropped n ≤ bit_length 512 n - 1 = ground (arith, len) in
    let e = power_split (bit_length 512 n - 1) (dropped n) le_size in
    let top : 2 ^ (bit_length 512 n - 1) ≤ n =
      half (bit_length 512 n) n (omega (arith, len))
        (bit_length-low 512 n finite (omega (arith, le))) in
    let big : 2 ^ 175 ≤ 2 ^ (bit_length 512 n - 1) =
      pow-le-pow_right (omega arith) {i = 175} {j = bit_length 512 n - 1} (omega (arith, len)) in
    omega (
      arith,
      e,
      big,
      drop_bits-low n (dropped n) (2 ^ (bit_length 512 n - 1 - dropped n)) (omega (arith, e, top)),
    )
  where
    half : (l m : ℕ) → 0 < l → 2 ^ l ≤ 2 * m → 2 ^ (l - 1) ≤ m
    half zero m positive h = omega (arith, positive)
    half (suc l) m positive h =
        let e : suc l - 1 ≡ l = omega arith in rw e (omega (arith, h, pow_step 2 l))

self_quotient : (b : ℕ) → 0 < b → long_quotient b b ≡ 2 ^ 175
unfolding long_quotient
self_quotient b positive =
    let q : b * 2 ^ 174 / b ≡ 2 ^ 174 = mul-div_cancel_left (2 ^ 174) positive in
    let r : b * 2 ^ 174 % b ≡ 0 = mul-mod_right b (2 ^ 174) in rw (q, r) refl

drop-exact : drop_bits (2 ^ 175) (dropped (2 ^ 175)) ≡ 2 ^ 175
unfolding drop_bits bit_length
drop-exact = refl

-- A quotient of numbers of which the dividend is not larger is at most 1.
pub div32-up : (a b : ℕ) → 0 < b → a ≤ b → div32 a b ≤ unit32
unfolding div32
div32-up a b positive le = elim (Bool-cases (ltb b (2 ^ 277))) [
  | inl finite ↦ rw finite (omega (arith, up (Bool-cases (ltb a b))))
  | inr infinite ↦ rw infinite (omega arith)
]
  where
    up :
        (ltb a b ≡ true) ⊎ (ltb a b ≡ false)
        → drop_bits (long_quotient a b) (dropped (long_quotient a b)) ≤ 2 ^ 175
    up (inl less) = drop-up (long_quotient a b) (long_quotient-less a b positive (ltb→lt a b less))
    up (inr other) =
        let same : a ≡ b = ground (arith, other, le) in
        rw (same, self_quotient b positive, drop-exact) (omega arith)

long_quotient-finite : (a b : ℕ) → a < 2 ^ 277 → long_quotient a b < 2 ^ 512
unfolding long_quotient
long_quotient-finite a b finite =
    let le = div-le_self (a * 2 ^ 174) b in
    elim (Bool-cases (a * 2 ^ 174 % b == 0)) [
      | inl whole ↦ rw whole (omega (arith, le, finite))
      | inr part ↦ rw part (omega (arith, le, finite))
    ]

-- A quotient of numbers of which the dividend is not smaller is at least 1.
pub div32-low : (a b : ℕ) → 0 < b → b ≤ a → a < 2 ^ 277 → unit32 ≤ div32 a b
unfolding div32
div32-low a b positive le finite =
    let low =
      drop-low (long_quotient a b) (long_quotient-finite a b finite)
        (long_quotient-low a b positive le) in
    let finite' : ltb b (2 ^ 277) ≡ true = lt→ltb b (2 ^ 277) (omega (arith, le, finite)) in
    rw finite' (omega (arith, low))

-- A float32 has no more than 24 significant bits, and a finite one is less than 2^277 units.
abbrev pub IsFloat32 : ℕ → Type 0
IsFloat32 a = (a < 2 ^ 277) × (round24 a ≡ a)

-- A sum is not less than one of its terms, although it is rounded.
pub add32-low : (a b : ℕ) → IsFloat32 b → a < 2 ^ 277 → b ≤ add32 a b
unfolding add32
add32-low a b (finite, exact) finite' =
    omega (arith, exact, round24_mono b (a + b) (omega (arith, finite, finite')) (omega arith))
