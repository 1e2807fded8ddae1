-- ===== src/ControlPlane/Float/Lengths.antt =====
-- The number of binary digits of a number.
use api_proxy.Prelude.{
  ℕ, zero, suc, ◌*◌, ◌/◌, ◌^◌, ◌≤◌, ◌<◌, ◌≡◌, refl, false, ltb, ◌==◌, Bool-cases, inl, inr, arith,
  ltb→lt,
}
use native.Mathlib.Nat.{pow-le-pow_right}
use native.Mathlib.Omega.{pow_step}
use api_proxy.ControlPlane.Float.{bit_length}

-- A number lies between the powers of two that its length gives.
pub bit_length-bounds :
    (fuel n : ℕ) → n < 2 ^ fuel → (n < 2 ^ bit_length fuel n) × (bit_length fuel n ≤ fuel)
unfolding bit_length
bit_length-bounds zero n h = (h, omega arith)
bit_length-bounds (suc fuel) n h = elim (Bool-cases (n == 0)) [
  | inl none' ↦ rw none' (ground (arith, none'), omega arith)
  | inr some' ↦
      let (up, long) = bit_length-bounds fuel (n / 2) (omega (arith, h, pow_step 2 fuel)) in
      rw some' (omega (arith, up, pow_step 2 (bit_length fuel (n / 2))), omega (arith, long))
]

pub bit_length-zero : (fuel : ℕ) → bit_length fuel 0 ≡ 0
unfolding bit_length
bit_length-zero zero = refl
bit_length-zero (suc fuel) = refl

pub bit_length-low : (fuel n : ℕ) → n < 2 ^ fuel → 0 < n → 2 ^ bit_length fuel n ≤ 2 * n
unfolding bit_length
bit_length-low zero n h pos' = absurd (omega (arith, h, pos'))
bit_length-low (suc fuel) n h pos' =
    let some' : (n == 0) ≡ false = ground (arith, pos') in
    rw some' (elim (Bool-cases (n / 2 == 0)) [
      | inl small ↦
          let half : n / 2 ≡ 0 = ground (arith, small) in
          rw half (rw (bit_length-zero fuel) (omega (arith, pos')))
      | inr large ↦
          let big : 0 < n / 2 = ground (arith, large) in
          omega (
            arith,
            bit_length-low fuel (n / 2) (omega (arith, h, pow_step 2 fuel)) big,
            pow_step 2 (bit_length fuel (n / 2)),
          )
    ])

-- The longer of two numbers is the larger.
pub pow_lt : (a b : ℕ) → 2 ^ a < 2 ^ b → a < b
pow_lt a b h = elim (Bool-cases (ltb a b)) [
  | inl less ↦ ltb→lt a b less
  | inr other ↦ absurd (
      omega
        (arith, h, pow-le-pow_right {n = 2} (omega arith) {i = b} {j = a} (ground (arith, other))))
]

pub bit_length_mono : (fuel n m : ℕ) → m < 2 ^ fuel → n ≤ m → bit_length fuel n ≤ bit_length fuel m
bit_length_mono fuel n m h le = elim (Bool-cases (n == 0)) [
  | inl none' ↦ let e : n ≡ 0 = ground (arith, none') in rw (e, bit_length-zero fuel) (omega arith)
  | inr some' ↦
      let pos' : 0 < n = ground (arith, some') in
      let (up, _) = bit_length-bounds fuel m h in
      let low = bit_length-low fuel n (omega (arith, h, le)) pos' in
      omega (
        arith,
        pow_lt (bit_length fuel n) (suc (bit_length fuel m))
            (omega (arith, up, low, le, pow_step 2 (bit_length fuel m))),
      )
]
