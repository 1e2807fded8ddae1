-- ===== src/ControlPlane/Float/Rounding.antt =====
-- Rounding keeps the order of numbers.
use api_proxy.Prelude.{
  ℕ, zero, suc, ◌+◌, ◌-◌, ◌*◌, ◌/◌, ◌%◌, ◌^◌, ◌≤◌, ◌<◌, ◌≡◌, refl, sym, ap, ◌∙◌, true, false, ltb,
  leb, if◌then◌else◌, Bool-cases, inl, inr, arith, ◌⊎◌, ltb→lt, lt→ltb,
}
use native.Mathlib.Nat.{
  pow-le-pow_right, one-le-pow, mul_assoc, mul-le-mul_right, le-div_iff_mul-le, div-add-mod',
  div-mul-le_self,
}
use native.Mathlib.Omega.{pow_step}
use api_proxy.ControlPlane.Float.{bit_length, rounds_up, drop_bits, round24}
use api_proxy.ControlPlane.Float.Lengths.{
  bit_length-bounds, bit_length-low, pow_lt, bit_length_mono,
}

-- The number of units that a number is rounded to.
abbrev rounded : ℕ → ℕ → ℕ → ℕ
rounded high low unit = high + (if rounds_up high low unit then 1 else 0)

rounded-between :
    (high low unit : ℕ) → (high ≤ rounded high low unit) × (rounded high low unit ≤ suc high)
rounded-between high low unit = elim (Bool-cases (rounds_up high low unit)) [
  | inl up ↦ rw up (omega arith, omega arith)
  | inr down ↦ rw down (omega arith, omega arith)
]

rounded_mono :
    (high low low' unit : ℕ) → low ≤ low' → rounded high low unit ≤ rounded high low' unit
unfolding rounds_up
rounded_mono high low low' unit le = ground (arith, le)

pub unit_pos : (s : ℕ) → 0 < 2 ^ s
unit_pos s = one-le-pow s 2 (omega arith)

-- With one and the same unit, rounding keeps the order.
units_mono : (n m u : ℕ) → 0 < u → n ≤ m → rounded (n / u) (n % u) u ≤ rounded (m / u) (m % u) u
units_mono n m u pos' le =
    let quotients : n / u ≤ m / u =
      (le-div_iff_mul-le pos').1 (omega (arith, div-mul-le_self n u, le)) in
    let (_, up) = rounded-between (n / u) (n % u) u in
    let (low, _) = rounded-between (m / u) (m % u) u in
    elim (Bool-cases (ltb (n / u) (m / u))) [
      | inl less ↦ omega (arith, ltb→lt (n / u) (m / u) less, up, low)
      | inr other ↦
          let same : n / u ≡ m / u = ground (arith, other, quotients) in
          let remainders : n % u ≤ m % u =
            omega (arith, div-add-mod' n u, div-add-mod' m u, ap (λ q. q * u) same, le) in
          rw same (rounded_mono (m / u) (n % u) (m % u) u remainders)
    ]

pub drop_bits_mono : (n m s : ℕ) → n ≤ m → drop_bits n s ≤ drop_bits m s
unfolding drop_bits
drop_bits_mono n m s le = mul-le-mul_right (2 ^ s) (units_mono n m (2 ^ s) (unit_pos s) le)

-- Rounding stays between the numbers of the unit around it.
pub drop_bits-low : (n s k : ℕ) → k * 2 ^ s ≤ n → k * 2 ^ s ≤ drop_bits n s
unfolding drop_bits
drop_bits-low n s k h =
    let (low, _) = rounded-between (n / 2 ^ s) (n % 2 ^ s) (2 ^ s) in
    mul-le-mul_right (2 ^ s) (omega (arith, (le-div_iff_mul-le (unit_pos s)).1 h, low))

pub drop_bits-up : (n s k : ℕ) → n < k * 2 ^ s → drop_bits n s ≤ k * 2 ^ s
unfolding drop_bits
drop_bits-up n s k h =
    let (_, up) = rounded-between (n / 2 ^ s) (n % 2 ^ s) (2 ^ s) in
    mul-le-mul_right (2 ^ s) (omega (arith, up, below (Bool-cases (leb k (n / 2 ^ s)))))
  where
    below : (leb k (n / 2 ^ s) ≡ true) ⊎ (leb k (n / 2 ^ s) ≡ false) → n / 2 ^ s < k
    below (inl reaches) = absurd (
        omega
          (arith, h, (le-div_iff_mul-le {x = k} {y = n} (unit_pos s)).0 (ground (arith, reaches))))
    below (inr other) = ground (arith, other)

-- What is dropped of a number of more than 24 digits, and its bounds.
record Rounded (n : ℕ) : Type 0 where
  long : 24 < bit_length 512 n
  low : 2 ^ bit_length 512 n ≤ 2 * drop_bits n (bit_length 512 n - 24)
  up : drop_bits n (bit_length 512 n - 24) ≤ 2 ^ bit_length 512 n

pub pow_sum : (k s : ℕ) → 2 ^ (k + s) ≡ 2 ^ k * 2 ^ s
pow_sum zero s = let e : zero + s ≡ s = omega arith in rw e (omega arith)
pow_sum (suc k) s =
    let e : suc k + s ≡ suc (k + s) = omega arith in
    rw e (rw (pow_step 2 (k + s), pow_sum k s, pow_step 2 k) (sym (mul_assoc 2 (2 ^ k) (2 ^ s))))

size_split : (size : ℕ) → 24 < size → 2 ^ size ≡ 2 ^ 24 * 2 ^ (size - 24)
size_split size long = ap (λ k. 2 ^ k) (omega (arith, long)) ∙ pow_sum 24 (size - 24)

round_large : (n : ℕ) → n < 2 ^ 512 → 2 ^ 24 ≤ n → Rounded n
round_large n h large =
    let size = bit_length 512 n in
    let (above, _) = bit_length-bounds 512 n h in
    let below = bit_length-low 512 n h (omega (arith, large)) in
    let long : 24 < size = pow_lt 24 size (omega (arith, large, above)) in
    let split = size_split size long in
    record {
      long = long;
      low =
          omega (
            arith,
            split,
            below,
            drop_bits-low n (size - 24) (2 ^ 23) (omega (arith, split, below)),
          );
      up = omega (arith, split, drop_bits-up n (size - 24) (2 ^ 24) (omega (arith, split, above)));
    }

double_le : (a b : ℕ) → a < b → 2 * 2 ^ a ≤ 2 ^ b
double_le a b h = omega (
  arith,
  pow_step 2 a,
  pow-le-pow_right {n = 2} (omega arith) {i = suc a} {j = b} (omega (arith, h)),
)

round24-small : (n : ℕ) → ltb n (2 ^ 24) ≡ true → round24 n ≡ n
unfolding round24
round24-small n small = rw small refl

round24-large : (n : ℕ) → ltb n (2 ^ 24) ≡ false → round24 n ≡ drop_bits n (bit_length 512 n - 24)
unfolding round24
round24-large n large = rw large refl

at_least : (n : ℕ) → ltb n (2 ^ 24) ≡ false → 2 ^ 24 ≤ n
at_least n large = ground (arith, large)

large_mono :
    (n m : ℕ)
    → m < 2 ^ 512
    → n ≤ m
    → 2 ^ 24 ≤ n
    → drop_bits n (bit_length 512 n - 24) ≤ drop_bits m (bit_length 512 m - 24)
large_mono n m h le large =
    let n' = round_large n (omega (arith, h, le)) large in
    let m' = round_large m h (omega (arith, large, le)) in
    elim (Bool-cases (ltb (bit_length 512 n) (bit_length 512 m))) [
      | inl less ↦
          omega (
            arith,
            n'.up,
            m'.low,
            double_le (bit_length 512 n) (bit_length 512 m) (ltb→lt _ _ less),
          )
      | inr other ↦
          let same : bit_length 512 n ≡ bit_length 512 m =
            ground (arith, other, bit_length_mono 512 n m h le) in
          rw same (drop_bits_mono n m (bit_length 512 m - 24) le)
    ]

-- Rounding to 24 significant bits keeps the order.
pub round24_mono : (n m : ℕ) → m < 2 ^ 512 → n ≤ m → round24 n ≤ round24 m
round24_mono n m h le = elim (Bool-cases (ltb m (2 ^ 24))) [
  | inl small ↦
      let small' : ltb n (2 ^ 24) ≡ true =
        lt→ltb n (2 ^ 24) (omega (arith, ltb→lt m (2 ^ 24) small, le)) in
      omega (arith, round24-small n small', round24-small m small, le)
  | inr large ↦ elim (Bool-cases (ltb n (2 ^ 24))) [
    | inl small' ↦
        let m' = round_large m h (at_least m large) in
        omega (
          arith,
          round24-small n small',
          round24-large m large,
          ltb→lt n (2 ^ 24) small',
          m'.low,
          double_le 24 (bit_length 512 m) m'.long,
        )
    | inr large' ↦ omega (
      arith,
      round24-large n large',
      round24-large m large,
      large_mono n m h le (at_least n large'),
    )
  ]
]
