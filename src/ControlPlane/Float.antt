-- ===== src/ControlPlane/Float.antt =====
-- The float32 arithmetic of sampling and of the rates of requests: comparisons, and sums, products
-- and quotients rounded to 24 significant bits, ties to even. Values are counted in units of 2^-149, which every finite
-- float32 is a multiple of.
pub mod Lengths
pub mod Rounding
pub mod Quotient
use api_proxy.Prelude.{
  ℕ, zero, suc, ◌+◌, ◌-◌, ◌*◌, ◌/◌, ◌%◌, ◌^◌, Bool, ltb, ◌==◌, ◌||◌, ◌&&◌, if◌then◌else◌, ◌≡◌, refl,
}
use api_proxy.Prelude.Int.{pos, negsuc, int_lt}
use api_proxy.ControlPlane.Types.{Float32}

-- The number of binary digits; 512 rounds serve every product of a float32 with a million.
unfoldable pub bit_length : ℕ → ℕ → ℕ
bit_length zero n = 0
bit_length (suc fuel) n = let longer = suc (bit_length fuel (n / 2)) in if n == 0 then 0 else longer

-- Whether dropping `low` of `unit`, behind the number `high`, rounds up.
unfoldable pub rounds_up : ℕ → ℕ → ℕ → Bool
rounds_up high low unit = ltb unit (2 * low) || (2 * low == unit && high % 2 == 1)

unfoldable pub drop_bits : ℕ → ℕ → ℕ
unfolding rounds_up
drop_bits n s = (n / 2 ^ s + (if rounds_up (n / 2 ^ s) (n % 2 ^ s) (2 ^ s) then 1 else 0)) * 2 ^ s

unfoldable pub round24 : ℕ → ℕ
unfolding bit_length drop_bits
round24 n = if ltb n (2 ^ 24) then n else drop_bits n (bit_length 512 n - 24)

-- `uint64(prop * 1000000)` of a number that is not negative. Above 2^64, where Go leaves the
-- conversion open, it is the exact value.
unfoldable pub millionths : Float32 → ℕ
unfolding round24
millionths (pos n) = round24 (n * 1000000) / 2 ^ 149
millionths (negsuc n) = 0

-- `a + b` of numbers that are not negative. A sum of 2^277 or more stands for infinity.
unfoldable pub add32 : ℕ → ℕ → ℕ
unfolding round24
add32 a b = round24 (a + b)

-- `a * n` of a number that is not negative and a whole number.
unfoldable pub times32 : ℕ → ℕ → ℕ
unfolding round24
times32 a n = round24 (a * n)

-- `a - b` where b is not the larger.
unfoldable pub minus32 : ℕ → ℕ → ℕ
unfolding round24
minus32 a b = round24 (a - b)

-- The quotient with 26 bits behind the unit, the last of which tells that others follow.
unfoldable pub long_quotient : ℕ → ℕ → ℕ
long_quotient a b = 2 * (a * 2 ^ 174 / b) + (if a * 2 ^ 174 % b == 0 then 0 else 1)

-- `a / b` of a finite number that is not negative and one that is positive: all but 24 bits of the
-- quotient are dropped, and at least those behind the unit.
unfoldable pub div32 : ℕ → ℕ → ℕ
unfolding bit_length drop_bits long_quotient
div32 a b =
    let n = long_quotient a b in
    let excess = bit_length 512 n - 24 in
    if ltb b (2 ^ 277) then drop_bits n (if ltb excess 26 then 26 else excess) / 2 ^ 26 else 0

abbrev pub unit32 : ℕ
unit32 = 2 ^ 149

-- `prop <= 0.0`.
abbrev pub is_positive : Float32 → Bool
is_positive p = int_lt (pos 0) p

abbrev pub one : Float32
one = pos unit32

pub millionths-one : millionths one ≡ 1000000
unfolding millionths
millionths-one = refl
