-- ===== src/Text/Order.antt =====
-- The order of strings by their bytes.
use api_proxy.Prelude.{◌≡◌, refl, true, false, [], ◌∷◌, ◌==◌, Bool-cases, inl, inr, arith}
use api_proxy.Text.{Str, str_lt}

-- Not being smaller is transitive.
pub str_lt_weak_trans : (a b c : Str) → str_lt b a ≡ false → str_lt c b ≡ false → str_lt c a ≡ false
unfolding str_lt
str_lt_weak_trans [] b c h k = refl
str_lt_weak_trans (x ∷ a) [] c h k = cc
str_lt_weak_trans (x ∷ a) (y ∷ b) [] h k = cc
str_lt_weak_trans (x ∷ a) (y ∷ b) (z ∷ c) h k = elim (Bool-cases (y == x)) [
  | inl yx ↦ elim (Bool-cases (z == y)) [
    | inl zy ↦
        let tails = str_lt_weak_trans a b c (ground (arith, h, yx)) (ground (arith, k, zy)) in
        ground (arith, yx, zy, tails)
    | inr zy ↦ ground (arith, h, k, yx, zy)
  ]
  | inr yx ↦ elim (Bool-cases (z == y)) [
    | inl zy ↦ ground (arith, h, k, yx, zy)
    | inr zy ↦ ground (arith, h, k, yx, zy)
  ]
]

pub str_lt_irrefl : (a : Str) → str_lt a a ≡ false
unfolding str_lt
str_lt_irrefl [] = refl
str_lt_irrefl (x ∷ a) = let tail = str_lt_irrefl a in ground (arith, tail)

-- What is smaller is not greater.
pub str_lt_asym : (a b : Str) → str_lt a b ≡ true → str_lt b a ≡ false
unfolding str_lt
str_lt_asym [] [] h = refl
str_lt_asym [] (y ∷ b) h = refl
str_lt_asym (x ∷ a) [] h = cc
str_lt_asym (x ∷ a) (y ∷ b) h = elim (Bool-cases (x == y)) [
  | inl same ↦ let tail = str_lt_asym a b (ground (arith, h, same)) in ground (arith, same, tail)
  | inr other ↦ ground (arith, h, other)
]
