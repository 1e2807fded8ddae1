-- ===== src/Text/Laws.antt =====
-- Laws of the string functions.
use api_proxy.Prelude.{◌≡◌, refl, ◌↔◌, true, false, [], ◌∷◌, arith, subst}
use api_proxy.Text.{Str, str_eq}

pub str_eq_refl : (s : Str) → str_eq s s ≡ true
unfolding str_eq
str_eq_refl [] = refl
str_eq_refl (c ∷ s) = ground (arith, str_eq_refl s)

eq_of_str_eq : (s t : Str) → str_eq s t ≡ true → s ≡ t
unfolding str_eq
eq_of_str_eq [] [] h = refl
eq_of_str_eq [] (_ ∷ _) h = cc
eq_of_str_eq (_ ∷ _) [] h = cc
eq_of_str_eq (a ∷ s) (b ∷ t) h = ground (arith, eq_of_str_eq s t)

pub str_eq_iff : (s t : Str) → (str_eq s t ≡ true) ↔ (s ≡ t)
str_eq_iff s t = (eq_of_str_eq s t, λ e. subst (λ u. str_eq s u ≡ true) e (str_eq_refl s))

pub str_eq_sym_false : (s t : Str) → str_eq s t ≡ false → str_eq t s ≡ false
str_eq_sym_false s t h = ground (arith, str_eq_iff s t, str_eq_iff t s)
