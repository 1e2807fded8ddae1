-- ===== src/Errors/Numbers.antt =====
-- The number that a client is given for an error.
use api_proxy.Prelude.{
  ◌≡◌, ◌≢◌, refl, true, false, some, List, [], ◌∷◌, Bool-cases, inl, inr, Option-cases,
}
use api_proxy.Prelude.Int.{ℤ, pos, int_eq, int_eq_iff}
use api_proxy.Text.{Str}
use api_proxy.Text.Decimal.{atoi}
use api_proxy.Errors.{ApiError, number_from_context, number_or_code, or_zero, error_body}

-- Where the number comes from: the first entry of the context, if that is a number other than 0,
-- else the code, if that is one, else it is 11.
pub data IsNumbered (context : List Str) (code : Str) (n : ℤ) : Type 0 where
  from_context :
      (s : Str) (rest : List Str)
      → context ≡ s ∷ rest
      → atoi s ≡ some n
      → n ≢ pos 0
      → IsNumbered context code n
  from_code : atoi code ≡ some n → n ≢ pos 0 → IsNumbered context code n
  by_default : or_zero (atoi code) ≡ pos 0 → n ≡ pos 11 → IsNumbered context code n

nonzero : (n : ℤ) → int_eq n (pos 0) ≡ false → n ≢ pos 0
nonzero n h e = let t = (int_eq_iff n (pos 0)).1 e in cc

coded :
    (context : List Str) (n : ℤ) (code : Str)
    → int_eq n (pos 0) ≡ true
    → IsNumbered context code (number_or_code n code)
unfolding number_or_code
coded context n code zero' = elim (Option-cases (atoi code)) [
  | inl none' ↦ rw zero' (rw none' (by_default (rw none' refl) refl))
  | inr (m, is) ↦ elim (Bool-cases (int_eq m (pos 0))) [
    | inl m_zero ↦
        rw zero' (rw is (rw m_zero (by_default (rw is ((int_eq_iff m (pos 0)).0 m_zero)) refl)))
    | inr m_other ↦ rw zero' (rw is (rw m_other (from_code is (nonzero m m_other))))
  ]
]

given :
    (s : Str) (rest : List Str) (n : ℤ) (code : Str)
    → atoi s ≡ some n
    → IsNumbered (s ∷ rest) code (number_or_code n code)
unfolding number_or_code
given s rest n code is = elim (Bool-cases (int_eq n (pos 0))) [
  | inl n_zero ↦ coded (s ∷ rest) n code n_zero
  | inr n_other ↦ rw n_other (rw n_other (from_context s rest refl is (nonzero n n_other)))
]

-- The number in the body of an error comes from its context, its code or the default in this order,
-- and it is never 0.
pub error_body-IsNumbered :
    (err : ApiError)
    → IsNumbered err.context err.code (error_body err).number × ((error_body err).number ≢ pos 0)
unfolding error_body number_from_context
error_body-IsNumbered err = (numbered err.context, never_zero _ (numbered err.context))
  where
    numbered :
        (context : List Str)
        → IsNumbered context err.code (number_or_code (number_from_context context).0 err.code)
    numbered [] = coded [] (pos 0) err.code refl
    numbered (s ∷ rest) = elim (Option-cases (atoi s)) [
      | inl none' ↦ rw (none', number_from_context) (coded (s ∷ rest) (pos 0) err.code refl)
      | inr (n, is) ↦ rw (is, number_from_context) (given s rest n err.code is)
    ]

    never_zero : (n : ℤ) → IsNumbered err.context err.code n → n ≢ pos 0
    never_zero n (from_context s rest is number other) = other
    never_zero n (from_code number other) = other
    never_zero n (by_default none' is) = λ e. cc
