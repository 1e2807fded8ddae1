-- ===== src/ControlPlane/Rules/Sampling.antt =====
-- Which values a proportion samples.
use api_proxy.Prelude.{
  ℕ, ◌*◌, ◌%◌, ◌^◌, ◌≤◌, ◌<◌, ◌≡◌, refl, true, false, [], ◌∷◌, inl, inr, arith, ◌⊎◌, ◌↔◌,
}
use api_proxy.Prelude.Int.{pos, negsuc, int_lt}
use api_proxy.Text.{Str}
use api_proxy.ControlPlane.Types.{Float32}
use api_proxy.ControlPlane.Float.{millionths, is_positive, one, millionths-one}
use api_proxy.ControlPlane.Float.Rounding.{round24_mono}
use api_proxy.ControlPlane.Hash.{fnv64}
use api_proxy.ControlPlane.Rules.{hash_sample}

-- A finite float32 is less than 2^128.
abbrev pub IsFinite : Float32 → Type 0
IsFinite (pos n) = n < 2 ^ 277
IsFinite (negsuc n) = Unit

-- `p ≤ q`.
abbrev pub AtMost : Float32 → Float32 → Type 0
AtMost p q = int_lt q p ≡ false

millionths_mono : (n m : ℕ) → m < 2 ^ 277 → n ≤ m → millionths (pos n) ≤ millionths (pos m)
unfolding millionths
millionths_mono n m h le =
    omega (arith, round24_mono (n * 1000000) (m * 1000000) (omega (arith, h)) (omega (arith, le)))

-- The share of a million that a proportion stands for.
abbrev pub Reaches : ℕ → Float32 → Type 0
Reaches bucket p = (is_positive p ≡ true) × (bucket ≤ millionths p)

Reaches-mono :
    (bucket : ℕ) (p q : Float32) → IsFinite q → AtMost p q → Reaches bucket p → Reaches bucket q
Reaches-mono bucket (pos n) (pos m) finite le (positive, in_share) = (
  ground (arith, le, positive),
  omega (arith, in_share, millionths_mono n m finite (ground (arith, le))),
)
Reaches-mono bucket (negsuc n) q finite le (positive, in_share) = cc
Reaches-mono bucket (pos n) (negsuc m) finite le (positive, in_share) = cc

-- A value is sampled if and only if it is blank, or the proportion is positive and the value's hash
-- falls in the share that it stands for.
pub hash_sample_iff :
    (v : Str) (p : Float32) → (hash_sample v p ≡ true) ↔ ((v ≡ []) ⊎ Reaches (fnv64 v % 1000000) p)
unfolding hash_sample
hash_sample_iff [] p = (λ h. inl refl, λ h. refl)
hash_sample_iff (c ∷ s) p = (
  λ h. inr (ground (arith, h)),
  λ h. elim h [ inl e ↦ cc | inr (positive, in_share) ↦ rw positive (ground (arith, in_share)) ],
)

-- The proportion 1 samples every value.
pub hash_sample-one : (v : Str) → hash_sample v one ≡ true
hash_sample-one v = (hash_sample_iff v one).1 (inr (refl, omega (arith, millionths-one)))

-- A finite proportion that is not smaller than another samples every value that the other does,
-- although its product with a million is rounded.
pub hash_sample_mono :
    (v : Str) (p q : Float32)
    → IsFinite q
    → AtMost p q
    → hash_sample v p ≡ true
    → hash_sample v q ≡ true
hash_sample_mono v p q finite le h = (hash_sample_iff v q).1 (elim ((hash_sample_iff v p).0 h) [
  | inl blank ↦ inl blank
  | inr share ↦ inr (Reaches-mono (fnv64 v % 1000000) p q finite le share)
])
