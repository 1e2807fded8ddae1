-- ===== src/Stats/Bounds.antt =====
-- The bounds of the rates.
use api_proxy.Prelude.{
  ℕ, ◌==◌, ◌≤◌, ◌<◌, ◌^◌, Bool-cases, inl, inr, arith, Option, none, some, Option-cases, ◌≡◌,
}
use api_proxy.Text.{Str}
use api_proxy.Text.Maps.{lookup}
use api_proxy.ControlPlane.Float.{unit32, add32}
use api_proxy.ControlPlane.Float.Quotient.{IsFloat32, add32-low, div32-up}
use api_proxy.Stats.{Endpoint, Counters, StatsManager, share, rate_of, counters_of, rate1}

share-up : (a b : ℕ) → IsFloat32 a → b < 2 ^ 277 → share a b ≤ unit32
share-up a b float finite = elim (Bool-cases (a == 0)) [
  | inl none' ↦ rw none' (omega arith)
  | inr some' ↦
      let low = add32-low b a float finite in
      rw some' (div32-up a (add32 b a) (ground (arith, some', low)) low)
]

-- The rates that the platform gives are float32s.
abbrev pub AreFloats : Counters → Type 0
AreFloats c = IsFloat32 (rate_of c.success) × IsFloat32 (rate_of c.error)

counters-AreFloats :
    (get_endpoint : Endpoint → Option Counters) (ep : Str) (s : StatsManager)
    → ((epp : Endpoint) (c : Counters) → get_endpoint epp ≡ some c → AreFloats c)
    → (c : Counters) → counters_of get_endpoint ep s ≡ some c
    → AreFloats c
unfolding counters_of
counters-AreFloats get_endpoint ep s floats c = known (lookup ep s.endpoints)
  where
    known :
        (found : Option Endpoint)
        → elim found [ none ↦ none | some epp ↦ get_endpoint epp ] ≡ some c
        → AreFloats c
    known none e = cc
    known (some epp) e = floats epp c e

-- If the platform gives finite float32s that are not negative, the share of the successes and that
-- of the errors of an endpoint are both at most 1, although their sum and the quotients are rounded.
pub rate1-up :
    (get_endpoint : Endpoint → Option Counters) (ep : Str) (s : StatsManager)
    → ((epp : Endpoint) (c : Counters) → get_endpoint epp ≡ some c → AreFloats c)
    → ((rate1 get_endpoint ep s).0 ≤ unit32) × ((rate1 get_endpoint ep s).1 ≤ unit32)
unfolding rate1
rate1-up get_endpoint ep s floats = elim (Option-cases (counters_of get_endpoint ep s)) [
  | inl none' ↦ rw (none', rate1) (omega arith, omega arith)
  | inr (c, e) ↦
      let (float, float') = counters-AreFloats get_endpoint ep s floats c e in
      rw (e, rate1)
        (
          share-up (rate_of c.success) (rate_of c.error) float float'.0,
          share-up (rate_of c.error) (rate_of c.success) float' float.0,
        )
]
