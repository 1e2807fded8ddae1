-- ===== src/HealthCheck/Tests.antt =====
-- An endpoint that serves one request in a second, and the theorems at it.
use api_proxy.Prelude.{ℕ, ◌/◌, ◌≡◌, refl, Option, none, some, [], ◌∷◌, arith, subst, ◌<◌}
use mathlib.Core.Option.{some-injective}
use api_proxy.Text.{Str, bytes, str_eq}
use api_proxy.Text.Maps.{Map, lookup}
use api_proxy.ControlPlane.Float.{
  unit32, times32, add32, div32, round24, bit_length, drop_bits, rounds_up, long_quotient,
}
use api_proxy.Stats.{
  Endpoint, Counters, StatsManager, new_endpoint, counters_of, rate1_total, get_metric,
}
use api_proxy.Stats.Bounds.{AreFloats}
use api_proxy.HealthCheck.{
  total_key, hundred, shown, drop_exceeds, drop_off_check, error_rate_check,
}
use api_proxy.HealthCheck.Rates.{
  drop_off_check-passes, drop_off_check-risen, error_rate_check-passes,
}

abbrev sample : Counters
sample = record { success = some unit32; error = none }

abbrev platform : Endpoint → Option Counters
platform epp = some sample

abbrev rpc : Str
rpc = bytes "/rpc"

abbrev registered : StatsManager
registered = record { endpoints = (rpc, new_endpoint rpc) ∷ []; metrics = [] }

-- The check has run before at half the rate.
abbrev seen : StatsManager
seen = record registered { metrics = (total_key rpc, unit32 / 2) ∷ [] }

total_one : (m : Map ℕ) → rate1_total platform rpc (record registered { metrics = m }) ≡ unit32
unfolding rate1_total counters_of bytes str_eq lookup add32 round24 bit_length drop_bits rounds_up
total_one m = refl

shown_one : 0 < shown unit32
unfolding div32 bit_length drop_bits rounds_up long_quotient
shown_one = omega arith

kept : get_metric (total_key rpc) seen ≡ unit32 / 2
unfolding get_metric bytes str_eq lookup
kept = refl

not_kept : get_metric (total_key rpc) registered ≡ 0
unfolding get_metric bytes str_eq lookup
not_kept = refl

drop_off_check-passes_example :
    ((drop_off_check platform rpc (unit32 / 2) seen).2 ≡ none)
    × (get_metric (total_key rpc) (drop_off_check platform rpc (unit32 / 2) seen).0
        ≡ rate1_total platform rpc seen)
drop_off_check-passes_example =
    drop_off_check-passes platform rpc (unit32 / 2) seen (rw kept (omega arith))
      (rw (kept, total_one seen.metrics) (omega arith)) (rw (total_one seen.metrics) (omega arith))
      (rw (total_one seen.metrics) shown_one)

drop_off_check-risen_example :
    (drop_off_check platform rpc (unit32 / 2) registered).2
    ≡ some (drop_exceeds hundred (times32 (unit32 / 2) 100))
drop_off_check-risen_example =
    drop_off_check-risen platform rpc (unit32 / 2) registered not_kept (omega arith)
      (rw (total_one []) shown_one)

sample-AreFloats : (epp : Endpoint) (c : Counters) → platform epp ≡ some c → AreFloats c
unfolding round24 bit_length drop_bits rounds_up
sample-AreFloats epp c e =
    subst AreFloats (some-injective sample c e) ((omega arith, refl), (omega arith, refl))

error_rate_check-passes_example : (error_rate_check platform rpc unit32 registered).1 ≡ none
error_rate_check-passes_example =
    error_rate_check-passes platform rpc unit32 registered sample-AreFloats (omega arith)
