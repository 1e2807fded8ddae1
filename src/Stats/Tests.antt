-- ===== src/Stats/Tests.antt =====
-- An endpoint with three successes and one error in a second, and the theorem at it.
use api_proxy.Prelude.{
  ◌*◌, ◌/◌, ◌≡◌, ◌≤◌, refl, Option, none, some, [], ◌∷◌, arith, true, false, subst,
}
use mathlib.Core.Option.{some-injective}
use api_proxy.Text.{Str, bytes, str_eq}
use api_proxy.Text.Maps.{lookup, insert}
use api_proxy.ControlPlane.Float.{
  unit32, add32, div32, round24, bit_length, drop_bits, rounds_up, long_quotient,
}
use api_proxy.Stats.{
  Endpoint, Counters, StatsManager, new_stats_manager, new_endpoint, register, record_request,
  counters_of, rate1, rate1_total,
}
use api_proxy.Stats.Bounds.{AreFloats, rate1-up}

abbrev sample : Counters
sample = record { success = some (3 * unit32); error = some unit32 }

abbrev platform : Endpoint → Option Counters
platform epp = some sample

abbrev rpc : Str
rpc = bytes "/rpc"

abbrev registered : StatsManager
registered = record { endpoints = (rpc, new_endpoint rpc) ∷ []; metrics = [] }

register_once : register rpc new_stats_manager ≡ (registered, some (new_endpoint rpc))
unfolding register insert bytes str_eq lookup
register_once = refl

register_twice : register rpc registered ≡ (registered, none)
unfolding register bytes str_eq lookup
register_twice = refl

recorded : record_request rpc true 7 registered ≡ some (new_endpoint rpc, false, 7)
unfolding bytes str_eq lookup
recorded = refl

three_quarters : rate1 platform rpc registered ≡ (3 * (unit32 / 4), unit32 / 4)
unfolding rate1 counters_of bytes str_eq lookup div32 add32 round24 bit_length drop_bits rounds_up
    long_quotient
three_quarters = refl

four_in_all : rate1_total platform rpc registered ≡ 4 * unit32
unfolding rate1_total counters_of bytes str_eq lookup add32 round24 bit_length drop_bits rounds_up
four_in_all = refl

sample-AreFloats : AreFloats sample
unfolding round24 bit_length drop_bits rounds_up
sample-AreFloats = ((omega arith, refl), (omega arith, refl))

platform-AreFloats : (epp : Endpoint) (c : Counters) → platform epp ≡ some c → AreFloats c
platform-AreFloats epp c e = subst AreFloats (some-injective sample c e) sample-AreFloats

rate1-up_example :
    ((rate1 platform rpc registered).0 ≤ unit32) × ((rate1 platform rpc registered).1 ≤ unit32)
rate1-up_example = rate1-up platform rpc registered platform-AreFloats
