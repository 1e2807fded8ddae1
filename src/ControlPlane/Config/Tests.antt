-- ===== src/ControlPlane/Config/Tests.antt =====
-- Loads of a configuration, and the theorems about them at concrete loads.
use api_proxy.Prelude.{◌≡◌, ◌≢◌, refl, true, none, some, [], ◌∷◌}
use api_proxy.Prelude.Int.{pos}
use api_proxy.Text.{Str, bytes}
use api_proxy.ControlPlane.Run.{run_control_plane}
use api_proxy.ControlPlane.Types.{SortedRules}
use api_proxy.ControlPlane.Samples.{rules, config}
use api_proxy.ControlPlane.Config.{
  Parsed, empty, parsed, ControlPlane, done, try_load, loaded_config, load_cycle, check, store,
  save_config_to_file, loaded,
}
use api_proxy.ControlPlane.Config.Ending.{IsGood, load_cycle_ends}
use api_proxy.ControlPlane.Config.StartUp.{new_control_plane}
use api_proxy.ControlPlane.Config.StartUp.Ready.{AfterCycle, IsReady, new_control_plane-IsReady}

abbrev unloaded : ControlPlane
unloaded = record { loaded = none; file = none }

abbrev good : Parsed
good = record {
  rules = rules;
  regions = config.regions;
  hob_regions = config.hob_regions;
  hob_modes = config.hob_modes;
  config_version = pos 7;
}

abbrev no_rules : Parsed
no_rules = record good { rules = [] }

abbrev hash : SortedRules → Parsed → Str
hash rs p = bytes "x"

loaded_test :
    try_load hash true (parsed (bytes "{}") good) unloaded
    ≡ done (record { loaded = some config; file = some (bytes "{}") })
unfolding run_control_plane try_load check store save_config_to_file loaded_config
loaded_test = refl

good-IsGood : IsGood good
unfolding run_control_plane
good-IsGood = record { sorted = config.rules; sorts = refl; has_rule = refl; has_region = refl }

hash_not_blank : hash config.rules good ≢ []
unfolding bytes
hash_not_blank = λ e. cc

load_cycle_ends_example :
    (cp : ControlPlane) × (load_cycle hash
        (some (true, empty) ∷ some (true, parsed (bytes "{}") good) ∷ none ∷ [])
        unloaded
      ≡ loaded cp)
load_cycle_ends_example =
    load_cycle_ends hash ((true, empty) ∷ []) true (bytes "{}") good (none ∷ []) unloaded (tt, tt)
      good-IsGood

new_control_plane-IsReady_example : AfterCycle IsReady (
    new_control_plane hash none true
      (parsed (bytes "{}") good)
      ((some (true, empty) ∷ none ∷ []) ∷ []))
new_control_plane-IsReady_example =
    new_control_plane-IsReady hash none true (bytes "{}") good good-IsGood
      ((some (true, empty) ∷ none ∷ []) ∷ []) hash_not_blank
