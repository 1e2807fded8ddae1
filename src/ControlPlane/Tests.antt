-- ===== src/ControlPlane/Tests.antt =====
-- Runs of the control plane, and its theorems at concrete requests.
use api_proxy.Prelude.{◌≡◌, ◌^◌, arith, refl, List, [], ◌∷◌, true, some, none, map, ◌⊎◌}
use mathlib.Core.List.{Perm}
use api_proxy.Prelude.Int.{pos}
use api_proxy.Text.{Str, bytes}
use api_proxy.Http.Request.{Request}
use api_proxy.Http.Writer.{new_writer}
use api_proxy.Session.{token_first}
use api_proxy.ControlPlane.Types.{Rule, send_to_h2, Region, Float32}
use api_proxy.ControlPlane.Float.{one}
use api_proxy.ControlPlane.Rules.Sampling.{hash_sample_mono}
use api_proxy.ControlPlane.Run.{run_control_plane}
use api_proxy.ControlPlane.Samples.{
  ping_rule, city_rule, rules, sorted, config, london, unread, no_roll, west,
}
use api_proxy.ControlPlane.Extractor.{hob}
use api_proxy.ControlPlane.Extractor.View.{observe, hob-observe}
use api_proxy.ControlPlane.Rules.{sort, hash_sample}
use api_proxy.ControlPlane.Rules.Sorting.{IsSorted, sort-IsSorted}
use api_proxy.ControlPlane.Regions.{find_mode}
use api_proxy.ControlPlane.Router.{
  Config, serve_from, region_at, route, region_for, get_hob_mode, correct_hostname, forced, pinned,
}
use api_proxy.ControlPlane.Router.Choice.{select, NoneFits, IsBest, route-select, route-IsBest}
use api_proxy.ControlPlane.Router.Failover.{Serves, region_for-Serves}
use api_proxy.ControlPlane.Router.Fallback.{IsIn, IsLeast, ids, region_for-IsLeast}
use api_proxy.ControlPlane.Router.Answers.{
  pinning_for, correct_hostname-observe, forced_in_other_case,
}

hob_test : (hob token_first (unread london)).1 ≡ bytes "LON"
unfolding run_control_plane
hob_test = refl

route_test : (route token_first no_roll config (unread london)).1 ≡ some ping_rule
unfolding run_control_plane
route_test = refl

sort_test : sort rules ≡ some (some ping_rule ∷ some city_rule ∷ [])
unfolding run_control_plane
sort_test = refl

hostname_test :
    (correct_hostname token_first config new_writer (unread london)).1
    ≡ pinned true (some ((bytes "api", bytes "api-driver-london.elasticride.com") ∷ [])) (pos 7)
unfolding run_control_plane
hostname_test = refl

mode_test : (get_hob_mode token_first config (unread london)).1 ≡ bytes "h1"
unfolding run_control_plane
mode_test = refl

hob-observe_example :
    ((hob token_first (unread london)).1 ≡ (observe token_first (unread london)).hob)
    × (observe token_first (hob token_first (unread london)).0
        ≡ observe token_first (unread london))
hob-observe_example = hob-observe token_first (unread london)

sort-IsSorted_example :
    (out : List Rule) × (sort rules ≡ some (map some out))
    × IsSorted out
    × Perm out (city_rule ∷ ping_rule ∷ [])
unfolding run_control_plane
sort-IsSorted_example = sort-IsSorted rules (city_rule ∷ ping_rule ∷ []) refl

route-select_example :
    ((route token_first no_roll config (unread london)).1
      ≡ select no_roll 0 config.rules (observe token_first (unread london)))
    × (observe token_first (route token_first no_roll config (unread london)).0
        ≡ observe token_first (unread london))
unfolding run_control_plane
route-select_example = route-select token_first no_roll config (unread london) refl

sorted-IsSorted : IsSorted sorted
unfolding run_control_plane
sorted-IsSorted = ((refl, tt), (tt, tt))

route-IsBest_example :
    (((route token_first no_roll config (unread london)).1 ≡ none)
      × NoneFits no_roll 0 sorted (observe token_first (unread london)))
    ⊎ ((r : Rule) × ((route token_first no_roll config (unread london)).1 ≡ some r)
        × IsBest no_roll 0 sorted (observe token_first (unread london)) r)
unfolding run_control_plane
route-IsBest_example =
    route-IsBest token_first no_roll config (unread london) sorted refl sorted-IsSorted refl

region_for-Serves_example :
    (r : Region) × (region_for config (bytes "LON") ≡ some r) × Serves config.regions west r
unfolding run_control_plane
region_for-Serves_example = region_for-Serves config (bytes "LON") west refl

correct_hostname-observe_example :
    ((correct_hostname token_first config new_writer (unread london)).1
      ≡ pinning_for config new_writer (observe token_first (unread london)))
    × (observe token_first (correct_hostname token_first config new_writer (unread london)).0
        ≡ observe token_first (unread london))
correct_hostname-observe_example =
    correct_hostname-observe token_first config new_writer (unread london)

abbrev forcing : Request
forcing = record london { header = (bytes "X-Hailo-Route", bytes "h2" ∷ []) ∷ [] }

forced_in_other_case_example :
    (route token_first no_roll config (unread forcing) ≡ (unread forcing, some (forced send_to_h2)))
    × ((get_hob_mode token_first config (unread forcing)).1
        ≡ find_mode config.hob_modes (observe token_first (unread forcing)).hob)
unfolding run_control_plane
forced_in_other_case_example =
    forced_in_other_case token_first no_roll config config (unread forcing) refl (λ e. cc) (λ e. cc)

-- A configuration that assigns no city to a region.
abbrev unassigned : Config
unassigned = record config { hob_regions = [] }

region_for-IsLeast_example :
    (k : Str) × IsIn k (ids unassigned.regions)
    × IsLeast k (ids unassigned.regions)
    × (region_for unassigned (bytes "LON")
        ≡ serve_from unassigned.regions (region_at unassigned.regions k))
unfolding run_control_plane
region_for-IsLeast_example = region_for-IsLeast unassigned (bytes "LON") refl (λ e. cc)

-- Half of the customers, and all of them.
abbrev half : Float32
half = pos (2 ^ 148)

hash_sample_mono_example : hash_sample (bytes "a") one ≡ true
unfolding run_control_plane
hash_sample_mono_example = hash_sample_mono (bytes "a") half one (omega arith) refl refl
