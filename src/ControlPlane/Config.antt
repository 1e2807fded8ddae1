-- ===== src/ControlPlane/Config.antt =====
-- Loading the configuration (controlplane/controlplane.go). What the config service holds, already
-- decoded from JSON, is an input, and the hash of the package deephash is a parameter.
pub mod Loading
pub mod Ending
pub mod StartUp
mod Tests
use api_proxy.Prelude.{Bool, true, false, not, Option, none, some, List, [], ◌∷◌, if◌then◌else◌}
use api_proxy.Prelude.Int.{ℤ}
use api_proxy.Text.{Str, str_eq}
use api_proxy.ControlPlane.Types.{Rules, SortedRules, Regions, HobRegions, HobModes, Region}
use api_proxy.ControlPlane.Rules
use api_proxy.ControlPlane.Regions
use api_proxy.ControlPlane.Router.{Config, no_config}

-- `parsedControlPlane`, with the version cut to an integer.
pub record Parsed : Type 0 where
  pub rules : Rules
  pub regions : Regions
  pub hob_regions : HobRegions
  pub hob_modes : HobModes
  pub config_version : ℤ

-- What one load finds: nothing, text that is no configuration, or the raw text with its content.
pub data Fetched : Type 0 where
  empty : Fetched
  malformed : Fetched
  parsed : Str → Parsed → Fetched

-- The pointer to the loaded configuration, and the file of the last good one.
pub record ControlPlane : Type 0 where
  pub loaded : Option Config
  pub file : Option Str

-- How one load ends: without an error, whether or not anything changed, with an error, or with a
-- panic of the sort.
pub data Outcome : Type 0 where
  done : ControlPlane → Outcome
  failed : ControlPlane → Outcome
  panicked : Outcome

-- `loadedConfig`.
unfoldable pub loaded_config : ControlPlane → Config
loaded_config cp = elim cp.loaded [ none ↦ no_config | some c ↦ c ]

-- `Regions`: the regions that are not null.
known_regions : Regions → Regions
known_regions [] = []
known_regions ((k, none) ∷ rs) = known_regions rs
known_regions ((k, some r) ∷ rs) = (k, some r) ∷ known_regions rs

unfoldable pub regions : ControlPlane → Regions
unfolding known_regions
regions cp = known_regions (loaded_config cp).regions

-- Whether the write of the file succeeds is up to the file system.
save_config_to_file : Bool → Str → Option Str → Option Str
save_config_to_file true raw file = some raw
save_config_to_file false raw file = file

-- How a load cycle ends: killed, after a load without an error, in a panic, or not yet.
pub data Cycle : Type 0 where
  dying : ControlPlane → Cycle
  loaded : ControlPlane → Cycle
  crashed : Cycle
  waiting : ControlPlane → Cycle

module _ (hash : SortedRules → Parsed → Str) where
  abbrev pub config_of : SortedRules → Parsed → Config
  config_of sorted p = record {
    rules = sorted;
    regions = p.regions;
    hob_regions = p.hob_regions;
    hob_modes = p.hob_modes;
    region_version = p.config_version;
    config_hash = hash sorted p;
  }

  -- The part of `tryLoad` behind the checks.
  store : Bool → Str → SortedRules → Parsed → ControlPlane → Outcome
  unfolding save_config_to_file
  store saves raw sorted p cp =
      if str_eq (hash sorted p) (loaded_config cp).config_hash
      then done cp
      else done (record {
        loaded = some (config_of sorted p);
        file = save_config_to_file saves raw cp.file;
      })

  check : Bool → Str → Option SortedRules → Parsed → ControlPlane → Outcome
  unfolding store
  check saves raw none p cp = panicked
  check saves raw (some sorted) p cp =
      if not (Rules.validate sorted)
      then failed cp
      else if not (Regions.validate p.regions)
      then failed cp
      else store saves raw sorted p cp

  -- `tryLoad`. `saves` tells whether the file can be written.
  unfoldable pub try_load : Bool → Fetched → ControlPlane → Outcome
  unfolding check
  try_load saves empty cp = failed cp
  try_load saves malformed cp = failed cp
  try_load saves (parsed raw p) cp = check saves raw (Rules.sort p.rules) p cp

  -- `loadCycle`, over what each round finds: `none` where the control plane is dying.
  unfoldable pub load_cycle : List (Option (Bool × Fetched)) → ControlPlane → Cycle
  load_cycle [] cp = waiting cp
  load_cycle (none ∷ rounds) cp = dying cp
  load_cycle (some (saves, found) ∷ rounds) cp = elim (try_load saves found cp) [
    | done cp' ↦ loaded cp'
    | failed cp' ↦ load_cycle rounds cp'
    | panicked ↦ crashed
  ]
