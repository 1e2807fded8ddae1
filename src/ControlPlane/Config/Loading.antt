-- ===== src/ControlPlane/Config/Loading.antt =====
-- What is loaded is valid, whatever the config service holds.
use api_proxy.Prelude.{
  ◌≡◌, refl, Bool, true, Option, none, some, List, [], ◌∷◌, Bool-cases, inl, inr, arith, ◌⊎◌,
}
use api_proxy.Text.{Str, str_eq}
use api_proxy.ControlPlane.Types.{Rules, SortedRules}
use api_proxy.ControlPlane.Rules
use api_proxy.ControlPlane.Rules.{rule_values}
use api_proxy.ControlPlane.Regions
use api_proxy.ControlPlane.Router.{Config}
use api_proxy.ControlPlane.Config.{
  Parsed, Fetched, empty, malformed, parsed, ControlPlane, Outcome, done, failed, panicked,
  loaded_config, config_of, store, check, try_load, Cycle, load_cycle, dying, loaded, crashed,
  waiting,
}

-- A configuration that was stored: it has a rule and a region, and its rules are those of some
-- configuration, as the sort left them.
pub record IsValid (c : Config) : Type 0 where
  pub has_rule : Rules.validate c.rules ≡ true
  pub has_region : Regions.validate c.regions ≡ true
  pub source : Rules
  pub sorted : Rules.sort source ≡ some c.rules

-- Nothing is loaded yet, or what is loaded is valid.
abbrev pub Holds : ControlPlane → Type 0
Holds cp = (cp.loaded ≡ none) ⊎ ((c : Config) × (cp.loaded ≡ some c) × IsValid c)

-- The control plane after a load, if there is one.
abbrev pub Keeps : Outcome → Type 0
Keeps (done cp) = Holds cp
Keeps (failed cp) = Holds cp
Keeps panicked = Unit

-- The control plane that a cycle leaves.
abbrev pub CycleKeeps : Cycle → Type 0
CycleKeeps (dying cp) = Holds cp
CycleKeeps (loaded cp) = Holds cp
CycleKeeps crashed = Unit
CycleKeeps (waiting cp) = Holds cp

module _ (hash : SortedRules → Parsed → Str) where
  store-Keeps :
      (saves : Bool) (raw : Str) (sorted : SortedRules) (p : Parsed) (cp : ControlPlane)
      → Rules.sort p.rules ≡ some sorted
      → Rules.validate sorted ≡ true
      → Regions.validate p.regions ≡ true
      → Holds cp
      → Keeps (store hash saves raw sorted p cp)
  unfolding store
  store-Keeps saves raw sorted p cp is has_rule has_region h =
      elim (Bool-cases (str_eq (hash sorted p) (loaded_config cp).config_hash)) [
        | inl same ↦ rw same h
        | inr new ↦ rw new (
            inr (
              config_of hash sorted p,
              refl,
              record {
                has_rule = has_rule;
                has_region = has_region;
                source = p.rules;
                sorted = is;
              },
            ))
      ]

  check-Keeps :
      (saves : Bool) (raw : Str) (o : Option SortedRules) (p : Parsed) (cp : ControlPlane)
      → Rules.sort p.rules ≡ o
      → Holds cp
      → Keeps (check hash saves raw o p cp)
  unfolding check
  check-Keeps saves raw none p cp is h = tt
  check-Keeps saves raw (some sorted) p cp is h = elim (Bool-cases (Rules.validate sorted)) [
    | inr no_rule ↦ rw no_rule h
    | inl has_rule ↦ elim (Bool-cases (Regions.validate p.regions)) [
      | inr no_region' ↦ rw has_rule (rw no_region' h)
      | inl has_region ↦
          rw has_rule (rw has_region (store-Keeps saves raw sorted p cp is has_rule has_region h))
    ]
  ]

  -- Whatever one load finds, the configuration that is loaded afterwards is valid if the one before
  -- it was: it has a rule and a region, and its rules are sorted.
  pub try_load-Keeps :
      (saves : Bool) (found : Fetched) (cp : ControlPlane)
      → Holds cp
      → Keeps (try_load hash saves found cp)
  unfolding try_load
  try_load-Keeps saves empty cp h = h
  try_load-Keeps saves malformed cp h = h
  try_load-Keeps saves (parsed raw p) cp h = check-Keeps saves raw (Rules.sort p.rules) p cp refl h

  failed-unchanged_check :
      (saves : Bool) (raw : Str) (o : Option SortedRules) (p : Parsed) (cp : ControlPlane)
      {cp' : ControlPlane}
      → check hash saves raw o p cp ≡ failed cp'
      → cp' ≡ cp
  unfolding check store
  failed-unchanged_check saves raw none p cp e = cc
  failed-unchanged_check saves raw (some sorted) p cp e = ground arith

  -- A load that reports an error changes neither what is loaded nor the file.
  pub try_load-failed :
      (saves : Bool) (found : Fetched) (cp : ControlPlane) {cp' : ControlPlane}
      → try_load hash saves found cp ≡ failed cp'
      → cp' ≡ cp
  unfolding try_load
  try_load-failed saves empty cp e = cc
  try_load-failed saves malformed cp e = cc
  try_load-failed saves (parsed raw p) cp e =
      failed-unchanged_check saves raw (Rules.sort p.rules) p cp e

  -- However many loads a cycle makes, and whatever each of them finds, what is loaded stays valid.
  pub load_cycle-Keeps :
      (rounds : List (Option (Bool × Fetched))) (cp : ControlPlane)
      → Holds cp
      → CycleKeeps (load_cycle hash rounds cp)
  unfolding load_cycle
  load_cycle-Keeps [] cp h = h
  load_cycle-Keeps (none ∷ rounds) cp h = h
  load_cycle-Keeps (some (saves, found) ∷ rounds) cp h =
      by_outcome (try_load hash saves found cp) (try_load-Keeps saves found cp h)
        (λ cp' k. load_cycle-Keeps rounds cp' k)
    where
      by_outcome :
          (o : Outcome)
          → Keeps o
          → ((cp' : ControlPlane) → Holds cp' → CycleKeeps (load_cycle hash rounds cp'))
          → CycleKeeps (elim o [
            | done cp' ↦ loaded cp'
            | failed cp' ↦ load_cycle hash rounds cp'
            | panicked ↦ crashed
          ])
      by_outcome (done cp') k later = k
      by_outcome (failed cp') k later = later cp' k
      by_outcome panicked k later = tt
