-- ===== src/ControlPlane/Config/Ending.antt =====
-- The load cycle ends.
use api_proxy.Prelude.{
  ◌≡◌, ◌≢◌, refl, Bool, true, Option, none, some, List, [], ◌∷◌, ◌++◌, map, All, Bool-cases, inl,
  inr, sym, subst,
}
use api_proxy.Text.{Str, str_eq}
use api_proxy.ControlPlane.Types.{SortedRules}
use api_proxy.ControlPlane.Rules
use api_proxy.ControlPlane.Regions
use api_proxy.ControlPlane.Config.{
  Parsed, Fetched, empty, malformed, parsed, ControlPlane, Outcome, done, failed, panicked,
  loaded_config, store, check, try_load, Cycle, load_cycle, loaded, crashed,
}

-- A configuration that is accepted: it sorts, and has a rule and a region.
pub record IsGood (p : Parsed) : Type 0 where
  pub sorted : SortedRules
  pub sorts : Rules.sort p.rules ≡ some sorted
  pub has_rule : Rules.validate sorted ≡ true
  pub has_region : Regions.validate p.regions ≡ true

-- What one round finds does not make the sort panic.
abbrev pub Sorts : Bool × Fetched → Type 0
Sorts (saves, empty) = Unit
Sorts (saves, malformed) = Unit
Sorts (saves, parsed raw p) = Rules.sort p.rules ≢ none

module _ (hash : SortedRules → Parsed → Str) where
  -- A load that neither panics nor is refused.
  data Done : Outcome → Type 0 where
    is_done : (cp : ControlPlane) → Done (done cp)

  store-Done :
      (saves : Bool) (raw : Str) (sorted : SortedRules) (p : Parsed) (cp : ControlPlane)
      → Done (store hash saves raw sorted p cp)
  unfolding store
  store-Done saves raw sorted p cp =
      elim (Bool-cases (str_eq (hash sorted p) (loaded_config cp).config_hash)) [
        | inl same ↦ rw same (is_done cp)
        | inr new ↦ rw new (is_done _)
      ]

  good-Done :
      (saves : Bool) (raw : Str) (p : Parsed) (cp : ControlPlane)
      → IsGood p
      → Done (try_load hash saves (parsed raw p) cp)
  unfolding try_load check
  good-Done saves raw p cp g =
      subst (λ o. Done (check hash saves raw o p cp)) (sym g.sorts)
        (rw g.has_rule (rw g.has_region (store-Done saves raw g.sorted p cp)))

  -- A load that does not panic.
  data Ends : Outcome → Type 0 where
    well : (cp : ControlPlane) → Ends (done cp)
    badly : (cp : ControlPlane) → Ends (failed cp)

  check-Ends :
      (saves : Bool) (raw : Str) (o : Option SortedRules) (p : Parsed) (cp : ControlPlane)
      → o ≢ none
      → Ends (check hash saves raw o p cp)
  unfolding check store
  check-Ends saves raw none p cp h = absurd (h refl)
  check-Ends saves raw (some sorted) p cp h = elim (Bool-cases (Rules.validate sorted)) [
    | inr no_rule ↦ rw no_rule (badly cp)
    | inl has_rule ↦ elim (Bool-cases (Regions.validate p.regions)) [
      | inr no_region' ↦ rw has_rule (rw no_region' (badly cp))
      | inl has_region ↦ elim (Bool-cases (str_eq (hash sorted p) (loaded_config cp).config_hash)) [
        | inl same ↦ rw has_rule (rw has_region (rw same (well cp)))
        | inr new ↦ rw has_rule (rw has_region (rw new (well _)))
      ]
    ]
  ]

  try_load-Ends :
      (round : Bool × Fetched) (cp : ControlPlane)
      → Sorts round
      → Ends (try_load hash round.0 round.1 cp)
  unfolding try_load
  try_load-Ends (saves, empty) cp h = badly cp
  try_load-Ends (saves, malformed) cp h = badly cp
  try_load-Ends (saves, parsed raw p) cp h = check-Ends saves raw (Rules.sort p.rules) p cp h

  -- The cycle ended with a load.
  data Loads : Cycle → Type 0 where
    loads : (cp : ControlPlane) → Loads (loaded cp)

  after_done :
      (o : Outcome) (later : ControlPlane → Cycle)
      → Done o
      → Loads (elim o [ done cp' ↦ loaded cp' | failed cp' ↦ later cp' | panicked ↦ crashed ])
  after_done _ later (is_done cp) = loads cp

  after_end :
      (o : Outcome) (later : ControlPlane → Cycle)
      → Ends o
      → ((cp : ControlPlane) → Loads (later cp))
      → Loads (elim o [ done cp' ↦ loaded cp' | failed cp' ↦ later cp' | panicked ↦ crashed ])
  after_end _ later (well cp) h = loads cp
  after_end _ later (badly cp) h = h cp

  load_cycle-Loads :
      (before : List (Bool × Fetched)) (saves : Bool) (raw : Str) (p : Parsed)
      (after : List (Option (Bool × Fetched))) (cp : ControlPlane)
      → All Sorts before
      → IsGood p
      → Loads (load_cycle hash (map some before ++ some (saves, parsed raw p) ∷ after) cp)
  unfolding load_cycle
  load_cycle-Loads [] saves raw p after cp h g = after_done _ _ (good-Done saves raw p cp g)
  load_cycle-Loads (round ∷ before) saves raw p after cp (sorts, h) g =
      after_end _ _ (try_load-Ends round cp sorts)
        (λ cp'. load_cycle-Loads before saves raw p after cp' h g)

  Loads-loaded : (c : Cycle) → Loads c → (cp : ControlPlane) × (c ≡ loaded cp)
  Loads-loaded _ (loads cp) = (cp, refl)

  -- If the control plane is not dying and no round makes the sort panic, then the load cycle ends at the
  -- latest with the first round that finds a configuration with a rule and a region, whatever
  -- the rounds before it found, and whatever those after it would find.
  pub load_cycle_ends :
      (before : List (Bool × Fetched)) (saves : Bool) (raw : Str) (p : Parsed)
      (after : List (Option (Bool × Fetched))) (cp : ControlPlane)
      → All Sorts before
      → IsGood p
      → (cp' : ControlPlane) × (load_cycle hash
            (map some before ++ some (saves, parsed raw p) ∷ after)
            cp
          ≡ loaded cp')
  load_cycle_ends before saves raw p after cp h g =
      Loads-loaded _ (load_cycle-Loads before saves raw p after cp h g)
