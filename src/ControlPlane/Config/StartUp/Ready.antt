-- ===== src/ControlPlane/Config/StartUp/Ready.antt =====
-- What is loaded from the start on.
use api_proxy.Prelude.{
  ◌≡◌, ◌≢◌, refl, Bool, false, Option, none, some, List, [], ◌∷◌, inl, inr, Bool-cases, sym, subst,
}
use api_proxy.Text.{Str, str_eq}
use api_proxy.Text.Laws.{str_eq_iff}
use api_proxy.ControlPlane.Types.{SortedRules}
use api_proxy.ControlPlane.Rules
use api_proxy.ControlPlane.Regions
use api_proxy.ControlPlane.Router.{Config}
use api_proxy.ControlPlane.Config.{
  Parsed, Fetched, empty, malformed, parsed, ControlPlane, Outcome, done, failed, panicked,
  loaded_config, config_of, store, check, try_load, Cycle, load_cycle, dying, loaded, crashed,
  waiting,
}
use api_proxy.ControlPlane.Config.Loading.{IsValid, Holds, try_load-Keeps, Keeps}
use api_proxy.ControlPlane.Config.Ending.{IsGood}
use api_proxy.ControlPlane.Config.StartUp.{Rounds, unloaded, listen, new_control_plane}

module _ (P : ControlPlane → Type 0) where
  -- The control plane that a load leaves has the property, if there is one.
  abbrev pub AfterLoad : Outcome → Type 0
  AfterLoad (done cp) = P cp
  AfterLoad (failed cp) = P cp
  AfterLoad panicked = Unit

  -- The same for a load cycle.
  abbrev pub AfterCycle : Cycle → Type 0
  AfterCycle (dying cp) = P cp
  AfterCycle (loaded cp) = P cp
  AfterCycle crashed = Unit
  AfterCycle (waiting cp) = P cp

  by_outcome :
      (o : Outcome) (on_done on_failed : ControlPlane → Cycle)
      → AfterLoad o
      → ((cp : ControlPlane) → P cp → AfterCycle (on_done cp))
      → ((cp : ControlPlane) → P cp → AfterCycle (on_failed cp))
      → AfterCycle (elim o [ done cp ↦ on_done cp | failed cp ↦ on_failed cp | panicked ↦ crashed ])
  by_outcome (done cp) on_done on_failed h after_done after_failed = after_done cp h
  by_outcome (failed cp) on_done on_failed h after_done after_failed = after_failed cp h
  by_outcome panicked on_done on_failed h after_done after_failed = tt

  by_cycle :
      (c : Cycle) (later : ControlPlane → Cycle)
      → AfterCycle c
      → ((cp : ControlPlane) → P cp → AfterCycle (later cp))
      → AfterCycle (elim c [
        | dying cp ↦ dying cp
        | loaded cp ↦ later cp
        | crashed ↦ crashed
        | waiting cp ↦ waiting cp
      ])
  by_cycle (dying cp) later h after = h
  by_cycle (loaded cp) later h after = after cp h
  by_cycle crashed later h after = tt
  by_cycle (waiting cp) later h after = h

  module _ (hash : SortedRules → Parsed → Str)
      (kept : (saves : Bool) (found : Fetched) (cp : ControlPlane)
        → P cp
        → AfterLoad (try_load hash saves found cp)) where
    load_cycle-AfterCycle :
        (rounds : Rounds) (cp : ControlPlane) → P cp → AfterCycle (load_cycle hash rounds cp)
    unfolding load_cycle
    load_cycle-AfterCycle [] cp h = h
    load_cycle-AfterCycle (none ∷ rounds) cp h = h
    load_cycle-AfterCycle (some (saves, found) ∷ rounds) cp h =
        by_outcome (try_load hash saves found cp) loaded (λ cp'. load_cycle hash rounds cp')
          (kept saves found cp h) (λ cp' h'. h') (λ cp' h'. load_cycle-AfterCycle rounds cp' h')

    listen-AfterCycle :
        (notices : List Rounds) (cp : ControlPlane) → P cp → AfterCycle (listen hash notices cp)
    unfolding listen
    listen-AfterCycle [] cp h = h
    listen-AfterCycle (rounds ∷ notices) cp h =
        by_cycle (load_cycle hash rounds cp) (λ cp'. listen hash notices cp')
          (load_cycle-AfterCycle rounds cp h) (λ cp' h'. listen-AfterCycle notices cp' h')

-- A valid configuration is loaded.
abbrev pub IsReady : ControlPlane → Type 0
IsReady cp = (c : Config) × (cp.loaded ≡ some c) × IsValid c

-- Something is loaded.
abbrev IsLoaded : ControlPlane → Type 0
IsLoaded cp = (c : Config) × (cp.loaded ≡ some c)

Holds-IsReady : (cp : ControlPlane) → Holds cp → IsLoaded cp → IsReady cp
Holds-IsReady cp (inl none') (c, is) = cc
Holds-IsReady cp (inr ready) _ = ready

both : (o : Outcome) → Keeps o → AfterLoad IsLoaded o → AfterLoad IsReady o
both (done cp) k l = Holds-IsReady cp k l
both (failed cp) k l = Holds-IsReady cp k l
both panicked k l = tt

module _ (hash : SortedRules → Parsed → Str) where
  store-IsLoaded :
      (saves : Bool) (raw : Str) (sorted : SortedRules) (p : Parsed) (cp : ControlPlane)
      → IsLoaded cp
      → AfterLoad IsLoaded (store hash saves raw sorted p cp)
  unfolding store
  store-IsLoaded saves raw sorted p cp h =
      elim (Bool-cases (str_eq (hash sorted p) (loaded_config cp).config_hash)) [
        | inl same ↦ rw same h
        | inr new ↦ rw new (config_of hash sorted p, refl)
      ]

  check-IsLoaded :
      (saves : Bool) (raw : Str) (o : Option SortedRules) (p : Parsed) (cp : ControlPlane)
      → IsLoaded cp
      → AfterLoad IsLoaded (check hash saves raw o p cp)
  unfolding check
  check-IsLoaded saves raw none p cp h = tt
  check-IsLoaded saves raw (some sorted) p cp h = elim (Bool-cases (Rules.validate sorted)) [
    | inr no_rule ↦ rw no_rule h
    | inl has_rule ↦ elim (Bool-cases (Regions.validate p.regions)) [
      | inr no_region' ↦ rw has_rule (rw no_region' h)
      | inl has_region ↦ rw has_rule (rw has_region (store-IsLoaded saves raw sorted p cp h))
    ]
  ]

  try_load-IsLoaded :
      (saves : Bool) (found : Fetched) (cp : ControlPlane)
      → IsLoaded cp
      → AfterLoad IsLoaded (try_load hash saves found cp)
  unfolding try_load
  try_load-IsLoaded saves empty cp h = h
  try_load-IsLoaded saves malformed cp h = h
  try_load-IsLoaded saves (parsed raw p) cp h = check-IsLoaded saves raw (Rules.sort p.rules) p cp h

  try_load-IsReady :
      (saves : Bool) (found : Fetched) (cp : ControlPlane)
      → IsReady cp
      → AfterLoad IsReady (try_load hash saves found cp)
  try_load-IsReady saves found cp (c, is, valid) =
      both (try_load hash saves found cp) (try_load-Keeps hash saves found cp (inr (c, is, valid)))
        (try_load-IsLoaded saves found cp (c, is))

  store_first-IsLoaded :
      (file : Option Str) (saves : Bool) (raw : Str) (sorted : SortedRules) (p : Parsed)
      → hash sorted p ≢ []
      → AfterLoad IsLoaded (store hash saves raw sorted p (unloaded file))
  unfolding store loaded_config
  store_first-IsLoaded file saves raw sorted p hashed =
      let other : str_eq (hash sorted p) [] ≡ false =
        elim (Bool-cases (str_eq (hash sorted p) [])) [
          | inl same ↦ absurd (hashed ((str_eq_iff (hash sorted p) []).0 same))
          | inr other ↦ other
        ] in
      rw other (config_of hash sorted p, refl)

  first_load-IsReady :
      (file : Option Str) (saves : Bool) (raw : Str) (p : Parsed) (good : IsGood p)
      → hash good.sorted p ≢ []
      → AfterLoad IsReady (try_load hash saves (parsed raw p) (unloaded file))
  unfolding try_load check
  first_load-IsReady file saves raw p good hashed =
      both (try_load hash saves (parsed raw p) (unloaded file))
        (try_load-Keeps hash saves (parsed raw p) (unloaded file) (inl refl))
        (subst (λ o. AfterLoad IsLoaded (check hash saves raw o p (unloaded file))) (sym good.sorts)
          (rw good.has_rule
            (rw good.has_region (store_first-IsLoaded file saves raw good.sorted p hashed))))

  -- If the first load finds a configuration that sorts and has a rule and a region, and its hash is
  -- not blank, then from there on, after any load cycles and whatever each of them finds, unless the
  -- process panicked, a configuration is loaded that has a rule and a region, and its rules are what
  -- the sort gives of some rules.
  pub new_control_plane-IsReady :
      (file : Option Str) (saves : Bool) (raw : Str) (p : Parsed) (good : IsGood p)
      (notices : List Rounds)
      → hash good.sorted p ≢ []
      → AfterCycle IsReady (new_control_plane hash file saves (parsed raw p) notices)
  unfolding new_control_plane
  new_control_plane-IsReady file saves raw p good notices hashed =
      by_outcome IsReady (try_load hash saves (parsed raw p) (unloaded file))
        (λ cp. listen hash notices cp) (λ cp. listen hash notices cp)
        (first_load-IsReady file saves raw p good hashed)
        (λ cp h. listen-AfterCycle IsReady hash try_load-IsReady notices cp h)
        (λ cp h. listen-AfterCycle IsReady hash try_load-IsReady notices cp h)
