-- ===== src/ControlPlane/Config/StartUp.antt =====
-- The control plane from its start (`New` of controlplane/controlplane.go): a first load, and a load
-- cycle for every change that the config service tells of. The first load is taken to be over before
-- the first notice comes.
pub mod Ready
use api_proxy.Prelude.{◌≡◌, refl, Bool, true, false, Option, none, some, List, [], ◌∷◌, inl, inr}
use api_proxy.Text.{Str}
use api_proxy.ControlPlane.Types.{SortedRules}
use api_proxy.ControlPlane.Config.{
  Parsed, Fetched, ControlPlane, Outcome, done, failed, panicked, try_load, Cycle, load_cycle,
  dying, loaded, crashed, waiting,
}

-- What the rounds of one load cycle find.
abbrev pub Rounds : Type 0
Rounds = List (Option (Bool × Fetched))

-- No configuration is loaded at first, and the file is what an earlier process left.
abbrev pub unloaded : Option Str → ControlPlane
unloaded file = record { loaded = none; file = file }

module _ (hash : SortedRules → Parsed → Str) where
  -- A cycle for each notice, until one is killed, crashes or does not end.
  unfoldable pub listen : List Rounds → ControlPlane → Cycle
  listen [] cp = loaded cp
  listen (rounds ∷ notices) cp = elim (load_cycle hash rounds cp) [
    | dying cp' ↦ dying cp'
    | loaded cp' ↦ listen notices cp'
    | crashed ↦ crashed
    | waiting cp' ↦ waiting cp'
  ]

  -- `New`: an error of the first load is only logged.
  unfoldable pub new_control_plane : Option Str → Bool → Fetched → List Rounds → Cycle
  new_control_plane file saves found notices = elim (try_load hash saves found (unloaded file)) [
    | done cp ↦ listen notices cp
    | failed cp ↦ listen notices cp
    | panicked ↦ crashed
  ]
