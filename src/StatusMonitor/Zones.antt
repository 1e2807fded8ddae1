-- ===== src/StatusMonitor/Zones.antt =====
-- The monitors of several instances over one lock (the loop of statusmonitor/types.go, in the steps
-- between which another instance may run). A step makes at most one call of ZooKeeper; what only the
-- instance itself reads is written in the same step. The session of ZooKeeper lasts.
pub mod Moves
pub mod Exclusion
pub mod Shared
pub mod Alone
mod Tests
use api_proxy.Prelude.{
  ℕ, ◌<◌, ◌≡◌, ◌==◌, Bool, true, false, not, ◌&&◌, Option, none, some, List, [], ◌∷◌, if◌then◌else◌,
}
use api_proxy.Text.{Str, is_blank}
use api_proxy.StatusMonitor.ZooKeeper.{ZooKeeper}
use api_proxy.StatusMonitor.State.{
  Failure, no_failure, connectivity_failure, monitoring_failure, StatusMonitor, is_connectivity,
  Seen, mark_failed, with_lock_read, new_status_monitor,
}

-- Where the loop of an instance stands: at its top, before the question to the monitoring service,
-- before the reading of a lock that was refused, or between the removal of the lock and the report that
-- the zone is healthy (whether the question comes next).
pub data Pc : Type 0 where
  top asking : Pc
  reading : Failure → Pc
  recovering : Bool → Pc

pub record Instance : Type 0 where
  pub monitor : StatusMonitor
  pub pc : Pc

-- What comes after a recovery.
abbrev pub after_recovery : Bool → Pc
after_recovery true = asking
after_recovery false = top

module _ (z : ZooKeeper) where
  open z use {Store, create, delete, read}

  -- The attempt to take the lock.
  unfoldable pub attempted : Failure → ℕ → StatusMonitor → Store × Option Str → Instance × Store
  attempted kind now s (st, some handle) = (
    record { monitor = mark_failed z kind now (record s { lock_handle = handle }); pc = top },
    st,
  )
  attempted kind now s (st, none) =
      (record { monitor = record s { lock_handle = [] }; pc = reading kind }, st)

  -- The removal of the lock, if there is a handle.
  unfoldable pub release : Bool → StatusMonitor → Store → Instance × Store
  release ask s st =
      if is_blank s.lock_handle then (record { monitor = s; pc = recovering ask }, st) else (
        record { monitor = record s { lock_handle = [] }; pc = recovering ask },
        delete st s.lock_handle,
      )

  -- The report that the zone is healthy.
  unfoldable pub report : ℕ → StatusMonitor → StatusMonitor
  report now s = record s { last_changed = now; is_healthy = true; failure_type = no_failure }

  -- `interpretRavenStatus`.
  unfoldable pub see_broker : Bool → ℕ → StatusMonitor → Store → Instance × Store
  unfolding attempted release
  see_broker false now s st = attempted connectivity_failure now s (create st s.az_name)
  see_broker true now s st =
      if not s.is_healthy && is_connectivity s.failure_type
      then release true s st
      else (record { monitor = s; pc = asking }, st)

  -- `interpretAZStatus`, if the monitoring service answers.
  unfoldable pub see_az : Option Bool → ℕ → StatusMonitor → Store → Instance × Store
  unfolding attempted release
  see_az none now s st = (record { monitor = s; pc = top }, st)
  see_az (some false) now s st =
      if s.is_healthy
      then attempted monitoring_failure now s (create st s.az_name)
      else (record { monitor = s; pc = top }, st)
  see_az (some true) now s st =
      if not s.is_healthy then release false s st else (record { monitor = s; pc = top }, st)

  -- One step of an instance.
  unfoldable pub move : Seen → Pc → StatusMonitor → Store → Instance × Store
  unfolding see_broker see_az report
  move seen top s st = see_broker seen.connected seen.now s st
  move seen asking s st = see_az seen.az_status seen.now s st
  move seen (reading kind) s st =
      (record { monitor = with_lock_read z kind seen.now (read st) s; pc = top }, st)
  move seen (recovering ask) s st =
      (record { monitor = report seen.now s; pc = after_recovery ask }, st)

  -- An index from `n` on names no instance.
  pub record System : Type 0 where
    pub instances : ℕ → Instance
    pub store : Store

  unfoldable pub update : (ℕ → Instance) → ℕ → Instance → ℕ → Instance
  update f i x j = if j == i then x else f j

  pub data Step (n : ℕ) (s : System) : System → Type 0 where
    pick :
        (i : ℕ) (seen : Seen)
        → i < n
        → (x : Instance) (st : Store)
        → move seen (s.instances i).pc (s.instances i).monitor s.store ≡ (x, st)
        → Step n s (record { instances = update s.instances i x; store = st })

  -- The instances at their start: `zone i` is the name of the zone of the instance `i`.
  unfoldable pub started : (ℕ → Str) → ℕ → Instance
  started zone i = record { monitor = (new_status_monitor (some (zone i)) 0).0; pc = top }

  pub data Reach (n : ℕ) (zone : ℕ → Str) : System → Type 0 where
    start : (st : Store) → Reach n zone (record { instances = started zone; store = st })
    later : {s t : System} → Reach n zone s → Step n s t → Reach n zone t
