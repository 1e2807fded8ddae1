-- ===== src/StatusMonitor/State.antt =====
-- The state machine of the monitor. The store of ZooKeeper is passed along, and the clock is an
-- argument.
use api_proxy.Prelude.{
  ℕ, Bool, true, false, not, ◌&&◌, Option, none, some, List, [], ◌∷◌, if◌then◌else◌,
}
use api_proxy.Text.{Str, bytes, str_eq, is_blank}
use api_proxy.StatusMonitor.ZooKeeper.{ZooKeeper}

pub data Failure : Type 0 where
  no_failure connectivity_failure monitoring_failure : Failure
  unknown_failure : ℕ → Failure

-- `Failure.String`.
unfoldable pub failure_string : Failure → Str
failure_string no_failure = bytes "No failures detected"
failure_string connectivity_failure = bytes "Connectivity Failure"
failure_string monitoring_failure = bytes "Monitoring Failure"
failure_string (unknown_failure n) = bytes "Not implemented"

pub record StatusMonitor : Type 0 where
  pub is_healthy : Bool
  pub last_changed : ℕ
  pub az_name : Str
  pub failure_type : Failure
  pub lock_handle : Str

-- `NewStatusMonitor`, of a zone whose name is known or not, and whether it is monitored.
unfoldable pub new_status_monitor : Option Str → ℕ → StatusMonitor × Bool
new_status_monitor az now = elim az [
  | some name ↦ (
    record {
      is_healthy = true;
      last_changed = now;
      az_name = name;
      failure_type = no_failure;
      lock_handle = [];
    },
    true,
  )
  | none ↦ (
    record {
      is_healthy = true;
      last_changed = now;
      az_name = bytes "undefined";
      failure_type = no_failure;
      lock_handle = [];
    },
    false,
  )
]

abbrev pub is_connectivity : Failure → Bool
is_connectivity connectivity_failure = true
is_connectivity _ = false

-- What one round of the loop sees: whether the broker is connected, and then what the monitoring
-- service answers (`none` where it cannot be asked).
pub record Seen : Type 0 where
  pub connected : Bool
  pub az_status : Option Bool
  pub now : ℕ

module _ (z : ZooKeeper) where
  open z use {Store, create, delete, read}

  -- What one round works on: the monitor and the store.
  abbrev pub Both : Type 0
  Both = StatusMonitor × Store

  unfoldable pub mark_failed : Failure → ℕ → StatusMonitor → StatusMonitor
  mark_failed failure now s = record s {
    is_healthy = false;
    last_changed = now;
    failure_type = failure;
  }

  -- The lock could not be read, or it is held by somebody: fail over if that is our zone.
  unfoldable pub with_lock_read : Failure → ℕ → Option Str → StatusMonitor → StatusMonitor
  unfolding mark_failed
  with_lock_read kind now none s = s
  with_lock_read kind now (some failed_az) s =
      if str_eq failed_az s.az_name then mark_failed kind now s else s

  -- The handle is overwritten in any case, with "" if the lock was not given.
  unfoldable pub after_lock : Failure → ℕ → StatusMonitor → Store × Option Str → Both
  unfolding with_lock_read
  after_lock failure now s (st, some handle) =
      (mark_failed failure now (record s { lock_handle = handle }), st)
  after_lock failure now s (st, none) =
      (with_lock_read failure now (read st) (record s { lock_handle = [] }), st)

  unfoldable pub failover_az : Failure → ℕ → Both → Both
  unfolding after_lock
  failover_az failure now (s, st) = after_lock failure now s (create st s.az_name)

  unfoldable pub recover_az : ℕ → Both → Both
  recover_az now (s, st) =
      if is_blank s.lock_handle
      then (record s { last_changed = now; is_healthy = true; failure_type = no_failure }, st)
      else (
        record s {
          lock_handle = [];
          last_changed = now;
          is_healthy = true;
          failure_type = no_failure;
        },
        delete st s.lock_handle,
      )

  unfoldable pub interpret_raven_status : Bool → ℕ → Both → Both
  interpret_raven_status false now (s, st) = failover_az connectivity_failure now (s, st)
  interpret_raven_status true now (s, st) =
      if not s.is_healthy && is_connectivity s.failure_type then recover_az now (s, st) else (s, st)

  -- Both tests are made, the second on the state that the first leaves.
  unfoldable pub report_unhealthy : Bool → ℕ → Both → Both
  report_unhealthy az_status now (s, st) =
      if not az_status && s.is_healthy then failover_az monitoring_failure now (s, st) else (s, st)

  unfoldable pub report_healthy : Bool → ℕ → Both → Both
  report_healthy az_status now (s, st) =
      if az_status && not s.is_healthy then recover_az now (s, st) else (s, st)

  unfoldable pub interpret_az_status : Bool → ℕ → Both → Both
  unfolding report_unhealthy report_healthy
  interpret_az_status az_status now b =
      report_healthy az_status now (report_unhealthy az_status now b)

  unfoldable pub check_az : Option Bool → ℕ → Both → Both
  check_az none now b = b
  check_az (some az_status) now b = interpret_az_status az_status now b

  -- One round of `monitor`.
  unfoldable pub round : Seen → Both → Both
  unfolding check_az
  round seen b =
      let b' = interpret_raven_status seen.connected seen.now b in
      if seen.connected then check_az seen.az_status seen.now b' else b'

  unfoldable pub monitor : List Seen → Both → Both
  monitor [] b = b
  monitor (seen ∷ rest) b = monitor rest (round seen b)
