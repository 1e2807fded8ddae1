-- ===== src/StatusMonitor/Tests.antt =====
-- The monitor over a store with the one node, and its theorems at concrete runs.
use api_proxy.Prelude.{ℕ, ◌≡◌, refl, Bool, true, false, Option, none, some, [], ◌∷◌, ◌++◌}
use api_proxy.Text.{Str, bytes}
use api_proxy.StatusMonitor.State.{
  no_failure, monitoring_failure, StatusMonitor, failover_az, new_status_monitor, Seen, monitor,
  after_lock, with_lock_read,
}
use api_proxy.StatusMonitor.Samples.{make, one_node, one_node-Reliable, cut_off}
use api_proxy.StatusMonitor.Failover.{Ends, failover_az-Ends}
use api_proxy.StatusMonitor.Leak.{lock_leaks, back}
use api_proxy.StatusMonitor.Invariant.{Agrees, reached-Agrees}

abbrev well : StatusMonitor
well = record {
  is_healthy = true;
  last_changed = 0;
  az_name = bytes "eu-west-1a";
  failure_type = no_failure;
  lock_handle = [];
}

abbrev no_node : Option Str
no_node = none

abbrev lost : ℕ → Seen
lost now = record { connected = false; az_status = none; now = now }

abbrev told : ℕ → Bool → Seen
told now status = record { connected = true; az_status = some status; now = now }

taken_test : (failover_az one_node monitoring_failure 5 (well, none)).1 ≡ some well.az_name
unfolding make bytes failover_az after_lock
taken_test = refl

failover_az-Ends_example :
    Ends one_node well.az_name no_node (failover_az one_node monitoring_failure 5 (well, no_node))
failover_az-Ends_example = failover_az-Ends one_node monitoring_failure 5 well no_node refl

-- Without a connection the zone stays in service, although the lock is free.
cut_off_test : (failover_az cut_off monitoring_failure 5 (well, none)).0.is_healthy ≡ true
unfolding failover_az after_lock with_lock_read
cut_off_test = refl

lock_leaks_example :
    let b = monitor one_node (lost 1 ∷ lost 2 ∷ (lost 3 ∷ []) ++ back 4 ∷ []) (well, none) in
    (b.0.is_healthy ≡ true) × (b.1 ≡ some well.az_name)
lock_leaks_example =
    lock_leaks one_node one_node-Reliable well none (lost 1) (lost 2) (lost 3 ∷ []) 4 refl refl refl
      (refl, tt)

reached-Agrees_example :
    Agrees
      (monitor one_node
        (lost 1 ∷ told 2 false ∷ told 3 true ∷ [])
        ((new_status_monitor (some (bytes "eu-west-1a")) 0).0, none)).0
reached-Agrees_example =
    reached-Agrees one_node (some (bytes "eu-west-1a")) 0 none
      (lost 1 ∷ told 2 false ∷ told 3 true ∷ [])

abbrev sick : StatusMonitor
sick = record well { is_healthy = false; failure_type = monitoring_failure }
