-- ===== src/StatusMonitor/Zones/Tests.antt =====
-- Several instances over the store with the one node, and the theorems about them at concrete runs.
use api_proxy.Prelude.{
  ℕ, ◌<◌, ◌≡◌, ◌≢◌, refl, Bool, true, false, none, some, arith, ltb, if◌then◌else◌, Bool-cases, inl,
  inr, ltb→lt, sym,
}
use api_proxy.Text.{Str, bytes, str_eq}
use api_proxy.Text.Laws.{str_eq_iff}
use api_proxy.StatusMonitor.Samples.{one_node, one_node-Reliable, make}
use api_proxy.StatusMonitor.State.{Seen, new_status_monitor, mark_failed, monitoring_failure}
use api_proxy.StatusMonitor.Zones.{
  top, asking, System, pick, started, Reach, start, later, move, see_broker, see_az, attempted,
  update,
}
use api_proxy.StatusMonitor.Zones.Moves.{is_recovering}
use api_proxy.StatusMonitor.Zones.Exclusion.{failed_over-exclusive}
use api_proxy.StatusMonitor.Zones.Shared.{zones, zones_fail_together}

-- Two instances, each in a zone of its own.
abbrev zone : ℕ → Str
zone i = if ltb i 1 then bytes "a" else bytes "b"

names_differ : bytes "a" ≢ bytes "b"
unfolding bytes str_eq
names_differ e =
    let equal : ◌≡◌ {A = Bool} false true = (str_eq_iff (bytes "a") (bytes "b")).1 e in cc

zones_apart : (i j : ℕ) → i < 2 → j < 2 → i ≢ j → zone i ≢ zone j
zones_apart i j lt lt' ne same = elim (Bool-cases (ltb i 1)) [
  | inl first ↦ elim (Bool-cases (ltb j 1)) [
    | inl first' ↦ ne (omega (arith, ltb→lt i 1 first, ltb→lt j 1 first'))
    | inr second' ↦ names_differ (rw (first, second') at same)
  ]
  | inr second ↦ elim (Bool-cases (ltb j 1)) [
    | inl first' ↦ names_differ (sym (rw (second, first') at same))
    | inr second' ↦ ne (ground (arith, second, second', lt, lt'))
  ]
]

abbrev sick : Seen
sick = record { connected = true; az_status = some false; now = 3 }

-- The first is told that its zone is not healthy.
abbrev first_failed : System one_node
first_failed = record {
  instances =
      update one_node
        (update one_node (started one_node zone) 0
          (record { monitor = (new_status_monitor (some (bytes "a")) 0).0; pc = asking }))
        0
        (record {
          monitor =
              record (mark_failed one_node monitoring_failure 3
                (new_status_monitor (some (bytes "a")) 0).0) {
                  lock_handle = bytes "/hailo-2-api-az-failover";
                };
          pc = top;
        });
  store = some (bytes "a");
}

first_fails : Reach one_node 2 zone first_failed
unfolding move see_broker see_az attempted make mark_failed update started new_status_monitor
first_fails =
    later (later (start none) (pick 0 sick (omega arith) _ _ refl))
      (pick 0 sick (omega arith) _ _ refl)

failed_over-exclusive_example : ◌≡◌ {A = ℕ} 0 0 × (first_failed.store ≡ some (bytes "a"))
unfolding update mark_failed
failed_over-exclusive_example =
    failed_over-exclusive one_node 2 zone zones_apart first_fails 0 0 (omega arith) (omega arith)
      refl refl refl refl

zones_fail_together_example :
    (s : System one_node) × Reach one_node 3 (zones (bytes "a") (bytes "b")) s
    × (zones (bytes "a") (bytes "b") 1 ≢ zones (bytes "a") (bytes "b") 2)
    × ((s.instances 1).monitor.is_healthy ≡ false)
    × (is_recovering (s.instances 1).pc ≡ false)
    × ((s.instances 2).monitor.is_healthy ≡ false)
    × (is_recovering (s.instances 2).pc ≡ false)
zones_fail_together_example =
    zones_fail_together one_node one_node-Reliable (bytes "a") (bytes "b") none names_differ refl
