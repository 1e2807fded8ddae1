-- ===== src/StatusMonitor/Zones/Shared.antt =====
-- Two instances in one zone: the lock does not keep the zones apart.
use api_proxy.Prelude.{
  ℕ, ltb, ◌≡◌, ◌≢◌, refl, ◌∙◌, ap, true, false, none, some, [], ◌∷◌, if◌then◌else◌, arith,
}
use api_proxy.Text.{Str, is_blank}
use api_proxy.Text.Laws.{str_eq_refl}
use api_proxy.StatusMonitor.ZooKeeper.{ZooKeeper, Reliable}
use api_proxy.StatusMonitor.State.{
  connectivity_failure, StatusMonitor, Seen, mark_failed, with_lock_read, new_status_monitor,
}
use api_proxy.StatusMonitor.Zones.{
  top, reading, recovering, attempted, release, see_broker, move, System, update, pick, started,
  Reach, start, later,
}
use api_proxy.StatusMonitor.Zones.Moves.{is_recovering}

-- Two instances in the zone `a`, and one in `b`.
abbrev pub zones : Str → Str → ℕ → Str
zones a b i = if ltb i 2 then a else b

abbrev lost : Seen
lost = record { connected = false; az_status = none; now = 0 }

abbrev found : Seen
found = record { connected = true; az_status = none; now = 0 }

-- A monitor of the zone `az` that lost the broker, with the handle that it has.
abbrev failed : Str → Str → StatusMonitor
failed az handle = record {
  is_healthy = false;
  last_changed = 0;
  az_name = az;
  failure_type = connectivity_failure;
  lock_handle = handle;
}

abbrev healthy : Str → StatusMonitor
healthy az = (new_status_monitor (some az) 0).0

given : (s : Str) → s ≢ [] → is_blank s ≡ false
given [] h = absurd (h refl)
given (c ∷ s) h = refl

module _ (z : ZooKeeper) (reliable : Reliable z) where
  open z use {Store, create, delete, node, read}
  open reliable use {create_new, create_taken, read_node}

  takes :
      (az path : Str) (st st' : Store)
      → create st az ≡ (st', some path)
      → move z lost top (healthy az) st ≡ (record { monitor = failed az path; pc = top }, st')
  unfolding move see_broker attempted mark_failed new_status_monitor
  takes az path st st' made = ap (attempted z connectivity_failure 0 (healthy az)) made

  is_refused :
      (az : Str) (st : Store)
      → create st az ≡ (st, none)
      → move z lost top (healthy az) st
        ≡ (record { monitor = healthy az; pc = reading connectivity_failure }, st)
  unfolding move see_broker attempted new_status_monitor
  is_refused az st refused = ap (attempted z connectivity_failure 0 (healthy az)) refused

  reads :
      (az : Str) (st : Store)
      → node st ≡ some az
      → move z lost (reading connectivity_failure) (healthy az) st
        ≡ (record { monitor = failed az []; pc = top }, st)
  unfolding move with_lock_read mark_failed new_status_monitor
  reads az st own =
      ap
        (λ o. (
          record { monitor = with_lock_read z connectivity_failure 0 o (healthy az); pc = top },
          st,
        ))
        (read_node st ∙ own)
      ∙ rw (str_eq_refl az) refl

  releases :
      (az path : Str) (st : Store)
      → path ≢ []
      → move z found top (failed az path) st
        ≡ (record { monitor = failed az []; pc = recovering true }, delete st path)
  unfolding move see_broker release
  releases az path st h = rw (given path h) refl

  -- If no call of ZooKeeper fails, two instances stand in one zone and a third in another, and the
  -- lock is free, then a state is reached in which both zones are failed over and no instance of them
  -- is recovering: the first of the two removes the lock when it finds the broker again, while the second still does not.
  pub zones_fail_together :
      (a b : Str) (st : Store)
      → a ≢ b
      → node st ≡ none
      → (s : System z) × Reach z 3 (zones a b) s
        × (zones a b 1 ≢ zones a b 2)
        × ((s.instances 1).monitor.is_healthy ≡ false)
        × (is_recovering (s.instances 1).pc ≡ false)
        × ((s.instances 2).monitor.is_healthy ≡ false)
        × (is_recovering (s.instances 2).pc ≡ false)
  unfolding update started
  zones_fail_together a b st apart free =
      let (path, st', made, holds, there, gone) = create_new st a free in
      let (path', st'', made', _, _, _) = create_new (delete st' path) b gone in
      (
        _,
        later
            (later
              (later
                (later (later (start st) (pick 0 lost (omega arith) _ _ (takes a path st st' made)))
                  (pick 1 lost (omega arith) _ _ (is_refused a st' (create_taken st' a a holds))))
                (pick 1 lost (omega arith) _ _ (reads a st' holds)))
              (pick 0 found (omega arith) _ _ (releases a path st' there)))
            (pick 2 lost (omega arith) _ _ (takes b path' (delete st' path) st'' made')),
        apart,
        refl,
        refl,
        refl,
        refl,
      )
