-- ===== src/StatusMonitor/Zones/Moves.antt =====
-- What a step of one instance leaves true of the lock.
use api_proxy.Prelude.{
  ℕ, ◌≡◌, refl, ◌∙◌, ap, Bool, true, false, not, ◌&&◌, Option, none, some, if◌then◌else◌, ◌⊎◌, inl,
  inr, Bool-cases,
}
use api_proxy.Text.{Str, str_eq, is_blank}
use api_proxy.Text.Laws.{str_eq_iff}
use api_proxy.StatusMonitor.ZooKeeper.{ZooKeeper}
use api_proxy.StatusMonitor.State.{
  Failure, connectivity_failure, monitoring_failure, StatusMonitor, is_connectivity, Seen,
  mark_failed, with_lock_read,
}
use api_proxy.StatusMonitor.Zones.{
  Pc, top, asking, reading, recovering, Instance, attempted, release, report, see_broker, see_az,
  move,
}

-- The lock was removed, and the zone is not yet reported healthy.
abbrev pub is_recovering : Pc → Bool
is_recovering (recovering _) = true
is_recovering _ = false

module _ (z : ZooKeeper) where
  open z use {Store, create, delete, node, read, create_made, create_failed, read_held}

  -- What one instance may say of the lock.
  pub record Own (zone : Str) (node' : Option Str) (x : Instance) : Type 0 where
    pub name : x.monitor.az_name ≡ zone
    pub held : is_blank x.monitor.lock_handle ≡ false → node' ≡ some zone
    pub failed : x.monitor.is_healthy ≡ false → is_recovering x.pc ≡ false → node' ≡ some zone

  -- How a step of an instance of a zone may change the lock.
  unfoldable pub Change : Str → Option Str → Option Str → Type 0
  Change zone before after = (after ≡ before) ⊎ ((before ≡ none) ⊎ (before ≡ some zone))

  -- What a step gives.
  pub record Kept (zone : Str) (st : Store) (p : Instance × Store) : Type 0 where
    pub own : Own zone (node p.1) p.0
    pub change : Change zone (node st) (node p.1)

  made-Kept :
      (zone : Str) (kind : Failure) (now : ℕ) (s : StatusMonitor) (st st' : Store) (path : Str)
      → s.az_name ≡ zone
      → node st ≡ none
      → node st' ≡ some s.az_name
      → Kept zone st (attempted z kind now s (st', some path))
  unfolding attempted mark_failed Change
  made-Kept zone kind now s st st' path name free holds = record {
    own = record {
      name = name;
      held = λ _. holds ∙ ap some name;
      failed = λ _ _. holds ∙ ap some name;
    };
    change = inr (inl free);
  }

  refused-Kept :
      (zone : Str) (kind : Failure) (now : ℕ) (s : StatusMonitor) (st st' : Store) (pc : Pc)
      → is_recovering pc ≡ false
      → Own zone (node st) (record { monitor = s; pc = pc })
      → (node st' ≡ node st) ⊎ ((node st ≡ none) × (node st' ≡ some s.az_name))
      → Kept zone st (attempted z kind now s (st', none))
  unfolding attempted Change
  refused-Kept zone kind now s st st' pc at o (inl same) = record {
    own = record { name = o.name; held = λ h. cc; failed = λ sick _. same ∙ o.failed sick at };
    change = inl same;
  }
  refused-Kept zone kind now s st st' pc at o (inr (free, holds)) = record {
    own = record { name = o.name; held = λ h. cc; failed = λ _ _. holds ∙ ap some o.name };
    change = inr (inl free);
  }

  attempted-Kept :
      (zone : Str) (kind : Failure) (now : ℕ) (s : StatusMonitor) (st : Store) (pc : Pc)
      → is_recovering pc ≡ false
      → Own zone (node st) (record { monitor = s; pc = pc })
      → Kept zone st (attempted z kind now s (create st s.az_name))
  attempted-Kept zone kind now s st pc at o = by_answer (create st s.az_name) refl
    where
      by_answer :
          (p : Store × Option Str)
          → create st s.az_name ≡ p
          → Kept zone st (attempted z kind now s p)
      by_answer (st', some path) is =
          let (free, holds, _) = create_made st st' s.az_name path is in
          made-Kept zone kind now s st st' path o.name free holds
      by_answer (st', none) is =
          refused-Kept zone kind now s st st' pc at o (create_failed st st' s.az_name is)

  release-Kept :
      (zone : Str) (ask : Bool) (s : StatusMonitor) (st : Store) (pc : Pc)
      → Own zone (node st) (record { monitor = s; pc = pc })
      → Kept zone st (release z ask s st)
  unfolding release Change
  release-Kept zone ask s st pc o = elim (Bool-cases (is_blank s.lock_handle)) [
    | inl blank ↦ rw blank (record {
      own = record { name = o.name; held = o.held; failed = λ _ recovering'. cc };
      change = inl refl;
    })
    | inr given ↦ rw given (record {
      own = record { name = o.name; held = λ h. cc; failed = λ _ recovering'. cc };
      change = inr (inr (o.held given));
    })
  ]

  -- A test of which both branches keep.
  if-Kept :
      (zone : Str) (st : Store) (t : Bool) (p q : Instance × Store)
      → Kept zone st p
      → Kept zone st q
      → Kept zone st (if t then p else q)
  if-Kept zone st true p q h k = h
  if-Kept zone st false p q h k = k

  module _ (zone : Str) (seen : Seen) (s : StatusMonitor) (st : Store) where
    abbrev At : Pc → Type 0
    At pc = Own zone (node st) (record { monitor = s; pc = pc })

    stays-Kept :
        (pc pc' : Pc)
        → is_recovering pc ≡ false
        → At pc
        → Kept zone st (record { monitor = s; pc = pc' }, st)
    unfolding Change
    stays-Kept pc pc' at o = record {
      own = record { name = o.name; held = o.held; failed = λ sick _. o.failed sick at };
      change = inl refl;
    }

    see_broker-Kept :
        (connected : Bool) → At top → Kept zone st (see_broker z connected seen.now s st)
    unfolding see_broker
    see_broker-Kept false o = attempted-Kept zone connectivity_failure seen.now s st top refl o
    see_broker-Kept true o =
        if-Kept zone st (not s.is_healthy && is_connectivity s.failure_type) _ _
          (release-Kept zone true s st top o) (stays-Kept top asking refl o)

    see_az-Kept : (answer : Option Bool) → At asking → Kept zone st (see_az z answer seen.now s st)
    unfolding see_az
    see_az-Kept none o = stays-Kept asking top refl o
    see_az-Kept (some false) o =
        if-Kept zone st s.is_healthy _ _
          (attempted-Kept zone monitoring_failure seen.now s st asking refl o)
          (stays-Kept asking top refl o)
    see_az-Kept (some true) o =
        if-Kept zone st (not s.is_healthy) _ _ (release-Kept zone false s st asking o)
          (stays-Kept asking top refl o)

    read-Kept :
        (kind : Failure) (o : Option Str)
        → read st ≡ o
        → At (reading kind)
        → Kept zone st (record { monitor = with_lock_read z kind seen.now o s; pc = top }, st)
    unfolding with_lock_read mark_failed
    read-Kept kind none is o = stays-Kept (reading kind) top refl o
    read-Kept kind (some held) is o = elim (Bool-cases (str_eq held s.az_name)) [
      | inr other ↦ rw other (stays-Kept (reading kind) top refl o)
      | inl own' ↦
          let is_own : node st ≡ some zone =
            read_held st held is ∙ ap some ((str_eq_iff held s.az_name).0 own' ∙ o.name) in
          rw own' (record {
            own = record { name = o.name; held = o.held; failed = λ _ _. is_own };
            change = unfold Change in inl refl;
          })
    ]

    pub move-Kept : (pc : Pc) → At pc → Kept zone st (move z seen pc s st)
    unfolding move report
    move-Kept top o = see_broker-Kept seen.connected o
    move-Kept asking o = see_az-Kept seen.az_status o
    move-Kept (reading kind) o = read-Kept kind (read st) refl o
    move-Kept (recovering ask) o = record {
      own = record { name = o.name; held = o.held; failed = λ sick _. cc };
      change = unfold Change in inl refl;
    }
