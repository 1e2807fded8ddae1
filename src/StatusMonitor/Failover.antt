-- ===== src/StatusMonitor/Failover.antt =====
-- When a zone is failed over, and when it is not.
use api_proxy.Prelude.{
  ℕ, ◌≡◌, ◌≢◌, refl, ap, sym, ◌∙◌, true, false, Option, none, some, [], Bool-cases, inl, inr, ◌⊎◌,
}
use api_proxy.Text.{Str, str_eq}
use api_proxy.Text.Laws.{str_eq_iff, str_eq_refl}
use api_proxy.StatusMonitor.ZooKeeper.{ZooKeeper, Reliable}
use api_proxy.StatusMonitor.State.{
  Failure, StatusMonitor, Both, mark_failed, with_lock_read, after_lock, failover_az,
}

module _ (z : ZooKeeper) (reliable : Reliable z) where
  open z use {Store, create, delete, node, read}
  open reliable use {create_new, create_taken, read_node}

  -- The lock is free: it is taken, and the zone is failed over.
  pub failover_az-free :
      (kind : Failure) (now : ℕ) (s : StatusMonitor) (st : Store)
      → node st ≡ none
      → (path : Str) × (st' : Store) × (failover_az z kind now (s, st) ≡ (
        record s {
          is_healthy = false;
          last_changed = now;
          failure_type = kind;
          lock_handle = path;
        },
        st',
      ))
        × (node st' ≡ some s.az_name)
        × (path ≢ [])
        × (node (delete st' path) ≡ none)
  unfolding failover_az after_lock mark_failed
  failover_az-free kind now s st free =
      let (path, st', made, holds, given, goes) = create_new st s.az_name free in
      (path, st', ap (after_lock z kind now s) made, holds, given, goes)

  -- The lock is held for this zone: it is failed over, and the handle is forgotten.
  pub failover_az-own :
      (kind : Failure) (now : ℕ) (s : StatusMonitor) (st : Store)
      → node st ≡ some s.az_name
      → failover_az z kind now (s, st) ≡ (
        record s { is_healthy = false; last_changed = now; failure_type = kind; lock_handle = [] },
        st,
      )
  unfolding failover_az after_lock mark_failed with_lock_read
  failover_az-own kind now s st own =
      ap (after_lock z kind now s) (create_taken st s.az_name s.az_name own)
      ∙ ap (λ o. (with_lock_read z kind now o (record s { lock_handle = [] }), st))
          (read_node st ∙ own)
      ∙ rw (str_eq_refl s.az_name)

  -- The lock is held for another zone: the failover is given up.
  pub failover_az-other :
      (kind : Failure) (now : ℕ) (s : StatusMonitor) (st : Store) (held : Str)
      → node st ≡ some held
      → str_eq held s.az_name ≡ false
      → failover_az z kind now (s, st) ≡ (record s { lock_handle = [] }, st)
  unfolding failover_az after_lock with_lock_read
  failover_az-other kind now s st held taken other =
      ap (after_lock z kind now s) (create_taken st s.az_name held taken)
      ∙ ap (λ o. (with_lock_read z kind now o (record s { lock_handle = [] }), st))
          (read_node st ∙ taken)
      ∙ rw other

module _ (z : ZooKeeper) where
  open z use {Store, create, node, read, create_made, create_failed, read_held}

  -- Where the failover of a zone ends.
  pub data Ends (az : Str) (st : Store) : Both z → Type 0 where
    failed_over :
        (s' : StatusMonitor) (st' : Store)
        → s'.is_healthy ≡ false
        → (node st ≡ none) ⊎ (node st ≡ some az)
        → node st' ≡ some az
        → Ends az st (s', st')
    other_zone :
        (s' : StatusMonitor) (st' : Store) (held : Str)
        → s'.is_healthy ≡ true
        → held ≢ az
        → node st ≡ some held
        → node st' ≡ some held
        → Ends az st (s', st')
    calls_failed :
        (s' : StatusMonitor) (st' : Store)
        → s'.is_healthy ≡ true
        → create st az ≡ (st', none)
        → read st' ≡ none
        → Ends az st (s', st')

  -- What stood there before a create that gave an error, when its zone is read afterwards.
  own_before :
      (az : Str) (before after : Option Str)
      → after ≡ some az
      → (after ≡ before) ⊎ ((before ≡ none) × (after ≡ some az))
      → (before ≡ none) ⊎ (before ≡ some az)
  own_before az before after own (inl same) = inr (sym same ∙ own)
  own_before az before after own (inr (free, _)) = inl free

  other_before :
      (az held : Str) (before after : Option Str)
      → held ≢ az
      → after ≡ some held
      → (after ≡ before) ⊎ ((before ≡ none) × (after ≡ some az))
      → before ≡ some held
  other_before az held before after apart is (inl same) = sym same ∙ is
  other_before az held before after apart is (inr (_, made)) = absurd (apart cc)

  module _ (kind : Failure) (now : ℕ) (s : StatusMonitor) (st : Store)
      (healthy : s.is_healthy ≡ true) where
    read-Ends :
        (st' : Store) (o : Option Str)
        → create st s.az_name ≡ (st', none)
        → read st' ≡ o
        → Ends s.az_name st (with_lock_read z kind now o (record s { lock_handle = [] }), st')
    unfolding with_lock_read mark_failed
    read-Ends st' none refused unread = calls_failed _ st' healthy refused unread
    read-Ends st' (some held) refused is =
        let holds = read_held st' held is in
        let before = create_failed st st' s.az_name refused in
        elim (Bool-cases (str_eq held s.az_name)) [
          | inl same ↦
              let own = holds ∙ ap some ((str_eq_iff held s.az_name).0 same) in
              rw same (failed_over _ st' refl (own_before s.az_name _ _ own before) own)
          | inr other ↦
              let apart : held ≢ s.az_name =
                λ e. false_true (sym other ∙ (str_eq_iff held s.az_name).1 e) in
              rw other (
                other_zone _ st' held healthy apart
                  (other_before s.az_name held _ _ apart holds before) holds)
        ]
      where
        false_true : false ≡ true → ⊥
        false_true e = cc

    -- A failover of a healthy monitor ends in one of three ways. The lock was free or held for its own
    -- zone, the monitor is unhealthy, and the lock is held for that zone; or the lock was and is held
    -- for another zone, and the monitor stays healthy; or both the creation of the lock and the
    -- reading of it gave an error, and the monitor stays healthy.
    pub failover_az-Ends : Ends s.az_name st (failover_az z kind now (s, st))
    unfolding failover_az after_lock mark_failed
    failover_az-Ends = by_answer (create st s.az_name) refl
      where
        by_answer :
            (p : Store × Option Str)
            → create st s.az_name ≡ p
            → Ends s.az_name st (after_lock z kind now s p)
        by_answer (st', some path) made =
            let (free, holds, _) = create_made st st' s.az_name path made in
            failed_over _ st' refl (inl free) holds
        by_answer (st', none) refused = read-Ends st' (read st') refused refl
