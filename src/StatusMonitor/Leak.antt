-- ===== src/StatusMonitor/Leak.antt =====
-- What becomes of the lock when the broker is lost and found again.
use api_proxy.Prelude.{
  ℕ, ◌≡◌, ◌≢◌, refl, ap, sym, ◌∙◌, true, false, none, some, List, [], ◌∷◌, ◌++◌, All, subst,
}
use api_proxy.Text.{Str, is_blank}
use api_proxy.StatusMonitor.ZooKeeper.{ZooKeeper, Reliable}
use api_proxy.StatusMonitor.State.{
  no_failure, connectivity_failure, StatusMonitor, Both, failover_az, recover_az,
  interpret_raven_status, check_az, Seen, round, monitor,
}
use api_proxy.StatusMonitor.Failover.{failover_az-free, failover_az-own}

abbrev pub IsDown : Seen → Type 0
IsDown seen = seen.connected ≡ false

-- A round that finds the broker, and cannot ask the monitoring service.
abbrev pub back : ℕ → Seen
back now = record { connected = true; az_status = none; now = now }

abbrev failed_over : Str → ℕ → StatusMonitor → StatusMonitor
failed_over path now s = record s {
  is_healthy = false;
  last_changed = now;
  failure_type = connectivity_failure;
  lock_handle = path;
}

blank_false : (s : Str) → s ≢ [] → is_blank s ≡ false
blank_false [] h = absurd (h refl)
blank_false (_ ∷ _) h = refl

module _ (z : ZooKeeper) (reliable : Reliable z) where
  open z use {Store, create, delete, node}

  round-down :
      (seen : Seen) (b : Both z)
      → IsDown seen
      → round z seen b ≡ failover_az z connectivity_failure seen.now b
  unfolding round interpret_raven_status
  round-down seen (s, st) down = rw down

  round-back :
      (now : ℕ) (s : StatusMonitor) (st : Store)
      → s.is_healthy ≡ false
      → s.failure_type ≡ connectivity_failure
      → round z (back now) (s, st) ≡ recover_az z now (s, st)
  unfolding round interpret_raven_status check_az
  round-back now s st sick kind = rw sick (rw kind)

  -- Failed over for want of the broker, with the lock held for this zone and the handle forgotten.
  record IsForgotten (az : Str) (b : Both z) : Type 0 where
    name : b.0.az_name ≡ az
    sick : b.0.is_healthy ≡ false
    kind : b.0.failure_type ≡ connectivity_failure
    handle : b.0.lock_handle ≡ []
    held : node b.1 ≡ some az

  down-IsForgotten :
      (seen : Seen) (s : StatusMonitor) (st : Store) (az : Str)
      → IsDown seen
      → s.az_name ≡ az
      → node st ≡ some az
      → IsForgotten az (round z seen (s, st))
  down-IsForgotten seen s st az down name held =
      subst (IsForgotten az)
        (sym (
          round-down seen (s, st) down
          ∙ failover_az-own z reliable connectivity_failure seen.now s st
              (held ∙ ap some (sym name))))
        (record { name = name; sick = refl; kind = refl; handle = refl; held = held })

  downs-IsForgotten :
      (seens : List Seen) (b : Both z) (az : Str)
      → All IsDown seens
      → IsForgotten az b
      → IsForgotten az (monitor z seens b)
  unfolding monitor
  downs-IsForgotten [] b az _ f = f
  downs-IsForgotten (seen ∷ seens) (s, st) az (down, downs) f =
      downs-IsForgotten seens (round z seen (s, st)) az downs
        (down-IsForgotten seen s st az down f.name f.held)

  monitor-append :
      (xs ys : List Seen) (b : Both z) → monitor z (xs ++ ys) b ≡ monitor z ys (monitor z xs b)
  unfolding monitor
  monitor-append [] ys b = refl
  monitor-append (x ∷ xs) ys b = monitor-append xs ys (round z x b)

  recover-IsForgotten :
      (now : ℕ) (b : Both z) (az : Str)
      → IsForgotten az b
      → ((round z (back now) b).0.is_healthy ≡ true) × (node (round z (back now) b).1 ≡ some az)
  recover-IsForgotten now (s, st) az f =
      let is = round-back now s st f.sick f.kind ∙ recovered in (rw is refl, rw is f.held)
    where
      recovered :
          recover_az z now (s, st)
          ≡ (record s { last_changed = now; is_healthy = true; failure_type = no_failure }, st)
      recovered = unfold recover_az in rw f.handle

  recover_given :
      (now : ℕ) (s : StatusMonitor) (st : Store)
      → s.lock_handle ≢ []
      → recover_az z now (s, st) ≡ (
        record s {
          lock_handle = [];
          last_changed = now;
          is_healthy = true;
          failure_type = no_failure;
        },
        delete st s.lock_handle,
      )
  unfolding recover_az
  recover_given now s st given = rw (blank_false s.lock_handle given)

  -- If no call of ZooKeeper fails, the lock was free, and the broker is found again after two rounds
  -- or more without it, the monitor is healthy but the lock that it took is still held for its zone: the second round overwrote the handle.
  pub lock_leaks :
      (s : StatusMonitor) (st : Store) (first second : Seen) (more : List Seen) (now : ℕ)
      → node st ≡ none
      → IsDown first
      → IsDown second
      → All IsDown more
      → let b = monitor z (first ∷ second ∷ more ++ back now ∷ []) (s, st) in
        (b.0.is_healthy ≡ true) × (node b.1 ≡ some s.az_name)
  unfolding monitor
  lock_leaks s st first second more now free down down' downs =
      let (path, st', is, held, _, _) =
        failover_az-free z reliable connectivity_failure first.now s st free in
      let once = round-down first (s, st) down ∙ is in
      let twice =
        subst (λ b. IsForgotten s.az_name (round z second b)) (sym once)
          (down-IsForgotten second (failed_over path first.now s) st' s.az_name down' refl held) in
      subst (λ b. (b.0.is_healthy ≡ true) × (node b.1 ≡ some s.az_name))
        (sym (monitor-append (first ∷ second ∷ more) (back now ∷ []) (s, st)))
        (recover-IsForgotten now (monitor z (first ∷ second ∷ more) (s, st)) s.az_name
          (downs-IsForgotten more (round z second (round z first (s, st))) s.az_name downs twice))

  -- After a single round without the broker the lock is given back.
  pub lock_released :
      (s : StatusMonitor) (st : Store) (first : Seen) (now : ℕ)
      → node st ≡ none
      → IsDown first
      → let b = monitor z (first ∷ back now ∷ []) (s, st) in
        (b.0.is_healthy ≡ true) × (node b.1 ≡ none) × (b.0.lock_handle ≡ [])
  unfolding monitor
  lock_released s st first now free down =
      let (path, st', is, held, given, goes) =
        failover_az-free z reliable connectivity_failure first.now s st free in
      let once = round-down first (s, st) down ∙ is in
      let sick = failed_over path first.now s in
      let both =
        ap (round z (back now)) once
        ∙ (round-back now sick st' refl refl ∙ recover_given now sick st' given) in
      subst (λ b. (b.0.is_healthy ≡ true) × (node b.1 ≡ none) × (b.0.lock_handle ≡ [])) (sym both)
        (refl, goes, refl)
