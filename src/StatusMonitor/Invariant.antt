-- ===== src/StatusMonitor/Invariant.antt =====
-- The health and the kind of failure agree in every state that the monitor reaches.
use api_proxy.Prelude.{
  ℕ, ◌≡◌, refl, Bool, true, false, not, Option, none, some, List, [], ◌∷◌, if◌then◌else◌,
  Bool-cases, inl, inr, ◌⊎◌, subst, sym,
}
use api_proxy.Text.{Str, is_blank, str_eq}
use api_proxy.StatusMonitor.ZooKeeper.{ZooKeeper}
use api_proxy.StatusMonitor.State.{
  Failure, no_failure, connectivity_failure, monitoring_failure, StatusMonitor, Both, failover_az,
  after_lock, with_lock_read, mark_failed, recover_az, interpret_raven_status, interpret_az_status,
  report_unhealthy, report_healthy, check_az, Seen, round, monitor, new_status_monitor,
}

abbrev pub IsFailure : Failure → Type 0
IsFailure kind = (kind ≡ connectivity_failure) ⊎ (kind ≡ monitoring_failure)

-- Healthy with no failure, or unhealthy with one of the two kinds of failure.
abbrev pub Agrees : StatusMonitor → Type 0
Agrees s =
    ((s.is_healthy ≡ true) × (s.failure_type ≡ no_failure))
    ⊎ ((s.is_healthy ≡ false) × IsFailure s.failure_type)

module _ (z : ZooKeeper) where
  open z use {Store, create, read}

  with_lock_read-Agrees :
      (kind : Failure) (now : ℕ) (o : Option Str) (s : StatusMonitor)
      → IsFailure kind
      → Agrees s
      → Agrees (with_lock_read z kind now o s)
  unfolding with_lock_read mark_failed
  with_lock_read-Agrees kind now none s k h = h
  with_lock_read-Agrees kind now (some az) s k h = elim (Bool-cases (str_eq az s.az_name)) [
    | inl own ↦ rw own (inr (refl, k))
    | inr other ↦ rw other h
  ]

  after_lock-Agrees :
      (kind : Failure) (now : ℕ) (s : StatusMonitor) (p : Store × Option Str)
      → IsFailure kind
      → Agrees s
      → Agrees (after_lock z kind now s p).0
  unfolding after_lock mark_failed
  after_lock-Agrees kind now s (st, some handle) k h = inr (refl, k)
  after_lock-Agrees kind now s (st, none) k h =
      with_lock_read-Agrees kind now (read st) (record s { lock_handle = [] }) k h

  failover_az-Agrees :
      (kind : Failure) (now : ℕ) (b : Both z)
      → IsFailure kind
      → Agrees b.0
      → Agrees (failover_az z kind now b).0
  unfolding failover_az
  failover_az-Agrees kind now (s, st) k h = after_lock-Agrees kind now s (create st s.az_name) k h

  recover_az-Agrees : (now : ℕ) (b : Both z) → Agrees (recover_az z now b).0
  unfolding recover_az
  recover_az-Agrees now (s, st) = elim (Bool-cases (is_blank s.lock_handle)) [
    | inl blank ↦ rw blank (inl (refl, refl))
    | inr given ↦ rw given (inl (refl, refl))
  ]

  -- A test that keeps what its two branches keep.
  if-Agrees : (t : Bool) (x y : Both z) → Agrees x.0 → Agrees y.0 → Agrees (if t then x else y).0
  if-Agrees true x y h k = h
  if-Agrees false x y h k = k

  interpret_raven_status-Agrees :
      (connected : Bool) (now : ℕ) (b : Both z)
      → Agrees b.0
      → Agrees (interpret_raven_status z connected now b).0
  unfolding interpret_raven_status
  interpret_raven_status-Agrees false now (s, st) h =
      failover_az-Agrees connectivity_failure now (s, st) (inl refl) h
  interpret_raven_status-Agrees true now (s, st) h =
      if-Agrees _ (recover_az z now (s, st)) (s, st) (recover_az-Agrees now (s, st)) h

  interpret_az_status-Agrees :
      (az_status : Bool) (now : ℕ) (b : Both z)
      → Agrees b.0
      → Agrees (interpret_az_status z az_status now b).0
  unfolding interpret_az_status
  interpret_az_status-Agrees az_status now b h =
      later (report_unhealthy z az_status now b) (earlier b h)
    where
      earlier : (b : Both z) → Agrees b.0 → Agrees (report_unhealthy z az_status now b).0
      earlier (s, st) h =
          unfold report_unhealthy in
          if-Agrees _ (failover_az z monitoring_failure now (s, st)) (s, st)
            (failover_az-Agrees monitoring_failure now (s, st) (inr refl) h) h

      later : (b : Both z) → Agrees b.0 → Agrees (report_healthy z az_status now b).0
      later (s, st) h =
          unfold report_healthy in
          if-Agrees _ (recover_az z now (s, st)) (s, st) (recover_az-Agrees now (s, st)) h

  check_az-Agrees :
      (o : Option Bool) (now : ℕ) (b : Both z) → Agrees b.0 → Agrees (check_az z o now b).0
  unfolding check_az
  check_az-Agrees none now b h = h
  check_az-Agrees (some az_status) now b h = interpret_az_status-Agrees az_status now b h

  round-Agrees : (seen : Seen) (b : Both z) → Agrees b.0 → Agrees (round z seen b).0
  unfolding round
  round-Agrees seen b h =
      let raven = interpret_raven_status-Agrees seen.connected seen.now b h in
      if-Agrees seen.connected _ _ (check_az-Agrees seen.az_status seen.now _ raven) raven

  monitor-Agrees : (seens : List Seen) (b : Both z) → Agrees b.0 → Agrees (monitor z seens b).0
  unfolding monitor
  monitor-Agrees [] b h = h
  monitor-Agrees (seen ∷ seens) b h = monitor-Agrees seens (round z seen b) (round-Agrees seen b h)

  -- From its start, through any rounds and over any store, the monitor is either healthy with no
  -- failure recorded, or unhealthy with a connectivity or a monitoring failure recorded.
  pub reached-Agrees :
      (az : Option Str) (started : ℕ) (st : Store) (seens : List Seen)
      → Agrees (monitor z seens ((new_status_monitor az started).0, st)).0
  unfolding new_status_monitor
  reached-Agrees none started st seens = monitor-Agrees seens _ (inl (refl, refl))
  reached-Agrees (some name) started st seens = monitor-Agrees seens _ (inl (refl, refl))

  kept_healthy :
      (s : StatusMonitor) (st : Store) (now : ℕ)
      → s.is_healthy ≡ true
      → (if not s.is_healthy then recover_az z now (s, st) else (s, st)).0.is_healthy ≡ true
  kept_healthy s st now well =
      subst (λ t. (if not t then recover_az z now (s, st) else (s, st)).0.is_healthy ≡ true)
        (sym well) well

  told_healthy : (now : ℕ) (b : Both z) → (interpret_az_status z true now b).0.is_healthy ≡ true
  unfolding interpret_az_status report_unhealthy report_healthy recover_az
  told_healthy now (s, st) = elim (Bool-cases s.is_healthy) [
    | inl well ↦ kept_healthy s st now well
    | inr sick ↦ elim (Bool-cases (is_blank s.lock_handle)) [
      | inl blank ↦ rw (sick, interpret_az_status) (rw blank refl)
      | inr given ↦ rw (sick, interpret_az_status) (rw given refl)
    ]
  ]

  -- A round that finds the broker, and that the monitoring service tells that the zone is healthy,
  -- leaves the monitor healthy, whatever failed before.
  pub round_recovers :
      (seen : Seen) (b : Both z)
      → seen.connected ≡ true
      → seen.az_status ≡ some true
      → (round z seen b).0.is_healthy ≡ true
  unfolding round check_az
  round_recovers seen b up healthy =
      rw up
        (rw (healthy, check_az) (told_healthy seen.now (interpret_raven_status z true seen.now b)))
