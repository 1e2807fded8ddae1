-- ===== src/StatusMonitor/Zones/Alone.antt =====
-- The steps of one instance, with no other between them, are a round of its loop.
use api_proxy.Prelude.{
  ℕ, zero, suc, ◌≡◌, refl, sym, ◌∙◌, Bool, true, false, not, ◌&&◌, Option, none, some,
  if◌then◌else◌, Bool-cases, inl, inr,
}
use api_proxy.Text.{Str, is_blank}
use api_proxy.StatusMonitor.ZooKeeper.{ZooKeeper}
use api_proxy.StatusMonitor.State.{
  Failure, connectivity_failure, monitoring_failure, StatusMonitor, Both, is_connectivity, Seen,
  after_lock, failover_az, recover_az, interpret_raven_status, report_unhealthy, report_healthy,
  interpret_az_status, check_az, round,
}
use api_proxy.StatusMonitor.Zones.{
  Pc, top, asking, reading, recovering, Instance, attempted, release, report, see_broker, see_az,
  move,
}

module _ (z : ZooKeeper) (seen : Seen) where
  open z use {Store, create, delete, node}

  -- The steps from a point of the loop to its top, each with what this round sees.
  steps : ℕ → Pc → StatusMonitor → Store → Both z
  steps zero pc s st = (s, st)
  steps (suc n) top s st = (s, st)
  steps (suc n) asking s st = let (x, st') = move z seen asking s st in steps n x.pc x.monitor st'
  steps (suc n) (reading kind) s st =
      let (x, st') = move z seen (reading kind) s st in steps n x.pc x.monitor st'
  steps (suc n) (recovering ask) s st =
      let (x, st') = move z seen (recovering ask) s st in steps n x.pc x.monitor st'

  -- The same from what a step gives.
  steps_from : ℕ → Instance × Store → Both z
  unfolding steps
  steps_from n (x, st) = steps n x.pc x.monitor st

  -- A whole round. From the top there are at most four steps: the removal of the lock, the report, the
  -- question, and what follows from its answer.
  unfoldable pub alone : Both z → Both z
  unfolding steps_from
  alone (s, st) = steps_from 4 (move z seen top s st)

  attempted-steps :
      (n : ℕ) (kind : Failure) (s : StatusMonitor) (p : Store × Option Str)
      → steps_from (suc (suc n)) (attempted z kind seen.now s p) ≡ after_lock z kind seen.now s p
  unfolding steps_from steps attempted after_lock move
  attempted-steps n kind s (st, some handle) = refl
  attempted-steps n kind s (st, none) = refl

  -- A test of which both branches agree.
  if-steps :
      (n : ℕ) (t : Bool) (p q : Instance × Store) (b c : Both z)
      → steps_from n p ≡ b
      → steps_from n q ≡ c
      → steps_from n (if t then p else q) ≡ (if t then b else c)
  if-steps n true p q b c e f = e
  if-steps n false p q b c e f = f

  release-steps :
      (n : ℕ) (s : StatusMonitor) (st : Store)
      → steps_from (suc (suc n)) (release z false s st) ≡ recover_az z seen.now (s, st)
  unfolding steps_from steps release report recover_az move
  release-steps n s st = elim (Bool-cases (is_blank s.lock_handle)) [
    | inl blank ↦ rw blank refl
    | inr given ↦ rw given refl
  ]

  report_healthy_no : (b : Both z) → report_healthy z false seen.now b ≡ b
  unfolding report_healthy
  report_healthy_no (s, st) = refl

  -- The tests of `interpretAZStatus`, of which at most one holds.
  told_sick :
      (s : StatusMonitor) (st : Store)
      → interpret_az_status z false seen.now (s, st)
        ≡ (if s.is_healthy then failover_az z monitoring_failure seen.now (s, st) else (s, st))
  unfolding interpret_az_status report_unhealthy
  told_sick s st = report_healthy_no (report_unhealthy z false seen.now (s, st))

  told_well :
      (s : StatusMonitor) (st : Store)
      → interpret_az_status z true seen.now (s, st)
        ≡ (if not s.is_healthy then recover_az z seen.now (s, st) else (s, st))
  unfolding interpret_az_status report_unhealthy report_healthy
  told_well s st = refl

  see_az-steps :
      (n : ℕ) (s : StatusMonitor) (st : Store) (o : Option Bool)
      → steps_from (suc (suc n)) (see_az z o seen.now s st) ≡ check_az z o seen.now (s, st)
  unfolding steps steps_from see_az check_az failover_az
  see_az-steps n s st none = refl
  see_az-steps n s st (some false) =
      if-steps (suc (suc n)) s.is_healthy _ _ _ _
        (attempted-steps n monitoring_failure s (create st s.az_name)) refl
      ∙ sym (told_sick s st)
  see_az-steps n s st (some true) =
      if-steps (suc (suc n)) (not s.is_healthy) _ _ _ _ (release-steps n s st) refl
      ∙ sym (told_well s st)

  asking-steps :
      (n : ℕ) (s : StatusMonitor) (st : Store)
      → steps (suc (suc (suc n))) asking s st ≡ check_az z seen.az_status seen.now (s, st)
  unfolding steps steps_from move
  asking-steps n s st = see_az-steps n s st seen.az_status

  -- After a recovery comes the question.
  recovered-steps :
      (s : StatusMonitor) (st : Store)
      → steps_from 4 (release z true s st)
        ≡ check_az z seen.az_status seen.now (recover_az z seen.now (s, st))
  unfolding steps steps_from release report recover_az move
  recovered-steps s st = elim (Bool-cases (is_blank s.lock_handle)) [
    | inl blank ↦ rw blank (asking-steps 0 _ st)
    | inr given ↦ rw given (asking-steps 0 _ (delete st s.lock_handle))
  ]

  check_az-if :
      (t : Bool) (b c : Both z)
      → (if t then check_az z seen.az_status seen.now b else check_az z seen.az_status seen.now c)
        ≡ check_az z seen.az_status seen.now (if t then b else c)
  check_az-if true b c = refl
  check_az-if false b c = refl

  connected-round :
      (s : StatusMonitor) (st : Store)
      → steps_from 4 (see_broker z true seen.now s st)
        ≡ check_az z seen.az_status seen.now (interpret_raven_status z true seen.now (s, st))
  unfolding steps_from steps see_broker interpret_raven_status
  connected-round s st =
      if-steps 4 (not s.is_healthy && is_connectivity s.failure_type) _ _ _ _ (recovered-steps s st)
        (asking-steps 1 s st)
      ∙ check_az-if (not s.is_healthy && is_connectivity s.failure_type) _ _

  broker-round :
      (connected : Bool) (s : StatusMonitor) (st : Store)
      → let b = interpret_raven_status z connected seen.now (s, st) in
        steps_from 4 (see_broker z connected seen.now s st)
        ≡ (if connected then check_az z seen.az_status seen.now b else b)
  unfolding see_broker interpret_raven_status failover_az
  broker-round true s st = connected-round s st
  broker-round false s st = attempted-steps 2 connectivity_failure s (create st s.az_name)

  -- If no other instance runs between its steps, an instance does in them what a round of its loop does.
  pub alone-round : (b : Both z) → alone b ≡ round z seen b
  unfolding alone round move
  alone-round (s, st) = broker-round seen.connected s st
