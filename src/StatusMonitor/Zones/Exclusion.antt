-- ===== src/StatusMonitor/Zones/Exclusion.antt =====
-- At most one zone is failed over.
use api_proxy.Prelude.{
  ℕ, ◌<◌, ◌==◌, ◌≡◌, ◌≢◌, refl, sym, ◌∙◌, subst, true, false, Option, none, some, ◌⊎◌, inl, inr,
  Bool-cases, arith, ==_iff,
}
use api_proxy.Text.{Str}
use api_proxy.StatusMonitor.ZooKeeper.{ZooKeeper}
use api_proxy.StatusMonitor.State.{new_status_monitor}
use api_proxy.StatusMonitor.Zones.{
  Instance, System, update, Step, pick, started, Reach, start, later,
}
use api_proxy.StatusMonitor.Zones.Moves.{is_recovering, Own, Change, Kept, move-Kept}

module _ (z : ZooKeeper) where
  open z use {Store, node}

  -- What an instance of another zone may say stays true.
  other-Own :
      (zone other : Str) (before after : Option Str) (x : Instance)
      → zone ≢ other
      → Change z zone before after
      → Own z other before x
      → Own z other after x
  unfolding Change
  other-Own zone other before after x apart c o = record {
    name = o.name;
    held = λ h. carried (o.held h) c;
    failed = λ sick steady. carried (o.failed sick steady) c;
  }
    where
      carried :
          before ≡ some other
          → (after ≡ before) ⊎ ((before ≡ none) ⊎ (before ≡ some zone))
          → after ≡ some other
      carried is (inl same) = same ∙ is
      carried is (inr (inl free)) = absurd (cc)
      carried is (inr (inr own)) = absurd (apart cc)

  module _ (n : ℕ) (zone : ℕ → Str)
      (apart : (i j : ℕ) → i < n → j < n → i ≢ j → zone i ≢ zone j) where
    -- Every instance says the truth about the lock.
    abbrev AllOwn : System z → Type 0
    AllOwn s = (i : ℕ) → i < n → Own z (zone i) (node s.store) (s.instances i)

    Step-AllOwn : {s t : System z} → AllOwn s → Step z n s t → AllOwn t
    unfolding update
    Step-AllOwn {s} own (pick i seen lt x st is) j lt' =
        let kept : Kept z (zone i) s.store (x, st) = subst (Kept z (zone i) s.store) is (
          move-Kept z (zone i) seen (s.instances i).monitor s.store (s.instances i).pc
            (own i lt)) in
        elim (Bool-cases (j == i)) [
          | inl same ↦
              let e : j ≡ i = (==_iff j i).0 same in
              rw same (subst (λ k. Own z (zone k) (node st) x) (sym e) kept.own)
          | inr other ↦
              let ne : i ≢ j = λ e. ground (arith, other) in
              rw other (
                other-Own (zone i) (zone j) (node s.store) (node st) (s.instances j)
                  (apart i j lt lt' ne) kept.change (own j lt'))
        ]

    Reach-AllOwn : {s : System z} → Reach z n zone s → AllOwn s
    unfolding started new_status_monitor
    Reach-AllOwn (start st) i lt = record { name = refl; held = λ h. cc; failed = λ sick _. cc }
    Reach-AllOwn (later r step) i lt = Step-AllOwn (Reach-AllOwn r) step i lt

    -- With one instance in each zone, in every interleaving of their loops, from every state of
    -- the lock and whichever calls of ZooKeeper fail, at most one zone is failed over, where an instance that has removed the lock
    -- and is about to report its zone healthy is not counted; and that zone holds the lock.
    pub failed_over-exclusive :
        {s : System z}
        → Reach z n zone s
        → (i j : ℕ) → i < n
        → j < n
        → (s.instances i).monitor.is_healthy ≡ false
        → is_recovering (s.instances i).pc ≡ false
        → (s.instances j).monitor.is_healthy ≡ false
        → is_recovering (s.instances j).pc ≡ false
        → (i ≡ j) × (node s.store ≡ some (zone i))
    failed_over-exclusive r i j lt lt' sick steady sick' steady' =
        let holds = (Reach-AllOwn r i lt).failed sick steady in
        let holds' = (Reach-AllOwn r j lt').failed sick' steady' in
        (same_index (sym holds ∙ holds') (Bool-cases (i == j)), holds)
      where
        same_index : some (zone i) ≡ some (zone j) → ((i == j) ≡ true) ⊎ ((i == j) ≡ false) → i ≡ j
        same_index e (inl same) = (==_iff i j).0 same
        same_index e (inr other) = absurd (apart i j lt lt' (λ eq. ground (arith, other)) cc)
