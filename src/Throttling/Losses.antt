-- ===== src/Throttling/Losses.antt =====
-- How many requests of a bucket are counted where nobody reads any more.
use api_proxy.Prelude.{
  ℕ, ◌+◌, ◌^◌, ◌≡◌, ◌≤◌, ◌<◌, refl, sym, subst, Bool, true, false, Option, none, some, List, [],
  ◌∷◌, if◌then◌else◌, ◌==◌, inl, inr, Bool-cases, arith, ltb, length, not,
}
use api_proxy.Text.{Str, str_eq}
use api_proxy.Text.Laws.{str_eq_iff}
use api_proxy.Text.Maps.{lookup}
use api_proxy.Throttling.State.{
  Buffer, Shared, Ingester, idle, received, loaded, copying, copied, Synchroniser, waiting, swapped,
  reporting, answered, State, Event, arrive, ingester_runs, synchroniser_runs, step, offer, ingest,
  synchronise, receive, count_at, new_state, run, queue_size,
}
use api_proxy.Throttling.Ledger.{
  count_in, unread, one_if, pending, Ledger, blank_ledger, holds, note_hit, note_taken,
  note_ingester, note_synchroniser, note, audit,
}
use api_proxy.Throttling.Buffers.{Held, Inv}
use api_proxy.Throttling.Invariant.{Holds, step-Holds, new_state-Holds}
use api_proxy.Throttling.Accounting.{Balance, is_lost, note_hit-fields, note_read-fields}
use api_proxy.Throttling.Balance.{audit-Balance}

-- The ingester is about to count in a buffer that was swapped out since it was loaded.
abbrev pub stale : ℕ → Ingester → ℕ
stale current idle = 0
stale current (received key) = 0
stale current (loaded key p buf) = one_if (not (p == current))
stale current (copying key p buf) = 0
stale current (copied key p buf one) = 0

abbrev Bounded : Shared → Ingester → Ledger → Type 0
Bounded s i l = l.lost + stale s.current i ≤ l.swaps

eq_self : (n : ℕ) → (n == n) ≡ true
eq_self n = ground arith

-- An increment of the current buffer is not lost.
kept_current :
    (k key : Str) (a p : ℕ) (buf : Buffer) (s : Shared) (y : Synchroniser)
    → lookup key buf ≡ some a
    → Held s.current s.buffer p buf
    → (p == s.current) ≡ true
    → is_lost k a key s y ≡ false
unfolding holds
kept_current k key a p buf s y at (inr (other, _)) same = absurd (other (ground arith))
kept_current k key a p buf s y at (inl (_, is)) same = elim (Bool-cases (str_eq key k)) [
  | inr other ↦ rw other refl
  | inl mine ↦
      let there : lookup k s.buffer ≡ some a =
        subst (λ j. lookup j s.buffer ≡ some a) ((str_eq_iff key k).0 mine)
          (subst (λ m. lookup key m ≡ some a) is at) in
      rw mine (rw (there, holds) (rw (eq_self a) refl))
]

hit-Bounded :
    (k key : Str) (a p : ℕ) (buf : Buffer) (s : Shared) (y : Synchroniser) (l : Ledger)
    → lookup key buf ≡ some a
    → Held s.current s.buffer p buf
    → l.lost + one_if (not (p == s.current)) ≤ l.swaps
    → (note_hit k (some a) key s y l).lost ≤ (note_hit k (some a) key s y l).swaps
unfolding one_if
hit-Bounded k key a p buf s y l at held h = elim (Bool-cases (p == s.current)) [
  | inl same ↦ rw (note_hit-fields k a key s y l) (
      rw (kept_current k key a p buf s y at held same) (
        subst (λ b. l.lost + one_if (not b) ≤ l.swaps → l.lost ≤ l.swaps) (sym same)
          (λ g. omega arith) h))
  | inr other ↦
      rw (note_hit-fields k a key s y l)
        (within (is_lost k a key s y) (subst (λ b. l.lost + one_if (not b) ≤ l.swaps) other h))
]
  where
    within : (b : Bool) → l.lost + 1 ≤ l.swaps → (if b then l.lost + 1 else l.lost) ≤ l.swaps
    within true g = g
    within false g = omega arith

count_at-Bounded :
    (o : Option ℕ) (k key : Str) (p : ℕ) (buf : Buffer) (s : Shared) (y : Synchroniser) (l : Ledger)
    → lookup key buf ≡ o
    → Held s.current s.buffer p buf
    → l.lost + one_if (not (p == s.current)) ≤ l.swaps
    → Bounded (count_at o key p buf s).0 (count_at o key p buf s).1 (note_hit k o key s y l)
unfolding count_at note_hit
count_at-Bounded none k key p buf s y l at held h = omega arith
count_at-Bounded (some a) k key p buf s y l at held h =
    omega (arith, hit-Bounded k key a p buf s y l at held h)

receive-Bounded :
    (queue : List Str) (k : Str) (s : Shared) (l : Ledger)
    → l.lost + 0 ≤ l.swaps
    → Bounded (receive queue s).0 (receive queue s).1 (note_taken k queue l)
unfolding receive note_taken
receive-Bounded [] k s l h = h
receive-Bounded (key ∷ rest) k s l h = h

ingest-Bounded :
    (k : Str) (s : Shared) (i : Ingester) (y : Synchroniser) (l : Ledger)
    → Inv s i y
    → Bounded s i l
    → Bounded (ingest s i).0 (ingest s i).1 (note_ingester k s i y l)
unfolding ingest note_ingester
ingest-Bounded k s idle y l v h = receive-Bounded s.queue k s l h
ingest-Bounded k s (received key) y l v h = rw (eq_self s.current) (unfold one_if in h)
ingest-Bounded k s (loaded key p buf) y l v h =
    let (held, _, _) = v.ingester in count_at-Bounded (lookup key buf) k key p buf s y l refl held h
ingest-Bounded k s (copying key p buf) y l v h = h
ingest-Bounded k s (copied key p buf one) y l v h = elim (Bool-cases (p == s.current)) [
  | inl same ↦ rw same h
  | inr other ↦ rw other h
]

one_if-le : (b : Bool) → one_if b ≤ 1
unfolding one_if
one_if-le true = omega arith
one_if-le false = omega arith

stale-le : (current : ℕ) (i : Ingester) → stale current i ≤ 1
stale-le current idle = omega arith
stale-le current (received key) = omega arith
stale-le current (loaded key p buf) = one_if-le (not (p == current))
stale-le current (copying key p buf) = omega arith
stale-le current (copied key p buf one) = omega arith

synchronise-Bounded :
    (k : Str) (enabled : Bool) (reply : Option (List Str)) (s : Shared) (i : Ingester)
    (y : Synchroniser) (l : Ledger)
    → Bounded s i l
    → let r = synchronise enabled reply s y in Bounded r.0 i (note_synchroniser k enabled s y l)
unfolding synchronise note_synchroniser
synchronise-Bounded k enabled reply s i waiting l h = omega (arith, stale-le s.next i)
synchronise-Bounded k true reply s i (swapped buf) l h = h
synchronise-Bounded k false reply s i (swapped buf) l h = h
synchronise-Bounded k enabled reply s i (reporting ((key, a) ∷ buf) sent) l h =
    rw (note_read-fields k key a s.counters l) h
synchronise-Bounded k enabled reply s i (reporting [] sent) l h = h
synchronise-Bounded k enabled reply s i (answered buckets) l h = h

step-Bounded :
    (k : Str) (e : Event) (t : State) (l : Ledger)
    → Holds t
    → Bounded t.shared t.ingester l
    → Bounded (step e t).shared (step e t).ingester (note k e t l)
unfolding step note
step-Bounded k (arrive key) t l v h = offered
  where
    offered : Bounded (offer key t.shared) t.ingester l
    offered =
        unfold offer in
        elim (Bool-cases (ltb (length t.shared.queue) queue_size)) [
          | inl room ↦ rw room h
          | inr full ↦ rw full h
        ]
step-Bounded k ingester_runs t l v h = ingest-Bounded k t.shared t.ingester t.synchroniser l v h
step-Bounded k (synchroniser_runs enabled reply) t l v h =
    synchronise-Bounded k enabled reply t.shared t.ingester t.synchroniser l h

audit-Bounded :
    (k : Str) (es : List Event) (t : State) (l : Ledger)
    → Holds t
    → Bounded t.shared t.ingester l
    → let (t', l') = audit k es t l in Bounded t'.shared t'.ingester l'
unfolding audit
audit-Bounded k [] t l v h = h
audit-Bounded k (e ∷ es) t l v h =
    audit-Bounded k es (step e t) (note k e t l) (step-Holds e t v) (step-Bounded k e t l v h)

-- In every interleaving of the ingester, the synchroniser and the requests with fewer than 2^64
-- steps, the requests of a bucket that were taken from the channel are the one that the ingester
-- holds, those counted in the buffer, those in the buffer being reported, those reported, those
-- dropped because reporting is disabled, and those counted in a buffer after it was read; and of the
-- last there are not more than swaps of the buffer.
pub run-Balance :
    (k : Str) (es : List Event)
    → length es < 2 ^ 64
    → let (t, l) = audit k es new_state blank_ledger in
      (t ≡ run es new_state) × Balance k t.shared t.ingester t.synchroniser l × (l.lost ≤ l.swaps)
run-Balance k es small =
    let (is, _, sum) =
      audit-Balance k es new_state blank_ledger new_state-Holds (omega arith) start in
    (is, sum, omega (arith, audit-Bounded k es new_state blank_ledger new_state-Holds none_lost))
  where
    start : Balance k new_state.shared new_state.ingester new_state.synchroniser blank_ledger
    start = unfold new_state pending unread count_in lookup in omega arith

    none_lost : Bounded new_state.shared new_state.ingester blank_ledger
    none_lost = unfold new_state in omega arith
