-- ===== src/Throttling/Balance.antt =====
-- The account of a bucket balances after every step.
use api_proxy.Prelude.{
  ℕ, ◌+◌, ◌^◌, ◌≡◌, ◌≤◌, ◌<◌, refl, ◌∙◌, subst, Bool, true, false, Option, none, some, List, [],
  ◌∷◌, if◌then◌else◌, ◌==◌, inl, inr, Bool-cases, arith, ltb, length,
}
use api_proxy.Text.{Str, str_eq}
use api_proxy.Text.Laws.{str_eq_iff}
use api_proxy.Text.Maps.{lookup, insert, lookup-insert}
use api_proxy.Throttling.State.{
  Buffer, Shared, Ingester, idle, received, loaded, copying, copied, Synchroniser, waiting, swapped,
  reporting, answered, State, Event, arrive, ingester_runs, synchroniser_runs, step, offer, ingest,
  synchronise, put, receive, count_at, run, queue_size,
}
use api_proxy.Throttling.Ledger.{
  count_in, unread, one_if, pending, Ledger, holds, note_hit, note_taken, note_ingester,
  note_synchroniser, note, audit,
}
use api_proxy.Throttling.Buffers.{Good, Inv}
use api_proxy.Throttling.Invariant.{Holds, step-Holds}
use api_proxy.Throttling.Accounting.{
  Balance, count_in-put, holds-Good, hit-Balance, note_read-fields,
}
use api_proxy.Throttling.Taken.{note-taken}

receive-Balance :
    (queue : List Str) (k : Str) (s : Shared) (y : Synchroniser) (l : Ledger)
    → Balance k s idle y l
    → Balance k (receive queue s).0 (receive queue s).1 y (note_taken k queue l)
unfolding receive note_taken pending
receive-Balance [] k s y l sum = sum
receive-Balance (key ∷ rest) k s y l sum = omega arith

count_at-Balance :
    (o : Option ℕ) (k key : Str) (p : ℕ) (buf : Buffer) (s : Shared) (y : Synchroniser) (l : Ledger)
    → lookup key buf ≡ o
    → Inv s (loaded key p buf) y
    → l.taken < 2 ^ 64
    → Balance k s (loaded key p buf) y l
    → Balance k (count_at o key p buf s).0 (count_at o key p buf s).1 y (note_hit k o key s y l)
unfolding count_at
count_at-Balance (some a) k key p buf s y l at v small sum =
    hit-Balance k key a p buf s y l at v small sum
count_at-Balance none k key p buf s y l at v small sum = unfold note_hit pending in sum

-- A counter that is not there yet is in no buffer.
count_in-new :
    (owner : ℕ → Str) (lo hi : ℕ) (k : Str) (m : Buffer) (c : ℕ → ℕ) (a v : ℕ)
    → Good owner lo hi m
    → hi ≤ a
    → count_in k m (put c a v) ≡ count_in k m c
count_in-new owner lo hi k m c a v good h = elim (Bool-cases (holds (lookup k m) a)) [
  | inr absent ↦ count_in-put k m c a v ∙ rw absent refl
  | inl there ↦ let (_, _, below) = holds-Good owner lo hi k m a good there in absurd (omega arith)
]

copying-Balance :
    (k key : Str) (p : ℕ) (buf : Buffer) (s : Shared) (y : Synchroniser) (l : Ledger)
    → Inv s (copying key p buf) y
    → Balance k s (copying key p buf) y l
    → Balance k (ingest s (copying key p buf)).0 (ingest s (copying key p buf)).1 y l
unfolding ingest pending
copying-Balance k key p buf s y l v sum =
    let bl = v.base_le in
    rw (count_in-new v.owner v.base s.next k s.buffer s.counters s.next 1 v.filled (omega arith))
      (rw (count_in-new v.owner 0 v.base k (unread y) s.counters s.next 1 v.reported bl) sum)

count_in-insert :
    (k key : Str) (one : ℕ) (m : Buffer) (c : ℕ → ℕ)
    → count_in k (insert key one m) c ≡ (if str_eq key k then c one else count_in k m c)
unfolding count_in
count_in-insert k key one m c = elim (Bool-cases (str_eq key k)) [
  | inl same ↦ rw (lookup-insert key k one m, count_in) (rw same refl)
  | inr other ↦ rw (lookup-insert key k one m, count_in) (rw other refl)
]

count_in-none : (k : Str) (m : Buffer) (c : ℕ → ℕ) → lookup k m ≡ none → count_in k m c ≡ 0
unfolding count_in
count_in-none k m c h = rw (h, count_in)

-- A key without a counter gets one that stands at 1.
added_sum :
    (same : Bool) (x y cb : ℕ)
    → (same ≡ true → cb ≡ 0)
    → x ≡ one_if same + (cb + y)
    → x ≡ 0 + ((if same then 1 else cb) + y)
unfolding one_if
added_sum true x y cb h e = let z = h refl in omega arith
added_sum false x y cb h e = omega arith

swapped_in-Balance :
    (k key : Str) (p : ℕ) (buf : Buffer) (one : ℕ) (s : Shared) (y : Synchroniser) (l : Ledger)
    → p ≡ s.current
    → Inv s (copied key p buf one) y
    → Balance k s (copied key p buf one) y l
    → Balance k
        (record s { current = s.next; buffer = insert key one buf; next = s.next + 1 })
        idle
        y
        l
unfolding pending
swapped_in-Balance k key p buf one s y l same v sum =
    let (held, _, missing, starts, _, _) = v.ingester in
    elim held [
      | inr (other, _) ↦ absurd (other same)
      | inl (_, is, _) ↦ rw (count_in-insert k key one buf s.counters) (
          rw starts (
            rw is (
              added_sum (str_eq key k) l.taken _ (count_in k s.buffer s.counters)
                (λ e. count_in-none k s.buffer s.counters (
                  subst (λ j. lookup j s.buffer ≡ none) ((str_eq_iff key k).0 e)
                    (subst (λ m. lookup key m ≡ none) is missing)))
                sum)))
    ]

ingest-Balance :
    (k : Str) (s : Shared) (i : Ingester) (y : Synchroniser) (l : Ledger)
    → Inv s i y
    → l.taken < 2 ^ 64
    → Balance k s i y l
    → Balance k (ingest s i).0 (ingest s i).1 y (note_ingester k s i y l)
unfolding ingest note_ingester
ingest-Balance k s idle y l v small sum = receive-Balance s.queue k s y l sum
ingest-Balance k s (received key) y l v small sum = unfold pending in sum
ingest-Balance k s (loaded key p buf) y l v small sum =
    count_at-Balance (lookup key buf) k key p buf s y l refl v small sum
ingest-Balance k s (copying key p buf) y l v small sum = copying-Balance k key p buf s y l v sum
ingest-Balance k s (copied key p buf one) y l v small sum = elim (Bool-cases (p == s.current)) [
  | inl same ↦ rw same (swapped_in-Balance k key p buf one s y l (ground arith) v sum)
  | inr other ↦ rw other (unfold pending in sum)
]

count_in-cons :
    (k key : Str) (a : ℕ) (m : Buffer) (c : ℕ → ℕ)
    → count_in k ((key, a) ∷ m) c ≡ (if str_eq key k then c a else count_in k m c)
unfolding count_in lookup
count_in-cons k key a m c = elim (Bool-cases (str_eq key k)) [
  | inl same ↦ rw (same, count_in) refl
  | inr other ↦ rw (other, count_in) refl
]

-- The counter that is read moves from the unread part to what was sent.
read_sum :
    (same : Bool) (x p b cu ca sent rest : ℕ)
    → (same ≡ true → cu ≡ 0)
    → x ≡ p + (b + ((if same then ca else cu) + (sent + rest)))
    → x ≡ p + (b + (cu + ((if same then sent + ca else sent) + rest)))
read_sum true x p b cu ca sent rest h e = let z = h refl in omega arith
read_sum false x p b cu ca sent rest h e = e

lookup_blank : (k : Str) → lookup {V = ℕ} k [] ≡ none
unfolding lookup
lookup_blank k = refl

synchronise-Balance :
    (k : Str) (enabled : Bool) (reply : Option (List Str)) (s : Shared) (i : Ingester)
    (y : Synchroniser) (l : Ledger)
    → Inv s i y
    → Balance k s i y l
    → let r = synchronise enabled reply s y in
      Balance k r.0 i r.1 (note_synchroniser k enabled s y l)
unfolding synchronise note_synchroniser unread
synchronise-Balance k enabled reply s i waiting l v sum =
    omega (arith, count_in-none k [] s.counters (lookup_blank k))
synchronise-Balance k true reply s i (swapped buf) l v sum = sum
synchronise-Balance k false reply s i (swapped buf) l v sum =
    omega (arith, count_in-none k [] s.counters (lookup_blank k))
synchronise-Balance k enabled reply s i (reporting ((key, a) ∷ buf) sent) l v sum =
    rw (note_read-fields k key a s.counters l) (
      read_sum (str_eq key k) l.taken (pending k i) (count_in k s.buffer s.counters)
        (count_in k buf s.counters) (s.counters a) l.sent (l.lost + l.dropped)
        (λ e.
          count_in-none k buf s.counters
            (subst (λ j. lookup j buf ≡ none) ((str_eq_iff key k).0 e) v.reported_once.0))
        (subst
          (λ n.
            l.taken
            ≡ pending k i
              + (count_in k s.buffer s.counters + (n + (l.sent + (l.lost + l.dropped)))))
          (count_in-cons k key a buf s.counters) sum))
synchronise-Balance k enabled reply s i (reporting [] sent) l v sum = sum
synchronise-Balance k enabled reply s i (answered buckets) l v sum = sum

pub step-Balance :
    (k : Str) (e : Event) (t : State) (l : Ledger)
    → Holds t
    → l.taken < 2 ^ 64
    → Balance k t.shared t.ingester t.synchroniser l
    → let t' = step e t in Balance k t'.shared t'.ingester t'.synchroniser (note k e t l)
unfolding step note
step-Balance k (arrive key) t l v small sum = offer-Balance
  where
    offer-Balance : Balance k (offer key t.shared) t.ingester t.synchroniser l
    offer-Balance =
        unfold offer in
        elim (Bool-cases (ltb (length t.shared.queue) queue_size)) [
          | inl room ↦ rw room sum
          | inr full ↦ rw full sum
        ]
step-Balance k ingester_runs t l v small sum =
    ingest-Balance k t.shared t.ingester t.synchroniser l v small sum
step-Balance k (synchroniser_runs enabled reply) t l v small sum =
    synchronise-Balance k enabled reply t.shared t.ingester t.synchroniser l v sum

pub audit-Balance :
    (k : Str) (es : List Event) (t : State) (l : Ledger)
    → Holds t
    → l.taken + length es < 2 ^ 64
    → Balance k t.shared t.ingester t.synchroniser l
    → let (t', l') = audit k es t l in
      (t' ≡ run es t) × Holds t' × Balance k t'.shared t'.ingester t'.synchroniser l'
unfolding audit run
audit-Balance k [] t l v small sum = (refl, v, sum)
audit-Balance k (e ∷ es) t l v small sum =
    audit-Balance k es (step e t) (note k e t l) (step-Holds e t v)
      (omega (arith, note-taken k e t l)) (step-Balance k e t l v (omega arith) sum)
