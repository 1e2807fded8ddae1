-- ===== src/Throttling/Invariant.antt =====
-- Every step keeps the invariant of the buffers.
use api_proxy.Prelude.{
  ℕ, ◌+◌, ◌%◌, ◌^◌, ◌≡◌, ◌≢◌, refl, ap, sym, ◌∙◌, subst, Bool, true, false, Option, none, some,
  List, [], ◌∷◌, ◌++◌, ◌==◌, inl, inr, Bool-cases, arith, ltb, length,
}
use api_proxy.Text.{Str}
use api_proxy.Text.Maps.{lookup, insert, Distinct, insert-All, insert-Distinct}
use api_proxy.Throttling.State.{
  Buffer, Shared, Ingester, idle, received, loaded, copying, copied, Synchroniser, waiting, swapped,
  reporting, answered, State, Event, arrive, ingester_runs, synchroniser_runs, step, offer, ingest,
  synchronise, put, queue_size, receive, count_at, new_state, answer,
}
use api_proxy.Throttling.Ledger.{unread}
use api_proxy.Throttling.Buffers.{
  Good, IngesterOk, Inv, Good-widen, give, give_self, put_self, Good-give, Held-copy, keep,
}

receive-Inv :
    (queue : List Str) (s : Shared) (y : Synchroniser)
    → Inv s idle y
    → Inv (receive queue s).0 (receive queue s).1 y
unfolding receive
receive-Inv [] s y v = v
receive-Inv (key ∷ rest) s y v =
    keep (received key) y (record s { queue = rest }) v refl tt v.reported v.reported_once

count_at-Inv :
    (o : Option ℕ) (key : Str) (p : ℕ) (buf : Buffer) (s : Shared) (y : Synchroniser)
    → lookup key buf ≡ o
    → Inv s (loaded key p buf) y
    → Inv (count_at o key p buf s).0 (count_at o key p buf s).1 y
unfolding count_at
count_at-Inv (some a) key p buf s y at v =
    keep idle y (record s { counters = put s.counters a ((s.counters a + 1) % 2 ^ 64) }) v refl tt
      v.reported v.reported_once
count_at-Inv none key p buf s y at v =
    let (held, below, _) = v.ingester in
    keep (copying key p buf) y s v refl (held, below, at) v.reported v.reported_once

-- The new counter belongs to the key.
copying-Inv :
    (key : Str) (p : ℕ) (buf : Buffer) (s : Shared) (y : Synchroniser)
    → Inv s (copying key p buf) y
    → Inv (ingest s (copying key p buf)).0 (ingest s (copying key p buf)).1 y
unfolding ingest
copying-Inv key p buf s y v =
    let (held, below, missing) = v.ingester in
    let cl = v.current_lt in
    let bl = v.base_le in
    record {
      owner = give v.owner s.next key;
      base = v.base;
      base_le = omega arith;
      current_lt = omega arith;
      filled =
          Good-widen _ v.base s.next v.base (s.next + 1) s.buffer (omega arith) (omega arith)
            (Good-give v.owner v.base s.next s.next key s.buffer (omega arith) v.filled);
      filled_once = v.filled_once;
      reported = Good-give v.owner 0 v.base s.next key (unread y) bl v.reported;
      reported_once = v.reported_once;
      ingester = (
        Held-copy v.base s.current s.buffer p buf s.next bl held,
        omega arith,
        missing,
        put_self s.counters s.next 1,
        give_self v.owner s.next key,
        omega arith,
      );
    }

-- The compare and swap goes through.
swapped_in-Inv :
    (key : Str) (p : ℕ) (buf : Buffer) (one : ℕ) (s : Shared) (y : Synchroniser)
    → p ≡ s.current
    → Inv s (copied key p buf one) y
    → Inv (record s { current = s.next; buffer = insert key one buf; next = s.next + 1 }) idle y
swapped_in-Inv key p buf one s y same v =
    let (held, _, missing, _, owned, below) = v.ingester in
    elim held [
      | inr (other, _) ↦ absurd (other same)
      | inl (_, is, above) ↦
          let bl = v.base_le in
          record {
            owner = v.owner;
            base = v.base;
            base_le = omega arith;
            current_lt = omega arith;
            filled =
                insert-All _ key one buf
                  (subst (Good v.owner v.base (s.next + 1)) (sym is) (
                    Good-widen v.owner v.base s.next v.base (s.next + 1) s.buffer (omega arith)
                      (omega arith) v.filled))
                  (owned, above, omega arith);
            filled_once =
                insert-Distinct key one buf missing (subst Distinct (sym is) v.filled_once);
            reported = v.reported;
            reported_once = v.reported_once;
            ingester = tt;
          }
    ]

-- It does not: the buffer was swapped for an empty one.
reloaded-Inv :
    (key : Str) (p : ℕ) (buf : Buffer) (one : ℕ) (s : Shared) (y : Synchroniser)
    → p ≢ s.current
    → Inv s (copied key p buf one) y
    → Inv s (copying key s.current s.buffer) y
reloaded-Inv key p buf one s y other v =
    let (held, _, _, _, _, _) = v.ingester in
    elim held [
      | inl (same, _, _) ↦ absurd (other same)
      | inr (_, blank) ↦
          keep (copying key s.current s.buffer) y s v refl
            (inl (refl, refl), v.current_lt, ap (lookup key) blank ∙ lookup_blank key) v.reported
            v.reported_once
    ]
  where
    lookup_blank : (k : Str) → lookup {V = ℕ} k [] ≡ none
    lookup_blank k = unfold lookup in refl

pub ingest-Inv :
    (s : Shared) (i : Ingester) (y : Synchroniser) → Inv s i y → Inv (ingest s i).0 (ingest s i).1 y
unfolding ingest
ingest-Inv s idle y v = receive-Inv s.queue s y v
ingest-Inv s (received key) y v =
    keep (loaded key s.current s.buffer) y s v refl
      (
        inl (refl, refl),
        v.current_lt,
        Good-widen v.owner v.base s.next 0 s.next s.buffer (omega arith) (omega arith) v.filled,
      )
      v.reported v.reported_once
ingest-Inv s (loaded key p buf) y v = count_at-Inv (lookup key buf) key p buf s y refl v
ingest-Inv s (copying key p buf) y v = copying-Inv key p buf s y v
ingest-Inv s (copied key p buf one) y v = elim (Bool-cases (p == s.current)) [
  | inl same ↦ rw same (swapped_in-Inv key p buf one s y (ground arith) v)
  | inr other ↦ rw other (reloaded-Inv key p buf one s y (ground arith) v)
]

-- What the ingester holds is from before the swap.
IngesterOk-swap :
    (owner : ℕ → Str) (base current : ℕ) (buffer : Buffer) (counters : ℕ → ℕ) (next : ℕ)
    (i : Ingester)
    → IngesterOk owner base current buffer counters next i
    → IngesterOk owner next next [] counters (next + 1) i
IngesterOk-swap owner base current buffer counters next idle h = tt
IngesterOk-swap owner base current buffer counters next (received key) h = tt
IngesterOk-swap owner base current buffer counters next (loaded key p buf) (_, below, good) = (
  inr ((λ e. absurd (omega arith)), refl),
  omega arith,
  Good-widen owner 0 next 0 (next + 1) buf (omega arith) (omega arith) good,
)
IngesterOk-swap owner base current buffer counters next (copying key p buf) (_, below, missing) =
    (inr ((λ e. absurd (omega arith)), refl), omega arith, missing)
IngesterOk-swap owner base current buffer counters next (copied key p buf one)
      (_, below, missing, starts, owned, less) =
    (inr ((λ e. absurd (omega arith)), refl), omega arith, missing, starts, owned, omega arith)

pub synchronise-Inv :
    (enabled : Bool) (reply : Option (List Str)) (s : Shared) (i : Ingester) (y : Synchroniser)
    → Inv s i y
    → let r = synchronise enabled reply s y in Inv r.0 i r.1
unfolding synchronise unread
synchronise-Inv enabled reply s i waiting v = record {
  owner = v.owner;
  base = s.next;
  base_le = omega arith;
  current_lt = omega arith;
  filled = tt;
  filled_once = tt;
  reported =
      Good-widen v.owner v.base s.next 0 s.next s.buffer (omega arith) (omega arith) v.filled;
  reported_once = v.filled_once;
  ingester = IngesterOk-swap v.owner v.base s.current s.buffer s.counters s.next i v.ingester;
}
synchronise-Inv true reply s i (swapped buf) v =
    keep i (reporting buf []) s v refl v.ingester v.reported v.reported_once
synchronise-Inv false reply s i (swapped buf) v = keep i (answered []) s v refl v.ingester tt tt
synchronise-Inv enabled reply s i (reporting ((key, a) ∷ buf) sent) v =
    keep i (reporting buf (sent ++ (key, s.counters a) ∷ [])) s v refl v.ingester v.reported.1
      v.reported_once.1
synchronise-Inv enabled reply s i (reporting [] sent) v =
    keep i (answered (answer reply)) s v refl v.ingester tt tt
synchronise-Inv enabled reply s i (answered buckets) v =
    keep i waiting (record s { throttled = buckets }) v refl v.ingester tt tt

offer-Inv :
    (key : Str) (s : Shared) (i : Ingester) (y : Synchroniser) → Inv s i y → Inv (offer key s) i y
unfolding offer
offer-Inv key s i y v = elim (Bool-cases (ltb (length s.queue) queue_size)) [
  | inl room ↦ rw room (
      keep i y (record s { queue = s.queue ++ key ∷ [] }) v refl v.ingester v.reported
        v.reported_once)
  | inr full ↦ rw full v
]

-- The invariant of a whole state.
abbrev pub Holds : State → Type 0
Holds t = Inv t.shared t.ingester t.synchroniser

pub step-Holds : (e : Event) (t : State) → Holds t → Holds (step e t)
unfolding step
step-Holds (arrive key) t v = offer-Inv key t.shared t.ingester t.synchroniser v
step-Holds ingester_runs t v = ingest-Inv t.shared t.ingester t.synchroniser v
step-Holds (synchroniser_runs enabled reply) t v =
    synchronise-Inv enabled reply t.shared t.ingester t.synchroniser v

pub new_state-Holds : Holds new_state
unfolding new_state unread
new_state-Holds = record {
  owner = λ a. [];
  base = 0;
  base_le = omega arith;
  current_lt = omega arith;
  filled = tt;
  filled_once = tt;
  reported = tt;
  reported_once = tt;
  ingester = tt;
}
