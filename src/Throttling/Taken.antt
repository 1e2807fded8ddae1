-- ===== src/Throttling/Taken.antt =====
-- The account of what was taken from the channel grows by one at most with every step.
use api_proxy.Prelude.{
  ℕ, suc, ◌≡◌, ◌≤◌, refl, Bool, true, false, Option, none, some, List, [], ◌∷◌, inl, inr,
  Bool-cases, arith,
}
use api_proxy.Text.{Str, str_eq}
use api_proxy.Text.Maps.{lookup}
use api_proxy.Throttling.State.{
  Shared, Ingester, idle, received, loaded, copying, copied, Synchroniser, waiting, swapped,
  reporting, answered, State, Event, arrive, ingester_runs, synchroniser_runs,
}
use api_proxy.Throttling.Ledger.{
  one_if, Ledger, note_hit, note_taken, note_ingester, note_synchroniser, note,
}
use api_proxy.Throttling.Accounting.{note_read-fields, note_hit-fields}

-- One step takes one request from the channel at most.
note_taken-le :
    (k : Str) (queue : List Str) (l : Ledger) → (note_taken k queue l).taken ≤ suc l.taken
unfolding note_taken one_if
note_taken-le k [] l = omega arith
note_taken-le k (key ∷ rest) l = elim (Bool-cases (str_eq key k)) [
  | inl same ↦ rw same (omega arith)
  | inr other ↦ rw other (omega arith)
]

note_hit-taken :
    (k : Str) (o : Option ℕ) (key : Str) (s : Shared) (y : Synchroniser) (l : Ledger)
    → (note_hit k o key s y l).taken ≤ suc l.taken
unfolding note_hit
note_hit-taken k none key s y l = omega arith
note_hit-taken k (some a) key s y l = rw (note_hit-fields k a key s y l) (omega arith)

note_ingester-taken :
    (k : Str) (s : Shared) (i : Ingester) (y : Synchroniser) (l : Ledger)
    → (note_ingester k s i y l).taken ≤ suc l.taken
unfolding note_ingester
note_ingester-taken k s idle y l = note_taken-le k s.queue l
note_ingester-taken k s (received key) y l = omega arith
note_ingester-taken k s (loaded key p buf) y l = note_hit-taken k (lookup key buf) key s y l
note_ingester-taken k s (copying key p buf) y l = omega arith
note_ingester-taken k s (copied key p buf one) y l = omega arith

note_synchroniser-taken :
    (k : Str) (enabled : Bool) (s : Shared) (y : Synchroniser) (l : Ledger)
    → (note_synchroniser k enabled s y l).taken ≡ l.taken
unfolding note_synchroniser
note_synchroniser-taken k enabled s waiting l = refl
note_synchroniser-taken k true s (swapped buf) l = refl
note_synchroniser-taken k false s (swapped buf) l = refl
note_synchroniser-taken k enabled s (reporting ((key, a) ∷ buf) sent) l =
    rw (note_read-fields k key a s.counters l) refl
note_synchroniser-taken k enabled s (reporting [] sent) l = refl
note_synchroniser-taken k enabled s (answered buckets) l = refl

pub note-taken : (k : Str) (e : Event) (t : State) (l : Ledger) → (note k e t l).taken ≤ suc l.taken
unfolding note
note-taken k (arrive key) t l = omega arith
note-taken k ingester_runs t l = note_ingester-taken k t.shared t.ingester t.synchroniser l
note-taken k (synchroniser_runs enabled reply) t l =
    omega (arith, note_synchroniser-taken k enabled t.shared t.synchroniser l)
