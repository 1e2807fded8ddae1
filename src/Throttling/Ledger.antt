-- ===== src/Throttling/Ledger.antt =====
-- An account of the requests of one bucket, kept beside a run: how many the ingester took from the
-- channel, how many were reported, and how many were counted where nobody reads any more.
use api_proxy.Prelude.{
  ℕ, ◌+◌, Bool, true, false, Option, none, some, List, [], ◌∷◌, if◌then◌else◌, ◌==◌, ◌||◌, ◌&&◌,
  not,
}
use api_proxy.Text.{Str, str_eq}
use api_proxy.Text.Maps.{lookup}
use api_proxy.Throttling.State.{
  Buffer, Shared, Ingester, idle, received, loaded, copying, copied, Synchroniser, waiting, swapped,
  reporting, answered, State, Event, arrive, ingester_runs, synchroniser_runs, step,
}

-- The count that a buffer holds for a key.
unfoldable pub count_in : Str → Buffer → (ℕ → ℕ) → ℕ
count_in k buf counters = elim (lookup k buf) [ none ↦ 0 | some a ↦ counters a ]

-- The part of the swapped buffer that was not read yet.
unfoldable pub unread : Synchroniser → Buffer
unread waiting = []
unread (swapped buf) = buf
unread (reporting buf sent) = buf
unread (answered buckets) = []

unfoldable pub one_if : Bool → ℕ
one_if true = 1
one_if false = 0

-- Whether the ingester holds a request of the bucket that is not counted yet.
unfoldable pub pending : Str → Ingester → ℕ
unfolding one_if
pending k idle = 0
pending k (received key) = one_if (str_eq key k)
pending k (loaded key p buf) = one_if (str_eq key k)
pending k (copying key p buf) = one_if (str_eq key k)
pending k (copied key p buf one) = one_if (str_eq key k)

pub record Ledger : Type 0 where
  pub taken : ℕ
  pub sent : ℕ
  pub lost : ℕ  -- counted in a buffer that was already read
  pub dropped : ℕ  -- swapped out while reporting is disabled
  pub swaps : ℕ

abbrev pub blank_ledger : Ledger
blank_ledger = record { taken = 0; sent = 0; lost = 0; dropped = 0; swaps = 0 }

unfoldable pub holds : Option ℕ → ℕ → Bool
holds none a = false
holds (some b) a = b == a

unfoldable pub note_hit : Str → Option ℕ → Str → Shared → Synchroniser → Ledger → Ledger
unfolding holds
note_hit k none key s y l = l
note_hit k (some a) key s y l =
    if str_eq key k && not (holds (lookup k s.buffer) a || holds (lookup k (unread y)) a)
    then record l { lost = l.lost + 1 }
    else l

unfoldable pub note_taken : Str → List Str → Ledger → Ledger
note_taken k [] l = l
note_taken k (key ∷ rest) l = record l { taken = l.taken + one_if (str_eq key k) }

unfoldable pub note_ingester : Str → Shared → Ingester → Synchroniser → Ledger → Ledger
unfolding note_taken note_hit
note_ingester k s idle y l = note_taken k s.queue l
note_ingester k s (received key) y l = l
note_ingester k s (loaded key p buf) y l = note_hit k (lookup key buf) key s y l
note_ingester k s (copying key p buf) y l = l
note_ingester k s (copied key p buf one) y l = l

unfoldable pub note_synchroniser : Str → Bool → Shared → Synchroniser → Ledger → Ledger
note_synchroniser k enabled s waiting l = record l { swaps = l.swaps + 1 }
note_synchroniser k enabled s (swapped buf) l =
    if enabled then l else record l { dropped = l.dropped + count_in k buf s.counters }
note_synchroniser k enabled s (reporting ((key, a) ∷ buf) sent) l =
    if str_eq key k then record l { sent = l.sent + s.counters a } else l
note_synchroniser k enabled s (reporting [] sent) l = l
note_synchroniser k enabled s (answered buckets) l = l

-- The account after one step, from the state before it.
unfoldable pub note : Str → Event → State → Ledger → Ledger
note k (arrive key) t l = l
note k ingester_runs t l = note_ingester k t.shared t.ingester t.synchroniser l
note k (synchroniser_runs enabled reply) t l = note_synchroniser k enabled t.shared t.synchroniser l

-- A run with its account.
unfoldable pub audit : Str → List Event → State → Ledger → State × Ledger
audit k [] t l = (t, l)
audit k (e ∷ es) t l = audit k es (step e t) (note k e t l)
