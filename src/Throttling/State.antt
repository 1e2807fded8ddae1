-- ===== src/Throttling/State.antt =====
-- The goroutines of the throttling handler as interleaved atomic steps (handler/throttling.go). A
-- buffer is a map that is never written once it is published: its keys lead to counters, which are
-- shared by the copies of the map. Pointers and counters are numbers from one supply.
use api_proxy.Prelude.{
  ℕ, ◌+◌, ◌%◌, ◌^◌, Bool, Option, none, some, List, [], ◌∷◌, ◌++◌, if◌then◌else◌, ◌==◌, ltb, length,
}
use api_proxy.Text.{Str}
use api_proxy.Text.Maps.{Map, lookup, insert}

-- `bucketBufferT`: bucket keys with the addresses of their counters.
abbrev pub Buffer : Type 0
Buffer = Map ℕ

-- What the goroutines and the requests share.
pub record Shared : Type 0 where
  pub queue : List Str  -- ingesterChan
  pub current : ℕ  -- bucketBuffer: the pointer
  pub buffer : Buffer  -- what it points to
  pub counters : ℕ → ℕ
  pub next : ℕ  -- the supply of addresses
  pub throttled : List Str  -- the keys of throttledBuckets

-- Where `ingesterWorker` stands: what it holds in its variables.
pub data Ingester : Type 0 where
  idle : Ingester
  received : Str → Ingester
  loaded : (key : Str) (pointer : ℕ) → Buffer → Ingester
  copying : (key : Str) (pointer : ℕ) → Buffer → Ingester
  copied : (key : Str) (pointer : ℕ) → Buffer → (one : ℕ) → Ingester

-- Where `synchroniser` stands: it waits for the tick, has swapped the buffer out, reads its counters
-- one by one, or has an answer to publish.
pub data Synchroniser : Type 0 where
  waiting : Synchroniser
  swapped : Buffer → Synchroniser
  reporting : Buffer → List (Str × ℕ) → Synchroniser
  answered : List Str → Synchroniser

pub record State : Type 0 where
  pub shared : Shared
  pub ingester : Ingester
  pub synchroniser : Synchroniser

abbrev pub queue_size : ℕ
queue_size = 500000

-- `NewThrottlingHandler`.
unfoldable pub new_state : State
new_state = record {
  shared = record {
    queue = [];
    current = 0;
    buffer = [];
    counters = λ a. 0;
    next = 1;
    throttled = [];
  };
  ingester = idle;
  synchroniser = waiting;
}

-- The send of `ServeHTTP`: dropped if the channel is full.
unfoldable pub offer : Str → Shared → Shared
offer key s =
    if ltb (length s.queue) queue_size then record s { queue = s.queue ++ key ∷ [] } else s

-- A counter set, as a function of the address.
unfoldable pub put : (ℕ → ℕ) → ℕ → ℕ → ℕ → ℕ
put counters a v b = if b == a then v else counters b

unfoldable pub receive : List Str → Shared → Shared × Ingester
receive [] s = (s, idle)
receive (key ∷ rest) s = (record s { queue = rest }, received key)

-- `atomic.AddUint64(valPtr, 1)`, or the start of the copying.
unfoldable pub count_at : Option ℕ → Str → ℕ → Buffer → Shared → Shared × Ingester
unfolding put
count_at (some a) key p buf s =
    (record s { counters = put s.counters a ((s.counters a + 1) % 2 ^ 64) }, idle)
count_at none key p buf s = (s, copying key p buf)

-- The next atomic step of `ingesterWorker`; it stays where it is while the channel is empty.
unfoldable pub ingest : Shared → Ingester → Shared × Ingester
unfolding receive count_at put
ingest s idle = receive s.queue s
ingest s (received key) = (s, loaded key s.current s.buffer)
ingest s (loaded key p buf) = count_at (lookup key buf) key p buf s
ingest s (copying key p buf) =
    (record s { counters = put s.counters s.next 1; next = s.next + 1 }, copied key p buf s.next)
ingest s (copied key p buf one) =
    if p == s.current
    then (record s { current = s.next; buffer = insert key one buf; next = s.next + 1 }, idle)
    else (s, copying key s.current s.buffer)

-- The buckets to throttle: none if the report failed.
unfoldable pub answer : Option (List Str) → List Str
answer none = []
answer (some buckets) = buckets

-- The next atomic step of `synchroniser` and of `reportIncrements` in it, given whether reporting is
-- enabled and what the throttling service replies.
unfoldable pub synchronise :
    Bool → Option (List Str) → Shared → Synchroniser → Shared × Synchroniser
unfolding answer
synchronise enabled reply s waiting =
    (record s { current = s.next; buffer = []; next = s.next + 1 }, swapped s.buffer)
synchronise enabled reply s (swapped buf) = (s, if enabled then reporting buf [] else answered [])
synchronise enabled reply s (reporting ((key, a) ∷ buf) sent) =
    (s, reporting buf (sent ++ (key, s.counters a) ∷ []))
synchronise enabled reply s (reporting [] sent) = (s, answered (answer reply))
synchronise enabled reply s (answered buckets) = (record s { throttled = buckets }, waiting)

-- What the scheduler and the outside may do next.
pub data Event : Type 0 where
  arrive : Str → Event
  ingester_runs : Event
  synchroniser_runs : (enabled : Bool) (reply : Option (List Str)) → Event

unfoldable pub step : Event → State → State
unfolding offer
step (arrive key) t = record t { shared = offer key t.shared }
step ingester_runs t =
    let (s, i) = ingest t.shared t.ingester in record t { shared = s; ingester = i }
step (synchroniser_runs enabled reply) t =
    let (s, y) = synchronise enabled reply t.shared t.synchroniser in
    record t { shared = s; synchroniser = y }

unfoldable pub run : List Event → State → State
run [] t = t
run (e ∷ es) t = run es (step e t)
