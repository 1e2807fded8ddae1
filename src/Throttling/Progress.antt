-- ===== src/Throttling/Progress.antt =====
-- The loop that retries a swap of the buffer ends.
use api_proxy.Prelude.{
  ℕ, suc, ◌+◌, ◌*◌, ◌≤◌, ◌≡◌, refl, ap, Bool, true, false, Option, List, [], ◌∷◌, ◌++◌, ◌==◌,
  if◌then◌else◌, Bool-cases, inl, inr, arith, Option-cases, ltb, length,
}
use api_proxy.Text.{Str}
use api_proxy.Text.Maps.{lookup}
use api_proxy.Throttling.State.{
  Shared, Ingester, idle, received, loaded, copying, copied, Synchroniser, waiting, swapped,
  reporting, answered, State, Event, arrive, ingester_runs, synchroniser_runs, step, run, offer,
  ingest, count_at, synchronise, queue_size,
}

-- The ingester has no request in hand.
abbrev pub is_idle : Ingester → Bool
is_idle idle = true
is_idle _ = false

abbrev is_waiting : Synchroniser → Bool
is_waiting waiting = true
is_waiting _ = false

-- The steps of the ingester among some events.
abbrev pub ingester_steps : List Event → ℕ
ingester_steps [] = 0
ingester_steps (arrive key ∷ es) = ingester_steps es
ingester_steps (ingester_runs ∷ es) = suc (ingester_steps es)
ingester_steps (synchroniser_runs enabled reply ∷ es) = ingester_steps es

abbrev swaps_now : Event → Synchroniser → ℕ
swaps_now (synchroniser_runs enabled reply) waiting = 1
swaps_now _ _ = 0

-- How often the synchroniser swaps the buffer in a run.
unfoldable pub swaps : List Event → State → ℕ
swaps [] t = 0
swaps (e ∷ es) t = swaps_now e t.synchroniser + swaps es (step e t)

-- The steps that are left if the buffer is not swapped: two more where it was.
abbrev left : ℕ → Ingester → ℕ
left now idle = 0
left now (received key) = 4
left now (loaded key p buf) = if p == now then 3 else 5
left now (copying key p buf) = if p == now then 2 else 4
left now (copied key p buf one) = if p == now then 1 else 3

ingest-left :
    (s : Shared) (i : Ingester)
    → is_idle i ≡ false
    → let (s', i') = ingest s i in suc (left s'.current i') ≤ left s.current i
unfolding ingest count_at
ingest-left s idle busy = cc
ingest-left s (received key) busy = ground arith
ingest-left s (loaded key p buf) busy = elim (Option-cases (lookup key buf)) [
  | inl missing ↦ rw missing (ground arith)
  | inr (a, found) ↦ rw found (ground arith)
]
ingest-left s (copying key p buf) busy = ground arith
ingest-left s (copied key p buf one) busy = elim (Bool-cases (p == s.current)) [
  | inl same ↦ rw same (omega arith)
  | inr other ↦ rw other (ground arith)
]

swapped-left : (now next : ℕ) (i : Ingester) → left next i ≤ left now i + 2
swapped-left now next idle = omega arith
swapped-left now next (received key) = omega arith
swapped-left now next (loaded key p buf) = ground arith
swapped-left now next (copying key p buf) = ground arith
swapped-left now next (copied key p buf one) = ground arith

-- A step of the synchroniser costs the ingester two steps at most, and only if it swaps the buffer.
synchronise-left :
    (enabled : Bool) (reply : Option (List Str)) (s : Shared) (i : Ingester) (y : Synchroniser)
    → left (synchronise enabled reply s y).0.current i
      ≤ left s.current i + 2 * swaps_now (synchroniser_runs enabled reply) y
unfolding synchronise
synchronise-left enabled reply s i waiting = swapped-left s.current s.next i
synchronise-left enabled reply s i (swapped buf) = omega arith
synchronise-left enabled reply s i (reporting ((key, a) ∷ buf) sent) = omega arith
synchronise-left enabled reply s i (reporting [] sent) = omega arith
synchronise-left enabled reply s i (answered buckets) = omega arith

offer-current : (key : Str) (s : Shared) → (offer key s).current ≡ s.current
unfolding offer
offer-current key s = elim (Bool-cases (ltb (length s.queue) queue_size)) [
  | inl room ↦ rw room refl
  | inr full ↦ rw full refl
]

abbrev left_of : State → ℕ
left_of t = left t.shared.current t.ingester

step-left :
    (e : Event) (t : State)
    → is_idle t.ingester ≡ false
    → left_of (step e t) + ingester_steps (e ∷ []) ≤ left_of t + 2 * swaps_now e t.synchroniser
unfolding step
step-left (arrive key) t busy = rw (offer-current key t.shared) (omega arith)
step-left ingester_runs t busy = omega (arith, ingest-left t.shared t.ingester busy)
step-left (synchroniser_runs enabled reply) t busy =
    omega (arith, synchronise-left enabled reply t.shared t.ingester t.synchroniser)

ingester_steps-cons :
    (e : Event) (es : List Event)
    → ingester_steps (e ∷ es) ≡ ingester_steps (e ∷ []) + ingester_steps es
ingester_steps-cons (arrive key) es = omega arith
ingester_steps-cons ingester_runs es = omega arith
ingester_steps-cons (synchroniser_runs enabled reply) es = omega arith

-- The ingester is idle after some of the events.
abbrev pub Idles : List Event → State → Type 0
Idles es t =
    (before after : List Event) × (es ≡ before ++ after) × (is_idle (run before t).ingester ≡ true)

Idles-later : (e : Event) (es : List Event) (t : State) → Idles es (step e t) → Idles (e ∷ es) t
unfolding run
Idles-later e es t (before, after, same, idle') = (e ∷ before, after, ap (λ l. e ∷ l) same, idle')

nothing_left : (now : ℕ) (i : Ingester) → left now i ≤ 0 → is_idle i ≡ true
nothing_left now idle h = refl
nothing_left now (received key) h = absurd (omega arith)
nothing_left now (loaded key p buf) h = ground arith
nothing_left now (copying key p buf) h = ground arith
nothing_left now (copied key p buf one) h = ground arith

enough-Idles :
    (es : List Event) (t : State) → left_of t + 2 * swaps es t ≤ ingester_steps es → Idles es t
unfolding swaps run
enough-Idles [] t h = ([], [], refl, nothing_left t.shared.current t.ingester (omega (arith, h)))
enough-Idles (e ∷ es) t h = elim (Bool-cases (is_idle t.ingester)) [
  | inl idle' ↦ ([], e ∷ es, refl, idle')
  | inr busy ↦
      Idles-later e es t (
        enough-Idles es (step e t) (omega (arith, h, step-left e t busy, ingester_steps-cons e es)))
]

-- From a request in hand, in every interleaving in which the ingester makes four steps and two more for
-- each swap of the buffer, it is done with the request at some point: its attempts to replace the buffer
-- fail at most once for each swap.
pub retries_end :
    (es : List Event) (t : State) {key : Str}
    → t.ingester ≡ received key
    → 4 + 2 * swaps es t ≤ ingester_steps es
    → Idles es t
retries_end es t is h =
    let four : left_of t ≡ 4 = ap (left t.shared.current) is in
    enough-Idles es t (omega (arith, h, four))
