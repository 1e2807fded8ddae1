-- ===== src/Throttling/Tests.antt =====
-- Runs of the throttling handler, and its theorems at concrete runs.
use api_proxy.Prelude.{◌≡◌, refl, true, some, List, [], ◌∷◌, if◌then◌else◌, ◌≤◌, arith}
use api_proxy.Text.{Str, bytes, is_blank}
use api_proxy.Http.Request.{Request}
use api_proxy.Http.Run.{run_http}
use api_proxy.Http.Writer.{Writer, new_writer, write}
use api_proxy.Session.{token_first, session_id}
use api_proxy.ControlPlane.Run.{run_control_plane}
use api_proxy.ControlPlane.Samples.{london}
use api_proxy.Throttling.State.{
  State, Event, arrive, ingester_runs, synchroniser_runs, step, run, new_state, ingest, synchronise,
  offer, put, receive, count_at, answer,
}
use api_proxy.Throttling.Ledger.{
  blank_ledger, audit, note, note_ingester, note_synchroniser, note_hit, note_taken, holds,
  count_in, unread, one_if,
}
use api_proxy.Throttling.Accounting.{Balance}
use api_proxy.Throttling.Losses.{run-Balance}
use api_proxy.Throttling.Progress.{Idles, retries_end, swaps}
use api_proxy.Throttling.Request.{
  serve_http, serve_http-Answer, Answer, bucket_of, buckets, has_key, any_throttled, too_many,
}

abbrev key : Str
key = bytes "sessId:a"

abbrev tick : Event
tick = synchroniser_runs true (some (key ∷ []))

-- Three requests of one bucket. The buffer is swapped and read while the third is on its way from
-- the loaded buffer to its counter.
abbrev events : List Event
events =
    arrive key
    ∷ arrive key
    ∷ arrive key
    ∷ ingester_runs
    ∷ ingester_runs
    ∷ ingester_runs
    ∷ ingester_runs
    ∷ ingester_runs
    ∷ ingester_runs
    ∷ ingester_runs
    ∷ ingester_runs
    ∷ ingester_runs
    ∷ ingester_runs
    ∷ tick
    ∷ tick
    ∷ tick
    ∷ ingester_runs
    ∷ tick
    ∷ tick
    ∷ []

lost_test :
    (audit key events new_state blank_ledger).1
    ≡ record { taken = 3; sent = 2; lost = 1; dropped = 0; swaps = 1 }
unfolding run_http audit step note note_ingester note_synchroniser note_hit note_taken holds ingest
    synchronise offer put receive count_at new_state count_in unread one_if answer
lost_test = refl

run-Balance_example :
    let (t, l) = audit key events new_state blank_ledger in
    (t ≡ run events new_state)
    × Balance key t.shared t.ingester t.synchroniser l
    × (l.lost ≤ l.swaps)
run-Balance_example = run-Balance key events (omega arith)

abbrev next : Writer → Request → Writer
next w r = write w (bytes "ok")

abbrev in_session : Request
in_session = record london { raw_query = bytes "session_id=a" }

serve_http-Answer_example :
    Answer next token_first
      (key ∷ [])
      new_writer
      in_session
      (serve_http next token_first (key ∷ []) new_writer in_session new_state.shared).1
    × ((serve_http next token_first (key ∷ []) new_writer in_session new_state.shared).0 ≡ (
        if is_blank (session_id token_first in_session)
        then new_state.shared
        else offer (bucket_of (session_id token_first in_session)) new_state.shared))
serve_http-Answer_example =
    serve_http-Answer next token_first (key ∷ []) new_writer in_session new_state.shared refl

refused_test :
    (serve_http next token_first (key ∷ []) new_writer in_session new_state.shared).1
    ≡ too_many new_writer
unfolding run_control_plane serve_http buckets has_key any_throttled
refused_test = refl

-- A request in hand, and the buffer swapped while it is on its way to a new counter.
abbrev in_hand : State
in_hand = run (arrive key ∷ ingester_runs ∷ []) new_state

abbrev retried : List Event
retried =
    ingester_runs ∷ ingester_runs ∷ ingester_runs ∷ tick ∷ ingester_runs ∷ ingester_runs
    ∷ ingester_runs ∷ []

retries_end_example : Idles retried in_hand
unfolding run_http step ingest synchronise offer put receive count_at new_state run swaps
retries_end_example = retries_end retried in_hand {key = key} refl (omega arith)
