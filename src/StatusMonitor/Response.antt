-- ===== src/StatusMonitor/Response.antt =====
-- What the monitor answers (statusmonitor/statusmonitor.go).
use api_proxy.Prelude.{
  ℕ, suc, ◌-◌, ◌≡◌, ◌≢◌, refl, Bool, true, false, not, Option, none, some, List, [], ◌∷◌, ◌++◌,
  if◌then◌else◌, Bool-cases, inl, inr, arith, ◌⊎◌, ◌==◌, length, All, ◌≤◌, ap,
}
use api_proxy.Text.{Str, bytes, str_eq}
use api_proxy.Text.Maps.{Map}
use api_proxy.Http.Header
use api_proxy.Http.Header.{Header}
use api_proxy.Http.Writer.{Writer, set_header, write_header, write}
use api_proxy.Http.Writer.Laws.{sent-write, sent-write_header, sent-write_unsent}
use api_proxy.StatusMonitor.State.{StatusMonitor, failure_string}

abbrev pub json_type : Str
json_type = bytes "application/json; charset=utf-8"

health_json : Bool → Str
health_json true = bytes "{\"IsHealthy\":true}"
health_json false = bytes "{\"IsHealthy\":false}"

-- `Handler`. On failure the status is written before the content type is set.
unfoldable pub handler : StatusMonitor → Writer → Writer
unfolding health_json
handler s w =
    let w' = if s.is_healthy then w else write_header w 500 in
    write (set_header w' (bytes "Content-Type") json_type) (health_json s.is_healthy)

-- The loop over the hosts: how many attempts succeeded, and the last error.
dial_from : ℕ → Str → List (Option Str) → ℕ × Str
dial_from ok info [] = (ok, info)
dial_from ok info (none ∷ ds) = dial_from ok info ds
dial_from ok info (some err ∷ ds) = dial_from (ok - 1) err ds

-- `http.Error`.
unfoldable pub http_error : Writer → Str → ℕ → Writer
http_error w text status =
    write
      (write_header
        (set_header (set_header w (bytes "Content-Type") (bytes "text/plain; charset=utf-8"))
          (bytes "X-Content-Type-Options") (bytes "nosniff"))
        status)
      (text ++ (10 ∷ []))

answer : ℕ × Str → Writer → Writer
unfolding http_error
answer (ok, info) w =
    if ok == 0
    then http_error w (bytes "Error establishing external connections: " ++ info) 500
    else write (write_header w 200) (bytes "OK")

-- `StatusHandler`, over the outcomes of the dials, `none` for one that succeeds.
unfoldable pub status_handler : List (Option Str) → Writer → Writer
unfolding dial_from answer
status_handler dials w = answer (dial_from (length dials) [] dials) w

-- `AzStatusChecker`: the report, and the error if there is one. The time comes formatted.
unfoldable pub az_status_checker : StatusMonitor → Str → Map Str × Option Str
unfolding failure_string
az_status_checker s changed = (
  (bytes "azName", s.az_name)
      ∷ (bytes "isHealthy", if s.is_healthy then bytes "true" else bytes "false")
      ∷ (bytes "failureType", failure_string s.failure_type)
      ∷ (bytes "lastChanged", changed)
      ∷ [],
  if not s.is_healthy
      then some (bytes "This Thin API instance is not serving traffic - AZ reported unhealthy")
      else if str_eq s.az_name (bytes "undefined")
      then some (bytes "Unable to determine the local AZ")
      else none,
)

-- An unhealthy monitor answers 500 with the headers as they stood before: the content type that it
-- then sets is not among those sent. A healthy one answers 200 with the content type.
pub handler-sent :
    (s : StatusMonitor) (w : Writer)
    → w.sent ≡ none
    → (handler s w).sent ≡ (
        if s.is_healthy
        then some (200, Header.set w.header (bytes "Content-Type") json_type)
        else some (500, w.header))
unfolding handler set_header
handler-sent s w unsent = elim (Bool-cases s.is_healthy) [
  | inl well ↦ rw (well, handler) (sent-write_unsent _ _ unsent)
  | inr sick ↦ rw (sick, handler) (sent-write _ _ (sent-write_header w 500 unsent))
]

-- The dials that fail.
abbrev failures : List (Option Str) → ℕ
failures [] = 0
failures (none ∷ ds) = failures ds
failures (some _ ∷ ds) = suc (failures ds)

dial_from-count :
    (ok : ℕ) (info : Str) (ds : List (Option Str)) → (dial_from ok info ds).0 ≡ ok - failures ds
unfolding dial_from
dial_from-count ok info [] = omega arith
dial_from-count ok info (none ∷ ds) = dial_from-count ok info ds
dial_from-count ok info (some err ∷ ds) = omega (arith, dial_from-count (ok - 1) err ds)

failures-le : (ds : List (Option Str)) → failures ds ≤ length ds
failures-le [] = omega arith
failures-le (none ∷ ds) = omega (arith, failures-le ds)
failures-le (some err ∷ ds) = omega (arith, failures-le ds)

abbrev pub IsFailed : Option Str → Type 0
IsFailed o = (err : Str) × (o ≡ some err)

All-IsFailed : (ds : List (Option Str)) → failures ds ≡ length ds → All IsFailed ds
All-IsFailed [] h = tt
All-IsFailed (none ∷ ds) h = absurd (omega (arith, failures-le ds))
All-IsFailed (some err ∷ ds) h = ((err, refl), All-IsFailed ds (omega arith))

answer-status :
    (p : ℕ × Str) (w : Writer)
    → w.sent ≡ none
    → ((p.0 ≡ 0) × ((h : Header) × ((answer p w).sent ≡ some (500, h))))
      ⊎ ((p.0 ≢ 0) × ((answer p w).sent ≡ some (200, w.header)))
unfolding answer http_error set_header
answer-status (ok, info) w unsent = elim (Bool-cases (ok == 0)) [
  | inl zero' ↦
      let plain =
        set_header (set_header w (bytes "Content-Type") (bytes "text/plain; charset=utf-8"))
          (bytes "X-Content-Type-Options") (bytes "nosniff") in
      inl (
        ground arith,
        (plain.header, rw zero' (sent-write _ _ (sent-write_header plain 500 unsent))),
      )
  | inr more ↦ inr (ground arith, rw more (sent-write _ _ (sent-write_header w 200 unsent)))
]

none_ok : (ds : List (Option Str)) → All IsFailed ds → failures ds ≡ length ds
none_ok [] h = refl
none_ok (none ∷ ds) ((err, e), h) = cc
none_ok (some err ∷ ds) (_, h) = ap suc (none_ok ds h)

-- The status page answers 500 only if every dial failed, and otherwise 200 with the headers as they
-- stood.
pub status_handler-500 :
    (dials : List (Option Str)) (w : Writer)
    → w.sent ≡ none
    → (All IsFailed dials × ((h : Header) × ((status_handler dials w).sent ≡ some (500, h))))
      ⊎ ((¬ All IsFailed dials) × ((status_handler dials w).sent ≡ some (200, w.header)))
unfolding status_handler
status_handler-500 dials w unsent =
    let counted = dial_from-count (length dials) [] dials in
    elim (answer-status (dial_from (length dials) [] dials) w unsent) [
      | inl (no_ok, sent) ↦ inl (All-IsFailed dials (omega (arith, failures-le dials)), sent)
      | inr (some_ok, sent) ↦ inr (λ all. some_ok (omega (arith, none_ok dials all)), sent)
    ]
