-- ===== src/Handler/Refusals.antt =====
-- The two refusals (handler/throttle.go and handler/deprecate.go). The counters of the
-- instrumentation library are left out.
use api_proxy.Prelude.{ℕ, Option, none, some, [], ◌∷◌}
use api_proxy.Text.{Str, bytes}
use api_proxy.Text.Maps.{Map}
use api_proxy.Http.Writer.{Writer, add_header, write_header, write}
use api_proxy.ControlPlane.Types.{Rule, Payload}

abbrev pub throttle_payload : Str
throttle_payload = bytes "{\"status\":false,\"payload\":\"Throttled request\",\"code\":11}"

abbrev pub deprecate_payload : Str
deprecate_payload = bytes "{\"status\":false,\"payload\":\"Deprecated\",\"code\":11}"

-- `for k, v := range rule.Payload.Headers { rw.Header().Add(k, v) }`.
unfoldable pub add_headers : Map Str → Writer → Writer
add_headers [] w = w
add_headers ((k, v) ∷ hs) w = add_headers hs (add_header w k v)

-- What both handlers do, with what they write for a rule without a payload.
unfoldable pub refuse : ℕ → Str → Option Payload → Writer → Writer
refuse status text none w = write (write_header w status) text
refuse status text (some p) w = write (write_header (add_headers p.headers w) p.http_status) p.body

unfoldable pub throttle_handler : Rule → Writer → Writer
throttle_handler rule w = refuse 503 throttle_payload rule.payload w

unfoldable pub deprecate_handler : Rule → Writer → Writer
deprecate_handler rule w = refuse 410 deprecate_payload rule.payload w
