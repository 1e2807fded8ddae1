-- ===== src/Handler/H1/Tests.antt =====
-- Runs of the handler of the old backend, and its theorems at concrete runs.
use api_proxy.Prelude.{◌≡◌, refl, List, [], ◌∷◌, ◌++◌}
use api_proxy.Text.{bytes}
use api_proxy.Http.Header
use api_proxy.Http.Request.{Request}
use api_proxy.Http.Run.{run_http}
use api_proxy.Http.Writer.{Writer, new_writer}
use api_proxy.ControlPlane.Samples.{london}
use api_proxy.Handler.H1.{
  Call, set_call, status_call, h1_handler, proxy_error_payload, serve, call, h1_write_header,
  copy_headers, add_values, finish, h1_write,
}
use api_proxy.Handler.H1.Cors.{Has, h1_handler-Has}
use api_proxy.Handler.H1.Answers.{texts, last_status, default_text, h1_handler-body}

abbrev proxy : Request → List Call
proxy r =
    set_call (bytes "Access-Control-Allow-Origin") (bytes "*")
    ∷ set_call (bytes "X-Backend") (bytes "one")
    ∷ status_call 500
    ∷ []

abbrev with_origin : Writer
with_origin = record new_writer {
  header = (bytes "Access-Control-Allow-Origin", bytes "http://hailoweb.com" ∷ []) ∷ [];
}

sent_test : (h1_handler proxy new_writer london).body ≡ proxy_error_payload
unfolding run_http h1_handler serve call h1_write_header copy_headers add_values finish h1_write
sent_test = refl

h1_handler-Has_example :
    Has
      (bytes "Access-Control-Allow-Origin")
      (Header.values with_origin.header (bytes "Access-Control-Allow-Origin"))
      (h1_handler proxy with_origin london)
unfolding run_http
h1_handler-Has_example =
    h1_handler-Has (bytes "Access-Control-Allow-Origin") proxy with_origin london refl refl

h1_handler-body_example :
    (h1_handler proxy with_origin london).body
    ≡ (with_origin.body ++ texts (proxy london))
      ++ default_text (last_status 0 (proxy london)) (texts (proxy london))
h1_handler-body_example = h1_handler-body proxy with_origin london
