-- ===== src/Handler/Server/Tests.antt =====
-- A site, and the theorems about the chain of handlers at concrete requests.
use api_proxy.Prelude.{◌≡◌, refl, some, List, [], ◌∷◌, if◌then◌else◌, inl, inr}
use api_proxy.Text.{Str, bytes, is_blank}
use api_proxy.Http.Request.{Request}
use api_proxy.Http.Run.{run_http}
use api_proxy.Http.Writer.{Writer, new_writer, write}
use api_proxy.Session.{token_first, session_id}
use api_proxy.ControlPlane.Samples.{london}
use api_proxy.ControlPlane.Run.{run_control_plane}
use api_proxy.Throttling.State.{new_state, offer}
use api_proxy.Throttling.Request.{bucket_of, serve_http, buckets, any_throttled}
use api_proxy.Handler.Cors.{serve_cors}
use api_proxy.Handler.Endpoint.{clean, clean_all, clean_step, is_rooted, path_to_endpoint}
use api_proxy.Handler.Mux.{
  matched, match_from, path_match, better, clean_path, rooted, ends_in_slash,
}
use api_proxy.Handler.Pci.{serve_pci, is_sensitive_request, is_listed}
use api_proxy.Handler.RealIp.{real_ip, serve_real_ip}
use api_proxy.Handler.Server.{
  Handlers, patterns, main, rpc, serve, serve_mux, serve_found, serve_page,
}
use api_proxy.Handler.Server.Chain.{Outcome, serve-Outcome}
use api_proxy.Handler.Server.Slash.{slashed, serve_pci-slashed}

abbrev site : Handlers
site = record {
  version_text = bytes "1";
  favicon_bytes = [];
  pprof = λ page w r. w;
  redirect = λ path w r. write w path;
  rpc_handler = λ w r. write w (bytes "rpc");
  main_handler = λ w r. write w (bytes "main");
  monitor_handler = λ w. w;
  status_handler = λ w. w;
  endpoints_handler = λ w r. w;
}

abbrev paths : List Str
paths = bytes "GET /v1/pay" ∷ []

abbrev paid : Request
paid = record london { method = bytes "GET"; path = bytes "/v1/pay" }

main_test : (matched patterns (bytes "/v1/pay")) ≡ some (bytes "/", main)
unfolding run_http matched match_from path_match better ends_in_slash
main_test = refl

rpc_test : (matched patterns (bytes "/v2/h2/call")) ≡ some (bytes "/v2/h2/call", rpc)
unfolding run_http matched match_from path_match better ends_in_slash
rpc_test = refl

-- What the sensitive request gets with a slash behind its path.
slashed_test :
    (serve site token_first [] paths new_writer (slashed paid) new_state.shared).1.body
    ≡ bytes "main"
unfolding run_control_plane serve serve_real_ip real_ip serve_http buckets any_throttled serve_pci
    is_sensitive_request is_listed serve_cors serve_mux clean_path clean clean_all clean_step
    matched match_from path_match better ends_in_slash rooted is_rooted serve_found serve_page
slashed_test = refl

serve-Outcome_example :
    Outcome site token_first [] paths new_writer
      (real_ip paid)
      (serve site token_first [] paths new_writer paid new_state.shared).1
    × ((serve site token_first [] paths new_writer paid new_state.shared).0 ≡ (
        if is_blank (session_id token_first (real_ip paid))
        then new_state.shared
        else offer (bucket_of (session_id token_first (real_ip paid))) new_state.shared))
serve-Outcome_example =
    serve-Outcome site token_first [] paths new_writer paid new_state.shared refl

abbrev next : Writer → Request → Writer
next w r = write w (bytes "ok")

serve_pci-slashed_example :
    (serve_pci next paths new_writer (slashed paid) ≡ next new_writer (slashed paid))
    × (serve_mux site new_writer (slashed paid)
        ≡ serve_found site (matched patterns (slashed paid).path) new_writer (slashed paid))
    × (path_to_endpoint (slashed paid).path ≡ path_to_endpoint paid.path)
unfolding run_http clean clean_all clean_step is_rooted
serve_pci-slashed_example =
    serve_pci-slashed next site paths new_writer paid (bytes "v1/pay") refl refl (λ e. cc)
      (λ listed. elim listed [ inl e ↦ cc | inr no' ↦ no' ])
