-- ===== src/Handler/H2/Tests.antt =====
-- A backend with one service, and the theorem about the H2 handler at a concrete request.
use api_proxy.Prelude.{refl, false, List, [], ◌∷◌}
use api_proxy.Text.{Str, bytes, str_eq}
use api_proxy.Http.Request.{Request, content}
use api_proxy.Http.Writer.{new_writer}
use api_proxy.Session.{token_first}
use api_proxy.ControlPlane.Extractor.{new_extractor}
use api_proxy.ControlPlane.Router.{no_config}
use api_proxy.ControlPlane.Samples.{london}
use api_proxy.ControlPlane.Run.{run_control_plane}
use api_proxy.Trace.{TraceInfo}
use api_proxy.Errors.{ApiError}
use api_proxy.Handler.Rpc.{ok}
use api_proxy.Handler.Marshal.{Ranges}
use api_proxy.Handler.H2.{Backend, ApiResponse, h2_handler}
use api_proxy.Handler.H2.Answers.{Outcome, h2_handler-Outcome}

abbrev in_order : Ranges
in_order = record { of_query = λ q. q; of_post = λ q. q; of_header = λ h. h }

abbrev error_of : Str → Str → List Str → ApiError
error_of code description context = record {
  error_type = bytes "BAD_REQUEST";
  code = code;
  description = description;
  context = context;
  http_code = 400;
  http_headers = [];
}

abbrev pong : ApiResponse
pong = record {
  status_code = 201;
  header = bytes "X-A: b" ∷ bytes "no header" ∷ [];
  body = bytes "{}";
}

-- It answers its service's calls of `ping`.
abbrev backend : Backend
backend = record {
  bad_request = error_of;
  problem = λ r. bytes "bad form";
  refuses = λ service endpoint payload. str_eq endpoint [];
  answers = λ c. ok pong;
  to_json = λ b. b.payload;
  to_protobuf = λ e. e.code;
  sanitised = false;
}

abbrev untraced : TraceInfo
untraced = record { trace_id = []; persistent = false }

abbrev ping : Request
ping = record london {
  method = bytes "POST";
  path = bytes "/v1/customer/ping";
  body = content (bytes "hob=DUB&session_id=secret&a=b");
}

h2_handler-Outcome_example :
    Outcome backend token_first token_first in_order no_config untraced new_writer ping (
      h2_handler backend token_first token_first in_order no_config untraced new_writer
        (new_extractor ping))
unfolding run_control_plane
h2_handler-Outcome_example =
    h2_handler-Outcome backend token_first token_first in_order no_config untraced new_writer
      (new_extractor ping) refl
