-- ===== src/Handler/Rpc/Tests.antt =====
-- A platform with one service, and the theorem about calls at a concrete request.
use api_proxy.Prelude.{ℕ, ◌≡◌, ◌≢◌, refl, false, none, List, [], ◌⊎◌}
use api_proxy.Text.{Str, bytes, str_eq}
use api_proxy.Http.Request.{Request, content}
use api_proxy.Http.Writer.{new_writer}
use api_proxy.Session.{token_first}
use api_proxy.ControlPlane.Samples.{london}
use api_proxy.ControlPlane.Run.{run_control_plane}
use api_proxy.Trace.{TraceInfo, write_trace}
use api_proxy.Errors.{ApiError, default_type}
use api_proxy.Handler.Rpc.{
  ok, Platform, rpc_handler, fix_type, http_to_h2_request, refuse, post_required, targeted, guarded,
  place, finish, check_target, check_read, read_parsed, authorised_for,
}
use api_proxy.Handler.Rpc.Access.{Outcome, rpc_handler-Outcome}

abbrev error_of : ℕ → Str → Str → List Str → ApiError
error_of status code description context = record {
  error_type = bytes "ERROR";
  code = code;
  description = description;
  context = context;
  http_code = status;
  http_headers = [];
}

abbrev platform : Platform
platform = record {
  bad_request = error_of 400;
  forbidden = error_of 403;
  refuses = λ proto service endpoint payload. none;
  is_admin = λ id. str_eq id (bytes "root");
  answers = λ c. ok (bytes "{}");
  to_json = λ b. b.payload;
  to_protobuf = λ e. e.code;
  sanitised = false;
}

abbrev untraced : TraceInfo
untraced = record { trace_id = []; persistent = false }

abbrev kernel_call : Request
kernel_call = record london {
  method = bytes "POST";
  body = content (bytes "service=com.HailoOSS.kernel.binding&endpoint=list&session_id=root");
}

made_test : (rpc_handler platform token_first untraced new_writer kernel_call).0.body ≡ bytes "{}"
unfolding run_control_plane rpc_handler fix_type http_to_h2_request check_read check_target
    read_parsed targeted guarded authorised_for place finish write_trace
made_test = refl

rpc_handler-Outcome_example :
    ((kernel_call.method ≢ bytes "POST")
      × (rpc_handler platform token_first untraced new_writer kernel_call
          ≡ (refuse platform new_writer post_required default_type untraced, none)))
    ⊎ ((kernel_call.method ≡ bytes "POST")
        × Outcome platform token_first untraced new_writer
            (http_to_h2_request platform (fix_type kernel_call)).0
            (rpc_handler platform token_first untraced new_writer kernel_call))
rpc_handler-Outcome_example =
    rpc_handler-Outcome platform token_first untraced new_writer kernel_call
