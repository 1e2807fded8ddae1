-- ===== src/Handler/H2.antt =====
-- The handler of the H2 backend (handler/h2.go). The RPC client and the trace are parameters; the
-- result says whether the request counts as a success in the statistics.
pub mod Head
pub mod Answers
mod Tests
use api_proxy.Prelude.{ℕ, Bool, true, false, Option, none, some, List, [], ◌∷◌, if◌then◌else◌, ltb}
use api_proxy.Text.{Str, bytes, is_blank}
use api_proxy.Http.Header
use api_proxy.Http.Query.{cut}
use api_proxy.Http.Media.{trim_space}
use api_proxy.Http.Request.{Request, content_type}
use api_proxy.Http.Writer.{Writer, set_header, add_header, write_header, write}
use api_proxy.Session.{Order, session_id}
use api_proxy.Trace.{TraceInfo, write_trace}
use api_proxy.Errors.{ApiError, ErrorBody, write_error, default_type}
use api_proxy.ControlPlane.Extractor.{Extractor}
use api_proxy.ControlPlane.Router.{Config}
use api_proxy.Handler.Rpc.{Result, ok, failed}
use api_proxy.Handler.Endpoint.{path_to_endpoint}
use api_proxy.Handler.Marshal.{Ranges, ApiRequest, http_request_to_proto}
use api_proxy.Handler.Pinning.{region_pinning}

-- `api.Response`, with a status that is not negative.
pub record ApiResponse : Type 0 where
  pub status_code : ℕ
  pub header : List Str
  pub body : Str

-- A call of a service as the RPC client is given it.
pub record H2Call : Type 0 where
  pub service : Str
  pub endpoint : Str
  pub payload : ApiRequest
  pub session : Str
  pub trace : Option TraceInfo
  pub remote_addr : Str

-- What the handler uses of other packages.
pub record Backend : Type 0 where
  -- `errors.BadRequest`: code, description, context.
  pub bad_request : Str → Str → List Str → ApiError
  -- The text of the error of `ParseForm`.
  pub problem : Request → Str
  -- Whether `client.NewRequest` gives an error.
  pub refuses : (service endpoint : Str) → ApiRequest → Bool
  -- What `client.Req` gives, without retries.
  pub answers : H2Call → Result ApiResponse
  pub to_json : ErrorBody → Str
  pub to_protobuf : ApiError → Str
  pub sanitised : Bool

-- What the handler leaves.
pub record Served : Type 0 where
  pub writer : Writer
  pub call : Option H2Call
  pub success : Bool

abbrev pub json_type : Str
json_type = bytes "application/json"

add_cut : Str × Option Str → Writer → Writer
add_cut (key, none) w = w
add_cut (key, some value) w = add_header w (trim_space key) (trim_space value)

-- One header of the answer: `key : value`, or nothing without a colon.
unfoldable pub add_line : Str → Writer → Writer
unfolding add_cut
add_line line w = add_cut (cut line b':') w

unfoldable pub add_lines : List Str → Writer → Writer
unfolding add_line
add_lines [] w = w
add_lines (line ∷ lines) w = add_lines lines (add_line line w)

unfoldable pub default_content : Writer → Writer
default_content w =
    if is_blank (Header.get w.header content_type)
    then set_header w content_type default_type
    else w

-- A trace is passed on if it has an identifier.
abbrev pub scope : TraceInfo → Option TraceInfo
scope trace = if is_blank trace.trace_id then none else some trace

module _ (backend : Backend) where
  open backend use {bad_request, problem, refuses, answers, to_json, to_protobuf, sanitised}

  unfoldable pub refuse : Writer → ApiError → TraceInfo → Writer
  refuse w err trace = write_error to_json to_protobuf sanitised w err json_type (some trace)

  -- The error for a request that the client does not take.
  abbrev pub no_handler : ApiError
  no_handler = bad_request (bytes "15") (bytes "No handler available.") []

  -- The order in which the session package tries the headers is chosen anew for every reading.
  module _ (order session_order : Order) (ranges : Ranges) (config : Config)
      (trace : TraceInfo) where
    -- The headers of an answer, behind those of the trace.
    unfoldable pub answer_head : Writer → Extractor → ApiResponse → Writer
    answer_head w e rsp =
        (region_pinning order config (default_content (add_lines rsp.header (write_trace trace w)))
          e).1

    unfoldable pub finish : Writer → Extractor → H2Call → Result ApiResponse → Served
    finish w e call (failed err) = record {
      writer = refuse w err trace;
      call = some call;
      success = false;
    }
    finish w e call (ok rsp) = record {
      writer = write (write_header (answer_head w e rsp) rsp.status_code) rsp.body;
      call = some call;
      success = ltb rsp.status_code 500;
    }

    -- The call for a request that is marshalled.
    unfoldable pub call_for : Request → ApiRequest → H2Call
    call_for r payload =
        let (service, endpoint) = path_to_endpoint r.path in
        record {
          service = service;
          endpoint = endpoint;
          payload = payload;
          session = session_id session_order r;
          trace = scope trace;
          remote_addr = r.remote_addr;
        }

    place : Writer → Extractor → H2Call → Served
    unfolding finish
    place w e call =
        if refuses call.service call.endpoint call.payload
        then record { writer = refuse w no_handler trace; call = none; success = false }
        else finish w e call (answers call)

    marshalled : Writer → Extractor → Request × Result ApiRequest → Served
    unfolding place call_for
    marshalled w e (r, failed err) = record {
      writer = refuse w err trace;
      call = none;
      success = false;
    }
    marshalled w e (r, ok payload) = place w (record e { req = r }) (call_for r payload)

    -- `h2Handler`, on the request of the router's extractor.
    unfoldable pub h2_handler : Writer → Extractor → Served
    unfolding marshalled
    h2_handler w e = marshalled w e (http_request_to_proto ranges bad_request problem e.req)
