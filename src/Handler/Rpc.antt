-- ===== src/Handler/Rpc.antt =====
-- The RPC entry point (handler/h2rpc.go). The client library, the authentication service and the
-- constructors of its errors are parameters; the statistics are left out.
pub mod Access
mod Tests
use api_proxy.Prelude.{
  ℕ, Bool, true, false, not, ◌&&◌, ◌||◌, Option, none, some, List, [], ◌∷◌, if◌then◌else◌,
}
use api_proxy.Text.{Str, bytes, str_eq, is_blank, has_prefix}
use api_proxy.Http.Header
use api_proxy.Http.Query
use api_proxy.Http.Media.{parse_media_type}
use api_proxy.Http.Request.{
  Request, Body, no_body, content, broken, query, parse_form, post_values, form_values,
  content_type, form_mime,
}
use api_proxy.Http.Writer.{Writer, set_header, write_header, write}
use api_proxy.Session.{Order, session_id, session_id_key, ◌or_else◌}
use api_proxy.Trace.{TraceInfo, write_trace}
use api_proxy.Errors.{ApiError, ErrorBody, write_error, protobuf_type, default_type}

-- A request for a service, as the client library is asked for it.
pub record Call : Type 0 where
  pub service : Str
  pub endpoint : Str
  pub payload : Str
  pub is_protobuf : Bool
  pub session : Str
  pub trace : TraceInfo
  pub remote_addr : Str

-- A value, or the error that is answered instead.
pub data Result (A : Type 0) : Type 0 where
  ok : A → Result A
  failed : ApiError → Result A

-- What the handler uses of other packages.
pub record Platform : Type 0 where
  -- `errors.BadRequest` and `errors.Forbidden`: code, description, context.
  pub bad_request : Str → Str → List Str → ApiError
  pub forbidden : Str → Str → List Str → ApiError
  -- `client.NewProtoRequest` or `client.NewJsonRequest`: the text of an error, if there is one.
  pub refuses : (is_protobuf : Bool) (service endpoint payload : Str) → Option Str
  -- Whether the session is that of a user with the role ADMIN.
  pub is_admin : Str → Bool
  -- What the service answers to a call.
  pub answers : Call → Result Str
  pub to_json : ErrorBody → Str
  pub to_protobuf : ApiError → Str
  pub sanitised : Bool

abbrev pub post_required : ApiError
post_required = record {
  error_type = bytes "BAD_REQUEST";
  code = bytes "com.HailoOSS.api.rpc.postrequired";
  description = bytes "Requests to the RPC endpoint must be POST-ed";
  context = bytes "15" ∷ [];
  http_code = 405;
  http_headers = (bytes "Allow", bytes "POST") ∷ [];
}

abbrev pub kernel_prefix : Str
kernel_prefix = bytes "com.HailoOSS.kernel."

-- The form's content type, for a request that has none that can be read.
unfoldable pub fix_type : Request → Request
fix_type r =
    let (ct, well) = parse_media_type (Header.get r.header content_type) in
    if is_blank ct || not well
    then record r { header = Header.set r.header content_type form_mime }
    else r

-- `ioutil.ReadAll`, without what is read before an error.
unfoldable pub read_all : Body → Str
read_all no_body = []
read_all (content s) = s
read_all broken = []

-- What the parameters of a request name.
pub record Target : Type 0 where
  pub service : Str
  pub endpoint : Str
  pub payload : Str
  pub is_protobuf : Bool

module _ (platform : Platform) where
  open platform use {
    bad_request, forbidden, refuses, is_admin, answers, to_json, to_protobuf, sanitised,
  }

  -- The two forms of the parameters.
  unfoldable pub read_proto : Request → Request × Result Target
  read_proto r = (
    record r { body = content [] },
    ok (record {
      service = Query.get (query r) (bytes "service");
      endpoint = Query.get (query r) (bytes "endpoint");
      payload = read_all r.body;
      is_protobuf = true;
    }),
  )

  read_parsed : Request × Bool → Request × Result Target
  read_parsed (r, true) = (
    r,
    failed (
        bad_request (bytes "com.HailoOSS.api.rpc.parseform") (bytes "Cannot parse form data.")
          (bytes "15" ∷ [])),
  )
  read_parsed (r, false) = (
    r,
    ok (record {
      service = Query.get (post_values r) (bytes "service");
      endpoint = Query.get (post_values r) (bytes "endpoint");
      payload = Query.get (post_values r) (bytes "request") or_else bytes "{}";
      is_protobuf = false;
    }),
  )

  -- The guards over the parameters.
  unfoldable pub check_target : Target → Result Target
  check_target t =
      if is_blank t.service
      then failed (
          bad_request (bytes "com.HailoOSS.api.rpc.missingservice")
            (bytes "Missing 'service' parameter.") (bytes "15" ∷ []))
      else if is_blank t.endpoint
      then failed (
          bad_request (bytes "com.HailoOSS.api.rpc.missingendpoint")
            (bytes "Missing 'endpoint' parameter.") (bytes "15" ∷ []))
      else elim (refuses t.is_protobuf t.service t.endpoint t.payload) [
        | none ↦ ok t
        | some text ↦ failed (bad_request (bytes "com.HailoOSS.api.rpc.badrequest") text [])
      ]

  check_read : Request × Result Target → Request × Result Target
  unfolding check_target
  check_read (r, ok t) = (r, check_target t)
  check_read (r, failed err) = (r, failed err)

  -- `httpToH2Request`, with the request that it leaves.
  unfoldable pub http_to_h2_request : Request → Request × Result Target
  unfolding read_parsed check_read
  http_to_h2_request r =
      if str_eq (Header.get r.header content_type) protobuf_type
      then check_read (read_proto r)
      else check_read (read_parsed (parse_form r))

  -- `authorisedFor`; `none` is no error.
  unfoldable pub authorised_for : Request → Str → Option ApiError
  authorised_for r service =
      let id =
        Query.get (query r) session_id_key or_else Query.get (form_values r) session_id_key in
      if not (has_prefix service kernel_prefix)
      then none
      else if is_admin id
      then none
      else some (
          forbidden (bytes "com.HailoOSS.api.rpc.auth") (bytes "Permission denied.")
            (bytes "5" ∷ []))

  -- An error, answered in the type that was asked for.
  unfoldable pub refuse : Writer → ApiError → Str → TraceInfo → Writer
  refuse w err mime trace = write_error to_json to_protobuf sanitised w err mime (some trace)

  unfoldable pub finish : Writer → Str → TraceInfo → Result Str → Writer
  finish w mime trace (failed err) = refuse w err mime trace
  finish w mime trace (ok body) =
      write (write_header (set_header (write_trace trace w) content_type mime) 200) body

  -- The call, and what is written for its answer.
  place : Order → TraceInfo → Writer → Str → Request → Target → Writer × Option Call
  unfolding finish
  place order trace w mime r t =
      let made : Call = record {
        service = t.service;
        endpoint = t.endpoint;
        payload = t.payload;
        is_protobuf = t.is_protobuf;
        session = session_id order r;
        trace = trace;
        remote_addr = r.remote_addr;
      } in
      (finish w mime trace (answers made), some made)

  guarded :
      Order → TraceInfo → Writer → Str → Request → Target → Option ApiError → Writer × Option Call
  unfolding place
  guarded order trace w mime r t (some err) = (refuse w err mime trace, none)
  guarded order trace w mime r t none = place order trace w mime r t

  targeted : Order → TraceInfo → Writer → Str → Request × Result Target → Writer × Option Call
  unfolding guarded
  targeted order trace w mime (r, failed err) = (refuse w err mime trace, none)
  targeted order trace w mime (r, ok t) =
      guarded order trace w mime r t (authorised_for r t.service)

  -- `rpcHandler`: the response, and the call that was made.
  unfoldable pub rpc_handler : Order → TraceInfo → Writer → Request → Writer × Option Call
  unfolding targeted
  rpc_handler order trace w r =
      if not (str_eq r.method (bytes "POST"))
      then (refuse w post_required default_type trace, none)
      else let mime =
          if str_eq (Header.get (fix_type r).header content_type) protobuf_type
          then protobuf_type
          else default_type in
        targeted order trace w mime (http_to_h2_request (fix_type r))
