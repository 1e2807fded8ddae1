-- ===== src/Handler/H2/Answers.antt =====
-- What the H2 backend's handler asks of the RPC client, and what the app is sent.
use api_proxy.Prelude.{
  ◌≡◌, refl, ◌∙◌, sym, ap, Bool, true, false, none, some, ◌++◌, ltb, inl, inr, Bool-cases,
}
use api_proxy.Http.Header
use api_proxy.Http.Header.{Header}
use api_proxy.Http.Request.{Request, content_type}
use api_proxy.Http.Writer.{Writer, write_header, write}
use api_proxy.Http.Writer.Laws.{sent-write, sent-write_header, body-write, body-write_header}
use api_proxy.Session.{Order, session_id}
use api_proxy.Trace.{TraceInfo}
use api_proxy.Errors.{ApiError}
use api_proxy.ControlPlane.Extractor.{Extractor}
use api_proxy.ControlPlane.Router.{Config}
use api_proxy.Handler.Rpc.{Result, ok, failed}
use api_proxy.Handler.Endpoint.{path_to_endpoint}
use api_proxy.Handler.Marshal.{Ranges, ApiRequest, http_request_to_proto}
use api_proxy.Handler.Marshal.Front.{http_request_to_proto-SameLine}
use api_proxy.Handler.H2.{
  ApiResponse, H2Call, Backend, Served, scope, refuse, no_handler, finish, call_for, place,
  marshalled, h2_handler,
}
use api_proxy.Handler.H2.Head.{mime_of, told_mime, head, answer_head-Untouched, answer_head-mime}

module _ (backend : Backend) where
  open backend use {bad_request, problem, refuses, answers}

  module _ (order session_order : Order) (ranges : Ranges) (config : Config)
      (trace : TraceInfo) where
    -- An answer of the service, as the app gets it on top of what was written before.
    pub record IsAnswered (w out : Writer) (rsp : ApiResponse) : Type 0 where
      pub header : Header
      pub sent : out.sent ≡ some (rsp.status_code, header)
      pub mime :
          Header.get header content_type
          ≡ mime_of (told_mime backend order session_order ranges config trace w rsp)
      pub body : out.body ≡ w.body ++ rsp.body

    -- What marshalling leaves of a request, and what it gives.
    abbrev pub marshal : Request → Request × Result ApiRequest
    marshal = http_request_to_proto ranges bad_request problem

    -- The call that stands for a request.
    pub record IsCall (r : Request) (c : H2Call) : Type 0 where
      pub target : (c.service, c.endpoint) ≡ path_to_endpoint r.path
      pub payload : (marshal r).1 ≡ ok c.payload
      pub session : c.session ≡ session_id session_order (marshal r).0
      pub traced : c.trace ≡ scope trace
      pub from : c.remote_addr ≡ (marshal r).0.remote_addr

    abbrev pub is_refused : H2Call → Bool
    is_refused c = refuses c.service c.endpoint c.payload

    -- An error that is answered without a call: that of the form, or that of the client.
    pub data Refused (r : Request) : ApiError → Type 0 where
      bad_form : (err : ApiError) → (marshal r).1 ≡ failed err → Refused r err
      no_service : (c : H2Call) → IsCall r c → is_refused c ≡ true → Refused r (no_handler backend)

    pub data Outcome (w : Writer) (r : Request) : Served → Type 0 where
      refused :
          (err : ApiError)
          → Refused r err
          → Outcome w r
              (record { writer = refuse backend w err trace; call = none; success = false })
      failed_call :
          (c : H2Call) (err : ApiError)
          → IsCall r c
          → is_refused c ≡ false
          → answers c ≡ failed err
          → Outcome w r
              (record { writer = refuse backend w err trace; call = some c; success = false })
      answered :
          (c : H2Call) (rsp : ApiResponse) (out : Writer)
          → IsCall r c
          → is_refused c ≡ false
          → answers c ≡ ok rsp
          → IsAnswered w out rsp
          → Outcome w r (record { writer = out; call = some c; success = ltb rsp.status_code 500 })

    module _ (w : Writer) (unsent : w.sent ≡ none) (r : Request) (e : Extractor) where
      written :
          (rsp : ApiResponse)
          → IsAnswered w
              (write
                (write_header
                  (head backend order session_order ranges config trace w e rsp)
                  rsp.status_code)
                rsp.body)
              rsp
      written rsp =
          let (s, b) =
            answer_head-Untouched backend order session_order ranges config trace w e rsp unsent in
          record {
            header = (head backend order session_order ranges config trace w e rsp).header;
            sent = sent-write _ rsp.body (
                sent-write_header (head backend order session_order ranges config trace w e rsp)
                  rsp.status_code s);
            mime = answer_head-mime backend order session_order ranges config trace w e rsp;
            body =
                body-write _ rsp.body
                ∙ ap (λ t. t ++ rsp.body)
                    (body-write_header
                        (head backend order session_order ranges config trace w e rsp)
                        rsp.status_code
                      ∙ b);
          }

      finish-Outcome :
          (c : H2Call) (a : Result ApiResponse)
          → IsCall r c
          → is_refused c ≡ false
          → answers c ≡ a
          → Outcome w r (finish backend order session_order ranges config trace w e c a)
      unfolding finish
      finish-Outcome c (failed err) is_call accepted a = failed_call c err is_call accepted a
      finish-Outcome c (ok rsp) is_call accepted a =
          answered c rsp _ is_call accepted a (written rsp)

      place-Outcome :
          (c : H2Call)
          → IsCall r c
          → Outcome w r (place backend order session_order ranges config trace w e c)
      unfolding place
      place-Outcome c is_call = elim (Bool-cases (is_refused c)) [
        | inl denied ↦ rw denied (refused _ (no_service c is_call denied))
        | inr accepted ↦ rw accepted (finish-Outcome c (answers c) is_call accepted refl)
      ]

    marshalled-Outcome :
        (w : Writer)
        → w.sent ≡ none
        → (r : Request) (e : Extractor) (m : Request × Result ApiRequest) → marshal r ≡ m
        → m.0.path ≡ r.path
        → Outcome w r (marshalled backend order session_order ranges config trace w e m)
    unfolding marshalled call_for
    marshalled-Outcome w unsent r e (r', failed err) is path =
        refused err (bad_form err (ap (λ m. m.1) is))
    marshalled-Outcome w unsent r e (r', ok payload) is path =
        place-Outcome w unsent r (record e { req = r' }) _
          (record {
            target = ap path_to_endpoint path;
            payload = ap (λ m. m.1) is;
            session = ap (λ m. session_id session_order m.0) (sym is);
            traced = refl;
            from = ap (λ m. m.0.remote_addr) (sym is);
          })

    -- If nothing was sent before, a request for H2 ends in one of three ways. Without a call, an error
    -- is answered, that of its form or the one for a service that the client does not take. Or one
    -- call is made, to the service and the endpoint of its path, with its message, its session and its
    -- trace, and either its error is answered, or its status and body are sent, under the content type
    -- of its headers or else JSON; only then, with a status below 500, does it count as a success.
    pub h2_handler-Outcome :
        (w : Writer) (e : Extractor)
        → w.sent ≡ none
        → Outcome w e.req (h2_handler backend order session_order ranges config trace w e)
    unfolding h2_handler
    h2_handler-Outcome w e unsent =
        marshalled-Outcome w unsent e.req e (marshal e.req) refl
          (http_request_to_proto-SameLine ranges bad_request problem e.req).0
