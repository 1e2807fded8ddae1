-- ===== src/Errors/Answers.antt =====
-- What is sent for an error.
use api_proxy.Prelude.{
  ℕ, ◌≡◌, refl, ap, ◌∙◌, Bool, true, false, Option, none, some, [], ◌∷◌, ◌++◌, if◌then◌else◌,
  Bool-cases, inl, inr, ◌⊎◌,
}
use api_proxy.Text.{Str, bytes, str_eq, is_blank}
use api_proxy.Text.Laws.{str_eq_iff}
use api_proxy.Text.Maps.{Map}
use api_proxy.Http.Header
use api_proxy.Http.Header.{Header}
use api_proxy.Http.Header.Laws.{get-set_self}
use api_proxy.Http.Writer.{Writer, set_header, write_header, write}
use api_proxy.Http.Writer.Laws.{sent-write, sent-write_header, body-write, body-write_header}
use api_proxy.Trace.{TraceInfo, write_trace}
use api_proxy.Errors.{
  ApiError, ErrorBody, error_body, protobuf_type, default_type, set_headers, sanitise, traced,
  write_proto_error, write_json_error, write_error,
}

-- Nothing was sent, and the body is that of `w`.
abbrev pub Untouched : Writer → Writer → Type 0
Untouched w w' = (w'.sent ≡ none) × (w'.body ≡ w.body)

set_headers-Untouched :
    (hs : Map Str) (w w' : Writer) → Untouched w w' → Untouched w (set_headers hs w')
unfolding set_headers set_header
set_headers-Untouched [] w w' h = h
set_headers-Untouched ((k, v) ∷ hs) w w' h = set_headers-Untouched hs w _ h

traced-Untouched : (t : Option TraceInfo) (w : Writer) → w.sent ≡ none → Untouched w (traced t w)
unfolding traced write_trace set_header
traced-Untouched none w h = (h, refl)
traced-Untouched (some info) w h = elim (Bool-cases (is_blank info.trace_id)) [
  | inl blank ↦ rw blank (h, refl)
  | inr given ↦ rw given (h, refl)
]

-- A response with the status, the content type and the text, on top of the body of `w`.
abbrev pub Sends : ℕ → Str → Str → Writer → Writer → Type 0
Sends status mime text w out =
    ((h : Header) × (out.sent ≡ some (status, h)) × (Header.get h (bytes "Content-Type") ≡ mime))
    × (out.body ≡ w.body ++ text)

send :
    (status : ℕ) (mime text : Str) (w w' : Writer)
    → Untouched w w'
    → Sends status mime text w
        (write (write_header (set_header w' (bytes "Content-Type") mime) status) text)
unfolding set_header
send status mime text w w' (unsent, same) =
    let typed = set_header w' (bytes "Content-Type") mime in
    (
      (
        typed.header,
        sent-write _ text (sent-write_header typed status unsent),
        get-set_self w'.header (bytes "Content-Type") mime,
      ),
      body-write _ text ∙ ap (λ b. b ++ text) (body-write_header typed status ∙ same),
    )

module _ (to_json : ErrorBody → Str) (to_protobuf : ApiError → Str) where
  answered :
      (w w' : Writer) (told : ApiError) (mime : Str)
      → Untouched w w'
      → let out =
          if str_eq mime protobuf_type
          then write_proto_error to_json to_protobuf w' told
          else write_json_error to_json to_protobuf w' told in
        ((mime ≡ protobuf_type) × Sends told.http_code protobuf_type (to_protobuf told) w out)
        ⊎ ((str_eq mime protobuf_type ≡ false)
            × Sends told.http_code default_type (to_json (error_body told)) w out)
  unfolding write_proto_error write_json_error
  answered w w' told mime h =
      let headed = set_headers-Untouched told.http_headers w w' h in
      elim (Bool-cases (str_eq mime protobuf_type)) [
        | inl proto ↦ inl (
          (str_eq_iff mime protobuf_type).0 proto,
          rw proto (send told.http_code protobuf_type (to_protobuf told) w _ headed),
        )
        | inr json ↦ inr (
          json,
          rw json (send told.http_code default_type (to_json (error_body told)) w _ headed),
        )
      ]

  -- If nothing was sent before, an error is answered with its status; a client that takes protobuf
  -- gets the error in that encoding, and every other client the error's body as JSON, each under its
  -- content type whatever headers the error and the trace bring; and the description is replaced by
  -- the type of the error if errors are to be sanitised.
  pub write_error-Sends :
      (sanitised : Bool) (w : Writer) (err : ApiError) (mime : Str) (trace : Option TraceInfo)
      → w.sent ≡ none
      → let told = if sanitised then record err { description = err.error_type } else err in
        ((mime ≡ protobuf_type)
          × Sends err.http_code protobuf_type
              (to_protobuf told)
              w
              (write_error to_json to_protobuf sanitised w err mime trace))
        ⊎ ((str_eq mime protobuf_type ≡ false)
            × Sends err.http_code default_type
                (to_json (error_body told))
                w
                (write_error to_json to_protobuf sanitised w err mime trace))
  unfolding write_error sanitise
  write_error-Sends true w err mime trace unsent =
      answered w (traced trace w) (record err { description = err.error_type }) mime
        (traced-Untouched trace w unsent)
  write_error-Sends false w err mime trace unsent =
      answered w (traced trace w) err mime (traced-Untouched trace w unsent)
