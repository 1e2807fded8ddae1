-- ===== src/Errors.antt =====
-- How an error is answered (errors/errors.go). The encodings of the body are parameters.
pub mod Numbers
pub mod Answers
mod Tests
use api_proxy.Prelude.{ℕ, Bool, true, false, not, Option, none, some, List, [], ◌∷◌, if◌then◌else◌}
use api_proxy.Prelude.Int.{ℤ, pos, int_eq}
use api_proxy.Text.{Str, bytes, str_eq, is_blank}
use api_proxy.Text.Decimal.{atoi}
use api_proxy.Text.Maps.{Map}
use api_proxy.Http.Writer.{Writer, set_header, write_header, write}
use api_proxy.Trace.{TraceInfo, write_trace}

abbrev pub protobuf_type : Str
protobuf_type = bytes "application/x-protobuf"

abbrev pub default_type : Str
default_type = bytes "application/json; charset=utf-8"

pub record ErrorBody : Type 0 where
  pub status : Bool
  pub payload : Str
  pub number : ℤ
  pub dotted_code : Str
  pub context : List Str

-- `ApiError`. An error of the platform that is not one has no headers.
pub record ApiError : Type 0 where
  pub error_type : Str
  pub code : Str
  pub description : Str
  pub context : List Str
  pub http_code : ℕ
  pub http_headers : Map Str

abbrev pub or_zero : Option ℤ → ℤ
or_zero none = pos 0
or_zero (some n) = n

-- The number from the first entry of the context, which is then taken off.
unfoldable pub number_from_context : List Str → ℤ × List Str
number_from_context [] = (pos 0, [])
number_from_context (s ∷ context) = elim (atoi s) [
  | none ↦ (pos 0, s ∷ context)
  | some n ↦ (n, context)
]

-- The number from the code, and 11 for want of one.
unfoldable pub number_or_code : ℤ → Str → ℤ
number_or_code n code =
    let m = if int_eq n (pos 0) then or_zero (atoi code) else n in
    if int_eq m (pos 0) then pos 11 else m

abbrev pub description_of : Str → Str
description_of [] = bytes "Internal low-level service failure, cannot complete request"
description_of (c ∷ s) = c ∷ s

unfoldable pub error_body : ApiError → ErrorBody
error_body err =
    let (n, context) = number_from_context err.context in
    record {
      status = false;
      payload = description_of err.description;
      number = number_or_code n err.code;
      dotted_code = err.code;
      context = context;
    }

-- `for k, v := range err.HttpHeaders`.
unfoldable pub set_headers : Map Str → Writer → Writer
set_headers [] w = w
set_headers ((k, v) ∷ hs) w = set_headers hs (set_header w k v)

unfoldable pub sanitise : Bool → ApiError → ApiError
sanitise false err = err
sanitise true err = record err { description = err.error_type }

unfoldable pub traced : Option TraceInfo → Writer → Writer
traced none w = w
traced (some info) w = write_trace info w

module _ (to_json : ErrorBody → Str) (to_protobuf : ApiError → Str) where
  unfoldable pub write_proto_error : Writer → ApiError → Writer
  write_proto_error w err =
      write
        (write_header
          (set_header (set_headers err.http_headers w) (bytes "Content-Type") protobuf_type)
          err.http_code)
        (to_protobuf err)

  unfoldable pub write_json_error : Writer → ApiError → Writer
  write_json_error w err =
      write
        (write_header
          (set_header (set_headers err.http_headers w) (bytes "Content-Type") default_type)
          err.http_code)
        (to_json (error_body err))

  -- `Write`, given whether errors are to be sanitised.
  unfoldable pub write_error : Bool → Writer → ApiError → Str → Option TraceInfo → Writer
  write_error sanitised w err mime trace =
      let w' = traced trace w in
      if str_eq mime protobuf_type
      then write_proto_error w' (sanitise sanitised err)
      else write_json_error w' (sanitise sanitised err)
