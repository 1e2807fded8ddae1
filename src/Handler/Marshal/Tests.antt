-- ===== src/Handler/Marshal/Tests.antt =====
-- Messages for H2, and the theorems about them at concrete requests.
use api_proxy.Prelude.{◌≡◌, refl, none, List, [], ◌∷◌, arith}
use api_proxy.Text.{Str, bytes}
use api_proxy.Http.Query.{Values}
use api_proxy.Http.Request.{Request, content}
use api_proxy.ControlPlane.Samples.{london}
use api_proxy.ControlPlane.Run.{run_control_plane}
use api_proxy.Errors.{ApiError}
use api_proxy.Handler.Rpc.{ok}
use api_proxy.Handler.Marshal.{
  Ranges, Pair, hob, city, hob_pairs, scan_values, pass_headers, scan_get, scan_post, message,
  http_request_to_proto, fix_mime, read_body, parse_if_body, scan_step, city_code,
}
use api_proxy.Handler.Marshal.Passes.{Outcome, http_request_to_proto-Outcome}
use api_proxy.Handler.Marshal.HobOrder.{code_of, hob_code_torn}

abbrev in_order : Ranges
in_order = record { of_query = λ q. q; of_post = λ q. q; of_header = λ h. h }

abbrev form_error : Str → Str → List Str → ApiError
form_error code description context = record {
  error_type = bytes "BAD_REQUEST";
  code = code;
  description = description;
  context = context;
  http_code = 400;
  http_headers = [];
}

abbrev problem : Request → Str
problem r = bytes "bad form"

abbrev form : Request
form = record london {
  method = bytes "POST";
  path = bytes "/v1/ping";
  raw_query = bytes "city=LON&api_token=secret&a=1&a=2";
  header =
      (bytes "X-Device", bytes "phone" ∷ bytes "ios" ∷ []) ∷ (bytes "Cookie", bytes "c" ∷ []) ∷ [];
  body = content (bytes "hob=DUB&session_id=secret&b=3");
}

abbrev pair : Str → Str → Pair
pair k v = record { key = k; value = v }

form_test :
    (http_request_to_proto in_order form_error problem form).1
    ≡ ok (record {
      path = bytes "/v1/ping";
      verb = bytes "POST";
      get =
          pair (bytes "city") (bytes "LON")
          ∷ pair (bytes "a") (bytes "1")
          ∷ pair hob (bytes "DUB")
          ∷ [];
      post = pair (bytes "b") (bytes "3") ∷ pair hob (bytes "DUB") ∷ [];
      header = bytes "X-Device: phone,ios" ∷ [];
      body = none;
    })
unfolding run_control_plane http_request_to_proto fix_mime read_body parse_if_body message scan_get
    scan_post scan_values scan_step city_code pass_headers
form_test = refl

http_request_to_proto-Outcome_example :
    Outcome in_order
      (http_request_to_proto in_order form_error problem form).0
      (http_request_to_proto in_order form_error problem form).1
http_request_to_proto-Outcome_example =
    http_request_to_proto-Outcome in_order form_error problem form

-- Two parameters in either order.
abbrev both : Values
both = (city, bytes "LON" ∷ []) ∷ (hob, bytes "DUB" ∷ []) ∷ []

abbrev both_swapped : Values
both_swapped = (hob, bytes "DUB" ∷ []) ∷ (city, bytes "LON" ∷ []) ∷ []

-- The query string's parameters are met in the other order than they stand in.
abbrev swap : Values → Values
swap (a ∷ b ∷ q) = b ∷ a ∷ q
swap q = q

abbrev swapped : Ranges
swapped = record { of_query = swap; of_post = λ q. q; of_header = λ h. h }

abbrev both_request : Request
both_request = record london { raw_query = bytes "city=LON&hob=DUB" }

hob_code_torn_example :
    (hob_pairs (code_of ((hob, bytes "DUBLIN" ∷ []) ∷ (city, bytes "LON" ∷ []) ∷ []))
      ≡ pair hob (bytes "LON") ∷ [])
    × (hob_pairs (code_of ((city, bytes "LON" ∷ []) ∷ (hob, bytes "DUBLIN" ∷ []) ∷ [])) ≡ [])
unfolding bytes
hob_code_torn_example = hob_code_torn (bytes "DUBLIN") (bytes "LON") (omega arith) refl
