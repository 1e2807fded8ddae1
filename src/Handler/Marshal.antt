-- ===== src/Handler/Marshal.antt =====
-- A request of the apps as the message that H2 takes (handler/marshaling.go). The three maps that the
-- code ranges over are met in orders that are arguments, and so are the constructor of an error and
-- the text of the form's error. The counter of city codes is left out.
pub mod Front
pub mod Kept
pub mod Passes
pub mod HobCode
pub mod HobOrder
mod Tests
use api_proxy.Prelude.{
  ℕ, ◌==◌, Bool, true, false, not, ◌&&◌, ◌||◌, Option, none, some, List, [], ◌∷◌, ◌++◌, length,
  if◌then◌else◌,
}
use api_proxy.Text.{Str, bytes, str_eq, is_blank, has_prefix, join}
use api_proxy.Http.Header
use api_proxy.Http.Header.{Header}
use api_proxy.Http.Query.{Values, first}
use api_proxy.Http.Media.{parse_media_type}
use api_proxy.Http.Request.{
  Request, Body, no_body, content, broken, query, parse_form, post_values, content_type, form_mime,
}
use api_proxy.Session.{session_id_key, api_token_key, authorization}
use api_proxy.Errors.{ApiError}
use api_proxy.Handler.Rpc.{Result, ok, failed, read_all}

abbrev pub hob : Str
hob = bytes "hob"

abbrev pub city : Str
city = bytes "city"

-- `Request_Pair`.
pub record Pair : Type 0 where
  pub key : Str
  pub value : Str

-- `api.Request`.
pub record ApiRequest : Type 0 where
  pub path : Str
  pub verb : Str
  pub get : List Pair
  pub post : List Pair
  pub header : List Str
  pub body : Option Str

-- The orders in which the maps of a request are met.
pub record Ranges : Type 0 where
  pub of_query : Values → Values
  pub of_post : Values → Values
  pub of_header : Header → Header

-- The city code found so far, and the pairs.
pub record Scan : Type 0 where
  pub hob_code : Str
  pub pairs : List Pair

-- `k == sessionId || k == apiToken`.
abbrev pub is_credential : Str → Bool
is_credential k = str_eq k session_id_key || str_eq k api_token_key

-- The switch's case for a city.
unfoldable pub city_code : Str → Str → Str → Str
city_code k v code = if str_eq k city && (length v == 3 && not (length code == 3)) then v else code

-- The body of both loops over parameters.
unfoldable pub scan_step : Str → Str → Scan → Scan
unfolding city_code
scan_step k v s =
    if is_credential k then s else if str_eq k hob then record s { hob_code = v } else record {
      hob_code = city_code k v s.hob_code;
      pairs = s.pairs ++ record { key = k; value = v } ∷ [];
    }

unfoldable pub scan_values : Values → Scan → Scan
unfolding scan_step
scan_values [] s = s
scan_values ((k, vs) ∷ q) s = scan_values q (scan_step k (first vs) s)

-- The pair that is added back for the city code.
abbrev pub hob_pairs : Str → List Pair
hob_pairs code = if length code == 3 then record { key = hob; value = code } ∷ [] else []

-- `passHeaders[k] || strings.HasPrefix(k, "X-")`.
abbrev pub is_passed : Str → Bool
is_passed k = str_eq k authorization || has_prefix k (bytes "X-")

abbrev pub header_text : Str → List Str → Str
header_text k vs = k ++ (bytes ": " ++ join vs (b',' ∷ []))

unfoldable pub pass_headers : Header → List Str
pass_headers [] = []
pass_headers ((k, vs) ∷ h) =
    let rest = pass_headers h in if is_passed k then header_text k vs ∷ rest else rest

-- The content type (blank unless the request is POSTed or PUT), and the request with it.
unfoldable pub fix_mime : Request → Str × Request
fix_mime r =
    let (ct, well) = parse_media_type (Header.get r.header content_type) in
    if str_eq r.method (bytes "POST") || str_eq r.method (bytes "PUT")
    then if is_blank ct || not well
      then (form_mime, record r { header = Header.set r.header content_type form_mime })
      else (ct, r)
    else ([], r)

drained : Body → Body
drained no_body = no_body
drained (content _) = content []
drained broken = broken

has_body : Body → Bool
has_body no_body = false
has_body (content _) = true
has_body broken = true

-- The body of a request that is not a form is read.
unfoldable pub read_body : Str × Request → Request × Option Str
unfolding drained has_body read_all
read_body (ct, r) =
    if has_body r.body && not (str_eq ct form_mime)
    then (record r { body = drained r.body }, some (read_all r.body))
    else (r, none)

-- `if r.Body != nil { err := r.ParseForm() … }`.
unfoldable pub parse_if_body : Request → Request × Bool
unfolding has_body
parse_if_body r = if has_body r.body then parse_form r else (r, false)

module _ (ranges : Ranges) where
  -- The parameters, and the city code that they give.
  unfoldable pub scan_get : Request → Scan
  scan_get r = scan_values (ranges.of_query (query r)) (record { hob_code = []; pairs = [] })

  unfoldable pub scan_post : Request → Scan
  scan_post r =
      scan_values (ranges.of_post (post_values r))
        (record { hob_code = (scan_get r).hob_code; pairs = [] })

  -- The message for a request whose form is parsed.
  unfoldable pub message : Request → Option Str → ApiRequest
  message r body = record {
    path = r.path;
    verb = r.method;
    get = (scan_get r).pairs ++ hob_pairs (scan_post r).hob_code;
    post = (scan_post r).pairs ++ hob_pairs (scan_post r).hob_code;
    header = pass_headers (ranges.of_header r.header);
    body = body;
  }

  module _ (bad_request : Str → Str → List Str → ApiError) (problem : Request → Str) where
    marshalled : Option Str → Request × Bool → Request × Result ApiRequest
    marshalled body (r, true) = (
      r,
      failed (
          bad_request (bytes "11") (bytes "Problem parsing HTTP request parameters: " ++ problem r)
            []),
    )
    marshalled body (r, false) = (r, ok (message r body))

    -- `httpRequestToProto`, with the request that it leaves.
    unfoldable pub http_request_to_proto : Request → Request × Result ApiRequest
    unfolding marshalled
    http_request_to_proto r =
        let (r', body) = read_body (fix_mime r) in marshalled body (parse_if_body r')
