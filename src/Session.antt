-- ===== src/Session.antt =====
-- The session ID of a request (session/session.go).
pub mod Laws
use api_proxy.Prelude.{◌≡◌, List, [], ◌∷◌, Option, none, some, if◌then◌else◌}
use api_proxy.Text.{Str, bytes, str_eq, split, is_blank}
use api_proxy.Http.Header
use api_proxy.Http.Query
use api_proxy.Http.Request.{Request, query, form_values}

abbrev pub x_api_token : Str
x_api_token = bytes "X-Api-Token"

abbrev pub authorization : Str
authorization = bytes "Authorization"

abbrev pub authorization_scheme : Str
authorization_scheme = bytes "token"

-- A key of `headerExtractors`, with the function that it maps to.
pub data HeaderExtractor : Type 0 where
  api_token_header authorization_header : HeaderExtractor

abbrev pub header_name : HeaderExtractor → Str
header_name api_token_header = x_api_token
header_name authorization_header = authorization

-- The order in which `range headerExtractors` meets its two entries: Go leaves it open.
pub data Order : Type 0 where
  token_first authorization_first : Order

abbrev pub entries : Order → List HeaderExtractor
entries token_first = api_token_header ∷ authorization_header ∷ []
entries authorization_first = authorization_header ∷ api_token_header ∷ []

unfoldable pub extract_x_api_token_header : Str → Str
extract_x_api_token_header value = value

-- The second word, if the first is the scheme.
second_of : List Str → Str
second_of [] = []
second_of (_ ∷ []) = []
second_of (scheme ∷ token ∷ _) = if str_eq scheme authorization_scheme then token else []

unfoldable pub extract_authorization_header : Str → Str
unfolding second_of
extract_authorization_header value = second_of (split value b' ')

unfoldable pub extract : HeaderExtractor → Str → Str
extract api_token_header value = extract_x_api_token_header value
extract authorization_header value = extract_authorization_header value

-- `a`, unless it is blank.
infixr 30 ◌or_else◌
abbrev pub ◌or_else◌ : Str → Str → Str
[] or_else b = b
(c ∷ s) or_else b = c ∷ s

-- The inner loop: the first value from which a token is read.
unfoldable pub from_values : HeaderExtractor → List Str → Str
from_values x [] = []
from_values x (v ∷ vs) = extract x v or_else from_values x vs

-- The outer loop.
unfoldable pub from_headers : List HeaderExtractor → Request → Str
from_headers [] r = []
from_headers (x ∷ xs) r =
    from_values x (Header.values r.header (header_name x)) or_else from_headers xs r

abbrev pub session_id_key : Str
session_id_key = bytes "session_id"

abbrev pub api_token_key : Str
api_token_key = bytes "api_token"

-- `SessionId`: the query string, then the form, then the headers.
unfoldable pub session_id : Order → Request → Str
session_id o r =
    Query.get (query r) session_id_key
    or_else (Query.get (query r) api_token_key
        or_else (Query.get (form_values r) session_id_key
            or_else (Query.get (form_values r) api_token_key or_else from_headers (entries o) r)))
