-- ===== src/Session/Laws.antt =====
-- What the session ID of a request depends on.
use api_proxy.Prelude.{◌≡◌, refl, ◌⊎◌, [], ◌∷◌, arith}
use api_proxy.Text.{Str}
use api_proxy.Http.Header
use api_proxy.Http.Request.{Request}
use api_proxy.Session.{
  Order, token_first, authorization_first, entries, session_id, from_headers, from_values,
  api_token_header, authorization_header, header_name, ◌or_else◌, HeaderExtractor,
}

-- The token that one kind of header gives.
abbrev pub header_token : HeaderExtractor → Request → Str
header_token x r = from_values x (Header.values r.header (header_name x))

or_else-nil : (a : Str) → (a or_else []) ≡ a
or_else-nil [] = refl
or_else-nil (_ ∷ _) = refl

from_headers_order :
    (o o' : Order) (r : Request)
    → (header_token api_token_header r ≡ [])
      ⊎ ((header_token authorization_header r ≡ [])
          ⊎ (header_token api_token_header r ≡ header_token authorization_header r))
    → from_headers (entries o) r ≡ from_headers (entries o') r
unfolding from_headers
from_headers_order token_first token_first r h = refl
from_headers_order authorization_first authorization_first r h = refl
from_headers_order o o' r h = ground arith

-- If one of the two kinds of header gives no token, or both give the same one, then the session ID is
-- the same in both orders in which the header extractors can be tried.
pub session_id_order :
    (o o' : Order) (r : Request)
    → (header_token api_token_header r ≡ [])
      ⊎ ((header_token authorization_header r ≡ [])
          ⊎ (header_token api_token_header r ≡ header_token authorization_header r))
    → session_id o r ≡ session_id o' r
unfolding session_id
session_id_order o o' r h = rw (from_headers_order o o' r h)
