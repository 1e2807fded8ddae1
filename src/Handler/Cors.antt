-- ===== src/Handler/Cors.antt =====
-- The CORS filter (handler/cors.go). A pattern `^https?://(?:[-\w\.]+\.)?NAME(:\d+)?$` is matched by
-- hand; a dot of NAME stands for any character but a line feed, as it does in the source, where it is
-- not escaped. The next handler is a parameter.
pub mod Runes
pub mod Names
pub mod Origins
pub mod Preflight
mod Tests
use api_proxy.Prelude.{
  ℕ, Bool, true, false, not, ◌&&◌, ◌||◌, ◌==◌, leb, Option, none, some, List, [], ◌∷◌,
  if◌then◌else◌,
}
use api_proxy.Text.{Str, bytes, str_eq, is_blank}
use api_proxy.Http.Header
use api_proxy.Handler.Cors.Runes.{after_any}
use api_proxy.Http.Request.{Request}
use api_proxy.Http.Writer.{Writer, set_header}

-- The NAME of each of `allowedCorsOrigins`.
abbrev pub allowed_names : List Str
allowed_names =
    bytes "hailoweb.com"
    ∷ bytes "hailoapp.com"
    ∷ bytes "HailoOSS.com"
    ∷ bytes "hailovpn.com"
    ∷ bytes "elasticride.com"
    ∷ bytes "elasticride.local"
    ∷ bytes "elasticride.dev"
    ∷ bytes "hailopay.com"
    ∷ []

-- What follows a character of the name, if the text starts with what matches it.
unfoldable pub after_char : ℕ → Str → Option Str
after_char p [] = none
after_char p (c ∷ s) = if p == b'.' then after_any c s else if p == c then some s else none

-- What follows the name, if the text starts with it.
unfoldable pub after_name : Str → Str → Option Str
after_name [] s = some s
after_name (p ∷ ps) s = elim (after_char p s) [ none ↦ none | some rest ↦ after_name ps rest ]

unfoldable pub is_digit : ℕ → Bool
is_digit c = leb b'0' c && leb c b'9'

unfoldable pub all_digits : Str → Bool
all_digits [] = true
all_digits (c ∷ s) = is_digit c && all_digits s

-- `(:\d+)?$`.
unfoldable pub is_port : Str → Bool
is_port [] = true
is_port (c ∷ []) = false
is_port (c ∷ d ∷ s) = c == b':' && all_digits (d ∷ s)

unfoldable pub is_rest : Option Str → Bool
is_rest none = false
is_rest (some s) = is_port s

-- `NAME(:\d+)?$`.
unfoldable pub is_host : Str → Str → Bool
is_host name s = is_rest (after_name name s)

-- `[-\w\.]`.
unfoldable pub host_byte : ℕ → Bool
host_byte c =
    (c == b'-' || (c == b'.' || c == b'_'))
    || ((leb b'a' c && leb c b'z') || ((leb b'A' c && leb c b'Z') || is_digit c))

-- `[-\w\.]*\.NAME(:\d+)?$`, or `[-\w\.]+\.` where nothing of it was matched yet.
unfoldable pub is_below : Bool → Str → Str → Bool
is_below started name [] = false
is_below started name (c ∷ s) =
    (started && (c == b'.' && is_host name s)) || (host_byte c && is_below true name s)

unfoldable pub after_scheme : Str → Str → Option Str
after_scheme [] s = some s
after_scheme (p ∷ ps) [] = none
after_scheme (p ∷ ps) (c ∷ s) = let rest = after_scheme ps s in if p == c then rest else none

unfoldable pub is_authority : Str → Option Str → Bool
is_authority name none = false
is_authority name (some s) = is_host name s || is_below false name s

-- One pattern.
unfoldable pub is_origin : Str → Str → Bool
is_origin name s =
    is_authority name (after_scheme (bytes "http://") s)
    || is_authority name (after_scheme (bytes "https://") s)

any_origin : List Str → Str → Bool
any_origin [] s = false
any_origin (name ∷ names) s = is_origin name s || any_origin names s

-- `isAllowedCORSOrigin`.
unfoldable pub is_allowed : Str → Bool
unfolding any_origin
is_allowed origin = any_origin allowed_names origin

-- The headers of an allowed origin.
unfoldable pub allow : Str → Request → Writer → Writer
allow origin r w =
    let w' =
      set_header (set_header w (bytes "Access-Control-Allow-Origin") origin)
        (bytes "Access-Control-Allow-Methods") (bytes "DELETE, GET, HEAD, OPTIONS, POST, PUT") in
    let wanted = Header.get r.header (bytes "Access-Control-Request-Headers") in
    if is_blank wanted then w' else set_header w' (bytes "Access-Control-Allow-Headers") wanted

unfoldable pub serve_cors : (Writer → Request → Writer) → Writer → Request → Writer
unfolding allow
serve_cors next w r =
    let origin = Header.get r.header (bytes "Origin") in
    if not (is_blank origin) && is_allowed origin
    then if str_eq r.method (bytes "OPTIONS")
      then set_header (allow origin r w) (bytes "Access-Control-Max-Age") (bytes "3600")
      else next (allow origin r w) r
    else next w r
