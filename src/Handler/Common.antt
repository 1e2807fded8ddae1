-- ===== src/Handler/Common.antt =====
-- The names under which requests are counted (handler/common.go). The parameters are a map, met in
-- the order of the list, and a parameter has a value. Keys are of one-byte characters: of a longer
-- character, the source makes one underscore.
pub mod Keys
mod Tests
use api_proxy.Prelude.{ℕ, leb, ltb, Bool, ◌&&◌, List, [], ◌∷◌, ◌++◌, map, length, if◌then◌else◌}
use api_proxy.Text.{Str, bytes, str_eq, is_blank, lower, to_lower}
use api_proxy.Http.Header.{is_alphanumeric}
use api_proxy.Http.Query.{Values, first}
use api_proxy.Http.Request.{Request, query}
use api_proxy.Handler.Marshal.{hob, city}

-- The code after one parameter.
unfoldable pub extract_step : Str → Str → Str → Str
extract_step k v code =
    if str_eq k hob
    then v
    else if str_eq k city && (leb 3 (length v) && ltb (length code) 3)
    then v
    else code

unfoldable pub extract_values : Values → Str → Str
extract_values [] code = code
extract_values ((k, vs) ∷ q) code = extract_values q (extract_step k (first vs) code)

-- `extractHobFromRequest`, with the order in which the map is met.
unfoldable pub extract_hob_from_request : (Values → Values) → Request → Str
extract_hob_from_request order r = extract_values (order (query r)) []

-- The counter of `instrumentHob`.
unfoldable pub hob_counter : (Values → Values) → Request → Str → Str
hob_counter order r code =
    bytes "hob." ++ (if is_blank code then extract_hob_from_request order r else code)

unfoldable pub sanitize_byte : ℕ → ℕ
sanitize_byte c = lower (if is_alphanumeric c then c else b'_')

unfoldable pub sanitize_key : Str → Str
sanitize_key key = map sanitize_byte key
