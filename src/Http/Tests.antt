-- ===== src/Http/Tests.antt =====
-- Runs of the http layer on small inputs.
use api_proxy.Prelude.{◌≡◌, refl, [], ◌∷◌, true, false, some, none}
use api_proxy.Text.{bytes}
use api_proxy.Http.Header.{canonical_key}
use api_proxy.Http.Run.{run_http}
use api_proxy.Http.Query.{parse_query, encode}
use api_proxy.Http.Media.{parse_media_type}
use api_proxy.Http.Request.{Request, content, parse_form, content_type}

canonical_test : canonical_key (bytes "X-H-ENDPOINT-TIMESTAMP") ≡ bytes "X-H-Endpoint-Timestamp"
unfolding run_http
canonical_test = refl

parse_query_test :
    parse_query (bytes "city=LON&a=b%20c+d&city=&bad=%zz")
    ≡ ((bytes "city", bytes "LON" ∷ [] ∷ []) ∷ (bytes "a", bytes "b c d" ∷ []) ∷ [], true)
unfolding run_http
parse_query_test = refl

encode_test :
    encode ((bytes "city", bytes "LON" ∷ []) ∷ (bytes "a", bytes "b c/d" ∷ []) ∷ [])
    ≡ bytes "a=b+c%2Fd&city=LON"
unfolding run_http
encode_test = refl

media_test :
    parse_media_type (bytes "Application/JSON; charset=utf-8") ≡ (bytes "application/json", true)
unfolding run_http
media_test = refl

blank_media_test : parse_media_type [] ≡ ([], false)
unfolding run_http
blank_media_test = refl

abbrev post : Request
post = record {
  method = bytes "POST";
  host = bytes "h";
  path = bytes "/";
  raw_query = bytes "a=1";
  header = (content_type, bytes "application/x-www-form-urlencoded" ∷ []) ∷ [];
  body = content (bytes "a=2&b=3");
  remote_addr = [];
  form = none;
  post_form = none;
}

parse_form_test :
    (parse_form post).0.form
    ≡ some ((bytes "a", bytes "2" ∷ bytes "1" ∷ []) ∷ (bytes "b", bytes "3" ∷ []) ∷ [])
unfolding run_http
parse_form_test = refl
