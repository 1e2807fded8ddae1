-- ===== src/Handler/Cors/Tests.antt =====
-- Origins and requests at the CORS filter, and its theorems at concrete ones.
use api_proxy.Prelude.{◌≡◌, refl, true, false, [], ◌∷◌, ◌++◌}
use api_proxy.Text.{Str, bytes}
use api_proxy.Http.Request.{Request}
use api_proxy.Http.Run.{run_http}
use api_proxy.Http.Writer.{Writer, new_writer, write}
use api_proxy.ControlPlane.Samples.{london}
use api_proxy.Handler.Cors.Runes.{
  after_any, after_wide, after_tail, tail_length, is_between, second_low, second_high, or_one,
}
use api_proxy.Handler.Cors.{
  after_char, after_name, is_digit, all_digits, is_port, is_rest, is_host, host_byte, is_below,
  after_scheme, is_authority, is_origin, any_origin, is_allowed, allowed_names, serve_cors, allow,
}
use api_proxy.Handler.Cors.Origins.{IsIn, IsOrigin, is_allowed-IsOrigin}
use api_proxy.Handler.Cors.Preflight.{Outcome, serve_cors-Outcome}

below_test : is_allowed (bytes "https://www.hailoweb.com:8080") ≡ true
unfolding run_http is_allowed any_origin is_origin is_authority after_scheme is_host is_rest is_port
    after_name after_char after_any or_one after_wide tail_length is_below host_byte is_digit
    all_digits
below_test = refl

-- Another domain: the dot of the name is not escaped.
other_domain_test : is_allowed (bytes "https://hailowebxcom") ≡ true
unfolding run_http is_allowed any_origin is_origin is_authority after_scheme is_host is_rest is_port
    after_name after_char after_any or_one after_wide tail_length is_between second_low second_high
    is_below host_byte is_digit all_digits
other_domain_test = refl

-- A character of three bytes in the place of the dot.
wide_test : is_allowed (bytes "https://hailoweb" ++ 226 ∷ 130 ∷ 172 ∷ bytes "com") ≡ true
unfolding run_http is_allowed any_origin is_origin is_authority after_scheme is_host is_rest is_port
    after_name after_char after_any or_one after_wide after_tail tail_length is_between second_low
    second_high is_below host_byte is_digit all_digits
wide_test = refl

refused_test : is_allowed (bytes "https://www.hailoweb.com.evil") ≡ false
unfolding run_http is_allowed any_origin is_origin is_authority after_scheme is_host is_rest is_port
    after_name after_char after_any or_one after_wide tail_length is_below host_byte is_digit
    all_digits
refused_test = refl

is_allowed-IsOrigin_example :
    (name : Str) × IsIn name allowed_names × IsOrigin name (bytes "https://www.hailoweb.com:8080")
unfolding run_http is_allowed any_origin is_origin is_authority after_scheme is_host is_rest is_port
    after_name after_char after_any or_one after_wide tail_length is_below host_byte is_digit
    all_digits
is_allowed-IsOrigin_example = is_allowed-IsOrigin (bytes "https://www.hailoweb.com:8080") refl

abbrev next : Writer → Request → Writer
next w r = write w (bytes "ok")

abbrev preflight_request : Request
preflight_request = record london {
  method = bytes "OPTIONS";
  header = (bytes "Origin", bytes "http://hailoweb.com" ∷ []) ∷ [];
}

answered_test : (serve_cors next new_writer preflight_request).body ≡ []
unfolding run_http serve_cors allow is_allowed any_origin is_origin is_authority after_scheme
    is_host is_rest is_port after_name after_char after_any or_one after_wide tail_length is_below
    host_byte is_digit all_digits
answered_test = refl

serve_cors-Outcome_example :
    Outcome next new_writer preflight_request (serve_cors next new_writer preflight_request)
serve_cors-Outcome_example = serve_cors-Outcome next new_writer preflight_request
