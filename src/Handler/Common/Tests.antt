-- ===== src/Handler/Common/Tests.antt =====
-- The key of the source's own test, and the codes of two orders.
use api_proxy.Prelude.{◌≡◌, refl, [], ◌∷◌}
use api_proxy.Text.{bytes, str_eq}
use api_proxy.Http.Header.{is_alphanumeric}
use api_proxy.Http.Query.{Values}
use api_proxy.Handler.Marshal.{hob, city}
use api_proxy.Handler.Common.{sanitize_key, sanitize_byte, extract_values, extract_step}

crazy_key :
    sanitize_key (bytes "/someCrazyUrl$%Z/or! even crazier ")
    ≡ bytes "_somecrazyurl__z_or__even_crazier_"
unfolding sanitize_key sanitize_byte is_alphanumeric bytes
crazy_key = refl

abbrev short_first : Values
short_first = (hob, bytes "L" ∷ []) ∷ (city, bytes "LONDON" ∷ []) ∷ []

abbrev short_last : Values
short_last = (city, bytes "LONDON" ∷ []) ∷ (hob, bytes "L" ∷ []) ∷ []

-- A hob of one byte is replaced by a city that comes later.
city_of_short : extract_values short_first [] ≡ bytes "LONDON"
unfolding extract_values extract_step bytes str_eq
city_of_short = refl

short_of_city : extract_values short_last [] ≡ bytes "L"
unfolding extract_values extract_step bytes str_eq
short_of_city = refl
