-- ===== src/HostMapping/Tests.antt =====
-- Mapped host names, and the theorem about ports at a concrete one.
use api_proxy.Prelude.{◌≡◌, refl, [], ◌∷◌}
use api_proxy.Text.{Str, bytes}
use api_proxy.Text.Maps.{Map}
use api_proxy.Http.Run.{run_http}
use api_proxy.HostMapping.{map_host, before_port, take}

abbrev mappings : Map Str
mappings = (bytes "api", bytes "api-v1.example") ∷ []

default_test : map_host mappings (bytes "hms:80") ≡ bytes "v1-hms"
unfolding run_http map_host before_port take
default_test = refl
