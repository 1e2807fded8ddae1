-- ===== src/ControlPlane/Samples.antt =====
-- A configuration and a request, for tests.
use api_proxy.Prelude.{none, some, List, [], ◌∷◌, ℕ}
use api_proxy.Prelude.Int.{pos}
use api_proxy.Text.{Str, bytes}
use api_proxy.Http.Request.{Request, no_body}
use api_proxy.ControlPlane.Types.{
  Rule, Rules, Match, random, proxy_to_h1, throttle, Region, Float32,
}
use api_proxy.ControlPlane.Float.{one}
use api_proxy.ControlPlane.Extractor.{Extractor}
use api_proxy.ControlPlane.Router.{Config}

abbrev pub match_of : Str → Str → Match
match_of path hob = record {
  hob = hob;
  path = path;
  source = [];
  proportion = one;
  sampler = random;
}

abbrev pub ping_rule : Rule
ping_rule = record {
  match = some (match_of (bytes "/v1/ping") []);
  action = throttle;
  payload = none;
  weight = pos 0;
}

abbrev pub city_rule : Rule
city_rule = record {
  match = some (match_of [] (bytes "DUB,LON"));
  action = proxy_to_h1;
  payload = none;
  weight = pos 0;
}

abbrev pub rules : Rules
rules = (bytes "a", some city_rule) ∷ (bytes "b", some ping_rule) ∷ []

abbrev pub sorted : List Rule
sorted = ping_rule ∷ city_rule ∷ []

abbrev pub region_named : Str → Str → List Str → Region
region_named id status failover = record {
  id = id;
  status = status;
  failover = failover;
  apps =
      (bytes "driver", some ((bytes "api", bytes "api-driver-london.elasticride.com") ∷ []))
      ∷ (bytes "default", some ((bytes "api", bytes "api.example") ∷ []))
      ∷ [];
}

abbrev pub west : Region
west = region_named (bytes "eu-west-1") (bytes "OFFLINE") (bytes "none" ∷ bytes "us-east-1" ∷ [])

abbrev pub east : Region
east = region_named (bytes "us-east-1") (bytes "ONLINE") []

abbrev pub config : Config
config = record {
  rules = some ping_rule ∷ some city_rule ∷ [];
  regions = (bytes "eu-west-1", some west) ∷ (bytes "us-east-1", some east) ∷ [];
  hob_regions = (bytes "LON", bytes "eu-west-1") ∷ [];
  hob_modes = (bytes "LON", bytes "h1") ∷ [];
  region_version = pos 7;
  config_hash = bytes "x";
}

abbrev pub ask : Str → Str → Request
ask host path = record {
  method = bytes "GET";
  host = host;
  path = path;
  raw_query = [];
  header = [];
  body = no_body;
  remote_addr = bytes "1.2.3.4:5";
  form = none;
  post_form = none;
}

abbrev pub london : Request
london = ask (bytes "api-driver-london.elasticride.com") (bytes "/v1/ping")

abbrev pub unread : Request → Extractor
unread r = record { req = r; extracted_values = none }

abbrev pub no_roll : ℕ → Float32
no_roll n = pos 0
