-- ===== src/ControlPlane/Router.antt =====
-- The router: which rule serves a request, and which region it is pinned to (controlplane/router.go).
-- Where a method reads the control plane twice, each read is an argument: the configuration may be
-- replaced between them.
pub mod Choice
pub mod Failover
pub mod Fallback
pub mod Answers
use api_proxy.Prelude.{
  ℕ, suc, ◌+◌, Bool, true, false, not, ◌&&◌, Option, none, some, List, [], ◌∷◌, if◌then◌else◌, map,
}
use api_proxy.Prelude.Int.{ℤ, pos}
use api_proxy.Text.{Str, bytes, str_eq, to_upper, is_blank, str_lt}
use api_proxy.Text.Maps.{Map, lookup, lookup_str}
use api_proxy.Http.Header
use api_proxy.Http.Writer.{Writer}
use api_proxy.Session.{Order}
use api_proxy.ControlPlane.Types.{
  Rule, SortedRules, Action, proxy_to_h1, send_to_h2, throttle, deprecate, Float32, Region, Regions,
  HobRegions, HobModes, Urls,
}
use api_proxy.ControlPlane.Extractor.{Extractor, hob, host, source, header}
use api_proxy.ControlPlane.Rules.{matches}
use api_proxy.ControlPlane.Regions.{find_region, find_mode, is_online, urls}

-- What is read of the control plane at once: `loadedCpConfig`.
pub record Config : Type 0 where
  pub rules : SortedRules
  pub regions : Regions
  pub hob_regions : HobRegions
  pub hob_modes : HobModes
  pub region_version : ℤ
  pub config_hash : Str

-- `loadedCpConfig{}`, before anything is loaded.
abbrev pub no_config : Config
no_config = record {
  rules = [];
  regions = [];
  hob_regions = [];
  hob_modes = [];
  region_version = pos 0;
  config_hash = [];
}

abbrev pub route_header : Str
route_header = bytes "X-Hailo-Route"

abbrev pub forced : Action → Rule
forced a = record { match = none; action = a; payload = none; weight = pos 0 }

-- `forceRoute`.
unfoldable pub force_route : Str → Option Rule
force_route s =
    if str_eq (to_upper s) (bytes "H2")
    then some (forced send_to_h2)
    else if str_eq (to_upper s) (bytes "H1")
    then some (forced proxy_to_h1)
    else if str_eq (to_upper s) (bytes "DEPRECATE")
    then some (forced deprecate)
    else if str_eq (to_upper s) (bytes "THROTTLE")
    then some (forced throttle)
    else none

-- The region map's lookup, which gives nil for a missing key.
unfoldable pub region_at : Regions → Str → Option Region
region_at rs k = elim (lookup k rs) [ none ↦ none | some r ↦ r ]

keys : Regions → List Str
keys [] = []
keys ((k, _) ∷ rs) = k ∷ keys rs

-- The key that `sort.Strings` puts first.
least_key : Str → List Str → Str
least_key k [] = k
least_key k (j ∷ ks) = least_key (if str_lt j k then j else k) ks

-- The fallback: the first region by its ID, if there is any.
unfoldable pub fallback : Regions → Option Region
unfolding least_key keys
fallback [] = none
fallback ((k, r) ∷ rs) = region_at ((k, r) ∷ rs) (least_key k (keys rs))

unfoldable pub or_fallback : Regions → Option Region → Option Region
or_fallback rs none = fallback rs
or_fallback rs (some r) = some r

-- A failover region, if it is online, else what the loop finds later.
online_or : Option Region → Region → Region
online_or none later = later
online_or (some r) later = if is_online (some r) then r else later

-- The loop over the failover regions; `region` where none is online.
unfoldable pub failover : Regions → List Str → Region → Region
unfolding online_or
failover rs [] region = region
failover rs (k ∷ ks) region = online_or (region_at rs k) (failover rs ks region)

unfoldable pub serve_from : Regions → Option Region → Option Region
serve_from rs none = none
serve_from rs (some r) = if is_online (some r) then some r else some (failover rs r.failover r)

-- The region for a city code.
unfoldable pub region_for : Config → Str → Option Region
unfolding serve_from or_fallback
region_for c code =
    serve_from c.regions
      (or_fallback c.regions (region_at c.regions (find_region c.hob_regions code)))

-- The results of `CorrectHostname`: an error, or whether the host is right, with the URLs of the
-- region and the version.
pub data HostCheck : Type 0 where
  no_hob : HostCheck
  no_region : ℤ → HostCheck
  pinned : (is_correct : Bool) (urls : Option Urls) (version : ℤ) → HostCheck

abbrev pub url_name : Str
url_name = bytes "api"

pub api_url : Option Urls → Str
api_url none = []
api_url (some us) = lookup_str url_name us

module _ (order : Order) where
  -- The loop of `Route`. The roll with the number `n` is the one that the next rule would make.
  first_match : (ℕ → Float32) → ℕ → SortedRules → Extractor → Extractor × Option Rule
  first_match roll n [] e = (e, none)
  first_match roll n (r ∷ rs) e =
      let (e', hit) = matches order (roll n) r e in
      let later = first_match roll (suc n) rs e' in if hit then (e', r) else later

  -- `Route`.
  unfoldable pub route : (ℕ → Float32) → Config → Extractor → Extractor × Option Rule
  unfolding first_match
  route roll c e =
      chosen
        (if is_blank (header e route_header) then none else force_route (header e route_header))
    where
      chosen : Option Rule → Extractor × Option Rule
      chosen (some r) = (e, some r)
      chosen none = first_match roll 0 c.rules e

  mode_of_hob : Config → Extractor → Extractor × Str
  mode_of_hob c e = let (e', code) = hob order e in (e', find_mode c.hob_modes code)

  -- `GetHobMode`. A forced route is compared as it is written here, unlike in `forceRoute`.
  unfoldable pub get_hob_mode : Config → Extractor → Extractor × Str
  unfolding mode_of_hob
  get_hob_mode c e =
      if str_eq (header e route_header) (bytes "H1")
      then (e, bytes "h1")
      else if str_eq (header e route_header) (bytes "H2")
      then (e, bytes "h2")
      else mode_of_hob c e

  -- `Region`.
  unfoldable pub region : Config → Extractor → Extractor × (Option Region × ℤ)
  region c e = let (e', code) = hob order e in (e', (region_for c code, c.region_version))

  -- The end of `CorrectHostname`, once the region is known.
  pin_to : Option Region → ℤ → Extractor → Extractor × HostCheck
  unfolding api_url
  pin_to none version e = (e, no_region version)
  pin_to (some r) version e =
      let (e', app) = source order e in
      (e', pinned (str_eq (host e) (api_url (urls r app))) (urls r app) version)

  -- `CorrectHostname`. The code from the response's header only lets the check go on: the region
  -- is still that of the request's own code.
  unfoldable pub correct_hostname : Config → Writer → Extractor → Extractor × HostCheck
  unfolding pin_to
  correct_hostname c w e =
      let (e', code) = hob order e in
      let (e'', (r, version)) = region c e' in
      if is_blank code && is_blank (Header.get w.header (bytes "X-H-HOB"))
      then (e', no_hob)
      else pin_to r version e''
