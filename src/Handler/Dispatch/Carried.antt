-- ===== src/Handler/Dispatch/Carried.antt =====
-- What a response carries when a request is dispatched.
use api_proxy.Prelude.{◌≡◌, ◌≢◌, refl, ◌∙◌, true, false, Option, none, some, [], ◌∷◌, All}
use api_proxy.Prelude.Int.{ℤ}
use api_proxy.Text.{Str, bytes, str_eq}
use api_proxy.Text.Decimal.{decimal_int}
use api_proxy.Text.Maps.{Map}
use api_proxy.Http.Header
use api_proxy.Http.Header.{canonical_key}
use api_proxy.Http.Header.Laws.{get-set_self, get-set_other}
use api_proxy.Http.Run.{run_http}
use api_proxy.Http.Writer.{Writer, set_header}
use api_proxy.ControlPlane.Types.{
  Rule, Action, proxy_to_h1, send_to_h2, throttle, deprecate, other, Urls,
}
use api_proxy.ControlPlane.Router.{HostCheck, no_hob, no_region, pinned, route_header}
use api_proxy.Handler.Pinning.{
  timestamp_header, endpoint_header, pin_urls, some_urls, pin_request_to_hostname, pin_if_wrong,
}
use api_proxy.Handler.Pinning.Headers.{Apart, AllApart, pin_urls-other, pin_request_to_hostname-All}
use api_proxy.Handler.Dispatch.{set_mode}

-- Nothing but headers was set.
abbrev pub SameBody : Writer → Writer → Type 0
SameBody w w' = (w'.sent ≡ w.sent) × (w'.body ≡ w.body)

-- The response carries the version and the URLs under their headers, where no two of these are the
-- same, and all else is as it was.
pub record IsPinned (us : Urls) (version : ℤ) (w w' : Writer) : Type 0 where
  pub carried :
      Apart timestamp_header us
      → AllApart us
      → (Header.get w'.header timestamp_header ≡ decimal_int version)
        × All (λ (e : Str × Str). Header.get w'.header (endpoint_header e.0) ≡ e.1) us
  pub others :
      (name : Str)
      → str_eq (canonical_key timestamp_header) (canonical_key name) ≡ false
      → Apart name us
      → Header.get w'.header name ≡ Header.get w.header name
  pub same : SameBody w w'

-- What the check of the host name does to a response: it is pinned if the check went through and
-- the name is not the right one.
pub data Pins (w : Writer) : HostCheck → Writer → Type 0 where
  no_city : Pins w no_hob w
  not_served : (version : ℤ) → Pins w (no_region version) w
  right : (urls : Option Urls) (version : ℤ) → Pins w (pinned true urls version) w
  wrong :
      (urls : Option Urls) (version : ℤ) (w' : Writer)
      → IsPinned (some_urls urls) version w w'
      → Pins w (pinned false urls version) w'

pin_urls-SameBody : (us : Map Str) (w w' : Writer) → SameBody w w' → SameBody w (pin_urls us w')
unfolding pin_urls set_header
pin_urls-SameBody [] w w' h = h
pin_urls-SameBody ((k, v) ∷ us) w w' h = pin_urls-SameBody us w _ h

pin_request_to_hostname-IsPinned :
    (urls : Option Urls) (version : ℤ) (w : Writer)
    → IsPinned (some_urls urls) version w (pin_request_to_hostname version urls w)
unfolding pin_request_to_hostname set_header
pin_request_to_hostname-IsPinned urls version w =
    let stamped = set_header w timestamp_header (decimal_int version) in
    record {
      carried = λ apart all_apart.
          unfold set_header in pin_request_to_hostname-All version urls w apart all_apart;
      others = λ name apart none_has.
          pin_urls-other (some_urls urls) stamped name none_has
          ∙ get-set_other w.header timestamp_header name (decimal_int version) apart;
      same = pin_urls-SameBody (some_urls urls) w stamped (refl, refl);
    }

pub pin_if_wrong-Pins : (check : HostCheck) (w : Writer) → Pins w check (pin_if_wrong check w)
unfolding pin_if_wrong
pin_if_wrong-Pins no_hob w = no_city
pin_if_wrong-Pins (no_region version) w = not_served version
pin_if_wrong-Pins (pinned true urls version) w = right urls version
pin_if_wrong-Pins (pinned false urls version) w =
    wrong urls version _ (pin_request_to_hostname-IsPinned urls version w)

abbrev pub mode_header : Str
mode_header = bytes "X-H-Mode"

abbrev pub action_text : Action → Str
action_text proxy_to_h1 = bytes "H1"
action_text send_to_h2 = bytes "H2"
action_text throttle = bytes "Throttle"
action_text deprecate = bytes "Deprecate"
action_text (other n) = bytes "?"

-- The name of what is done with a request, for which there may be no rule.
abbrev pub route_text : Option Rule → Str
route_text none = bytes "H2"
route_text (some rule) = action_text rule.action

-- On top of the pinned response `w`, the response tells the route, and the mode if there is one, and
-- all else is as it was.
pub record Tells (mode : Str) (route' : Str) (w w' : Writer) : Type 0 where
  pub route : Header.get w'.header route_header ≡ route'
  pub mode_given : mode ≢ [] → Header.get w'.header mode_header ≡ mode
  pub mode_blank : mode ≡ [] → Header.get w'.header mode_header ≡ Header.get w.header mode_header
  pub others :
      (name : Str)
      → str_eq (canonical_key route_header) (canonical_key name) ≡ false
      → str_eq (canonical_key mode_header) (canonical_key name) ≡ false
      → Header.get w'.header name ≡ Header.get w.header name
  pub same : SameBody w w'

mode_other : str_eq (canonical_key route_header) (canonical_key mode_header) ≡ false
unfolding run_http
mode_other = refl

pub set_mode-Tells :
    (mode route' : Str) (w : Writer)
    → Tells mode route' w (set_header (set_mode mode w) route_header route')
unfolding set_mode set_header
set_mode-Tells [] route' w = record {
  route = get-set_self w.header route_header route';
  mode_given = λ given. absurd (given refl);
  mode_blank = λ _. get-set_other w.header route_header mode_header route' mode_other;
  others = λ name apart apart'. get-set_other w.header route_header name route' apart;
  same = (refl, refl);
}
set_mode-Tells (c ∷ mode) route' w =
    let h = Header.set w.header mode_header (c ∷ mode) in
    record {
      route = get-set_self h route_header route';
      mode_given = λ _.
          get-set_other h route_header mode_header route' mode_other
          ∙ get-set_self w.header mode_header (c ∷ mode);
      mode_blank = λ e. cc;
      others = λ name apart apart'.
          get-set_other h route_header name route' apart
          ∙ get-set_other w.header mode_header name (c ∷ mode) apart';
      same = (refl, refl);
    }
