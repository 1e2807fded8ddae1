-- ===== src/Handler/Tests.antt =====
-- Runs of the handlers, and their theorems at concrete requests.
use api_proxy.Prelude.{◌≡◌, refl, none, some, [], ◌∷◌, All}
use api_proxy.Prelude.Int.{pos}
use api_proxy.Text.{Str, bytes}
use api_proxy.Text.Decimal.{decimal_int}
use api_proxy.Http.Header
use api_proxy.Http.Request.{Request}
use api_proxy.Http.Writer.{Writer, new_writer, write, set_header}
use api_proxy.Session.{token_first}
use api_proxy.ControlPlane.Run.{run_control_plane}
use api_proxy.ControlPlane.Types.{throttle, action_string, Urls}
use api_proxy.ControlPlane.Samples.{config, london, no_roll, ping_rule}
use api_proxy.ControlPlane.Extractor.{Extractor, new_extractor}
use api_proxy.ControlPlane.Extractor.View.{observe}
use api_proxy.ControlPlane.Router.{route_header}
use api_proxy.Handler.Refusals.{throttle_payload}
use api_proxy.Handler.Pinning.{timestamp_header, endpoint_header, pin_request_to_hostname}
use api_proxy.Handler.Pinning.Headers.{pin_request_to_hostname-All}
use api_proxy.Handler.Dispatch.{handler}
use api_proxy.Handler.Dispatch.Outcomes.{rule_for, prepared}
use api_proxy.Handler.Dispatch.Carried.{Pins, Tells, route_text}
use api_proxy.Handler.Dispatch.Routed.{Goes, handler-Goes}
use api_proxy.ControlPlane.Router.Answers.{mode_for, pinning_for}
use api_proxy.Handler.Dispatch.Refused.{IsRefusal, handler-IsRefusal}

abbrev h1 : Writer → Request → Writer
h1 w r = write w (bytes "one")

abbrev h2 : Writer → Extractor → Writer
h2 w e = write w (bytes "two")

handler-Goes_example :
    let v = observe token_first (new_extractor london) in
    let rule = rule_for no_roll config (new_extractor london) v in
    (e : Extractor) × (w1 : Writer) × (w2 : Writer) × (observe token_first e ≡ v)
    × Pins new_writer (pinning_for config new_writer v) w1
    × Tells (mode_for config v) (route_text rule) w1 w2
    × Goes h1 h2 rule w2 e
        (handler h1 h2 token_first no_roll config config config new_writer london)
handler-Goes_example = handler-Goes h1 h2 token_first no_roll config config config new_writer london

handler-IsRefusal_example :
    IsRefusal 503 throttle_payload none new_writer
      (set_header
        (prepared config config new_writer (observe token_first (new_extractor london)))
        route_header
        (action_string throttle))
      (handler h1 h2 token_first no_roll config config config new_writer london)
unfolding run_control_plane rule_for
handler-IsRefusal_example =
    handler-IsRefusal h1 h2 token_first no_roll config config config new_writer london ping_rule
      refl refl refl

abbrev two_urls : Urls
two_urls = (bytes "api", bytes "api.example") ∷ (bytes "h_m_s", bytes "hms.example") ∷ []

two_urls_pinned :
    let h = (pin_request_to_hostname (pos 7) (some two_urls) new_writer).header in
    (Header.get h timestamp_header ≡ decimal_int (pos 7))
    × All (λ (e : Str × Str). Header.get h (endpoint_header e.0) ≡ e.1) two_urls
unfolding run_control_plane
two_urls_pinned =
    pin_request_to_hostname-All (pos 7) (some two_urls) new_writer (refl, (refl, tt))
      ((refl, tt), (tt, tt))
