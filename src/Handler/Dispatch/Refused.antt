-- ===== src/Handler/Dispatch/Refused.antt =====
-- A request that is throttled or deprecated: what is sent, whatever the backends would do.
use api_proxy.Prelude.{
  ℕ, ◌≡◌, refl, ap, sym, ◌∙◌, subst, true, false, Option, none, some, [], ◌∷◌, ◌++◌,
}
use api_proxy.Text.{Str}
use api_proxy.Text.Maps.{Map}
use api_proxy.Http.Request.{Request}
use api_proxy.Http.Writer.{Writer, set_header, write_header, write, add_header}
use api_proxy.Http.Writer.Laws.{sent-write, sent-write_header, body-write, body-write_header}
use api_proxy.Session.{Order}
use api_proxy.ControlPlane.Types.{
  Rule, Action, proxy_to_h1, send_to_h2, throttle, deprecate, other, action_string, Float32,
  Payload,
}
use api_proxy.ControlPlane.Extractor.{Extractor, new_extractor}
use api_proxy.ControlPlane.Extractor.View.{observe}
use api_proxy.ControlPlane.Router.{Config, HostCheck, no_hob, no_region, pinned, route_header}
use api_proxy.ControlPlane.Router.Answers.{mode_for, pinning_for}
use api_proxy.Handler.Refusals.{
  throttle_handler, deprecate_handler, refuse, add_headers, throttle_payload, deprecate_payload,
}
use api_proxy.Handler.Pinning.{pin_if_wrong, pin_urls, pin_request_to_hostname, some_urls}
use api_proxy.Handler.Dispatch.{set_mode, by_action, dispatch, handler}
use api_proxy.Handler.Dispatch.Outcomes.{rule_for, prepared, handler-dispatch}

-- Nothing was sent, and the body is that of `w`.
abbrev Untouched : Writer → Writer → Type 0
Untouched w w' = (w'.sent ≡ none) × (w'.body ≡ w.body)

pin_urls-Untouched : (us : Map Str) (w w' : Writer) → Untouched w w' → Untouched w (pin_urls us w')
unfolding pin_urls set_header
pin_urls-Untouched [] w w' h = h
pin_urls-Untouched ((k, v) ∷ us) w w' h = pin_urls-Untouched us w _ h

pin_if_wrong-Untouched :
    (check : HostCheck) (w : Writer) → w.sent ≡ none → Untouched w (pin_if_wrong check w)
unfolding pin_if_wrong pin_request_to_hostname set_header
pin_if_wrong-Untouched no_hob w h = (h, refl)
pin_if_wrong-Untouched (no_region version) w h = (h, refl)
pin_if_wrong-Untouched (pinned true urls version) w h = (h, refl)
pin_if_wrong-Untouched (pinned false urls version) w h =
    pin_urls-Untouched (some_urls urls) w _ (h, refl)

set_mode-Untouched : (mode : Str) (w w' : Writer) → Untouched w w' → Untouched w (set_mode mode w')
unfolding set_mode set_header
set_mode-Untouched [] w w' h = h
set_mode-Untouched (c ∷ mode) w w' h = h

add_headers-Untouched :
    (hs : Map Str) (w w' : Writer) → Untouched w w' → Untouched w (add_headers hs w')
unfolding add_headers add_header
add_headers-Untouched [] w w' h = h
add_headers-Untouched ((k, v) ∷ hs) w w' h = add_headers-Untouched hs w _ h

-- What a refusal of each kind sends for a rule without a payload.
abbrev pub refusal_of : Action → Option (ℕ × Str)
refusal_of throttle = some (503, throttle_payload)
refusal_of deprecate = some (410, deprecate_payload)
refusal_of _ = none

abbrev pub status_of : ℕ → Option Payload → ℕ
status_of status none = status
status_of status (some p) = p.http_status

abbrev pub text_of : Str → Option Payload → Str
text_of text none = text
text_of text (some p) = p.body

abbrev pub with_headers : Option Payload → Writer → Writer
with_headers none w = w
with_headers (some p) w = add_headers p.headers w

-- The response is `status` and `text`, or what the payload says, on top of `w'`.
abbrev pub IsRefusal : ℕ → Str → Option Payload → Writer → Writer → Writer → Type 0
IsRefusal status text p w w' out =
    (out.sent ≡ some (status_of status p, (with_headers p w').header))
    × (out.body ≡ w.body ++ text_of text p)

sent_then :
    (status : ℕ) (text : Str) (w w' : Writer)
    → Untouched w w'
    → ((write (write_header w' status) text).sent ≡ some (status, w'.header))
      × ((write (write_header w' status) text).body ≡ w.body ++ text)
sent_then status text w w' (unsent, same) = (
  sent-write _ text (sent-write_header w' status unsent),
  body-write _ text ∙ ap (λ b. b ++ text) (body-write_header w' status ∙ same),
)

refuse-IsRefusal :
    (status : ℕ) (text : Str) (p : Option Payload) (w w' : Writer)
    → Untouched w w'
    → IsRefusal status text p w w' (refuse status text p w')
unfolding refuse
refuse-IsRefusal status text none w w' h = sent_then status text w w' h
refuse-IsRefusal status text (some p) w w' h =
    sent_then p.http_status p.body w (add_headers p.headers w')
      (add_headers-Untouched p.headers w w' h)

module _ (h1 : Writer → Request → Writer) (h2 : Writer → Extractor → Writer) where
  by_action-IsRefusal :
      (action : Action) (rule : Rule) (e : Extractor) (w w' : Writer) {status : ℕ} {text : Str}
      → refusal_of action ≡ some (status, text)
      → Untouched w w'
      → IsRefusal status text rule.payload w w' (by_action h1 h2 action rule w' e)
  unfolding by_action throttle_handler deprecate_handler
  by_action-IsRefusal throttle rule e w w' {status} {text} is h =
      let same : (503, throttle_payload) ≡ (status, text) = cc in
      subst
        (λ (o : ℕ × Str).
          IsRefusal o.0 o.1 rule.payload w w' (refuse 503 throttle_payload rule.payload w'))
        same (refuse-IsRefusal 503 throttle_payload rule.payload w w' h)
  by_action-IsRefusal deprecate rule e w w' {status} {text} is h =
      let same : (410, deprecate_payload) ≡ (status, text) = cc in
      subst
        (λ (o : ℕ × Str).
          IsRefusal o.0 o.1 rule.payload w w' (refuse 410 deprecate_payload rule.payload w'))
        same (refuse-IsRefusal 410 deprecate_payload rule.payload w w' h)
  by_action-IsRefusal proxy_to_h1 rule e w w' is h = cc
  by_action-IsRefusal send_to_h2 rule e w w' is h = cc
  by_action-IsRefusal (other n) rule e w w' is h = cc

  -- If the rule for a request throttles or deprecates it and nothing was sent before, then whatever
  -- the backends would do, what is sent is the rule's payload (its status, its headers and its body)
  -- or, without a payload, 503 or 410 with the standard text; and the headers are those that pin the
  -- client and tell the mode and the action.
  pub handler-IsRefusal :
      (order : Order) (roll : ℕ → Float32) (c c' c'' : Config) (w : Writer) (r : Request)
      (rule : Rule) {status : ℕ} {text : Str}
      → rule_for roll c (new_extractor r) (observe order (new_extractor r)) ≡ some rule
      → refusal_of rule.action ≡ some (status, text)
      → w.sent ≡ none
      → let w' =
          set_header
            (prepared c' c'' w (observe order (new_extractor r)))
            route_header
            (action_string rule.action) in
        IsRefusal status text rule.payload w w' (handler h1 h2 order roll c c' c'' w r)
  unfolding dispatch prepared
  handler-IsRefusal order roll c c' c'' w r rule {status} {text} chosen refused unsent =
      let v = observe order (new_extractor r) in
      let (e, _, is) = handler-dispatch order roll h1 h2 c c' c'' w r in
      subst (IsRefusal status text rule.payload w _)
        (sym (is ∙ ap (λ x. dispatch h1 h2 x (prepared c' c'' w v) e) chosen))
        (by_action-IsRefusal rule.action rule e w _ refused (
          unfold set_header in
          set_mode-Untouched (mode_for c'' v) w (pin_if_wrong (pinning_for c' w v) w)
            (pin_if_wrong-Untouched (pinning_for c' w v) w unsent)))
