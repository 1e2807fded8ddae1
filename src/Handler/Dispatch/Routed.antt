-- ===== src/Handler/Dispatch/Routed.antt =====
-- Where a request is dispatched to, by what could be observed of it when it came in.
use api_proxy.Prelude.{ℕ, ◌≡◌, refl, subst, sym, Option, none, some, ◌⊎◌, inl, inr}
use api_proxy.Prelude.Int.{ℤ}
use api_proxy.Text.{Str}
use api_proxy.Http.Request.{Request}
use api_proxy.Http.Writer.{Writer, set_header}
use api_proxy.Session.{Order}
use api_proxy.ControlPlane.Types.{
  Rule, Action, proxy_to_h1, send_to_h2, throttle, deprecate, other, action_string, Float32,
}
use api_proxy.ControlPlane.Extractor.{Extractor, new_extractor}
use api_proxy.ControlPlane.Extractor.View.{observe}
use api_proxy.ControlPlane.Router.{Config, route_header}
use api_proxy.ControlPlane.Router.Answers.{mode_for, pinning_for}
use api_proxy.Handler.Refusals.{throttle_handler, deprecate_handler}
use api_proxy.Handler.Pinning.{pin_if_wrong}
use api_proxy.Handler.Dispatch.{set_mode, by_action, dispatch, handler}
use api_proxy.Handler.Dispatch.Outcomes.{rule_for, prepared, handler-dispatch}
use api_proxy.Handler.Dispatch.Carried.{
  Pins, pin_if_wrong-Pins, Tells, set_mode-Tells, action_text, route_text,
}

-- No rule fits, or its action is to send to H2 or none that is known.
abbrev pub ForH2 : Option Rule → Type 0
ForH2 o =
    (o ≡ none)
    ⊎ ((rule : Rule) × (o ≡ some rule)
        × ((rule.action ≡ send_to_h2) ⊎ ((n : ℤ) × (rule.action ≡ other n))))

module _ (h1 : Writer → Request → Writer) (h2 : Writer → Extractor → Writer) where
  -- Where a request goes, by its rule.
  pub data Goes (o : Option Rule) (w : Writer) (e : Extractor) : Writer → Type 0 where
    to_h1 : (rule : Rule) → o ≡ some rule → rule.action ≡ proxy_to_h1 → Goes o w e (h1 w e.req)
    to_h2 : ForH2 o → Goes o w e (h2 w e)
    throttled :
        (rule : Rule)
        → o ≡ some rule
        → rule.action ≡ throttle
        → Goes o w e (throttle_handler rule w)
    deprecated :
        (rule : Rule)
        → o ≡ some rule
        → rule.action ≡ deprecate
        → Goes o w e (deprecate_handler rule w)

  by_action-Goes :
      (action : Action) (rule : Rule) (w : Writer) (e : Extractor)
      → rule.action ≡ action
      → Goes (some rule) w e (by_action h1 h2 action rule w e)
  unfolding by_action
  by_action-Goes proxy_to_h1 rule w e is = to_h1 rule refl is
  by_action-Goes throttle rule w e is = throttled rule refl is
  by_action-Goes deprecate rule w e is = deprecated rule refl is
  by_action-Goes send_to_h2 rule w e is = to_h2 (inr (rule, refl, inl is))
  by_action-Goes (other n) rule w e is = to_h2 (inr (rule, refl, inr (n, is)))

  text_of : (action : Action) → action_string action ≡ action_text action
  unfolding action_string
  text_of proxy_to_h1 = refl
  text_of send_to_h2 = refl
  text_of throttle = refl
  text_of deprecate = refl
  text_of (other n) = refl

  dispatch-Goes :
      (o : Option Rule) (mode : Str) (w : Writer) (e : Extractor)
      → (w' : Writer) × Tells mode (route_text o) w w'
        × Goes o w' e (dispatch h1 h2 o (set_mode mode w) e)
  unfolding dispatch
  dispatch-Goes none mode w e = (
    set_header (set_mode mode w) route_header (action_string send_to_h2),
    subst
        (λ t. Tells mode t w (set_header (set_mode mode w) route_header (action_string send_to_h2)))
        (text_of send_to_h2) (set_mode-Tells mode (action_string send_to_h2) w),
    to_h2 (inl refl),
  )
  dispatch-Goes (some rule) mode w e = (
    set_header (set_mode mode w) route_header (action_string rule.action),
    subst
        (λ t.
          Tells mode t w (set_header (set_mode mode w) route_header (action_string rule.action)))
        (text_of rule.action) (set_mode-Tells mode (action_string rule.action) w),
    by_action-Goes rule.action rule _ e refl,
  )

  -- Whatever the backends do, by the view of the request when it came in: the response is pinned if the
  -- check of the host name goes through and the name is not the right one, and tells the mode, if there
  -- is one, and the route; and then the request goes to H1 if its rule says so, to H2 if it says so, says
  -- what is not known or is not there, and is otherwise refused; and the backend finds a request of which
  -- the same can be observed.
  pub handler-Goes :
      (order : Order) (roll : ℕ → Float32) (c c' c'' : Config) (w : Writer) (r : Request)
      → let v = observe order (new_extractor r) in
        let rule = rule_for roll c (new_extractor r) v in
        (e : Extractor) × (w1 : Writer) × (w2 : Writer) × (observe order e ≡ v)
        × Pins w (pinning_for c' w v) w1
        × Tells (mode_for c'' v) (route_text rule) w1 w2
        × Goes rule w2 e (handler h1 h2 order roll c c' c'' w r)
  unfolding prepared
  handler-Goes order roll c c' c'' w r =
      let v = observe order (new_extractor r) in
      let rule = rule_for roll c (new_extractor r) v in
      let (e, keeps, is) = handler-dispatch order roll h1 h2 c c' c'' w r in
      let w1 = pin_if_wrong (pinning_for c' w v) w in
      let (w2, tells, goes) = dispatch-Goes rule (mode_for c'' v) w1 e in
      (
        e,
        w1,
        w2,
        keeps,
        pin_if_wrong-Pins (pinning_for c' w v) w,
        tells,
        subst (Goes rule w2 e) (sym is) goes,
      )
