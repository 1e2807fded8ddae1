-- ===== src/Handler/Dispatch/Outcomes.antt =====
-- What becomes of a request, by what could be observed of it when it came in.
use api_proxy.Prelude.{ℕ, ◌≡◌, refl, ap, ◌∙◌, Option, none, some, inl, inr, Option-cases}
use api_proxy.Http.Request.{Request}
use api_proxy.Http.Writer.{Writer}
use api_proxy.Session.{Order}
use api_proxy.ControlPlane.Types.{Rule, Float32}
use api_proxy.ControlPlane.Extractor.{Extractor, new_extractor}
use api_proxy.ControlPlane.Extractor.View.{View, observe}
use api_proxy.ControlPlane.Router.{Config, route, get_hob_mode, correct_hostname}
use api_proxy.ControlPlane.Router.Choice.{select, forced_route, route-forced, route-select}
use api_proxy.ControlPlane.Router.Answers.{
  mode_for, pinning_for, get_hob_mode-observe, correct_hostname-observe,
}
use api_proxy.Handler.Pinning.{pin_if_wrong, maybe_pin_request_to_hostname}
use api_proxy.Handler.Dispatch.{set_mode, dispatch, handler}

-- The rule for a request: that of a forced route, or else the first that fits.
unfoldable pub rule_for : (ℕ → Float32) → Config → Extractor → View → Option Rule
rule_for roll c e v = elim (forced_route e) [ none ↦ select roll 0 c.rules v | some r ↦ some r ]

-- The response before the dispatch: pinned, and with the mode of the city.
unfoldable pub prepared : Config → Config → Writer → View → Writer
prepared c' c'' w v = set_mode (mode_for c'' v) (pin_if_wrong (pinning_for c' w v) w)

module _ (order : Order) (roll : ℕ → Float32) where
  route-rule_for :
      (c : Config) (e : Extractor)
      → ((route order roll c e).1 ≡ rule_for roll c e (observe order e))
        × (observe order (route order roll c e).0 ≡ observe order e)
  unfolding rule_for
  route-rule_for c e = elim (Option-cases (forced_route e)) [
    | inl free ↦ rw (free, rule_for) (route-select order roll c e free)
    | inr (r, is) ↦ rw (is, rule_for) (rw (route-forced order roll c e is) (refl, refl))
  ]

  module _ (h1 : Writer → Request → Writer) (h2 : Writer → Extractor → Writer) where
    -- Whatever the backends do, the handler dispatches by the rule for what could be observed of the
    -- request when it came in, with a response that is pinned and carries the mode by the same view;
    -- and the backend finds a request of which the same can be observed.
    pub handler-dispatch :
        (c c' c'' : Config) (w : Writer) (r : Request)
        → let v = observe order (new_extractor r) in
          (e : Extractor) × (observe order e ≡ v)
          × (handler h1 h2 order roll c c' c'' w r
              ≡ dispatch h1 h2 (rule_for roll c (new_extractor r) v) (prepared c' c'' w v) e)
    unfolding handler maybe_pin_request_to_hostname prepared
    handler-dispatch c c' c'' w r =
        let e = new_extractor r in
        let (rule_is, keeps) = route-rule_for c e in
        let e1 = (route order roll c e).0 in
        let (check_is, keeps') = correct_hostname-observe order c' w e1 in
        let e2 = (correct_hostname order c' w e1).0 in
        let (mode_is, keeps'') = get_hob_mode-observe order c'' e2 in
        let e3 = (get_hob_mode order c'' e2).0 in
        (
          e3,
          keeps'' ∙ (keeps' ∙ keeps),
          ap
                (λ x.
                  dispatch h1 h2 x
                    (set_mode (get_hob_mode order c'' e2).1
                      (pin_if_wrong (correct_hostname order c' w e1).1 w))
                    e3)
                rule_is
              ∙ (ap
                    (λ x.
                      dispatch h1 h2 (rule_for roll c e (observe order e))
                        (set_mode (get_hob_mode order c'' e2).1 (pin_if_wrong x w)) e3)
                    (check_is ∙ ap (pinning_for c' w) keeps)
                  ∙ ap
                      (λ x.
                        dispatch h1 h2 (rule_for roll c e (observe order e))
                          (set_mode x (pin_if_wrong (pinning_for c' w (observe order e)) w)) e3)
                      (mode_is ∙ ap (mode_for c'') (keeps' ∙ keeps))),
        )
