-- ===== src/Handler/Dispatch.antt =====
-- The dispatch of a request (handler/handler.go). The handlers of the two backends are parameters.
-- The control plane is read three times, and may be replaced in between.
pub mod Outcomes
pub mod Carried
pub mod Routed
pub mod Refused
use api_proxy.Prelude.{ℕ, Option, none, some, List, [], ◌∷◌, if◌then◌else◌}
use api_proxy.Text.{Str, bytes, is_blank}
use api_proxy.Http.Request.{Request}
use api_proxy.Http.Writer.{Writer, set_header}
use api_proxy.Session.{Order}
use api_proxy.ControlPlane.Types.{
  Rule, Action, proxy_to_h1, send_to_h2, throttle, deprecate, other, action_string, Float32,
}
use api_proxy.ControlPlane.Extractor.{Extractor, new_extractor}
use api_proxy.ControlPlane.Router.{Config, route, get_hob_mode, route_header}
use api_proxy.Handler.Refusals.{throttle_handler, deprecate_handler}
use api_proxy.Handler.Pinning.{maybe_pin_request_to_hostname}

-- `if hobMode := router.GetHobMode(); len(hobMode) > 0`.
unfoldable pub set_mode : Str → Writer → Writer
set_mode mode w = if is_blank mode then w else set_header w (bytes "X-H-Mode") mode

module _ (h1 : Writer → Request → Writer) (h2 : Writer → Extractor → Writer) where
  -- The switch over the action, with the response's route header set.
  unfoldable pub by_action : Action → Rule → Writer → Extractor → Writer
  by_action proxy_to_h1 rule w e = h1 w e.req
  by_action throttle rule w e = throttle_handler rule w
  by_action deprecate rule w e = deprecate_handler rule w
  by_action send_to_h2 rule w e = h2 w e
  by_action (other n) rule w e = h2 w e

  unfoldable pub dispatch : Option Rule → Writer → Extractor → Writer
  unfolding by_action
  dispatch none w e = h2 (set_header w route_header (action_string send_to_h2)) e
  dispatch (some rule) w e =
      by_action rule.action rule (set_header w route_header (action_string rule.action)) e

  -- `Handler`.
  unfoldable pub handler :
      Order → (ℕ → Float32) → Config → Config → Config → Writer → Request → Writer
  unfolding dispatch
  handler order roll c c' c'' w r =
      let (e1, rule) = route order roll c (new_extractor r) in
      let (e2, w2) = maybe_pin_request_to_hostname order c' w e1 in
      let (e3, mode) = get_hob_mode order c'' e2 in dispatch rule (set_mode mode w2) e3

-- `RpcHandler`, over the handler of the RPC calls.
unfoldable pub rpc_handler :
    (Writer → Request → Writer) → Order → Config → Writer → Request → Writer
rpc_handler rpc order c w r =
    let (e, w') = maybe_pin_request_to_hostname order c w (new_extractor r) in rpc w' e.req
