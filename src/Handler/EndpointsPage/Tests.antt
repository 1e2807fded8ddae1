-- ===== src/Handler/EndpointsPage/Tests.antt =====
-- The page for a request, and its theorem at it.
use api_proxy.Prelude.{◌≡◌, refl, none, some, []}
use api_proxy.Text.{Str, bytes}
use api_proxy.Http.Header
use api_proxy.Http.Query
use api_proxy.Http.Request.{query}
use api_proxy.Http.Writer.{new_writer}
use api_proxy.Session.{token_first}
use api_proxy.ControlPlane.Run.{run_control_plane}
use api_proxy.ControlPlane.Samples.{config, london}
use api_proxy.ControlPlane.Extractor.{new_extractor}
use api_proxy.ControlPlane.Extractor.View.{observe}
use api_proxy.ControlPlane.Router.{region, region_for}
use api_proxy.ControlPlane.Config.{ControlPlane}
use api_proxy.Handler.EndpointsPage.{
  Reply, no_regions, no_apps, endpoints, parse_bool, reply_of_region, reply_of_urls, rename, send,
  endpoints_handler,
}
use api_proxy.Handler.EndpointsPage.Answers.{
  status_of, json_type, IsReply, endpoints_handler-IsReply,
}

-- A stand-in for the encoding, which tells the answers apart.
abbrev name_of : Reply → Str
name_of no_regions = bytes "no regions"
name_of no_apps = bytes "no apps"
name_of (endpoints version us all) = bytes "endpoints"

abbrev unloaded : ControlPlane
unloaded = record { loaded = none; file = none }

served_test :
    (endpoints_handler name_of token_first config unloaded new_writer london).body
    ≡ bytes "endpoints"
unfolding run_control_plane endpoints_handler send reply_of_region reply_of_urls rename parse_bool
served_test = refl

endpoints_handler-IsReply_example :
    let r' = (region token_first config (new_extractor london)).0.req in
    let out = endpoints_handler name_of token_first config unloaded new_writer london in
    (reply : Reply) × IsReply
      (parse_bool (Query.get (query r') (bytes "verbose")))
      config
      unloaded
      (Query.get (query r') (bytes "app"))
      (region_for config (observe token_first (new_extractor london)).hob)
      reply
    × (out.sent ≡ some (status_of reply, Header.set [] (bytes "Content-Type") json_type))
    × (out.body ≡ name_of reply)
endpoints_handler-IsReply_example =
    endpoints_handler-IsReply name_of token_first config unloaded new_writer london refl
