-- ===== src/ControlPlane/Run.antt =====
-- One name that opens the control plane for evaluation.
use api_proxy.Http.Run.{run_http}
use api_proxy.Session.{
  session_id, from_headers, from_values, extract, extract_authorization_header,
  extract_x_api_token_header,
}
use api_proxy.ControlPlane.Types.{action_string}
use api_proxy.ControlPlane.Float.{millionths}
use api_proxy.ControlPlane.Hash.{fnv64}
use api_proxy.ControlPlane.HostMap.{host_map}
use api_proxy.ControlPlane.Extractor.{
  new_extractor, add_mime, do_extraction, ensure, extracted, value, path, source_of, source,
  set_hob, city_or_hob, hob, host, header,
}
use api_proxy.ControlPlane.Extractor.View.{view_of, observe, hob_of}
use api_proxy.ControlPlane.Rules.{
  specificity, less, sort, validate, hash_sample, within_csv, sample, match_matches, matches,
}
use api_proxy.ControlPlane.Rules.Sorting.{precedes}
use api_proxy.ControlPlane.Rules.Matching.{rule_fits, fits, sampled}
use api_proxy.ControlPlane.Regions
use api_proxy.ControlPlane.Regions.{find_region, find_mode, is_online, urls}
use api_proxy.ControlPlane.Router.{
  force_route, region_at, fallback, or_fallback, failover, region_for, route, get_hob_mode, region,
  correct_hostname,
}
use api_proxy.ControlPlane.Router.Choice.{select, forced_route}

unfoldable pub run_control_plane : Unit {0}
unfolding run_http session_id from_headers from_values extract extract_authorization_header
    extract_x_api_token_header action_string millionths fnv64 host_map new_extractor add_mime
    do_extraction ensure extracted value path source_of source set_hob city_or_hob hob host header
    view_of observe hob_of specificity less sort validate hash_sample within_csv sample
    match_matches matches precedes rule_fits fits sampled Regions.validate find_region find_mode
    is_online urls force_route region_at fallback or_fallback failover region_for route get_hob_mode
    region correct_hostname select forced_route
run_control_plane = tt
