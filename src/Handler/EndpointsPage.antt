-- ===== src/Handler/EndpointsPage.antt =====
-- The page that serves a client the host names of its region (handler/endpoints.go). The encoding of
-- the answer is a parameter; each read of the control plane is an argument.
pub mod Answers
mod Tests
use api_proxy.Prelude.{Bool, true, false, Option, none, some, List, [], ◌∷◌, if◌then◌else◌, ◌||◌}
use api_proxy.Prelude.Int.{ℤ}
use api_proxy.Text.{Str, bytes, str_eq, replace}
use api_proxy.Text.Maps.{Map, insert}
use api_proxy.Http.Query
use api_proxy.Http.Request.{Request, query}
use api_proxy.Http.Writer.{Writer, set_header, write_header, write}
use api_proxy.Session.{Order}
use api_proxy.ControlPlane.Types.{Region, Regions, HobRegions, Urls}
use api_proxy.ControlPlane.Regions.{urls}
use api_proxy.ControlPlane.Extractor.{Extractor, new_extractor}
use api_proxy.ControlPlane.Router.{Config, region}
use api_proxy.ControlPlane.Config.{ControlPlane, regions, loaded_config}

-- The answers, as they are before the encoding.
pub data Reply : Type 0 where
  no_regions : Reply
  no_apps : Reply
  endpoints : (timestamp : ℤ) → Map Str → Option (Regions × HobRegions) → Reply

-- `strconv.ParseBool`, with false for an error.
unfoldable pub parse_bool : Str → Bool
parse_bool s =
    str_eq s (bytes "1")
    || (str_eq s (bytes "t")
        || (str_eq s (bytes "T")
            || (str_eq s (bytes "TRUE") || (str_eq s (bytes "true") || str_eq s (bytes "True")))))

-- The loop over the URLs: the names are written with dashes.
unfoldable pub rename : Urls → Map Str → Map Str
rename [] m = m
rename ((k, v) ∷ us) m = rename us (insert (replace b'_' b'-' k) v m)

unfoldable pub reply_of_urls : Bool → ControlPlane → ℤ → Option Urls → Reply
reply_of_urls verbose cp version none = no_apps
reply_of_urls verbose cp version (some us) =
    endpoints version (rename us [])
      (if verbose then some (regions cp, (loaded_config cp).hob_regions) else none)

unfoldable pub reply_of_region : Bool → ControlPlane → ℤ → Str → Option Region → Reply
reply_of_region verbose cp version app none = no_regions
reply_of_region verbose cp version app (some r) = reply_of_urls verbose cp version (urls r app)

-- Both errors are answered with 500.
unfoldable pub send : (Reply → Str) → Writer → Reply → Writer
send to_json w no_regions = write (write_header w 500) (to_json no_regions)
send to_json w no_apps = write (write_header w 500) (to_json no_apps)
send to_json w (endpoints version us all) = write w (to_json (endpoints version us all))

-- `EndpointsHandler`. The request is the one that the region was found for.
unfoldable pub endpoints_handler :
    (Reply → Str) → Order → Config → ControlPlane → Writer → Request → Writer
endpoints_handler to_json order c cp w r =
    let w' = set_header w (bytes "Content-Type") (bytes "application/json; charset=utf-8") in
    let (e, (found, version)) = region order c (new_extractor r) in
    let app = Query.get (query e.req) (bytes "app") in
    let verbose = parse_bool (Query.get (query e.req) (bytes "verbose")) in
    send to_json w' (reply_of_region verbose cp version app found)
