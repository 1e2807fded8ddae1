-- ===== src/Handler/EndpointsPage/Answers.antt =====
-- What the page answers, by what could be observed of the request.
use api_proxy.Prelude.{
  ℕ, ◌≡◌, refl, ap, ◌∙◌, Bool, true, false, Option, none, some, [], ◌∷◌, ◌++◌, if◌then◌else◌,
}
use api_proxy.Text.{Str, bytes, str_eq, replace}
use api_proxy.Text.Maps.{Map, lookup, insert, lookup-insert}
use api_proxy.ControlPlane.Types.{Region, Regions, HobRegions, Urls}
use api_proxy.ControlPlane.Regions.{urls}
use api_proxy.Http.Header
use api_proxy.Http.Query
use api_proxy.Http.Request.{Request, query}
use api_proxy.Http.Writer.{Writer, set_header}
use api_proxy.Http.Writer.Laws.{
  sent-write, sent-write_header, sent-write_unsent, body-write, body-write_header,
}
use api_proxy.Session.{Order}
use api_proxy.ControlPlane.Extractor.{new_extractor}
use api_proxy.ControlPlane.Extractor.View.{observe}
use api_proxy.ControlPlane.Router.{Config, region, region_for}
use api_proxy.ControlPlane.Router.Answers.{region-observe}
use api_proxy.ControlPlane.Config.{ControlPlane, regions, loaded_config}
use api_proxy.Handler.EndpointsPage.{
  Reply, no_regions, no_apps, endpoints, parse_bool, rename, reply_of_urls, reply_of_region, send,
  endpoints_handler,
}

abbrev pub json_type : Str
json_type = bytes "application/json; charset=utf-8"

-- The status of an answer.
abbrev pub status_of : Reply → ℕ
status_of no_regions = 500
status_of no_apps = 500
status_of (endpoints version us all) = 200

send-sent :
    (to_json : Reply → Str) (w : Writer) (reply : Reply)
    → w.sent ≡ none
    → ((send to_json w reply).sent ≡ some (status_of reply, w.header))
      × ((send to_json w reply).body ≡ w.body ++ to_json reply)
unfolding send
send-sent to_json w no_regions unsent = (
  sent-write _ (to_json no_regions) (sent-write_header w 500 unsent),
  body-write _ (to_json no_regions) ∙ ap (λ b. b ++ to_json no_regions) (body-write_header w 500),
)
send-sent to_json w no_apps unsent = (
  sent-write _ (to_json no_apps) (sent-write_header w 500 unsent),
  body-write _ (to_json no_apps) ∙ ap (λ b. b ++ to_json no_apps) (body-write_header w 500),
)
send-sent to_json w (endpoints version us all) unsent = (
  sent-write_unsent w (to_json (endpoints version us all)) unsent,
  body-write w (to_json (endpoints version us all)),
)

-- The first of two values that is there.
abbrev pub or_else : Option Str → Option Str → Option Str
or_else (some v) o = some v
or_else none o = o

-- The URL that the answer gives under a name: of those whose names have dashes in the place of
-- underscores, the one that the map gives last.
abbrev pub url_under : Str → Urls → Option Str
url_under name [] = none
url_under name ((k, v) ∷ us) =
    or_else (url_under name us) (if str_eq (replace b'_' b'-' k) name then some v else none)

or_else_assoc : (a b c : Option Str) → or_else a (or_else b c) ≡ or_else (or_else a b) c
or_else_assoc (some v) b c = refl
or_else_assoc none b c = refl

or_else-if :
    (t : Bool) (v : Str) (o : Option Str)
    → (if t then some v else o) ≡ or_else (if t then some v else none) o
or_else-if true v o = refl
or_else-if false v o = refl

or_else-none : (a : Option Str) → or_else a none ≡ a
or_else-none (some v) = refl
or_else-none none = refl

-- What is looked up in the renamed URLs, on top of those that are there.
lookup-rename :
    (us : Urls) (m : Map Str) (name : Str)
    → lookup name (rename us m) ≡ or_else (url_under name us) (lookup name m)
unfolding rename
lookup-rename [] m name = refl
lookup-rename ((k, v) ∷ us) m name =
    lookup-rename us (insert (replace b'_' b'-' k) v m) name
    ∙ (ap (or_else (url_under name us)) (
          lookup-insert (replace b'_' b'-' k) name v m
          ∙ or_else-if (str_eq (replace b'_' b'-' k) name) v (lookup name m))
        ∙ or_else_assoc (url_under name us) _ (lookup name m))

lookup-renamed : (us : Urls) (name : Str) → lookup name (rename us []) ≡ url_under name us
unfolding lookup
lookup-renamed us name = lookup-rename us [] name ∙ or_else-none (url_under name us)

-- The answer for an app, by the region that serves the city.
pub data IsReply (verbose : Bool) (c : Config) (cp : ControlPlane) (app : Str)
    : Option Region → Reply → Type 0 where
  not_served : IsReply verbose c cp app none no_regions
  no_urls : (r : Region) → urls r app ≡ none → IsReply verbose c cp app (some r) no_apps
  found :
      (r : Region) (us : Urls) (m : Map Str) (all : Option (Regions × HobRegions))
      → urls r app ≡ some us
      → ((name : Str) → lookup name m ≡ url_under name us)
      → (verbose ≡ true → all ≡ some (regions cp, (loaded_config cp).hob_regions))
      → (verbose ≡ false → all ≡ none)
      → IsReply verbose c cp app (some r) (endpoints c.region_version m all)

module _ (verbose : Bool) (c : Config) (cp : ControlPlane) (app : Str) where
  reply_of_urls-IsReply :
      (r : Region) (o : Option Urls)
      → urls r app ≡ o
      → IsReply verbose c cp app (some r) (reply_of_urls verbose cp c.region_version o)
  unfolding reply_of_urls
  reply_of_urls-IsReply r none is = no_urls r is
  reply_of_urls-IsReply r (some us) is =
      found r us (rename us []) _ is (lookup-renamed us) (λ e. rw e refl) (λ e. rw e refl)

  reply_of_region-IsReply :
      (o : Option Region)
      → IsReply verbose c cp app o (reply_of_region verbose cp c.region_version app o)
  unfolding reply_of_region
  reply_of_region-IsReply none = not_served
  reply_of_region-IsReply (some r) = reply_of_urls-IsReply r (urls r app) refl

-- If nothing was sent before, the page answers as JSON, by the region that serves the request's city
-- by the view of the request when it came in: with 500 without a region, or where the region has no
-- URLs for the app; and else with 200, the version and the URLs that the region has for the app, under
-- their names with dashes in the place of underscores, and with the regions if and only if the query
-- asks for them. App and verbosity are read from the query string that finding the region leaves behind.
pub endpoints_handler-IsReply :
    (to_json : Reply → Str) (order : Order) (c : Config) (cp : ControlPlane) (w : Writer)
    (r : Request)
    → w.sent ≡ none
    → let r' = (region order c (new_extractor r)).0.req in
      let out = endpoints_handler to_json order c cp w r in
      (reply : Reply) × IsReply
        (parse_bool (Query.get (query r') (bytes "verbose")))
        c
        cp
        (Query.get (query r') (bytes "app"))
        (region_for c (observe order (new_extractor r)).hob)
        reply
      × (out.sent ≡ some (status_of reply, Header.set w.header (bytes "Content-Type") json_type))
      × (out.body ≡ w.body ++ to_json reply)
unfolding endpoints_handler set_header
endpoints_handler-IsReply to_json order c cp w r unsent =
    let (serves, _) = region-observe order c (new_extractor r) in
    let w' : Writer = record w { header = Header.set w.header (bytes "Content-Type") json_type } in
    let r' = (region order c (new_extractor r)).0.req in
    let verbose = parse_bool (Query.get (query r') (bytes "verbose")) in
    let app = Query.get (query r') (bytes "app") in
    let served = region_for c (observe order (new_extractor r)).hob in
    let reply = reply_of_region verbose cp c.region_version app served in
    let (sent, body) = send-sent to_json w' reply unsent in
    (reply, reply_of_region-IsReply verbose c cp app served, rw serves sent, rw serves body)
