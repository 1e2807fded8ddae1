-- ===== src/ControlPlane/Extractor.antt =====
-- The values of a request that rules look at, read lazily (controlplane/extractor.go). A method
-- returns the extractor that it leaves behind. `order` is the order of the session package's
-- header extractors on the one extraction that is made.
pub mod View
pub mod Front
use api_proxy.Prelude.{
  ℕ, ◌≡◌, Bool, true, false, ◌||◌, ◌&&◌, not, Option, none, some, List, [], ◌∷◌, if◌then◌else◌,
}
use api_proxy.Text.{Str, bytes, str_eq, contains, is_blank}
use api_proxy.Text.Maps.{Map, lookup, insert, lookup_str}
use api_proxy.Http.Header
use api_proxy.Http.Query
use api_proxy.Http.Query.{Values, first}
use api_proxy.Http.Media.{parse_media_type}
use api_proxy.Http.Request.{
  Request, Body, no_body, content, broken, query, parse_form, post_values, content_type, form_mime,
}
use api_proxy.Session.{Order, session_id, session_id_key}
use api_proxy.ControlPlane.HostMap.{host_map}

abbrev pub city_code_key : Str
city_code_key = bytes "city"

abbrev pub hob_code_key : Str
hob_code_key = bytes "hob"

pub record Extractor : Type 0 where
  pub req : Request
  pub extracted_values : Option (Map Str)

unfoldable pub new_extractor : Request → Extractor
new_extractor r = record { req = r; extracted_values = none }

-- `for k, vs := range q { m[k] = vs[0] }`.
take_first : Values → Map Str → Map Str
take_first [] m = m
take_first ((k, vs) ∷ q) m = take_first q (insert k (first vs) m)

-- A request that is POSTed or PUT gets a form's content type if it has none.
unfoldable pub add_mime : Request → Request
add_mime r =
    let (ct, well) = parse_media_type (Header.get r.header content_type) in
    if str_eq r.method (bytes "POST") || str_eq r.method (bytes "PUT")
    then if is_blank ct || not well
      then record r { header = Header.set r.header content_type form_mime }
      else r
    else r

unfoldable pub extracted : Option (Map Str) → Map Str
extracted none = []
extracted (some m) = m

-- "driver" or "customer", if the host name holds it, or else what a header says.
unfoldable pub source_of : Request → Str
source_of r =
    if contains r.host (bytes "driver")
    then bytes "driver"
    else if contains r.host (bytes "customer")
    then bytes "customer"
    else Header.get r.header (bytes "X-H-Source")

module _ (order : Order) where
  -- The rest of the extraction, once the body is copied: `saved` is put back on exit.
  extract_form : Request × Bool → Body → Map Str → Extractor
  unfolding take_first
  extract_form (r, bad) saved m =
      let r' = record r { body = saved } in
      if bad then record { req = r'; extracted_values = some m } else record {
        req = r';
        extracted_values =
            some (insert session_id_key (session_id order r) (take_first (post_values r) m));
      }

  drain : Request → Body → Map Str → Extractor
  unfolding extract_form add_mime
  drain r no_body m = extract_form (parse_form (add_mime r)) no_body m
  drain r (content s) m = extract_form (parse_form (add_mime r)) (content s) m
  drain r broken m = record { req = record r { body = no_body }; extracted_values = some m }

  unfoldable pub do_extraction : Request → Extractor
  unfolding drain take_first
  do_extraction r = drain r r.body (take_first (query r) [])

  -- `if e.extractedValues == nil { e.doExtraction() }`.
  unfoldable pub ensure : Extractor → Extractor
  ensure e = elim e.extracted_values [ none ↦ do_extraction e.req | some m ↦ e ]

  unfoldable pub value : Extractor → Str → Extractor × Str
  unfolding extracted
  value e name = (ensure e, lookup_str name (extracted (ensure e).extracted_values))

  unfoldable pub path : Extractor → Extractor × Str
  path e = (ensure e, (ensure e).req.path)

  unfoldable pub source : Extractor → Extractor × Str
  unfolding source_of
  source e = (ensure e, source_of (ensure e).req)

  -- The code is added to the query string, and to the values if they are there.
  unfoldable pub set_hob : Extractor → Str → Extractor
  set_hob e code =
      let r = record (e.req) {
        raw_query = Query.encode (Query.add (query e.req) city_code_key code);
      } in
      elim e.extracted_values [
        | none ↦ do_extraction r
        | some m ↦ record { req = r; extracted_values = some (insert city_code_key code m) }
      ]

  unfoldable pub city_or_hob : Extractor → Extractor × Str
  city_or_hob e =
      let (e', city) = value e city_code_key in
      if is_blank city then value e' hob_code_key else (e', city)

  -- The code from the host name, which is then set on the request.
  from_host : Extractor → Option Str → Extractor × Str
  unfolding set_hob
  from_host e none = (e, [])
  from_host e (some code) = (set_hob e code, code)

  unfoldable pub hob : Extractor → Extractor × Str
  unfolding from_host
  hob e =
      let (e', code) = city_or_hob e in
      if is_blank code then from_host e' (lookup e'.req.host host_map) else (e', code)

unfoldable pub host : Extractor → Str
host e = e.req.host

unfoldable pub header : Extractor → Str → Str
header e name = Header.get e.req.header name
