-- ===== src/Http/Request.antt =====
-- http.Request: the fields that the proxy reads or changes, and ParseForm.
pub mod Laws
use api_proxy.Prelude.{
  ℕ, Bool, true, false, ◌&&◌, ◌||◌, Option, none, some, List, [], ◌∷◌, ◌++◌, if◌then◌else◌, refl,
  ◌≡◌, not,
}
use api_proxy.Text.{Str, bytes, str_eq, is_blank}
use api_proxy.Text.Maps.{Map, lookup, insert}
use api_proxy.Http.Header.{Header}
use api_proxy.Http.Header
use api_proxy.Http.Query.{Values, Parsed, parse_query, all_of}
use api_proxy.Http.Media.{parse_media_type}

-- A body that is absent, that can be read to its end, or on which reading fails.
pub data Body : Type 0 where
  no_body : Body
  content : Str → Body
  broken : Body

pub record Request : Type 0 where
  pub method : Str
  pub host : Str
  pub path : Str  -- URL.Path
  pub raw_query : Str  -- URL.RawQuery
  pub header : Header
  pub body : Body
  pub remote_addr : Str
  pub form : Option Values
  pub post_form : Option Values

-- `URL.Query()`: malformed pieces are dropped.
unfoldable pub query : Request → Values
query r = (parse_query r.raw_query).0

abbrev pub form_mime : Str
form_mime = bytes "application/x-www-form-urlencoded"

abbrev pub content_type : Str
content_type = bytes "Content-Type"

-- Values copied behind those that are there.
copy_values : Values → Values → Values
unfolding all_of
copy_values to [] = to
copy_values to ((k, vs) ∷ q) = copy_values (insert k (all_of to k ++ vs) to) q

posts : Str → Bool
posts m = str_eq m (bytes "POST") || (str_eq m (bytes "PUT") || str_eq m (bytes "PATCH"))

-- The read of a form's body: the values and whether an error was met.
read_form : Body → Parsed
unfolding parse_query
read_form no_body = ([], false)
read_form (content s) = parse_query s
read_form broken = ([], true)

default_type : Str → Str
default_type [] = bytes "application/octet-stream"
default_type (c ∷ s) = c ∷ s

-- The form of a body that is there, given its media type.
form_of_type : Body → Str × Bool → Parsed
unfolding read_form
form_of_type b (ct, well) =
    let (q, bad) = read_form b in
    if str_eq ct form_mime then (q, bad || not well) else ([], not well)

-- The reading leaves an empty body behind.
body_after : Body → Str × Bool → Body
body_after b (ct, well) = if str_eq ct form_mime then content [] else b

media_type : Request → Str × Bool
unfolding parse_media_type default_type
media_type r = parse_media_type (default_type (Header.get r.header content_type))

-- `parsePostForm`: the form, whether an error was met, and what is left of the body.
parse_post_form : Request → Body → Parsed × Body
unfolding form_of_type body_after media_type
parse_post_form r no_body = (([], false), no_body)
parse_post_form r (content s) =
    (form_of_type (content s) (media_type r), body_after (content s) (media_type r))
parse_post_form r broken = (form_of_type broken (media_type r), body_after broken (media_type r))

fill_post : Option Values → Request → Request × Bool
unfolding parse_post_form
fill_post (some f) r = (r, false)
fill_post none r =
    let ((q, bad), rest) = parse_post_form r r.body in
    if posts r.method
    then (record r { post_form = some q; body = rest }, bad)
    else (record r { post_form = some [] }, false)

abbrev some_values : Option Values → Values
some_values none = []
some_values (some q) = q

fill_form : Option Values → Request → Request × Bool
unfolding copy_values parse_query
fill_form (some f) r = (r, false)
fill_form none r =
    let (q, bad) = parse_query r.raw_query in
    (record r { form = some (copy_values (copy_values [] (some_values r.post_form)) q) }, bad)

-- `ParseForm`: the request with its forms, and whether there was an error. Forms that were parsed
-- before stay.
unfoldable pub parse_form : Request → Request × Bool
unfolding fill_post fill_form posts
parse_form r =
    let (r', bad) = fill_post r.post_form r in
    let (r'', bad') = fill_form r'.form r' in (r'', bad || bad')

-- `r.PostForm` and `r.Form`: nil reads as no values.
abbrev pub post_values : Request → Values
post_values r = some_values r.post_form

abbrev pub form_values : Request → Values
form_values r = some_values r.form
