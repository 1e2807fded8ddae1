-- ===== src/ControlPlane/Extractor/View.antt =====
-- What rules can observe of a request, apart from when it is read: a fixed view, which the lazy
-- methods of the extractor answer from and leave as it is.
use api_proxy.Prelude.{
  ◌≡◌, refl, ap, sym, ◌∙◌, Bool, true, false, Option, none, some, [], arith, if◌then◌else◌,
  Bool-cases, Option-cases, inl, inr, All,
}
use api_proxy.Text.{Str, bytes, is_blank, str_eq}
use api_proxy.Text.Maps.{
  Map, lookup, insert, lookup_str, lookup-All, lookup_str-insert_self, lookup_str-insert_other,
}
use api_proxy.Http.Header
use api_proxy.Http.Request.{Request, Body, no_body, content, broken, parse_form}
use api_proxy.Session.{Order, session_id_key}
use api_proxy.ControlPlane.HostMap.{host_map}
use api_proxy.ControlPlane.Extractor.{
  Extractor, add_mime, do_extraction, drain, extract_form, ensure, extracted, value, path, source,
  source_of, set_hob, city_or_hob, from_host, hob, city_code_key, hob_code_key,
}
use api_proxy.Http.Header.{canonical_key}

pub record View : Type 0 where
  pub host : Str
  pub route : Str  -- the header X-Hailo-Route
  pub path : Str
  pub source : Str
  pub hob : Str
  pub customer : Str
  pub driver : Str
  pub device : Str
  pub session : Str

abbrev pub host_code : Option Str → Str
host_code none = []
host_code (some c) = c

-- The city code: a value of the request, or else the code of its host.
unfoldable pub hob_of : Request → Map Str → Str
hob_of r m =
    if is_blank (lookup_str city_code_key m)
    then if is_blank (lookup_str hob_code_key m)
      then host_code (lookup r.host host_map)
      else lookup_str hob_code_key m
    else lookup_str city_code_key m

unfoldable pub view_of : Request → Map Str → View
view_of r m = record {
  host = r.host;
  route = Header.get r.header (bytes "X-Hailo-Route");
  path = r.path;
  source = source_of r;
  hob = hob_of r m;
  customer = lookup_str (bytes "customer") m;
  driver = lookup_str (bytes "driver") m;
  device = lookup_str (bytes "device") m;
  session = lookup_str session_id_key m;
}

module _ (order : Order) where
  unfoldable pub observe : Extractor → View
  unfolding extracted
  observe e = view_of (ensure order e).req (extracted (ensure order e).extracted_values)

abbrev pub loaded : Request → Map Str → Extractor
loaded r m = record { req = r; extracted_values = some m }

abbrev IsLoaded : Extractor → Type 0
IsLoaded e = (r : Request) × (m : Map Str) × (e ≡ loaded r m)

module _ (order : Order) where
  extract_form-IsLoaded :
      (p : Request × Bool) (saved : Body) (m : Map Str) → IsLoaded (extract_form order p saved m)
  unfolding extract_form
  extract_form-IsLoaded (r, true) saved m = (_, _, refl)
  extract_form-IsLoaded (r, false) saved m = (_, _, refl)

  drain-IsLoaded : (r : Request) (b : Body) (m : Map Str) → IsLoaded (drain order r b m)
  unfolding drain
  drain-IsLoaded r no_body m = extract_form-IsLoaded (parse_form (add_mime r)) no_body m
  drain-IsLoaded r (content s) m = extract_form-IsLoaded (parse_form (add_mime r)) (content s) m
  drain-IsLoaded r broken m = (_, _, refl)

  ensure-IsLoaded : (e : Extractor) → IsLoaded (ensure order e)
  unfolding ensure do_extraction
  ensure-IsLoaded e = elim (Option-cases e.extracted_values) [
    | inl unread ↦ rw (unread, ensure) (drain-IsLoaded e.req e.req.body _)
    | inr (m, read) ↦
        rw (read, ensure) (e.req, m, ap (λ v. record { req = e.req; extracted_values = v }) read)
  ]

  -- Reading again changes nothing.
  pub ensure_idem : (e : Extractor) → ensure order (ensure order e) ≡ ensure order e
  ensure_idem e = let (r, m, is) = ensure-IsLoaded e in rw is (unfold ensure in refl)

-- Every code of the table is there.
host_map_codes : All (λ e. is_blank e.1 ≡ false) host_map
unfolding host_map bytes
host_map_codes = ground arith

host_code-nonblank : (h c : Str) → lookup h host_map ≡ some c → is_blank c ≡ false
host_code-nonblank h c found = lookup-All (λ c. is_blank c ≡ false) h host_map host_map_codes found

-- The values that rules sample by are not stored under the city's key.
city_key_other :
    (str_eq city_code_key (bytes "customer") ≡ false)
    × (str_eq city_code_key (bytes "driver") ≡ false)
    × (str_eq city_code_key (bytes "device") ≡ false)
    × (str_eq city_code_key session_id_key ≡ false)
unfolding str_eq bytes
city_key_other = (refl, refl, refl, refl)

hob_of-insert :
    (r : Request) (m : Map Str) (raw code : Str)
    → is_blank code ≡ false
    → hob_of (record r { raw_query = raw }) (insert city_code_key code m) ≡ code
unfolding hob_of
hob_of-insert r m raw code nonblank = rw (lookup_str-insert_self city_code_key code m) (rw nonblank)

-- After the code is set, the request shows what it showed before.
view_of-set_hob :
    (r : Request) (m : Map Str) (raw code : Str)
    → is_blank code ≡ false
    → hob_of r m ≡ code
    → view_of (record r { raw_query = raw }) (insert city_code_key code m) ≡ view_of r m
unfolding view_of source_of
view_of-set_hob r m raw code nonblank same =
    let (customer, driver, device, session) = city_key_other in
    cc (
      hob_of-insert r m raw code nonblank,
      lookup_str-insert_other city_code_key (bytes "customer") code m customer,
      lookup_str-insert_other city_code_key (bytes "driver") code m driver,
      lookup_str-insert_other city_code_key (bytes "device") code m device,
      lookup_str-insert_other city_code_key session_id_key code m session,
    )

-- The extractor that is left by a call of `Hob` shows the same view.
abbrev Keeps : Order → Request → Map Str → Type 0
Keeps order r m =
    (r' : Request) × (m' : Map Str) × (hob order (loaded r m) ≡ (loaded r' m', hob_of r m))
    × (view_of r' m' ≡ view_of r m)

module _ (order : Order) where
  from_host_keeps :
      (r : Request) (m : Map Str) (c : Option Str)
      → lookup r.host host_map ≡ c
      → hob_of r m ≡ host_code c
      → (r' : Request) × (m' : Map Str) × (from_host order (loaded r m) c
          ≡ (loaded r' m', host_code c))
        × (view_of r' m' ≡ view_of r m)
  unfolding from_host set_hob
  from_host_keeps r m none at same = (r, m, refl, refl)
  from_host_keeps r m (some code) at same =
      (_, _, refl, view_of-set_hob r m _ code (host_code-nonblank r.host code at) same)

  hob_loaded : (r : Request) (m : Map Str) → Keeps order r m
  unfolding hob city_or_hob value ensure extracted hob_of
  hob_loaded r m = elim (Bool-cases (is_blank (lookup_str city_code_key m))) [
    | inr city ↦ (r, m, rw city (rw city refl), refl)
    | inl no_city ↦ elim (Bool-cases (is_blank (lookup_str hob_code_key m))) [
      | inr code ↦ (r, m, rw (no_city) (rw code refl), refl)
      | inl no_code ↦ rw (no_city) (
          rw no_code
            (from_host_keeps r m (lookup r.host host_map) refl (rw no_city (rw no_code refl))))
    ]
  ]

  value-ensure : (e : Extractor) (n : Str) → value order e n ≡ value order (ensure order e) n
  unfolding value
  value-ensure e n = rw (ensure_idem order e)

  city_or_hob-ensure : (e : Extractor) → city_or_hob order e ≡ city_or_hob order (ensure order e)
  unfolding city_or_hob
  city_or_hob-ensure e = rw (value-ensure e city_code_key)

  hob-ensure : (e : Extractor) → hob order e ≡ hob order (ensure order e)
  unfolding hob
  hob-ensure e = rw (city_or_hob-ensure e)

  pub observe-ensure : (e : Extractor) → observe order (ensure order e) ≡ observe order e
  unfolding observe
  observe-ensure e = rw (ensure_idem order e)

  -- A request that is read shows the view of its values.
  pub observe-loaded : (r : Request) (m : Map Str) → observe order (loaded r m) ≡ view_of r m
  unfolding observe ensure
  observe-loaded r m = refl

  pub observe-eq-view_of :
      (e : Extractor)
      → (r : Request) × (m : Map Str) × (ensure order e ≡ loaded r m)
        × (observe order e ≡ view_of r m)
  observe-eq-view_of e =
      let (r, m, is) = ensure-IsLoaded order e in
      (r, m, is, sym (observe-ensure e) ∙ (ap (observe order) is ∙ observe-loaded r m))

  -- Reading the code, in any state of the extractor, gives the view's and leaves the view as it is.
  pub hob-observe :
      (e : Extractor)
      → ((hob order e).1 ≡ (observe order e).hob)
        × (observe order (hob order e).0 ≡ observe order e)
  unfolding view_of
  hob-observe e =
      let (r, m, is, shows) = observe-eq-view_of e in
      let (r', m', reads, same) = hob_loaded r m in
      let left : hob order e ≡ (loaded r' m', hob_of r m) =
        hob-ensure e ∙ (ap (hob order) is ∙ reads) in
      (
        rw (left, shows) refl,
        ap (λ x. observe order x.0) left ∙ (observe-loaded r' m' ∙ (same ∙ sym shows)),
      )

  pub path-observe :
      (e : Extractor)
      → ((path order e).1 ≡ (observe order e).path)
        × (observe order (path order e).0 ≡ observe order e)
  unfolding path observe view_of
  path-observe e = (refl, observe-ensure e)

  pub source-observe :
      (e : Extractor)
      → ((source order e).1 ≡ (observe order e).source)
        × (observe order (source order e).0 ≡ observe order e)
  unfolding source observe view_of
  source-observe e = (refl, observe-ensure e)

  -- A value that is sampled by is one of the view's.
  pub value-observe :
      (e : Extractor)
      → ((value order e (bytes "customer")).1 ≡ (observe order e).customer)
        × ((value order e (bytes "driver")).1 ≡ (observe order e).driver)
        × ((value order e (bytes "device")).1 ≡ (observe order e).device)
        × ((value order e session_id_key).1 ≡ (observe order e).session)
        × ((name : Str) → observe order (value order e name).0 ≡ observe order e)
  unfolding value observe view_of
  value-observe e = (refl, refl, refl, refl, λ name. observe-ensure e)
