-- ===== src/Handler/Cors/Preflight.antt =====
-- What the CORS filter does with a request.
use api_proxy.Prelude.{◌≡◌, ◌≢◌, refl, ◌∙◌, true, false, Bool-cases, inl, inr, ◌⊎◌}
use api_proxy.Text.{Str, bytes, str_eq, is_blank}
use api_proxy.Text.Laws.{str_eq_iff}
use api_proxy.Http.Header
use api_proxy.Http.Header.{canonical_key}
use api_proxy.Http.Header.Laws.{get-set_self, get-set_other}
use api_proxy.Http.Run.{run_http}
use api_proxy.Http.Request.{Request}
use api_proxy.Http.Writer.{Writer, set_header}
use api_proxy.Handler.Cors.{is_allowed, serve_cors, allow}

abbrev pub allow_origin : Str
allow_origin = bytes "Access-Control-Allow-Origin"

-- The three other headers are not that of the origin.
methods_other :
    str_eq (canonical_key (bytes "Access-Control-Allow-Methods")) (canonical_key allow_origin)
    ≡ false
unfolding run_http
methods_other = refl

headers_other :
    str_eq (canonical_key (bytes "Access-Control-Allow-Headers")) (canonical_key allow_origin)
    ≡ false
unfolding run_http
headers_other = refl

age_other :
    str_eq (canonical_key (bytes "Access-Control-Max-Age")) (canonical_key allow_origin) ≡ false
unfolding run_http
age_other = refl

-- Nothing is sent or written yet, and the origin is allowed.
abbrev pub IsOpen : Str → Writer → Writer → Type 0
IsOpen origin w w' =
    (Header.get w'.header allow_origin ≡ origin) × (w'.sent ≡ w.sent) × (w'.body ≡ w.body)

allow-IsOpen : (origin : Str) (r : Request) (w : Writer) → IsOpen origin w (allow origin r w)
unfolding allow set_header
allow-IsOpen origin r w =
    let opened = Header.set w.header allow_origin origin in
    let methods =
      Header.set opened (bytes "Access-Control-Allow-Methods")
        (bytes "DELETE, GET, HEAD, OPTIONS, POST, PUT") in
    let is : Header.get methods allow_origin ≡ origin =
      get-set_other opened (bytes "Access-Control-Allow-Methods") allow_origin
        (bytes "DELETE, GET, HEAD, OPTIONS, POST, PUT") methods_other
      ∙ get-set_self w.header allow_origin origin in
    let wanted = Header.get r.header (bytes "Access-Control-Request-Headers") in
    elim (Bool-cases (is_blank wanted)) [
      | inl blank ↦ rw blank (is, refl, refl)
      | inr given ↦ rw given (
        get-set_other methods (bytes "Access-Control-Allow-Headers") allow_origin wanted
              headers_other
            ∙ is,
        refl,
        refl,
      )
    ]

abbrev pub origin_of : Request → Str
origin_of r = Header.get r.header (bytes "Origin")

-- Whether the filter answers, passes on with the origin allowed, or passes on as it came.
pub data Outcome (next : Writer → Request → Writer) (w : Writer) (r : Request)
    : Writer → Type 0 where
  preflight :
      (out : Writer)
      → is_allowed (origin_of r) ≡ true
      → r.method ≡ bytes "OPTIONS"
      → IsOpen (origin_of r) w out
      → Outcome next w r out
  opened :
      (w' : Writer)
      → is_allowed (origin_of r) ≡ true
      → r.method ≢ bytes "OPTIONS"
      → IsOpen (origin_of r) w w'
      → Outcome next w r (next w' r)
  passed :
      (is_blank (origin_of r) ≡ true) ⊎ (is_allowed (origin_of r) ≡ false)
      → Outcome next w r (next w r)

not_options : (m : Str) → str_eq m (bytes "OPTIONS") ≡ false → m ≢ bytes "OPTIONS"
not_options m other e = let same = (str_eq_iff m (bytes "OPTIONS")).1 e in cc

-- An OPTIONS request of an allowed origin is answered by the filter with that origin allowed; any
-- other request of an allowed origin goes on with that origin allowed and nothing sent; and a request
-- without an origin, or of one that is not allowed, goes on as it came.
pub serve_cors-Outcome :
    (next : Writer → Request → Writer) (w : Writer) (r : Request)
    → Outcome next w r (serve_cors next w r)
unfolding serve_cors set_header
serve_cors-Outcome next w r = elim (Bool-cases (is_blank (origin_of r))) [
  | inl blank ↦ rw blank (passed (inl blank))
  | inr given ↦ elim (Bool-cases (is_allowed (origin_of r))) [
    | inr strange ↦ rw given (rw strange (passed (inr strange)))
    | inl known ↦ elim (Bool-cases (str_eq r.method (bytes "OPTIONS"))) [
      | inr other ↦ rw given (
          rw known (
            rw other (
              opened (allow (origin_of r) r w) known (not_options r.method other)
                (allow-IsOpen (origin_of r) r w))))
      | inl options ↦
          let (is, sent, body) = allow-IsOpen (origin_of r) r w in
          rw given (
            rw known (
              rw options (
                preflight _ known ((str_eq_iff r.method (bytes "OPTIONS")).0 options) (
                  get-set_other (allow (origin_of r) r w).header (bytes "Access-Control-Max-Age")
                        allow_origin (bytes "3600") age_other
                      ∙ is,
                  sent,
                  body,
                ))))
    ]
  ]
]
