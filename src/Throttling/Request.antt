-- ===== src/Throttling/Request.antt =====
-- The check of one request (`ServeHTTP`, `buckets` and `anyThrottled` of handler/throttling.go). The
-- next handler is a parameter; the keys to throttle are read once.
use api_proxy.Prelude.{
  ◌≡◌, refl, ap, ◌∙◌, Bool, true, false, none, some, List, [], ◌∷◌, ◌++◌, if◌then◌else◌, ◌≢◌, ◌⊎◌,
  inl, inr, Bool-cases, arith,
}
use api_proxy.Text.{Str, bytes, str_eq, is_blank}
use api_proxy.Text.Laws.{str_eq_iff}
use api_proxy.Http.Header
use api_proxy.Http.Request.{Request}
use api_proxy.Http.Writer.{Writer, set_header, write_header, write}
use api_proxy.Http.Writer.Laws.{sent-write, sent-write_header, body-write, body-write_header}
use api_proxy.Session.{Order, session_id}
use api_proxy.Throttling.State.{Shared, offer}

abbrev pub bucket_of : Str → Str
bucket_of id = bytes "sessId:" ++ id

unfoldable pub buckets : Order → Request → List Str
buckets order r = if is_blank (session_id order r) then [] else bucket_of (session_id order r) ∷ []

-- Whether the map of throttled buckets has the key.
unfoldable pub has_key : List Str → Str → Bool
has_key [] b = false
has_key (k ∷ ks) b = if str_eq k b then true else has_key ks b

unfoldable pub any_throttled : List Str → List Str → Bool
any_throttled throttled [] = false
any_throttled throttled (b ∷ bs) = if has_key throttled b then true else any_throttled throttled bs

-- The loop over the buckets: its `break` leaves the select only.
unfoldable pub offer_all : List Str → Shared → Shared
offer_all [] s = s
offer_all (b ∷ bs) s = offer_all bs (offer b s)

abbrev pub throttled_json : Str
throttled_json =
    bytes
      "{\"status\":false,\"payload\":\"Client error: rate limit exceeded\",\"code\":429,\"dotted_code\":\"com.HailoOSS.api.throttled\",\"context\":null}"

abbrev pub json_type : Str
json_type = bytes "application/json; charset=utf-8"

unfoldable pub too_many : Writer → Writer
too_many w = write (write_header (set_header w (bytes "Content-Type") json_type) 429) throttled_json

unfoldable pub serve_http :
    (Writer → Request → Writer) → Order → List Str → Writer → Request → Shared → Shared × Writer
unfolding buckets any_throttled offer_all too_many
serve_http next order throttled w r s = (
  offer_all (buckets order r) s,
  if any_throttled throttled (buckets order r) then too_many w else next w r,
)

-- The key is among those of the list.
abbrev pub IsIn : Str → List Str → Type 0
IsIn b [] = ⊥
IsIn b (k ∷ ks) = (k ≡ b) ⊎ IsIn b ks

has_key-IsIn : (ks : List Str) (b : Str) → has_key ks b ≡ true → IsIn b ks
unfolding has_key
has_key-IsIn [] b h = cc
has_key-IsIn (k ∷ ks) b h = elim (Bool-cases (str_eq k b)) [
  | inl same ↦ inl ((str_eq_iff k b).0 same)
  | inr other ↦ inr (has_key-IsIn ks b (ground (arith, other)))
]

has_key-absent : (ks : List Str) (b : Str) → has_key ks b ≡ false → ¬ IsIn b ks
unfolding has_key
has_key-absent [] b h i = i
has_key-absent (k ∷ ks) b h (inl same) = let e = (str_eq_iff k b).1 same in ground arith
has_key-absent (k ∷ ks) b h (inr i) = has_key-absent ks b (ground arith) i

-- The request's session has a bucket that is to be throttled.
abbrev pub IsThrottled : Order → List Str → Request → Type 0
IsThrottled order throttled r =
    (session_id order r ≢ []) × IsIn (bucket_of (session_id order r)) throttled

-- What the response is in either case.
abbrev pub Answer :
    (Writer → Request → Writer) → Order → List Str → Writer → Request → Writer → Type 0
Answer next order throttled w r out =
    (IsThrottled order throttled r
      × (out.sent ≡ some (429, Header.set w.header (bytes "Content-Type") json_type))
      × (out.body ≡ w.body ++ throttled_json))
    ⊎ ((¬ IsThrottled order throttled r) × (out ≡ next w r))

too_many-sent :
    (w : Writer)
    → w.sent ≡ none
    → ((too_many w).sent ≡ some (429, Header.set w.header (bytes "Content-Type") json_type))
      × ((too_many w).body ≡ w.body ++ throttled_json)
unfolding too_many set_header
too_many-sent w unsent = (
  sent-write _ throttled_json
      (sent-write_header (set_header w (bytes "Content-Type") json_type) 429 unsent),
  body-write _ throttled_json
      ∙ ap (λ b. b ++ throttled_json)
          (body-write_header (set_header w (bytes "Content-Type") json_type) 429),
)

-- If nothing was sent before, a request whose session has a throttled bucket is answered with 429 and
-- goes no further, and every other request, one without a session included, is answered by the next
-- handler; and in both cases the bucket of the session, if there is one, is offered to the channel.
pub serve_http-Answer :
    (next : Writer → Request → Writer) (order : Order) (throttled : List Str) (w : Writer)
    (r : Request) (s : Shared)
    → w.sent ≡ none
    → Answer next order throttled w r (serve_http next order throttled w r s).1
      × ((serve_http next order throttled w r s).0
          ≡ (if is_blank (session_id order r) then s else offer (bucket_of (session_id order r)) s))
unfolding serve_http buckets any_throttled offer_all
serve_http-Answer next order throttled w r s unsent =
    elim (Bool-cases (is_blank (session_id order r))) [
      | inl blank ↦ rw blank (inr ((λ (given, _). given (blank_eq _ blank)), refl), refl)
      | inr given ↦ elim (Bool-cases (has_key throttled (bucket_of (session_id order r)))) [
        | inl full ↦
            let (status, text) = too_many-sent w unsent in
            rw given (
              rw full (inl ((given_ne _ given, has_key-IsIn throttled _ full), status, text), refl))
        | inr free ↦
            rw given (rw free (inr ((λ (_, i). has_key-absent throttled _ free i), refl), refl))
      ]
    ]
  where
    blank_eq : (x : Str) → is_blank x ≡ true → x ≡ []
    blank_eq [] h = refl
    blank_eq (c ∷ x) h = cc

    given_ne : (x : Str) → is_blank x ≡ false → x ≢ []
    given_ne [] h = cc
    given_ne (c ∷ x) h = λ e. cc
