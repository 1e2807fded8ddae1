-- ===== src/Handler/Marshal/Passes.antt =====
-- What a marshalled request carries of the parameters and the headers.
use api_proxy.Prelude.{
  ◌≡◌, refl, Bool, true, false, Option, List, [], ◌∷◌, ◌++◌, length, ◌==◌, inl, inr, Bool-cases,
  All, All-append, All-map, arith, ==_iff,
}
use mathlib.Core.List.{Memᴰ}
use api_proxy.Text.{Str, bytes, str_eq}
use api_proxy.Http.Header.{Header}
use api_proxy.Http.Query.{Values, first}
use api_proxy.Http.Request.{Request, query, post_values}
use api_proxy.Session.{session_id_key, api_token_key}
use api_proxy.Errors.{ApiError}
use api_proxy.Handler.Rpc.{Result, ok, failed}
use api_proxy.Handler.Marshal.Kept.{
  Kept, scan_values-Kept, Kept-append, AllPassed, pass_headers-AllPassed,
}
use api_proxy.Handler.Marshal.{
  Pair, Scan, ApiRequest, Ranges, hob, is_credential, scan_step, scan_values, hob_pairs, is_passed,
  header_text, pass_headers, scan_get, scan_post, message, marshalled, http_request_to_proto,
}

-- A pair that is neither a credential nor a city code.
abbrev IsPlain : Pair → Type 0
IsPlain p = (is_credential p.key ≡ false) × (str_eq p.key hob ≡ false)

scan_step-All : (k v : Str) (s : Scan) → All IsPlain s.pairs → All IsPlain (scan_step k v s).pairs
unfolding scan_step
scan_step-All k v s h = elim (Bool-cases (is_credential k)) [
  | inl secret ↦ rw secret h
  | inr open' ↦ elim (Bool-cases (str_eq k hob)) [
    | inl code ↦ rw open' (rw code h)
    | inr other ↦ rw open' (rw other (All-append IsPlain s.pairs _ h ((open', other), tt)))
  ]
]

scan_values-All :
    (q : Values) (s : Scan) → All IsPlain s.pairs → All IsPlain (scan_values q s).pairs
unfolding scan_values
scan_values-All [] s h = h
scan_values-All ((k, vs) ∷ q) s h =
    scan_values-All q (scan_step k (first vs) s) (scan_step-All k (first vs) s h)

-- A parameter of a message: no credential, and a city code only if it has three bytes.
abbrev pub IsShown : Str → Pair → Type 0
IsShown code p =
    (str_eq p.key session_id_key ≡ false)
    × (str_eq p.key api_token_key ≡ false)
    × (str_eq p.key hob ≡ true → (p.value ≡ code) × (length p.value ≡ 3))

plain-IsShown : (code : Str) (p : Pair) → IsPlain p → IsShown code p
plain-IsShown code p h = ground arith

hob_no_session : str_eq hob session_id_key ≡ false
unfolding bytes str_eq
hob_no_session = refl

hob_no_token : str_eq hob api_token_key ≡ false
unfolding bytes str_eq
hob_no_token = refl

hob_pairs-All : (code : Str) → All (IsShown code) (hob_pairs code)
hob_pairs-All code = elim (Bool-cases (length code == 3)) [
  | inl three ↦
      rw three ((hob_no_session, hob_no_token, λ _. (refl, (==_iff (length code) 3).0 three)), tt)
  | inr other ↦ rw other tt
]

-- The parameters of one kind, with the city code behind them.
scanned-All :
    (q : Values) (from code : Str)
    → All
        (IsShown code)
        ((scan_values q (record { hob_code = from; pairs = [] })).pairs ++ hob_pairs code)
scanned-All q from code =
    All-append (IsShown code) _ _
      (All-map (plain-IsShown code) _
        (scan_values-All q (record { hob_code = from; pairs = [] }) tt))
      (hob_pairs-All code)

-- The text of a header of the request that may be passed on.
abbrev pub Given : Header → Str → Type 0
Given h text =
    (k : Str) × (vs : List Str) × Memᴰ (k, vs) h × (is_passed k ≡ true) × (text ≡ header_text k vs)

given-later : (e : Str × List Str) (h : Header) (text : Str) → Given h text → Given (e ∷ h) text
given-later e h text (k, vs, m, passed, same) = (k, vs, Memᴰ.tail m, passed, same)

pass_headers-Given : (h : Header) → All (Given h) (pass_headers h)
unfolding pass_headers
pass_headers-Given [] = tt
pass_headers-Given ((k, vs) ∷ h) =
    let rest = All-map (given-later (k, vs) h) _ (pass_headers-Given h) in
    elim (Bool-cases (is_passed k)) [
      | inl passed ↦ rw passed ((k, vs, Memᴰ.head refl, passed, refl), rest)
      | inr dropped ↦ rw dropped rest
    ]

-- What a message shows of a request, given its parameters and headers in the orders in which they are met.
pub record Shows (q p : Values) (h : Header) (m : ApiRequest) : Type 0 where
  pub code : Str
  pub get : All (IsShown code) m.get
  pub post : All (IsShown code) m.post
  pub header : All (Given h) m.header
  pub get_kept : Kept q m.get
  pub post_kept : Kept p m.post
  pub header_kept : AllPassed h m.header

module _ (ranges : Ranges) where
  abbrev pub ShowsOf : Request → ApiRequest → Type 0
  ShowsOf r m =
      Shows (ranges.of_query (query r)) (ranges.of_post (post_values r)) (ranges.of_header r.header)
        m

  message-Shows : (r : Request) (body : Option Str) → ShowsOf r (message ranges r body)
  unfolding message scan_get scan_post
  message-Shows r body = record {
    code = (scan_post ranges r).hob_code;
    get = scanned-All _ _ _;
    post = scanned-All _ _ _;
    header = pass_headers-Given (ranges.of_header r.header);
    get_kept = Kept-append _ _ _ (scan_values-Kept _ _);
    post_kept = Kept-append _ _ _ (scan_values-Kept _ _);
    header_kept = pass_headers-AllPassed (ranges.of_header r.header);
  }

  -- The result of marshalling: an error, or a message.
  pub data Outcome (r : Request) : Result ApiRequest → Type 0 where
    is_error : (err : ApiError) → Outcome r (failed err)
    is_message : (m : ApiRequest) → ShowsOf r m → Outcome r (ok m)

  module _ (bad_request : Str → Str → List Str → ApiError) (problem : Request → Str) where
    marshalled-Outcome :
        (body : Option Str) (x : Request × Bool)
        → let (r', result) = marshalled ranges bad_request problem body x in Outcome r' result
    unfolding marshalled
    marshalled-Outcome body (r, true) = is_error _
    marshalled-Outcome body (r, false) = is_message _ (message-Shows r body)

    -- In whatever order the maps are met, the marshalling of a request ends with an error or with a
    -- message of the following kind. Among its parameters there is no session ID and no API token,
    -- every city code there is the same one of three bytes, and all other parameters are there with
    -- their first values. Its headers are those of the request that are Authorization or custom, all
    -- of them and no others.
    pub http_request_to_proto-Outcome :
        (r : Request)
        → let (r', result) = http_request_to_proto ranges bad_request problem r in Outcome r' result
    unfolding http_request_to_proto
    http_request_to_proto-Outcome r = marshalled-Outcome _ _
