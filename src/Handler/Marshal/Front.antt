-- ===== src/Handler/Marshal/Front.antt =====
-- What marshalling leaves of a request's head.
use api_proxy.Prelude.{
  ◌≡◌, refl, ◌∙◌, Bool, true, false, not, ◌&&◌, ◌||◌, Option, List, Bool-cases, inl, inr,
}
use api_proxy.Text.{Str, bytes, str_eq, is_blank}
use api_proxy.Http.Header
use api_proxy.Http.Media.{parse_media_type}
use api_proxy.Http.Request.{Request, content_type, form_mime}
use api_proxy.Http.Request.Laws.{parse_form-keeps}
use api_proxy.Errors.{ApiError}
use api_proxy.Handler.Marshal.{
  Ranges, fix_mime, has_body, read_body, parse_if_body, marshalled, http_request_to_proto,
}

-- The same path and method.
abbrev pub SameLine : Request → Request → Type 0
SameLine r s = (r.path ≡ s.path) × (r.method ≡ s.method)

fix_mime-SameLine : (r : Request) → SameLine (fix_mime r).1 r
unfolding fix_mime
fix_mime-SameLine r =
    let (ct, well) = parse_media_type (Header.get r.header content_type) in
    elim (Bool-cases (str_eq r.method (bytes "POST") || str_eq r.method (bytes "PUT"))) [
      | inl posted ↦ elim (Bool-cases (is_blank ct || not well)) [
        | inl fixed ↦ rw posted (rw fixed (refl, refl))
        | inr kept ↦ rw posted (rw kept (refl, refl))
      ]
      | inr other ↦ rw other (refl, refl)
    ]

read_body-SameLine : (ct : Str) (r : Request) → SameLine (read_body (ct, r)).0 r
unfolding read_body
read_body-SameLine ct r = elim (Bool-cases (has_body r.body && not (str_eq ct form_mime))) [
  | inl read ↦ rw read (refl, refl)
  | inr kept ↦ rw kept (refl, refl)
]

parse_if_body-SameLine : (r : Request) → SameLine (parse_if_body r).0 r
unfolding parse_if_body
parse_if_body-SameLine r = elim (Bool-cases (has_body r.body)) [
  | inl read ↦ rw read (let (_, _, p, m) = parse_form-keeps r in (p, m))
  | inr kept ↦ rw kept (refl, refl)
]

module _ (ranges : Ranges) (bad_request : Str → Str → List Str → ApiError)
    (problem : Request → Str) where
  marshalled-request :
      (body : Option Str) (x : Request × Bool)
      → (marshalled ranges bad_request problem body x).0 ≡ x.0
  unfolding marshalled
  marshalled-request body (r, true) = refl
  marshalled-request body (r, false) = refl

  -- The path and the method of a request stay when it is marshalled.
  pub http_request_to_proto-SameLine :
      (r : Request) → SameLine (http_request_to_proto ranges bad_request problem r).0 r
  unfolding http_request_to_proto
  http_request_to_proto-SameLine r =
      let (ct, fixed) = fix_mime r in
      let (p1, m1) = fix_mime-SameLine r in
      let (r2, body) = read_body (ct, fixed) in
      let (p2, m2) = read_body-SameLine ct fixed in
      let (p3, m3) = parse_if_body-SameLine r2 in
      rw (marshalled-request body (parse_if_body r2)) (p3 ∙ (p2 ∙ p1), m3 ∙ (m2 ∙ m1))
