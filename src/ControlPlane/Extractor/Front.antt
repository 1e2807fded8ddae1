-- ===== src/ControlPlane/Extractor/Front.antt =====
-- What the reading of a request leaves as it is: the host and the routing header.
use api_proxy.Prelude.{◌≡◌, refl, ap, sym, ◌∙◌, Bool, true, false, arith, Option-cases, inl, inr}
use api_proxy.Text.{Str, bytes, str_eq}
use api_proxy.Text.Maps.{Map}
use api_proxy.Http.Header
use api_proxy.Http.Request.{
  Request, Body, no_body, content, broken, parse_form, content_type, form_mime,
}
use api_proxy.Session.{Order}
use api_proxy.ControlPlane.Extractor.{
  Extractor, add_mime, do_extraction, drain, extract_form, ensure, host, header,
}
use api_proxy.Http.Header.{canonical_key}
use api_proxy.Http.Run.{run_http}
use api_proxy.Http.Header.Laws.{get-set_other}
use api_proxy.Http.Request.Laws.{parse_form-keeps}
use api_proxy.ControlPlane.Extractor.View.{view_of, observe}

-- Two requests that answer alike about the host and about every header but the content type.
abbrev SameFront : Request → Request → Type 0
SameFront r s =
    (r.host ≡ s.host)
    × (Header.get r.header (bytes "X-Hailo-Route") ≡ Header.get s.header (bytes "X-Hailo-Route"))

route_key_other :
    str_eq (canonical_key content_type) (canonical_key (bytes "X-Hailo-Route")) ≡ false
unfolding run_http
route_key_other = refl

add_mime-SameFront : (r : Request) → SameFront (add_mime r) r
unfolding add_mime
add_mime-SameFront r =
    ground
      (arith, get-set_other r.header content_type (bytes "X-Hailo-Route") form_mime route_key_other)

module _ (order : Order) where
  extract_form-SameFront :
      (p : Request × Bool) (saved : Body) (m : Map Str)
      → SameFront (extract_form order p saved m).req p.0
  unfolding extract_form
  extract_form-SameFront (r, true) saved m = (refl, refl)
  extract_form-SameFront (r, false) saved m = (refl, refl)

  read_form-SameFront :
      (r : Request) (saved : Body) (m : Map Str)
      → SameFront (extract_form order (parse_form (add_mime r)) saved m).req r
  read_form-SameFront r saved m =
      let (h, d) = extract_form-SameFront (parse_form (add_mime r)) saved m in
      let (h', d', _, _) = parse_form-keeps (add_mime r) in
      let (h'', d'') = add_mime-SameFront r in
      (h ∙ (h' ∙ h''), d ∙ (ap (λ h. Header.get h (bytes "X-Hailo-Route")) d' ∙ d''))

  drain-SameFront : (r : Request) (b : Body) (m : Map Str) → SameFront (drain order r b m).req r
  unfolding drain
  drain-SameFront r no_body m = read_form-SameFront r no_body m
  drain-SameFront r (content s) m = read_form-SameFront r (content s) m
  drain-SameFront r broken m = (refl, refl)

  ensure-SameFront : (e : Extractor) → SameFront (ensure order e).req e.req
  unfolding ensure do_extraction
  ensure-SameFront e = elim (Option-cases e.extracted_values) [
    | inl unread ↦ rw (unread, ensure) (drain-SameFront e.req e.req.body _)
    | inr (m, read) ↦ rw (read, ensure) (refl, refl)
  ]

  -- The host and the routing header are those of the view, before and after the request is read.
  pub front-observe :
      (e : Extractor)
      → (host e ≡ (observe order e).host)
        × (header e (bytes "X-Hailo-Route") ≡ (observe order e).route)
  unfolding host header observe view_of
  front-observe e = let (h, d) = ensure-SameFront e in (sym h, sym d)
