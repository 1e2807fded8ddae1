-- ===== src/Handler/Pinning/Untouched.antt =====
-- What the pinning of a client leaves of a response: the content type, and that nothing is sent.
use api_proxy.Prelude.{
  ◌≡◌, refl, ◌∙◌, false, not, ◌&&◌, Bool-cases, inl, inr, ◌⊎◌, Option, [], ◌∷◌, All-always,
}
use api_proxy.Prelude.Int.{ℤ}
use api_proxy.Text.{Str, bytes, str_eq, is_blank}
use api_proxy.Text.Maps.{Map}
use api_proxy.Http.Header
use api_proxy.Http.Header.{canonical_key}
use api_proxy.Http.Header.Laws.{get-set_other}
use api_proxy.Http.Header.Canonical.{canonical_key-first}
use api_proxy.Http.Request.{content_type}
use api_proxy.Http.Run.{run_http}
use api_proxy.Http.Writer.{Writer, set_header}
use api_proxy.Session.{Order}
use api_proxy.ControlPlane.Types.{Urls}
use api_proxy.ControlPlane.Extractor.{Extractor, set_hob}
use api_proxy.ControlPlane.Router.{Config, HostCheck, no_hob, no_region, pinned, correct_hostname}
use api_proxy.Handler.Pinning.{
  timestamp_header, endpoint_header, pin_urls, some_urls, pin_request_to_hostname, pin_checked,
  region_pinning,
}
use api_proxy.Handler.Pinning.Headers.{Apart, pin_urls-other}

-- No key that begins with X is that of the content type.
x_apart : (s : Str) → str_eq (canonical_key (b'X' ∷ s)) (canonical_key content_type) ≡ false
unfolding run_http
x_apart s = from_first (canonical_key-first b'X' s)
  where
    from_first :
        (t : Str) × ((canonical_key (b'X' ∷ s) ≡ b'X' ∷ t) ⊎ (canonical_key (b'X' ∷ s) ≡ b'X' ∷ t))
        → str_eq (canonical_key (b'X' ∷ s)) (canonical_key content_type) ≡ false
    from_first (t, inl e) = rw e refl
    from_first (t, inr e) = rw e refl

urls-Apart : (us : Map Str) → Apart content_type us
unfolding bytes
urls-Apart us = All-always (λ e. x_apart _) us

-- Nothing is sent, the body is the same and so is the content type.
pub record Leaves (w w' : Writer) : Type 0 where
  pub sent : w'.sent ≡ w.sent
  pub body : w'.body ≡ w.body
  pub mime : Header.get w'.header content_type ≡ Header.get w.header content_type

Leaves-refl : (w : Writer) → Leaves w w
Leaves-refl w = record { sent = refl; body = refl; mime = refl }

pin_urls-sent : (us : Map Str) (w : Writer) → (pin_urls us w).sent ≡ w.sent
unfolding pin_urls set_header
pin_urls-sent [] w = refl
pin_urls-sent ((k, v) ∷ us) w = pin_urls-sent us (set_header w (endpoint_header k) v)

pin_urls-body : (us : Map Str) (w : Writer) → (pin_urls us w).body ≡ w.body
unfolding pin_urls set_header
pin_urls-body [] w = refl
pin_urls-body ((k, v) ∷ us) w = pin_urls-body us (set_header w (endpoint_header k) v)

timestamp_apart : str_eq (canonical_key timestamp_header) (canonical_key content_type) ≡ false
unfolding run_http
timestamp_apart = refl

pin_request_to_hostname-Leaves :
    (version : ℤ) (urls : Option Urls) (w : Writer)
    → Leaves w (pin_request_to_hostname version urls w)
unfolding pin_request_to_hostname set_header
pin_request_to_hostname-Leaves version urls w = record {
  sent = pin_urls-sent (some_urls urls) _;
  body = pin_urls-body (some_urls urls) _;
  mime =
      pin_urls-other (some_urls urls) _ content_type (urls-Apart (some_urls urls))
      ∙ get-set_other w.header timestamp_header content_type _ timestamp_apart;
}

pin_checked-Leaves : (check : HostCheck) (w : Writer) → Leaves w (pin_checked check w)
unfolding pin_checked
pin_checked-Leaves no_hob w = Leaves-refl w
pin_checked-Leaves (no_region version) w = Leaves-refl w
pin_checked-Leaves (pinned is_correct urls version) w =
    pin_request_to_hostname-Leaves version urls w

pub region_pinning-Leaves :
    (order : Order) (c : Config) (w : Writer) (e : Extractor)
    → Leaves w (region_pinning order c w e).1
unfolding region_pinning
region_pinning-Leaves order c w e =
    let code = Header.get w.header (bytes "X-H-Hob") in
    let (e', check) = correct_hostname order c w (set_hob order e code) in
    elim (Bool-cases
      (is_blank code && not (is_blank (Header.get w.header (bytes "X-H-Endpoint-Timestamp"))))) [
        | inl stamped ↦ rw stamped (Leaves-refl w)
        | inr fresh ↦
            elim (Bool-cases (
              not (is_blank code)
              && str_eq (Header.get w.header (bytes "X-H-Pinning")) (bytes "1"))) [
                | inl asked ↦ rw fresh (rw asked (pin_checked-Leaves check w))
                | inr unasked ↦ rw fresh (rw unasked (Leaves-refl w))
              ]
      ]
