-- ===== src/Handler/Pinning/Headers.antt =====
-- What a client reads of the headers that pin it.
use api_proxy.Prelude.{◌≡◌, refl, ◌∙◌, false, Option, [], ◌∷◌, All}
use api_proxy.Prelude.Int.{ℤ}
use api_proxy.Text.{Str, str_eq}
use api_proxy.Text.Decimal.{decimal_int}
use api_proxy.Text.Maps.{Map}
use api_proxy.Http.Header
use api_proxy.Http.Header.{canonical_key}
use api_proxy.Http.Header.Laws.{get-set_self, get-set_other}
use api_proxy.Http.Writer.{Writer, set_header}
use api_proxy.ControlPlane.Types.{Urls}
use api_proxy.Handler.Pinning.{
  timestamp_header, endpoint_header, pin_urls, some_urls, pin_request_to_hostname,
}

-- No URL of the map has the header `name`.
abbrev pub Apart : Str → Map Str → Type 0
Apart name us =
    All
      (λ (e : Str × Str). str_eq (canonical_key (endpoint_header e.0)) (canonical_key name) ≡ false)
      us

-- No two URLs of the map have the same header.
abbrev pub AllApart : Map Str → Type 0
AllApart [] = Unit
AllApart ((k, _) ∷ us) = Apart (endpoint_header k) us × AllApart us

pub pin_urls-other :
    (us : Map Str) (w : Writer) (name : Str)
    → Apart name us
    → Header.get (pin_urls us w).header name ≡ Header.get w.header name
unfolding pin_urls set_header
pin_urls-other [] w name h = refl
pin_urls-other ((k, v) ∷ us) w name (other, h) =
    pin_urls-other us (set_header w (endpoint_header k) v) name h
    ∙ get-set_other w.header (endpoint_header k) name v other

pin_urls-All :
    (us : Map Str) (w : Writer)
    → AllApart us
    → All (λ (e : Str × Str). Header.get (pin_urls us w).header (endpoint_header e.0) ≡ e.1) us
unfolding pin_urls set_header
pin_urls-All [] w h = tt
pin_urls-All ((k, v) ∷ us) w (apart, h) = (
  pin_urls-other us (set_header w (endpoint_header k) v) (endpoint_header k) apart
      ∙ get-set_self w.header (endpoint_header k) v,
  pin_urls-All us (set_header w (endpoint_header k) v) h,
)

-- If the URLs of the region have different headers, and none has that of the timestamp, then in
-- whatever order the map gives them the response carries the version and every URL under its header.
pub pin_request_to_hostname-All :
    (version : ℤ) (urls : Option Urls) (w : Writer)
    → Apart timestamp_header (some_urls urls)
    → AllApart (some_urls urls)
    → let h = (pin_request_to_hostname version urls w).header in
      (Header.get h timestamp_header ≡ decimal_int version)
      × All (λ (e : Str × Str). Header.get h (endpoint_header e.0) ≡ e.1) (some_urls urls)
unfolding pin_request_to_hostname set_header
pin_request_to_hostname-All version urls w apart all_apart =
    let stamped = set_header w timestamp_header (decimal_int version) in
    (
      pin_urls-other (some_urls urls) stamped timestamp_header apart
          ∙ get-set_self w.header timestamp_header (decimal_int version),
      pin_urls-All (some_urls urls) stamped all_apart,
    )
