-- ===== src/Handler/Pinning.antt =====
-- The headers that tell a client the host names of its region (handler/handler.go).
pub mod Headers
pub mod Untouched
use api_proxy.Prelude.{
  Bool, true, false, not, ◌&&◌, Option, none, some, List, [], ◌∷◌, ◌++◌, if◌then◌else◌,
}
use api_proxy.Prelude.Int.{ℤ}
use api_proxy.Text.{Str, bytes, str_eq, is_blank, to_upper, replace}
use api_proxy.Text.Decimal.{decimal_int}
use api_proxy.Text.Maps.{Map}
use api_proxy.Http.Header
use api_proxy.Http.Writer.{Writer, set_header}
use api_proxy.Session.{Order}
use api_proxy.ControlPlane.Types.{Urls}
use api_proxy.ControlPlane.Extractor.{Extractor, set_hob}
use api_proxy.ControlPlane.Router.{Config, HostCheck, no_hob, no_region, pinned, correct_hostname}

abbrev pub timestamp_header : Str
timestamp_header = bytes "X-H-ENDPOINT-TIMESTAMP"

-- The header for one of a region's URLs.
abbrev pub endpoint_header : Str → Str
endpoint_header k = bytes "X-H-ENDPOINT-" ++ to_upper (replace b'_' b'-' k)

-- The loop over the URLs.
unfoldable pub pin_urls : Map Str → Writer → Writer
pin_urls [] w = w
pin_urls ((k, v) ∷ urls) w = pin_urls urls (set_header w (endpoint_header k) v)

abbrev pub some_urls : Option Urls → Urls
some_urls none = []
some_urls (some us) = us

unfoldable pub pin_request_to_hostname : ℤ → Option Urls → Writer → Writer
pin_request_to_hostname version urls w =
    pin_urls (some_urls urls) (set_header w timestamp_header (decimal_int version))

-- The client is pinned if the check went through and its host name is not the right one.
unfoldable pub pin_if_wrong : HostCheck → Writer → Writer
pin_if_wrong no_hob w = w
pin_if_wrong (no_region version) w = w
pin_if_wrong (pinned is_correct urls version) w =
    if not is_correct then pin_request_to_hostname version urls w else w

-- The client is pinned in any case if the check went through.
pin_checked : HostCheck → Writer → Writer
pin_checked no_hob w = w
pin_checked (no_region version) w = w
pin_checked (pinned is_correct urls version) w = pin_request_to_hostname version urls w

module _ (order : Order) where
  unfoldable pub maybe_pin_request_to_hostname : Config → Writer → Extractor → Extractor × Writer
  maybe_pin_request_to_hostname c w e =
      let (e', check) = correct_hostname order c w e in (e', pin_if_wrong check w)

  -- `regionPinning`, after a response of H2 whose headers are in the writer.
  unfoldable pub region_pinning : Config → Writer → Extractor → Extractor × Writer
  unfolding pin_checked
  region_pinning c w e =
      let code = Header.get w.header (bytes "X-H-Hob") in
      let (e', check) = correct_hostname order c w (set_hob order e code) in
      if is_blank code && not (is_blank (Header.get w.header (bytes "X-H-Endpoint-Timestamp")))
      then (e, w)
      else if not (is_blank code) && str_eq (Header.get w.header (bytes "X-H-Pinning")) (bytes "1")
      then (e', pin_checked check w)
      else (e, w)
