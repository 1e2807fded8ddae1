-- ===== src/Handler/Marshal/HobOrder.antt =====
-- Where the city code of a message depends on the order in which its parameters are met.
use api_proxy.Prelude.{◌≡◌, ◌≢◌, ◌∙◌, some, [], ◌∷◌, length, arith}
use api_proxy.Text.{Str}
use api_proxy.Text.Maps.{lookup, Distinct}
use api_proxy.Http.Query.{Values}
use api_proxy.Http.Request.{Request}
use api_proxy.Handler.Marshal.{hob_pairs, Scan, hob, city, scan_step, scan_values}
use api_proxy.Handler.Marshal.HobCode.{parameter, scan_step-hob, scan_step-city}

-- Neither order tears the code: there is no hob, or it has three bytes, or no city of three bytes is there.
abbrev pub IsWhole : Values → Type 0
IsWhole q =
    (h : Str) (c : Str)
    → parameter hob q ≡ some h
    → parameter city q ≡ some c
    → length c ≡ 3
    → length h ≡ 3

-- The values as one order of the map meets them.
pub record IsOrderOf (p q : Values) : Type 0 where
  pub distinct : Distinct p
  pub same : (k : Str) → lookup k p ≡ lookup k q

-- The city code of some parameters alone.
abbrev pub code_of : Values → Str
code_of q = (scan_values q (record { hob_code = []; pairs = [] })).hob_code

-- If a hob has not three bytes and a city has, then the message carries the city as its city code
-- where the hob is met first, and no city code where the city is.
pub hob_code_torn :
    (h c : Str)
    → length h ≢ 3
    → length c ≡ 3
    → (hob_pairs (code_of ((hob, h ∷ []) ∷ (city, c ∷ []) ∷ []))
        ≡ record { key = hob; value = c } ∷ [])
      × (hob_pairs (code_of ((city, c ∷ []) ∷ (hob, h ∷ []) ∷ [])) ≡ [])
unfolding scan_values
hob_code_torn h c wrong three =
    let empty : Scan = record { hob_code = []; pairs = [] } in
    let hob_then_city : code_of ((hob, h ∷ []) ∷ (city, c ∷ []) ∷ []) ≡ c =
      scan_step-city c (scan_step hob h empty) ∙ ground (arith, scan_step-hob h empty) in
    let city_then_hob : code_of ((city, c ∷ []) ∷ (hob, h ∷ []) ∷ []) ≡ h =
      scan_step-hob h (scan_step city c empty) in
    (rw hob_then_city (ground arith), rw city_then_hob (ground arith))
