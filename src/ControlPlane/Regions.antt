-- ===== src/ControlPlane/Regions.antt =====
-- Regions and the maps from city codes (controlplane/regions.go).
use api_proxy.Prelude.{Bool, true, false, not, Option, none, some, [], ◌∷◌}
use api_proxy.Text.{Str, bytes, str_eq}
use api_proxy.Text.Maps.{Map, lookup}
use api_proxy.ControlPlane.Types.{Region, Regions, HobRegions, HobModes, Urls}

abbrev pub default_key : Str
default_key = bytes "default"

-- `Regions.Validate`: whether there is no error.
unfoldable pub validate : Regions → Bool
validate [] = false
validate (_ ∷ _) = true

-- `m[k]`, else `m["default"]`, else the zero value.
find_or_default {ℓ} : {V : Type ℓ} → Map V → Str → V → V
find_or_default m k zero_value = elim (lookup k m) [
  | some v ↦ v
  | none ↦ elim (lookup default_key m) [ some v ↦ v | none ↦ zero_value ]
]

-- `HobRegions.Find`.
unfoldable pub find_region : HobRegions → Str → Str
unfolding find_or_default
find_region hr hob = find_or_default hr hob []

-- `HobModes.Find`.
unfoldable pub find_mode : HobModes → Str → Str
unfolding find_or_default
find_mode hm hob = find_or_default hm hob []

-- `Region.IsOnline`; a nil region is not online.
unfoldable pub is_online : Option Region → Bool
is_online none = false
is_online (some r) = not (str_eq r.status (bytes "OFFLINE"))

-- `Region.Urls`; `none` is a nil map.
unfoldable pub urls : Region → Str → Option Urls
unfolding find_or_default
urls r app = find_or_default r.apps app none
