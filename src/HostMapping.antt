-- ===== src/HostMapping.antt =====
-- The host name of the old backend for a host name of the proxy (hostmapping/hostmapping.go). The
-- loaded table is an argument.
pub mod Ports
mod Tests
use api_proxy.Prelude.{ℕ, suc, Option, none, some, List, [], ◌∷◌, ◌++◌, if◌then◌else◌}
use api_proxy.Text.{Str, bytes, last_index, is_blank}
use api_proxy.Text.Maps.{Map, lookup_str}

unfoldable pub take : ℕ → Str → Str
take n [] = []
take ℕ.zero (c ∷ s) = []
take (suc n) (c ∷ s) = c ∷ take n s

-- `hostname[0:li]`, if the last colon is there and not at the start.
unfoldable pub before_port : Option ℕ → Str → Str
before_port none s = s
before_port (some ℕ.zero) s = s
before_port (some (suc n)) s = take (suc n) s

-- `Map`.
unfoldable pub map_host : Map Str → Str → Str
unfolding before_port
map_host mappings hostname =
    let host = before_port (last_index hostname b':') hostname in
    let s = lookup_str host mappings in if is_blank s then bytes "v1-" ++ host else s
