-- ===== src/HostMapping/Ports.antt =====
-- The port of a host name plays no part.
use api_proxy.Prelude.{ℕ, ◌≡◌, refl, ap, ◌==◌, false, none, some, [], ◌∷◌, ◌++◌, All, length}
use api_proxy.Text.{Str, last_index}
use api_proxy.Text.Maps.{Map}
use api_proxy.HostMapping.{take, before_port, map_host}

abbrev pub HasNoColon : Str → Type 0
HasNoColon s = All (λ c. (c == b':') ≡ false) s

last_index-none : (s : Str) → HasNoColon s → last_index s b':' ≡ none
unfolding last_index
last_index-none [] h = refl
last_index-none (c ∷ s) (other, h) = rw (last_index-none s h, last_index) (rw other refl)

last_index-append :
    (host port : Str) → HasNoColon port → last_index (host ++ b':' ∷ port) b':' ≡ some (length host)
unfolding last_index
last_index-append [] port h = rw (last_index-none port h, last_index) refl
last_index-append (c ∷ host) port h = rw (last_index-append host port h, last_index) refl

take-append : (s t : Str) → take (length s) (s ++ t) ≡ s
unfolding take
take-append [] [] = refl
take-append [] (c ∷ t) = refl
take-append (c ∷ s) t = ap (λ u. c ∷ u) (take-append s t)

-- A host name without a colon is mapped in the same way with a port behind it and without one.
pub map_host-port :
    (mappings : Map Str) (c : ℕ) (host port : Str)
    → HasNoColon (c ∷ host)
    → HasNoColon port
    → map_host mappings ((c ∷ host) ++ b':' ∷ port) ≡ map_host mappings (c ∷ host)
unfolding map_host before_port
map_host-port mappings c host port plain digits =
    rw (last_index-append (c ∷ host) port digits, before_port)
      (rw (last_index-none (c ∷ host) plain, before_port)
        (rw (take-append (c ∷ host) (b':' ∷ port)) refl))
