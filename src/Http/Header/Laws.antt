-- ===== src/Http/Header/Laws.antt =====
-- Reading a header back after it is written.
use api_proxy.Prelude.{◌≡◌, false, arith, if◌then◌else◌, ◌∷◌, []}
use api_proxy.Text.{Str, str_eq}
use api_proxy.Text.Laws.{str_eq_refl}
use api_proxy.Text.Maps.{lookup-insert}
use api_proxy.Http.Header.{Header, canonical_key, get, set}

pub get-set :
    (h : Header) (k j v : Str)
    → get (set h k v) j ≡ (if str_eq (canonical_key k) (canonical_key j) then v else get h j)
unfolding get set
get-set h k j v =
    rw (lookup-insert (canonical_key k) (canonical_key j) (v ∷ []) h, get) (ground arith)

pub get-set_self : (h : Header) (k v : Str) → get (set h k v) k ≡ v
get-set_self h k v = rw (get-set h k k v) (rw (str_eq_refl (canonical_key k)))

pub get-set_other :
    (h : Header) (k j v : Str)
    → str_eq (canonical_key k) (canonical_key j) ≡ false
    → get (set h k v) j ≡ get h j
get-set_other h k j v e = rw (get-set h k j v) (rw e)
