-- ===== src/ControlPlane/Router/Fallback.antt =====
-- The region that serves a city without a region of its own.
use api_proxy.Prelude.{
  ◌≡◌, ◌≢◌, refl, ap, sym, subst, false, none, List, [], ◌∷◌, All, if◌then◌else◌, Bool-cases, inl,
  inr, ◌⊎◌,
}
use api_proxy.Text.{Str, str_lt}
use api_proxy.Text.Order.{str_lt_weak_trans, str_lt_irrefl, str_lt_asym}
use api_proxy.ControlPlane.Types.{Regions}
use api_proxy.ControlPlane.Regions.{find_region}
use api_proxy.ControlPlane.Router.{
  Config, region_at, keys, least_key, fallback, or_fallback, serve_from, region_for,
}

-- The ID is one of the list.
abbrev pub IsIn : Str → List Str → Type 0
IsIn k [] = ⊥
IsIn k (j ∷ js) = (j ≡ k) ⊎ IsIn k js

-- No ID of the list is smaller.
abbrev pub IsLeast : Str → List Str → Type 0
IsLeast k js = All (λ j. str_lt j k ≡ false) js

-- The IDs of the regions.
abbrev pub ids : Regions → List Str
ids [] = []
ids ((k, _) ∷ rs) = k ∷ ids rs

ids-keys : (rs : Regions) → keys rs ≡ ids rs
unfolding keys
ids-keys [] = refl
ids-keys ((k, r) ∷ rs) = ap (λ js. k ∷ js) (ids-keys rs)

-- The least of an ID and a list is one of them, and neither the ID nor the list has a smaller one.
least_key-IsLeast :
    (k : Str) (js : List Str) → IsIn (least_key k js) (k ∷ js) × IsLeast (least_key k js) (k ∷ js)
unfolding least_key
least_key-IsLeast k [] = (inl refl, (str_lt_irrefl k, tt))
least_key-IsLeast k (j ∷ js) = elim (Bool-cases (str_lt j k)) [
  | inl smaller ↦
      let (i, (under, least)) = least_key-IsLeast j js in
      subst (λ m. IsIn m (k ∷ j ∷ js) × IsLeast m (k ∷ j ∷ js))
        (sym (ap (λ b. least_key (if b then j else k) js) smaller))
        (
          inr i,
          (str_lt_weak_trans (least_key j js) j k under (str_lt_asym j k smaller), (under, least)),
        )
  | inr larger ↦
      let (i, (under, least)) = least_key-IsLeast k js in
      subst (λ m. IsIn m (k ∷ j ∷ js) × IsLeast m (k ∷ j ∷ js))
        (sym (ap (λ b. least_key (if b then j else k) js) larger))
        (skip i, (under, (str_lt_weak_trans (least_key k js) k j under larger, least)))
]
  where
    skip : {m : Str} → IsIn m (k ∷ js) → IsIn m (k ∷ j ∷ js)
    skip (inl same) = inl same
    skip (inr i) = inr (inr i)

-- A city code without a region of its own is served from the region with the least ID, in whatever
-- order the map gives the regions, if there are any.
pub region_for-IsLeast :
    (c : Config) (code : Str)
    → region_at c.regions (find_region c.hob_regions code) ≡ none
    → c.regions ≢ []
    → (k : Str) × IsIn k (ids c.regions)
      × IsLeast k (ids c.regions)
      × (region_for c code ≡ serve_from c.regions (region_at c.regions k))
unfolding region_for or_fallback
region_for-IsLeast c code missing given =
    let (k, i, least, is) = least c.regions given in
    (k, i, least, rw (missing, or_fallback) (ap (serve_from c.regions) is))
  where
    least :
        (rs : Regions)
        → rs ≢ []
        → (k : Str) × IsIn k (ids rs) × IsLeast k (ids rs) × (fallback rs ≡ region_at rs k)
    least [] given = absurd (given refl)
    least ((k, r) ∷ rs) given =
        let (i, smallest) = least_key-IsLeast k (ids rs) in
        (
          least_key k (ids rs),
          i,
          smallest,
          unfold fallback in ap (λ js. region_at ((k, r) ∷ rs) (least_key k js)) (ids-keys rs),
        )
