-- ===== src/Handler/Marshal/HobCode.antt =====
-- The city code that the parameters give, and what it owes to the order in which they are met.
use api_proxy.Prelude.{
  ◌≡◌, refl, sym, ap, subst, false, ◌&&◌, not, Option, none, some, List, [], ◌∷◌, length, ◌==◌, ◌⊎◌,
  inl, inr, Bool-cases, if◌then◌else◌,
}
use api_proxy.Text.{Str, bytes, str_eq}
use api_proxy.Text.Laws.{str_eq_iff, str_eq_refl}
use api_proxy.Text.Maps.{lookup, Distinct}
use api_proxy.Http.Query.{Values, first}
use api_proxy.Handler.Marshal.{Scan, hob, city, is_credential, city_code, scan_step, scan_values}

-- The first value of a parameter, if it is there.
abbrev pub given_value : Option (List Str) → Option Str
given_value none = none
given_value (some vs) = some (first vs)

abbrev pub parameter : Str → Values → Option Str
parameter k q = given_value (lookup k q)

-- A city gives the code if it has three bytes and `code` has not.
abbrev pub from_city : Option Str → Str → Str
from_city none code = code
from_city (some v) code = if length v == 3 && not (length code == 3) then v else code

-- The code that a hob and a city give, behind `code` of the parameters before them: the city is
-- looked at first.
abbrev pub city_first : Option Str → Option Str → Str → Str
city_first (some h) c code = h
city_first none c code = from_city c code

-- The same, with the hob looked at first.
abbrev pub hob_first : Option Str → Option Str → Str → Str
hob_first (some h) c code = from_city c h
hob_first none c code = from_city c code

hob_open : is_credential hob ≡ false
unfolding bytes str_eq
hob_open = refl

city_open : is_credential city ≡ false
unfolding bytes str_eq
city_open = refl

hob_not_city : str_eq hob city ≡ false
unfolding bytes str_eq
hob_not_city = refl

city_not_hob : str_eq city hob ≡ false
unfolding bytes str_eq
city_not_hob = refl

pub scan_step-hob : (v : Str) (s : Scan) → (scan_step hob v s).hob_code ≡ v
unfolding scan_step
scan_step-hob v s = rw hob_open (rw (str_eq_refl hob) refl)

pub scan_step-city :
    (v : Str) (s : Scan) → (scan_step city v s).hob_code ≡ from_city (some v) s.hob_code
unfolding scan_step city_code
scan_step-city v s = rw city_open (rw city_not_hob (rw (str_eq_refl city) refl))

scan_step-other :
    (k v : Str) (s : Scan)
    → str_eq k hob ≡ false
    → str_eq k city ≡ false
    → (scan_step k v s).hob_code ≡ s.hob_code
unfolding scan_step city_code
scan_step-other k v s no_hob no_city = elim (Bool-cases (is_credential k)) [
  | inl secret ↦ rw secret refl
  | inr open' ↦ rw open' (rw no_hob (rw no_city refl))
]

-- The code of one of the two orders.
abbrev pub Explained : Option Str → Option Str → Str → Str → Type 0
Explained h c from code = (code ≡ city_first h c from) ⊎ (code ≡ hob_first h c from)

Explained-after_hob :
    (c : Option Str) (v from code : Str) → Explained none c v code → Explained (some v) c from code
Explained-after_hob c v from code (inl e) = inr e
Explained-after_hob c v from code (inr e) = inr e

Explained-after_city :
    (h : Option Str) (v from code : Str)
    → Explained h none (from_city (some v) from) code
    → Explained h (some v) from code
Explained-after_city none v from code (inl e) = inl e
Explained-after_city none v from code (inr e) = inl e
Explained-after_city (some h) v from code (inl e) = inl e
Explained-after_city (some h) v from code (inr e) = inl e

module _ (vs : List Str) (q : Values) where
  parameter-here : (k : Str) → parameter k ((k, vs) ∷ q) ≡ some (first vs)
  unfolding lookup
  parameter-here k = rw (str_eq_refl k) refl

  parameter-later : (k j : Str) → str_eq k j ≡ false → parameter j ((k, vs) ∷ q) ≡ parameter j q
  unfolding lookup
  parameter-later k j other = rw other refl

parameter-missing : (k : Str) (q : Values) → lookup k q ≡ none → parameter k q ≡ none
parameter-missing k q missing = ap given_value missing

-- The code after one more parameter in front.
abbrev Step : Str → List Str → Values → Str → Str → Type 0
Step k vs q from code =
    Explained (parameter hob ((k, vs) ∷ q)) (parameter city ((k, vs) ∷ q)) from code

module _ (vs : List Str) (q : Values) (s : Scan) (code : Str) where
  -- What the code owes to the rest passes over to all parameters, for a key that is not in the rest.
  abbrev Passes : Str → Type 0
  Passes k =
      lookup k q ≡ none
      → Explained (parameter hob q) (parameter city q) (scan_step k (first vs) s).hob_code code
      → Step k vs q s.hob_code code

  Passes-hob : Passes hob
  Passes-hob fresh h =
      let h' = rw (parameter-missing hob q fresh, scan_step-hob (first vs) s) at h in
      rw (parameter-here vs q hob) (
        rw (parameter-later vs q hob city hob_not_city)
          (Explained-after_hob (parameter city q) (first vs) s.hob_code code h'))

  Passes-city : Passes city
  Passes-city fresh h =
      let h' = rw (parameter-missing city q fresh, scan_step-city (first vs) s) at h in
      rw (parameter-here vs q city) (
        rw (parameter-later vs q city hob city_not_hob)
          (Explained-after_city (parameter hob q) (first vs) s.hob_code code h'))

  passes : (k : Str) → Passes k
  passes k = elim (Bool-cases (str_eq k hob)) [
    | inl is_hob ↦ subst Passes (sym ((str_eq_iff k hob).0 is_hob)) Passes-hob
    | inr no_hob ↦ elim (Bool-cases (str_eq k city)) [
      | inl is_city ↦ subst Passes (sym ((str_eq_iff k city).0 is_city)) Passes-city
      | inr no_city ↦ λ fresh h. rw (parameter-later vs q k hob no_hob) (
          rw (parameter-later vs q k city no_city)
            (rw (scan_step-other k (first vs) s no_hob no_city) at h))
    ]
  ]

-- If no parameter stands twice, the city code of the parameters is what one of two orders gives, the
-- one with the city first or the one with the hob first.
pub scan_values-Explained :
    (q : Values) (s : Scan)
    → Distinct q
    → Explained (parameter hob q) (parameter city q) s.hob_code (scan_values q s).hob_code
unfolding scan_values lookup
scan_values-Explained [] s d = inl refl
scan_values-Explained ((k, vs) ∷ q) s (fresh, d) =
    passes vs q s _ k fresh (scan_values-Explained q (scan_step k (first vs) s) d)
