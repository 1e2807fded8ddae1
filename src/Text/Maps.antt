-- ===== src/Text/Maps.antt =====
-- Go maps with string keys, as association lists. The order of the list is the order in which one
-- `range` over the map happens to go.
use api_proxy.Prelude.{
  ◌≡◌, refl, ◌∙◌, Option, none, some, List, [], ◌∷◌, arith, if◌then◌else◌, All, false, Bool-cases,
  subst, inl, inr,
}
use api_proxy.Text.{Str, str_eq}
use api_proxy.Text.Laws.{str_eq_iff, str_eq_refl, str_eq_sym_false}

abbrev pub Map {ℓ} : Type ℓ → Type ℓ
Map V = List (Str × V)

module _ {ℓ} {V : Type ℓ} where
  unfoldable pub lookup : Str → Map V → Option V
  lookup k [] = none
  lookup k ((j, v) ∷ m) = if str_eq j k then some v else lookup k m

  unfoldable pub insert : Str → V → Map V → Map V
  insert k v [] = (k, v) ∷ []
  insert k v ((j, w) ∷ m) = if str_eq j k then (k, v) ∷ m else (j, w) ∷ insert k v m

  pub lookup-insert :
      (k j : Str) (v : V) (m : Map V)
      → lookup j (insert k v m) ≡ (if str_eq k j then some v else lookup j m)
  unfolding lookup insert
  lookup-insert k j v [] = refl
  lookup-insert k j v ((i, w) ∷ m) =
      ground (arith, str_eq_iff k j, str_eq_iff i k, str_eq_iff i j, lookup-insert k j v m)

-- `m[k]` on a map of strings: "" for a missing key.
unfoldable pub lookup_str : Str → Map Str → Str
lookup_str k m = elim (lookup k m) [ none ↦ [] | some v ↦ v ]

module _ {ℓ κ} {V : Type ℓ} (P : V → Type κ) where
  -- What holds of every value of a map holds of a value that is found.
  pub lookup-All : (k : Str) (m : Map V) {v : V} → All (λ e. P e.1) m → lookup k m ≡ some v → P v
  unfolding lookup
  lookup-All k [] h found = cc
  lookup-All k ((j, w) ∷ m) {v} (p, h) found = elim (Bool-cases (str_eq j k)) [
    | inl same ↦ let e : w ≡ v = ground arith in subst P e p
    | inr other ↦ lookup-All k m h (ground arith)
  ]

pub lookup_str-insert_self : (k v : Str) (m : Map Str) → lookup_str k (insert k v m) ≡ v
unfolding lookup_str
lookup_str-insert_self k v m = rw (lookup-insert k k v m, lookup_str) (rw (str_eq_refl k))

pub lookup_str-insert_other :
    (k j v : Str) (m : Map Str) → str_eq k j ≡ false → lookup_str j (insert k v m) ≡ lookup_str j m
unfolding lookup_str
lookup_str-insert_other k j v m e = rw (lookup-insert k j v m, lookup_str) (rw e)

-- No key stands twice.
abbrev pub Distinct {ℓ} : {V : Type ℓ} → Map V → Type ℓ
Distinct [] = Unit
Distinct ((k, _) ∷ m) = (lookup k m ≡ none) × Distinct m

module _ {ℓ κ} {V : Type ℓ} (P : Str × V → Type κ) where
  -- What holds of every entry holds of an entry that is found.
  pub lookup-All_entry : (k : Str) (m : Map V) {v : V} → All P m → lookup k m ≡ some v → P (k, v)
  unfolding lookup
  lookup-All_entry k [] h found = cc
  lookup-All_entry k ((j, w) ∷ m) {v} (p, h) found = elim (Bool-cases (str_eq j k)) [
    | inl same ↦
        let e : w ≡ v = ground arith in
        subst (λ u. P (k, u)) e (subst (λ i. P (i, w)) ((str_eq_iff j k).0 same) p)
    | inr other ↦ lookup-All_entry k m h (ground arith)
  ]

  pub insert-All : (k : Str) (v : V) (m : Map V) → All P m → P (k, v) → All P (insert k v m)
  unfolding insert
  insert-All k v [] h p = (p, tt)
  insert-All k v ((j, w) ∷ m) (q, h) p = elim (Bool-cases (str_eq j k)) [
    | inl same ↦ rw same (p, h)
    | inr other ↦ rw other (q, insert-All k v m h p)
  ]

-- Writing a key that is not there keeps the keys distinct.
pub insert-Distinct {ℓ} :
    {V : Type ℓ} (k : Str) (v : V) (m : Map V)
    → lookup k m ≡ none
    → Distinct m
    → Distinct (insert k v m)
unfolding insert lookup
insert-Distinct k v [] missing d = (refl, tt)
insert-Distinct k v ((j, w) ∷ m) missing (fresh, d) = elim (Bool-cases (str_eq j k)) [
  | inl same ↦ ground arith
  | inr other ↦ rw other (
    lookup-insert k j v m ∙ rw (str_eq_sym_false j k other) fresh,
    insert-Distinct k v m (ground arith) d,
  )
]
