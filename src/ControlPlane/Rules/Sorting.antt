-- ===== src/ControlPlane/Rules/Sorting.antt =====
-- The order of the rules: `Sort` gives a permutation of the configured rules in which no rule comes
-- after one that it precedes.
use api_proxy.Prelude.{
  ◌≡◌, ◌⊎◌, refl, ap, ◌∙◌, Bool, true, false, not, Option, none, some, inl, inr, arith,
  if◌then◌else◌, Bool-cases, List, [], ◌∷◌, ◌++◌, All, All-map, All-zip, All-always, map, ltb,
}
use mathlib.Core.Option
use mathlib.Core.List.{reverse, reverse_aux, Perm, Permᴰ}
use mathlib.Core.List.Permᴰ
use api_proxy.Prelude.Int.{int_eq, int_lt}
use api_proxy.ControlPlane.Types.{Rule, Rules, SortedRules}
use api_proxy.ControlPlane.Rules.{specificity, less, insert_back, insert_all, rule_values, sort}

-- Whether `a` has the greater weight, or the same weight and the greater specificity.
unfoldable pub precedes : Rule → Rule → Bool
precedes a b =
    if not (int_eq a.weight b.weight)
    then int_lt b.weight a.weight
    else ltb (specificity (some b)) (specificity (some a))

precedes_asym : (a b : Rule) → precedes a b ≡ true → precedes b a ≡ false
unfolding precedes
precedes_asym a b h = ground arith

-- Being no better is transitive.
pub precedes_weak_trans :
    (a b c : Rule) → precedes a b ≡ false → precedes b c ≡ false → precedes a c ≡ false
unfolding precedes
precedes_weak_trans a b c h k = ground arith

pub precedes_irrefl : (a : Rule) → precedes a a ≡ false
unfolding precedes
precedes_irrefl a = ground arith

-- The insertion with no null among the rules.
insert_desc : Rule → List Rule → List Rule
insert_desc x [] = x ∷ []
insert_desc x (y ∷ ys) =
    let moved = y ∷ insert_desc x ys in if precedes x y then moved else x ∷ y ∷ ys

sort_desc : List Rule → List Rule → List Rule
sort_desc done [] = done
sort_desc done (x ∷ xs) = sort_desc (insert_desc x done) xs

insert_back-map :
    (x : Rule) (ys : List Rule)
    → insert_back (some x) (map some ys) ≡ some (map some (insert_desc x ys))
unfolding insert_back insert_desc less precedes
insert_back-map x [] = refl
insert_back-map x (y ∷ ys) = elim (Bool-cases (precedes x y)) [
  | inl better ↦ rw better (rw (insert_back-map x ys))
  | inr worse ↦ rw worse
]

insert_all-map :
    (done xs : List Rule)
    → insert_all (map some done) (map some xs) ≡ some (map some (sort_desc done xs))
unfolding insert_all sort_desc
insert_all-map done [] = refl
insert_all-map done (x ∷ xs) =
    rw (insert_back-map x done, insert_all) (insert_all-map (insert_desc x done) xs)

insert_desc-perm : (x : Rule) (ys : List Rule) → Permᴰ (insert_desc x ys) (x ∷ ys)
unfolding insert_desc
insert_desc-perm x [] = Permᴰ.refl _
insert_desc-perm x (y ∷ ys) = elim (Bool-cases (precedes x y)) [
  | inl better ↦
      rw better (Permᴰ.trans (Permᴰ.cons refl (insert_desc-perm x ys)) (Permᴰ.swap refl refl))
  | inr worse ↦ rw worse (Permᴰ.refl _)
]

sort_desc-perm : (done xs : List Rule) → Permᴰ (sort_desc done xs) (done ++ xs)
unfolding sort_desc
sort_desc-perm done [] = Permᴰ.symm (Permᴰ.append-nil done)
sort_desc-perm done (x ∷ xs) = Permᴰ.trans (sort_desc-perm (insert_desc x done) xs) (
    Permᴰ.trans (Permᴰ.append_right xs (insert_desc-perm x done))
      (Permᴰ.symm (Permᴰ.middle x done xs)))

-- Nothing in the list precedes what stands in front of it.
abbrev pub IsSorted : List Rule → Type 0
IsSorted [] = Unit
IsSorted (x ∷ xs) = All (λ y. precedes y x ≡ false) xs × IsSorted xs

IsDescending : List Rule → Type 0
IsDescending [] = Unit
IsDescending (y ∷ ys) = All (λ z. precedes y z ≡ false) ys × IsDescending ys

insert_desc-All :
    (P : Rule → Type 0) (x : Rule) (ys : List Rule) → P x → All P ys → All P (insert_desc x ys)
unfolding insert_desc
insert_desc-All P x [] p h = (p, tt)
insert_desc-All P x (y ∷ ys) p (q, h) = elim (Bool-cases (precedes x y)) [
  | inl better ↦ rw better (q, insert_desc-All P x ys p h)
  | inr worse ↦ rw worse (p, (q, h))
]

insert_desc-IsDescending :
    (x : Rule) (ys : List Rule) → IsDescending ys → IsDescending (insert_desc x ys)
unfolding insert_desc IsDescending
insert_desc-IsDescending x [] h = (tt, tt)
insert_desc-IsDescending x (y ∷ ys) (h, d) = elim (Bool-cases (precedes x y)) [
  | inl better ↦ rw better (
    insert_desc-All (λ z. precedes y z ≡ false) x ys (precedes_asym x y better) h,
    insert_desc-IsDescending x ys d,
  )
  | inr worse ↦ rw worse ((worse, All-map (λ z k. precedes_weak_trans x y z worse k) ys h), (h, d))
]

sort_desc-IsDescending :
    (done xs : List Rule) → IsDescending done → IsDescending (sort_desc done xs)
unfolding sort_desc
sort_desc-IsDescending done [] h = h
sort_desc-IsDescending done (x ∷ xs) h =
    sort_desc-IsDescending (insert_desc x done) xs (insert_desc-IsDescending x done h)

reverse_aux-IsSorted :
    (xs acc : List Rule)
    → IsDescending xs
    → IsSorted acc
    → All (λ x. All (λ a. precedes a x ≡ false) acc) xs
    → IsSorted (reverse_aux xs acc)
unfolding IsDescending
reverse_aux-IsSorted [] acc d s h = s
reverse_aux-IsSorted (y ∷ ys) acc (above, d) s (h, hs) =
    reverse_aux-IsSorted ys (y ∷ acc) d (h, s) (All-zip (λ x k m. (k, m)) ys above hs)

reverse_aux-map :
    (xs acc : List Rule) → reverse_aux (map some xs) (map some acc) ≡ map some (reverse_aux xs acc)
reverse_aux-map [] acc = refl
reverse_aux-map (x ∷ xs) acc = reverse_aux-map xs (x ∷ acc)

-- Whatever rules are configured, and in whatever order the map gives them, with no null among them
-- the sort does not panic, and gives the same rules so ordered that none precedes an earlier one.
pub sort-IsSorted :
    (rs : Rules) (given : List Rule)
    → rule_values rs ≡ map some given
    → (out : List Rule) × (sort rs ≡ some (map some out)) × IsSorted out × Perm out given
unfolding sort IsDescending
sort-IsSorted rs given values =
    let desc = sort_desc [] given in
    (
      reverse desc,
      rw values (
          ap (λ o. Option.map reverse o) (insert_all-map [] given)
          ∙ ap some (reverse_aux-map desc [])),
      reverse_aux-IsSorted desc [] (sort_desc-IsDescending [] given tt) tt
          (All-always (λ x. tt) desc),
      ∣ Permᴰ.trans (Permᴰ.reverse desc) (sort_desc-perm [] given) ∣₁,
    )

-- A list of rules with a null somewhere.
abbrev pub HasNull : SortedRules → Type 0
HasNull [] = ⊥
HasNull (none ∷ _) = Unit
HasNull (some _ ∷ rs) = HasNull rs

insert_back-cases :
    (x y : Option Rule) (ys : SortedRules)
    → (insert_back x (y ∷ ys) ≡ none)
      ⊎ ((z : Option Rule) × (zs : SortedRules) × (insert_back x (y ∷ ys) ≡ some (z ∷ zs)))
unfolding insert_back
insert_back-cases x y ys = by_less (less x y) refl
  where
    by_insert :
        (o : Option SortedRules)
        → less x y ≡ some true
        → insert_back x ys ≡ o
        → (insert_back x (y ∷ ys) ≡ none)
          ⊎ ((z : Option Rule) × (zs : SortedRules) × (insert_back x (y ∷ ys) ≡ some (z ∷ zs)))
    by_insert none e i = inl (rw (e, insert_back) (rw i))
    by_insert (some zs) e i = inr (y, zs, rw (e, insert_back) (rw i))

    by_less :
        (o : Option Bool)
        → less x y ≡ o
        → (insert_back x (y ∷ ys) ≡ none)
          ⊎ ((z : Option Rule) × (zs : SortedRules) × (insert_back x (y ∷ ys) ≡ some (z ∷ zs)))
    by_less none e = inl (rw (e, insert_back))
    by_less (some true) e = by_insert (insert_back x ys) e refl
    by_less (some false) e = inr (x, y ∷ ys, rw (e, insert_back))

insert_all_stuck :
    (done : SortedRules) (x : Option Rule) (xs : SortedRules)
    → insert_back x done ≡ none
    → insert_all done (x ∷ xs) ≡ none
unfolding insert_all
insert_all_stuck done x xs e = rw (e, insert_all)

insert_all_step :
    (done : SortedRules) (x : Option Rule) (xs d : SortedRules)
    → insert_back x done ≡ some d
    → insert_all done (x ∷ xs) ≡ insert_all d xs
unfolding insert_all
insert_all_step done x xs d e = rw (e, insert_all)

insert_all_null :
    (y : Option Rule) (ys xs : SortedRules) → HasNull xs → insert_all (y ∷ ys) xs ≡ none
insert_all_null y ys (none ∷ xs) h =
    insert_all_stuck (y ∷ ys) none xs (unfold insert_back less in refl)
insert_all_null y ys (some r ∷ xs) h = elim (insert_back-cases (some r) y ys) [
  | inl e ↦ insert_all_stuck (y ∷ ys) (some r) xs e
  | inr (z, zs, e) ↦ insert_all_step (y ∷ ys) (some r) xs (z ∷ zs) e ∙ insert_all_null z zs xs h
]
insert_all_null y ys [] h = absurd h

insert_all_null_first :
    (x : Option Rule) (xs : SortedRules) → insert_all (none ∷ []) (x ∷ xs) ≡ none
insert_all_null_first (some r) xs =
    insert_all_stuck (none ∷ []) (some r) xs (unfold insert_back less in refl)
insert_all_null_first none xs =
    insert_all_stuck (none ∷ []) none xs (unfold insert_back less in refl)

-- A null among two rules or more is a panic, wherever the map gives it.
pub sort_null :
    (rs : Rules) (x y : Option Rule) (more : SortedRules)
    → rule_values rs ≡ x ∷ y ∷ more
    → HasNull (x ∷ y ∷ more)
    → sort rs ≡ none
unfolding sort
sort_null rs none y more values h = rw values (rw (insert_all_null_first y more))
sort_null rs (some r) y more values h =
    rw values (rw (insert_all_null (some r) [] (y ∷ more) h, insert_all))
