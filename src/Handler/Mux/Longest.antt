-- ===== src/Handler/Mux/Longest.antt =====
-- The pattern that serves a path is the longest that matches.
use api_proxy.Prelude.{
  ℕ, suc, ◌≡◌, refl, sym, ◌∙◌, subst, ◌≤◌, ltb, true, false, Option, none, some, List, [], ◌∷◌,
  length, All, All-map, Bool-cases, inl, inr, arith, ◌⊎◌,
}
use mathlib.Core.List.{Memᴰ}
use api_proxy.Text.{Str}
use api_proxy.Handler.Mux.{path_match, better, match_from, matched}

-- What is found among the patterns `ps` for a path.
pub data Longest {A : Type 0} (ps : List (Str × A)) (path : Str) : Option (Str × A) → Type 0 where
  no_match : All (λ (e : Str × A). path_match e.0 path ≡ false) ps → Longest ps path none
  longest :
      (pattern : Str) (a : A)
      → Memᴰ (pattern, a) ps
      → path_match pattern path ≡ true
      → All (λ (e : Str × A). path_match e.0 path ≡ true → length e.0 ≤ length pattern) ps
      → Longest ps path (some (pattern, a))

module _ {A : Type 0} (path : Str) where
  abbrev rank : Option (Str × A) → ℕ
  rank none = 0
  rank (some (pattern, a)) = suc (length pattern)

  better-rank :
      (e : Str × A) (found : Option (Str × A))
      → (rank found ≤ rank (better e found)) × (suc (length e.0) ≤ rank (better e found))
  unfolding better
  better-rank e none = (omega arith, omega arith)
  better-rank (pattern, a) (some (found, b)) = ground arith

  match_from-rank :
      (found : Option (Str × A)) (ps : List (Str × A))
      → rank found ≤ rank (match_from found ps path)
  unfolding match_from
  match_from-rank found [] = omega arith
  match_from-rank found ((pattern, a) ∷ ps) = elim (Bool-cases (path_match pattern path)) [
    | inl hit ↦ rw hit (
        let (up, _) = better-rank (pattern, a) found in
        omega (arith, up, match_from-rank (better (pattern, a) found) ps))
    | inr miss ↦ rw miss (match_from-rank found ps)
  ]

  -- Every pattern that matches is at most as long as the one found.
  match_from-All :
      (found : Option (Str × A)) (ps : List (Str × A)) (n : ℕ)
      → rank (match_from found ps path) ≤ n
      → All (λ (e : Str × A). path_match e.0 path ≡ true → suc (length e.0) ≤ n) ps
  unfolding match_from
  match_from-All found [] n h = tt
  match_from-All found ((pattern, a) ∷ ps) n h = elim (Bool-cases (path_match pattern path)) [
    | inl hit ↦
        let h' : rank (match_from (better (pattern, a) found) ps path) ≤ n = rw hit at h in
        let (_, own) = better-rank (pattern, a) found in
        (
          λ _. omega (arith, own, h', match_from-rank (better (pattern, a) found) ps),
          match_from-All (better (pattern, a) found) ps n h',
        )
    | inr miss ↦
        let h' : rank (match_from found ps path) ≤ n = rw miss at h in
        (λ hit. cc, match_from-All found ps n h')
  ]

  -- What is found was found before, or stands in the list and matches.
  From : Option (Str × A) → List (Str × A) → Option (Str × A) → Type 0
  From before ps none = Unit
  From before ps (some e) = (before ≡ some e) ⊎ (Memᴰ e ps × (path_match e.0 path ≡ true))

  From-later :
      (e : Str × A) (before : Option (Str × A)) (ps : List (Str × A)) (o : Option (Str × A))
      → From before ps o
      → From before (e ∷ ps) o
  unfolding From
  From-later e before ps none h = tt
  From-later e before ps (some f) (inl same) = inl same
  From-later e before ps (some f) (inr (m, hit)) = inr (Memᴰ.tail m, hit)

  better-cases :
      (e : Str × A) (before : Option (Str × A))
      → (better e before ≡ some e) ⊎ (better e before ≡ before)
  unfolding better
  better-cases e none = inl refl
  better-cases (pattern, a) (some (found, b)) =
      elim (Bool-cases (ltb (length found) (length pattern))) [
        | inl shorter ↦ inl (rw shorter refl)
        | inr other ↦ inr (rw other refl)
      ]

  From-better :
      (e : Str × A) (before : Option (Str × A)) (ps : List (Str × A)) (o : Option (Str × A))
      → path_match e.0 path ≡ true
      → From (better e before) ps o
      → From before (e ∷ ps) o
  unfolding From
  From-better e before ps none hit h = tt
  From-better e before ps (some f) hit (inr (m, hit')) = inr (Memᴰ.tail m, hit')
  From-better e before ps (some f) hit (inl same) = elim (better-cases e before) [
    | inr kept ↦ inl (sym kept ∙ same)
    | inl taken ↦
        let is : e ≡ f = cc in
        inr (Memᴰ.head (sym is), subst (λ (g : Str × A). path_match g.0 path ≡ true) is hit)
  ]

  match_from-From :
      (before : Option (Str × A)) (ps : List (Str × A)) → From before ps (match_from before ps path)
  unfolding match_from
  match_from-From before [] = itself before
    where
      itself : (o : Option (Str × A)) → From o [] o
      itself none = unfold From in tt
      itself (some e) = unfold From in inl refl
  match_from-From before ((pattern, a) ∷ ps) = elim (Bool-cases (path_match pattern path)) [
    | inl hit ↦
        rw hit (
          From-better (pattern, a) before ps _ hit
            (match_from-From (better (pattern, a) before) ps))
    | inr miss ↦ rw miss (From-later (pattern, a) before ps _ (match_from-From before ps))
  ]

  ranked-Longest :
      (ps : List (Str × A)) (o : Option (Str × A))
      → From none ps o
      → All (λ (e : Str × A). path_match e.0 path ≡ true → suc (length e.0) ≤ rank o) ps
      → Longest ps path o
  unfolding From
  ranked-Longest ps none h all = no_match (All-map (λ e f. missed e f (Bool-cases _)) ps all)
    where
      missed :
          (e : Str × A)
          → (path_match e.0 path ≡ true → suc (length e.0) ≤ 0)
          → (path_match e.0 path ≡ true) ⊎ (path_match e.0 path ≡ false)
          → path_match e.0 path ≡ false
      missed e f (inl hit) = absurd (omega (arith, f hit))
      missed e f (inr miss) = miss
  ranked-Longest ps (some (pattern, a)) (inl same) all = cc
  ranked-Longest ps (some (pattern, a)) (inr (m, hit)) all =
      longest pattern a m hit (All-map (λ e f hit'. omega (arith, f hit')) ps all)

  -- In whatever order the patterns stand, the one that is found matches the path, and no pattern that
  -- matches is longer; nothing is found only if no pattern matches.
  pub matched-Longest : (ps : List (Str × A)) → Longest ps path (matched ps path)
  unfolding matched
  matched-Longest ps =
      ranked-Longest ps _ (match_from-From none ps) (match_from-All none ps _ (omega arith))
