-- ===== src/ControlPlane/Router/Choice.antt =====
-- Which rule serves a request: the first that fits, and so the best that fits.
use api_proxy.Prelude.{
  ◌≡◌, refl, ap, ◌∙◌, Bool, true, false, Option, none, some, inl, inr, arith, if◌then◌else◌,
  Bool-cases, List, [], ◌∷◌, ◌++◌, All, map, length, ℕ, suc, ◌+◌, ◌⊎◌, subst,
}
use native.Mathlib.Nat.{add-zero}
use api_proxy.Text.{is_blank}
use api_proxy.Session.{Order}
use api_proxy.ControlPlane.Types.{Rule, SortedRules, Float32}
use api_proxy.ControlPlane.Extractor.{Extractor, header}
use api_proxy.ControlPlane.Extractor.View.{View, observe}
use api_proxy.ControlPlane.Rules.{matches}
use api_proxy.ControlPlane.Rules.Sorting.{precedes, IsSorted}
use api_proxy.ControlPlane.Rules.Matching.{rule_fits, matches-Answers}
use api_proxy.ControlPlane.Router.{Config, first_match, route, force_route, route_header}

-- The first rule that fits, over one fixed view.
unfoldable pub select : (ℕ → Float32) → ℕ → SortedRules → View → Option Rule
select roll n [] v = none
select roll n (r ∷ rs) v =
    let later = select roll (suc n) rs v in if rule_fits (roll n) r v then r else later

-- What `Route` does with a header that forces nothing.
unfoldable pub forced_route : Extractor → Option Rule
forced_route e =
    if is_blank (header e route_header) then none else force_route (header e route_header)

module _ (order : Order) (roll : ℕ → Float32) where
  found :
      (n : ℕ) (r : Option Rule) (rs : SortedRules) (x : Extractor × Bool) (v : View)
      → (x.1 ≡ rule_fits (roll n) r v) × (observe order x.0 ≡ v)
      → ((e : Extractor)
          → observe order e ≡ v
          → ((first_match order roll (suc n) rs e).1 ≡ select roll (suc n) rs v)
            × (observe order (first_match order roll (suc n) rs e).0 ≡ v))
      → let (e', hit) = x in
        let y = if hit then (e', r) else first_match order roll (suc n) rs e' in
        (y.1 ≡ select roll n (r ∷ rs) v) × (observe order y.0 ≡ v)
  unfolding select
  found n r rs (e, true) v (fit, same) later = (rw (← fit), same)
  found n r rs (e, false) v (fit, same) later = rw (← fit) (later e same)

  first_match-select :
      (n : ℕ) (rs : SortedRules) (v : View) (e : Extractor)
      → observe order e ≡ v
      → ((first_match order roll n rs e).1 ≡ select roll n rs v)
        × (observe order (first_match order roll n rs e).0 ≡ v)
  unfolding first_match select
  first_match-select n [] v e same = (refl, same)
  first_match-select n (r ∷ rs) v e same =
      let (answer, keeps) = matches-Answers order (roll n) r e in
      found n r rs (matches order (roll n) r e) v
        (answer ∙ ap (rule_fits (roll n) r) same, keeps ∙ same)
        (λ e' same'. first_match-select (suc n) rs v e' same')

  -- A forced route is taken at once, and the request is not read.
  pub route-forced :
      (c : Config) (e : Extractor) {r : Rule}
      → forced_route e ≡ some r
      → route order roll c e ≡ (e, some r)
  unfolding route forced_route
  route-forced c e forced = rw (forced, route)

  -- With no forced route, the route is the first rule that fits what could be observed of the
  -- request before the call, and the call changes nothing of that.
  pub route-select :
      (c : Config) (e : Extractor)
      → forced_route e ≡ none
      → ((route order roll c e).1 ≡ select roll 0 c.rules (observe order e))
        × (observe order (route order roll c e).0 ≡ observe order e)
  unfolding route forced_route
  route-select c e free = rw (free, route) (first_match-select 0 c.rules (observe order e) e refl)

-- None of the rules fits, the first with the roll number `n`.
abbrev pub NoneFits : (ℕ → Float32) → ℕ → List Rule → View → Type 0
NoneFits roll n [] v = Unit
NoneFits roll n (r ∷ rs) v = (rule_fits (roll n) (some r) v ≡ false) × NoneFits roll (suc n) rs v

-- The rule that serves the view: it fits, no rule before it fits, and no rule after it precedes it.
pub record IsBest (roll : ℕ → Float32) (n : ℕ) (rules : List Rule) (v : View) (r : Rule)
    : Type 0 where
  pub before : List Rule
  pub after : List Rule
  pub split : rules ≡ before ++ r ∷ after
  pub fit : rule_fits (roll (n + length before)) (some r) v ≡ true
  pub passed : NoneFits roll n before v
  pub best : All (λ s. precedes s r ≡ false) after

module _ (roll : ℕ → Float32) (v : View) where
  IsBest-here :
      (n : ℕ) (r : Rule) (rs : List Rule)
      → rule_fits (roll n) (some r) v ≡ true
      → All (λ s. precedes s r ≡ false) rs
      → IsBest roll n (r ∷ rs) v r
  IsBest-here n r rs fit best = record {
    before = [];
    after = rs;
    split = refl;
    fit = rw add-zero fit;
    passed = tt;
    best = best;
  }

  IsBest-later :
      (n : ℕ) (s : Rule) (rs : List Rule) (r : Rule)
      → rule_fits (roll n) (some s) v ≡ false
      → IsBest roll (suc n) rs v r
      → IsBest roll n (s ∷ rs) v r
  IsBest-later n s rs r miss b = record {
    before = s ∷ b.before;
    after = b.after;
    split = ap (λ l. s ∷ l) b.split;
    fit = subst (λ k. rule_fits (roll k) (some r) v ≡ true) (omega arith) b.fit;
    passed = (miss, b.passed);
    best = b.best;
  }

  -- Over sorted rules the choice is either no rule, because none fits, or the best that fits.
  pub select-IsBest :
      (n : ℕ) (rules : List Rule)
      → IsSorted rules
      → ((select roll n (map some rules) v ≡ none) × NoneFits roll n rules v)
        ⊎ ((r : Rule) × (select roll n (map some rules) v ≡ some r) × IsBest roll n rules v r)
  unfolding select
  select-IsBest n [] sorted = inl (refl, tt)
  select-IsBest n (r ∷ rs) (above, sorted) = elim (Bool-cases (rule_fits (roll n) (some r) v)) [
    | inl fit ↦ inr (r, rw fit, IsBest-here n r rs fit above)
    | inr miss ↦ elim (select-IsBest (suc n) rs sorted) [
      | inl (none_left, all_miss) ↦ inl (rw miss none_left, (miss, all_miss))
      | inr (s, chosen, b) ↦ inr (s, rw miss chosen, IsBest-later n r rs s miss b)
    ]
  ]

-- With rules as `Sort` leaves them and no forced route, `Route` returns nil exactly when no rule
-- fits the request, and otherwise a rule that fits such that every rule that precedes it in weight,
-- or in specificity at the same weight, does not fit.
pub route-IsBest :
    (order : Order) (roll : ℕ → Float32) (c : Config) (e : Extractor) (rules : List Rule)
    → c.rules ≡ map some rules
    → IsSorted rules
    → forced_route e ≡ none
    → (((route order roll c e).1 ≡ none) × NoneFits roll 0 rules (observe order e))
      ⊎ ((r : Rule) × ((route order roll c e).1 ≡ some r) × IsBest roll 0 rules (observe order e) r)
route-IsBest order roll c e rules configured sorted free =
    let (chosen, _) = route-select order roll c e free in
    let route_is : (route order roll c e).1 ≡ select roll 0 (map some rules) (observe order e) =
      chosen ∙ ap (λ rs. select roll 0 rs (observe order e)) configured in
    rw route_is (select-IsBest roll (observe order e) 0 rules sorted)
