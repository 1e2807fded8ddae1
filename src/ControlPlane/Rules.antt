-- ===== src/ControlPlane/Rules.antt =====
-- Rules: their order, and whether one matches a request (controlplane/rules.go). A random roll is
-- an argument. A rule that is null has no weight: reading it is a panic, here `none`.
pub mod Sorting
pub mod Matching
pub mod Sampling
use api_proxy.Prelude.{
  ℕ, ◌+◌, ◌%◌, Bool, true, false, not, ◌&&◌, Option, none, some, List, [], ◌∷◌, leb, ltb,
  if◌then◌else◌, ◌*◌,
}
use mathlib.Core.Option
use mathlib.Core.List.{reverse}
use api_proxy.Prelude.Int.{ℤ, pos, int_eq, int_lt}
use api_proxy.Text.{Str, bytes, str_eq, has_prefix, split, is_blank}
use api_proxy.Session.{Order, session_id_key}
use api_proxy.ControlPlane.Types.{
  Rule, Rules, SortedRules, Match, Sampler, random, customer, driver, device, session, unknown,
  Float32,
}
use api_proxy.ControlPlane.Float.{millionths, is_positive}
use api_proxy.ControlPlane.Hash.{fnv64}
use api_proxy.ControlPlane.Extractor.{Extractor, path, source, hob, value}

-- The points of one field of a match.
points : Str → ℕ → ℕ
points [] n = 0
points (_ ∷ _) n = n

match_specificity : Option Match → ℕ
unfolding points
match_specificity none = 0
match_specificity (some m) = points m.hob 5 + points m.source 5 + points m.path 10

unfoldable pub specificity : Option Rule → ℕ
unfolding match_specificity
specificity none = 0
specificity (some r) = match_specificity r.match

-- `Less`: the greater weight first, then the greater specificity.
unfoldable pub less : Option Rule → Option Rule → Option Bool
less (some a) (some b) = some (
    if not (int_eq a.weight b.weight)
    then int_lt b.weight a.weight
    else ltb (specificity (some b)) (specificity (some a)))
less _ _ = none

-- One round of the insertion sort that package sort runs on short slices: the new element is
-- swapped towards the front. The sorted part is kept with its last element at the head.
insert_back : Option Rule → SortedRules → Option SortedRules
insert_back x [] = some (x ∷ [])
insert_back x (y ∷ ys) = elim (less x y) [
  | none ↦ none
  | some b ↦
      let moved = Option.map (λ zs. y ∷ zs) (insert_back x ys) in
      if b then moved else some (x ∷ y ∷ ys)
]

insert_all : SortedRules → SortedRules → Option SortedRules
insert_all done [] = some done
insert_all done (x ∷ xs) = elim (insert_back x done) [ none ↦ none | some d ↦ insert_all d xs ]

pub rule_values : Rules → SortedRules
rule_values [] = []
rule_values ((_, r) ∷ rs) = r ∷ rule_values rs

-- `Rules.Sort`; `none` is a panic.
unfoldable pub sort : Rules → Option SortedRules
unfolding insert_all insert_back rule_values
sort rs = Option.map reverse (insert_all [] (rule_values rs))

-- `SortedRules.Validate`: whether there is no error.
unfoldable pub validate : SortedRules → Bool
validate [] = false
validate (_ ∷ _) = true

-- `hashSample`.
unfoldable pub hash_sample : Str → Float32 → Bool
hash_sample v prop =
    if is_blank v
    then true
    else if not (is_positive prop)
    then false
    else not (ltb (millionths prop) (fnv64 v % 1000000))

any_eq : List Str → Str → Bool
any_eq [] test = false
any_eq (v ∷ vs) test = if str_eq v test then true else any_eq vs test

-- `withinCsv`.
unfoldable pub within_csv : Str → Str → Bool
unfolding any_eq
within_csv csv test = any_eq (split csv b',') test

-- `a && b`, where each part reads from the extractor and `b` is left out if `a` fails.
infixr 35 ◌and_then◌
abbrev pub ◌and_then◌ : Extractor × Bool → (Extractor → Extractor × Bool) → Extractor × Bool
(e, false) and_then k = (e, false)
(e, true) and_then k = k e

module _ (order : Order) where
  check_path : Match → Extractor → Extractor × Bool
  check_path m e =
      if is_blank m.path then (e, true) else let (e', p) = path order e in (e', has_prefix p m.path)

  check_source : Match → Extractor → Extractor × Bool
  check_source m e =
      if is_blank m.source
      then (e, true)
      else let (e', s) = source order e in (e', str_eq s m.source)

  check_hob : Match → Extractor → Extractor × Bool
  check_hob m e =
      if is_blank m.hob then (e, true) else let (e', h) = hob order e in (e', within_csv m.hob h)

  hash_value : Str → Match → Extractor → Extractor × Bool
  hash_value key m e = let (e', v) = value order e key in (e', hash_sample v m.proportion)

  sample_by : Sampler → Float32 → Match → Extractor → Extractor × Bool
  unfolding hash_value
  sample_by customer roll m e = hash_value (bytes "customer") m e
  sample_by driver roll m e = hash_value (bytes "driver") m e
  sample_by device roll m e = hash_value (bytes "device") m e
  sample_by session roll m e = hash_value session_id_key m e
  sample_by random roll m e = (e, not (int_lt m.proportion roll))
  sample_by (unknown n) roll m e = (e, not (int_lt m.proportion roll))

  -- `Match.sample`, with the roll that is made if the sampler is none of the four by value.
  unfoldable pub sample : Float32 → Match → Extractor → Extractor × Bool
  unfolding sample_by
  sample roll m e = sample_by m.sampler roll m e

  -- `Match.matches`.
  unfoldable pub match_matches : Float32 → Match → Extractor → Extractor × Bool
  unfolding check_path check_source check_hob
  match_matches roll m e =
      check_path m e
      and_then (λ e. check_source m e and_then (λ e. check_hob m e and_then sample roll m))

  of_match : Float32 → Option Match → Extractor → Extractor × Bool
  of_match roll none e = (e, false)
  of_match roll (some m) e = match_matches roll m e

  -- `Rule.Matches`.
  unfoldable pub matches : Float32 → Option Rule → Extractor → Extractor × Bool
  unfolding of_match
  matches roll none e = (e, false)
  matches roll (some r) e = of_match roll r.match e
