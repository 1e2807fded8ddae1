-- ===== src/ControlPlane/Rules/Matching.antt =====
-- Whether a match fits a fixed view of the request, and that the lazy, stateful test of rules.go
-- answers just that.
use api_proxy.Prelude.{
  ◌≡◌, refl, ap, ◌∙◌, Bool, true, false, not, ◌&&◌, ◌||◌, Option, none, some, inl, inr, Bool-cases,
}
use api_proxy.Prelude.Int.{int_lt}
use api_proxy.Text.{bytes, str_eq, has_prefix, is_blank}
use api_proxy.Session.{Order, session_id_key}
use api_proxy.ControlPlane.Types.{
  Rule, Match, Sampler, random, customer, driver, device, session, unknown, Float32,
}
use api_proxy.ControlPlane.Extractor.{Extractor}
use api_proxy.ControlPlane.Extractor.View.{
  View, observe, hob-observe, path-observe, source-observe, value-observe,
}
use api_proxy.ControlPlane.Rules.{
  hash_sample, within_csv, ◌and_then◌, check_path, check_source, check_hob, sample_by, sample,
  match_matches, of_match, matches,
}

unfoldable pub sampled : View → Float32 → Sampler → Float32 → Bool
sampled v roll customer p = hash_sample v.customer p
sampled v roll driver p = hash_sample v.driver p
sampled v roll device p = hash_sample v.device p
sampled v roll session p = hash_sample v.session p
sampled v roll random p = not (int_lt p roll)
sampled v roll (unknown n) p = not (int_lt p roll)

-- A criterion of the match that is blank asks for nothing.
abbrev pub fits_path : Match → View → Bool
fits_path m v = is_blank m.path || has_prefix v.path m.path

abbrev pub fits_source : Match → View → Bool
fits_source m v = is_blank m.source || str_eq v.source m.source

abbrev pub fits_hob : Match → View → Bool
fits_hob m v = is_blank m.hob || within_csv m.hob v.hob

unfoldable pub fits : Float32 → Match → View → Bool
fits roll m v =
    fits_path m v && (fits_source m v && (fits_hob m v && sampled v roll m.sampler m.proportion))

fits_match : Float32 → Option Match → View → Bool
fits_match roll none v = false
fits_match roll (some m) v = fits roll m v

unfoldable pub rule_fits : Float32 → Option Rule → View → Bool
unfolding fits_match
rule_fits roll none v = false
rule_fits roll (some r) v = fits_match roll r.match v

module _ (order : Order) where
  -- The test answers as the predicate does on the view, and leaves the view as it is.
  abbrev pub Answers : (Extractor → Extractor × Bool) → (View → Bool) → Type 0
  Answers f p =
      (e : Extractor) → ((f e).1 ≡ p (observe order e)) × (observe order (f e).0 ≡ observe order e)

  continue :
      (x : Extractor × Bool) (g : Extractor → Extractor × Bool) (b : Bool) (q : View → Bool)
      (v : View)
      → Answers g q
      → (x.1 ≡ b) × (observe order x.0 ≡ v)
      → ((x and_then g).1 ≡ (b && q v)) × (observe order (x and_then g).0 ≡ v)
  continue (e, false) g b q v gq (same, shows) = (rw (← same), shows)
  continue (e, true) g b q v gq (same, shows) =
      let (answer, keeps) = gq e in (rw (← same) (answer ∙ ap q shows), keeps ∙ shows)

  and_then-Answers :
      (f g : Extractor → Extractor × Bool) (p q : View → Bool)
      → Answers f p
      → Answers g q
      → Answers (λ e. f e and_then g) (λ v. p v && q v)
  and_then-Answers f g p q fp gq e =
      continue (f e) g (p (observe order e)) q (observe order e) gq (fp e)

  module _ (m : Match) where
    check_path-Answers : Answers (check_path order m) (fits_path m)
    unfolding check_path
    check_path-Answers e = elim (Bool-cases (is_blank m.path)) [
      | inl blank ↦ rw blank (refl, refl)
      | inr given ↦
          let (answer, keeps) = path-observe order e in
          rw given (ap (λ p. has_prefix p m.path) answer, keeps)
    ]

    check_source-Answers : Answers (check_source order m) (fits_source m)
    unfolding check_source
    check_source-Answers e = elim (Bool-cases (is_blank m.source)) [
      | inl blank ↦ rw blank (refl, refl)
      | inr given ↦
          let (answer, keeps) = source-observe order e in
          rw given (ap (λ s. str_eq s m.source) answer, keeps)
    ]

    check_hob-Answers : Answers (check_hob order m) (fits_hob m)
    unfolding check_hob
    check_hob-Answers e = elim (Bool-cases (is_blank m.hob)) [
      | inl blank ↦ rw blank (refl, refl)
      | inr given ↦
          let (answer, keeps) = hob-observe order e in
          rw given (ap (λ h. within_csv m.hob h) answer, keeps)
    ]

    sample_by-Answers :
        (roll : Float32) (s : Sampler)
        → Answers (sample_by order s roll m) (λ v. sampled v roll s m.proportion)
    unfolding sample_by sampled
    sample_by-Answers roll customer e =
        let (answer, _, _, _, keeps) = value-observe order e in
        (ap (λ v. hash_sample v m.proportion) answer, keeps (bytes "customer"))
    sample_by-Answers roll driver e =
        let (_, answer, _, _, keeps) = value-observe order e in
        (ap (λ v. hash_sample v m.proportion) answer, keeps (bytes "driver"))
    sample_by-Answers roll device e =
        let (_, _, answer, _, keeps) = value-observe order e in
        (ap (λ v. hash_sample v m.proportion) answer, keeps (bytes "device"))
    sample_by-Answers roll session e =
        let (_, _, _, answer, keeps) = value-observe order e in
        (ap (λ v. hash_sample v m.proportion) answer, keeps session_id_key)
    sample_by-Answers roll random e = (refl, refl)
    sample_by-Answers roll (unknown n) e = (refl, refl)

    match_matches-Answers : (roll : Float32) → Answers (match_matches order roll m) (fits roll m)
    unfolding match_matches fits sample
    match_matches-Answers roll =
        let by_sample = λ (v : View). sampled v roll m.sampler m.proportion in
        let by_hob = λ (v : View). fits_hob m v && by_sample v in
        let by_source = λ (v : View). fits_source m v && by_hob v in
        and_then-Answers _ _ (fits_path m) by_source check_path-Answers (
          and_then-Answers _ _ (fits_source m) by_hob check_source-Answers (
            and_then-Answers _ _ (fits_hob m) by_sample check_hob-Answers
              (sample_by-Answers roll m.sampler)))

  of_match-Answers :
      (roll : Float32) (m : Option Match) → Answers (of_match order roll m) (fits_match roll m)
  unfolding of_match fits_match
  of_match-Answers roll none e = (refl, refl)
  of_match-Answers roll (some m) e = match_matches-Answers m roll e

  pub matches-Answers :
      (roll : Float32) (r : Option Rule) → Answers (matches order roll r) (rule_fits roll r)
  unfolding matches rule_fits
  matches-Answers roll none e = (refl, refl)
  matches-Answers roll (some r) e = of_match-Answers roll r.match e

  -- Whether a rule matches depends on the view of the request alone: on its path, source, city code
  -- and sampled value as they are before anything is read. Asking changes nothing that can be observed.
  pub matches-observe :
      (roll : Float32) (r : Option Rule) (e : Extractor)
      → ((matches order roll r e).1 ≡ rule_fits roll r (observe order e))
        × (observe order (matches order roll r e).0 ≡ observe order e)
  matches-observe roll r e = matches-Answers roll r e
