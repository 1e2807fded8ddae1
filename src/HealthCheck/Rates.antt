-- ===== src/HealthCheck/Rates.antt =====
-- What the checks say of a rate that did not fall.
use api_proxy.Prelude.{
  ℕ, ◌^◌, ◌≤◌, ◌<◌, ◌≡◌, refl, ltb, ◌==◌, arith, Option, none, some, true, false, lt→ltb,
}
use api_proxy.Text.{Str}
use api_proxy.Text.Laws.{str_eq_refl}
use api_proxy.Text.Maps.{lookup-insert}
use api_proxy.ControlPlane.Float.{times32, minus32, unit32}
use api_proxy.ControlPlane.Float.Quotient.{div32-low}
use api_proxy.Stats.{Endpoint, Counters, StatsManager, rate1, rate1_total, get_metric, save_metric}
use api_proxy.Stats.Bounds.{AreFloats, rate1-up}
use api_proxy.HealthCheck.{
  drop_exceeds, total_key, deviation, shown, complaint, error_rate_check, drop_off_check, hundred,
}

get_metric-save_metric : (k : Str) (v : ℕ) (s : StatsManager) → get_metric k (save_metric k v s) ≡ v
unfolding get_metric save_metric
get_metric-save_metric k v s = rw (lookup-insert k k v s.metrics) (rw (str_eq_refl k) refl)

level-passes :
    (drop_off rate dev : ℕ) → unit32 ≤ dev → 0 < rate → complaint drop_off rate dev ≡ none
unfolding complaint
level-passes drop_off rate dev le positive =
    let seen : (rate == 0) ≡ false = ground (arith, positive) in
    let whole : ltb dev unit32 ≡ false = ground (arith, le) in rw (seen, whole) (ground arith)

deviation-low : (new old : ℕ) → 0 < old → old ≤ new → new < 2 ^ 277 → unit32 ≤ deviation new old
unfolding deviation
deviation-low new old positive le finite =
    let low = div32-low new old positive le finite in
    let new' : (new == 0) ≡ false = ground (arith, positive, le) in
    let old' : (old == 0) ≡ false = ground (arith, positive) in rw (new', old') low

deviation-zero : (new : ℕ) → deviation new 0 ≡ 0
unfolding deviation
deviation-zero new = ground arith

module _ (get_endpoint : Endpoint → Option Counters) where
  -- If a rate was kept before that is not zero, and the rate is finite, not smaller than it and not
  -- lost when it is divided by 100, the check of the drop passes, and keeps the rate.
  pub drop_off_check-passes :
      (ep : Str) (drop_off : ℕ) (s : StatsManager)
      → 0 < get_metric (total_key ep) s
      → get_metric (total_key ep) s ≤ rate1_total get_endpoint ep s
      → rate1_total get_endpoint ep s < 2 ^ 277
      → 0 < shown (rate1_total get_endpoint ep s)
      → ((drop_off_check get_endpoint ep drop_off s).2 ≡ none)
        × (get_metric (total_key ep) (drop_off_check get_endpoint ep drop_off s).0
            ≡ rate1_total get_endpoint ep s)
  unfolding drop_off_check
  drop_off_check-passes ep drop_off s positive le finite seen = (
    level-passes drop_off _ _ (deviation-low _ _ positive le finite) seen,
    get_metric-save_metric (total_key ep) _ s,
  )

  zero-complains :
      (drop_off rate : ℕ)
      → drop_off < unit32
      → 0 < rate
      → complaint drop_off rate 0 ≡ some (drop_exceeds hundred (times32 drop_off 100))
  unfolding complaint minus32 times32
  zero-complains drop_off rate small positive =
      let seen : (rate == 0) ≡ false = ground (arith, positive) in
      let less : ltb drop_off unit32 ≡ true = lt→ltb drop_off unit32 small in rw (seen, less) refl

  -- If no rate was kept before, or zero, the threshold is less than 1, and the rate is not zero when
  -- it is divided by 100, then the check complains of a drop of 100 percent, although the rate rose.
  pub drop_off_check-risen :
      (ep : Str) (drop_off : ℕ) (s : StatsManager)
      → get_metric (total_key ep) s ≡ 0
      → drop_off < unit32
      → 0 < shown (rate1_total get_endpoint ep s)
      → (drop_off_check get_endpoint ep drop_off s).2
        ≡ some (drop_exceeds hundred (times32 drop_off 100))
  unfolding drop_off_check
  drop_off_check-risen ep drop_off s none' small seen =
      rw (none', deviation-zero (rate1_total get_endpoint ep s))
        (zero-complains drop_off (shown (rate1_total get_endpoint ep s)) small seen)

  -- If the platform gives finite float32s that are not negative, no rate of errors exceeds a threshold
  -- of 1 or more.
  pub error_rate_check-passes :
      (ep : Str) (err_rate : ℕ) (s : StatsManager)
      → ((epp : Endpoint) (c : Counters) → get_endpoint epp ≡ some c → AreFloats c)
      → unit32 ≤ err_rate
      → (error_rate_check get_endpoint ep err_rate s).1 ≡ none
  unfolding error_rate_check
  error_rate_check-passes ep err_rate s floats le =
      let (_, up) = rate1-up get_endpoint ep s floats in
      let whole : ltb err_rate (rate1 get_endpoint ep s).1 ≡ false = ground (arith, up, le) in
      rw whole refl
