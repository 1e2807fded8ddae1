-- ===== src/HealthCheck.antt =====
-- The checks of the rates of an endpoint (healthcheck/healthcheck.go). A report keeps the numbers that
-- the source prints with two decimals. Rates and thresholds are float32s that are not negative, counted
-- in units of 2^-149; a rate that overflows to infinity is not followed.
pub mod Rates
pub mod Watched
mod Tests
use api_proxy.Prelude.{
  ℕ, ◌*◌, Bool, not, ltb, ◌==◌, ◌&&◌, ◌||◌, if◌then◌else◌, Option, none, some, ◌++◌,
}
use api_proxy.Text.{Str, bytes}
use api_proxy.ControlPlane.Float.{times32, minus32, div32, unit32}
use api_proxy.Stats.{Endpoint, Counters, StatsManager, rate1, rate1_total, get_metric, save_metric}

-- The errors of the checks, with the rate or the drop and the threshold as percentages.
pub data Complaint : Type 0 where
  rate_exceeds : ℕ → ℕ → Complaint
  no_requests : Complaint
  drop_exceeds : ℕ → ℕ → Complaint

pub record RateReport : Type 0 where
  error_rate1 : ℕ
  success_rate1 : ℕ

pub record DropReport : Type 0 where
  rate_total : ℕ
  rate1_drop_off : ℕ
  rate1_increase : ℕ

abbrev percent : ℕ → ℕ
percent a = times32 a 100

abbrev pub hundred : ℕ
hundred = 100 * unit32

abbrev pub total_key : Str → Str
total_key ep = ep ++ bytes ".totalRate1"

unfoldable pub deviation : ℕ → ℕ → ℕ
deviation new old = if not (new == 0) && not (old == 0) then div32 new old else 0

-- The rate as it is reported.
abbrev pub shown : ℕ → ℕ
shown new = if ltb 0 new then div32 new hundred else new

-- Neither a drop nor an increase.
abbrev pub is_level : ℕ → Bool
is_level dev = dev == 0 || dev == unit32

abbrev pub drop_report : ℕ → ℕ → DropReport
drop_report rate dev =
    if is_level dev
    then record { rate_total = rate; rate1_drop_off = 0; rate1_increase = 0 }
    else if ltb dev unit32
    then record {
      rate_total = rate;
      rate1_drop_off = percent (minus32 unit32 dev);
      rate1_increase = 0;
    }
    else record {
      rate_total = rate;
      rate1_drop_off = 0;
      rate1_increase = percent (minus32 dev unit32);
    }

unfoldable pub complaint : ℕ → ℕ → ℕ → Option Complaint
complaint drop_off rate dev =
    if is_level dev && rate == 0
    then some no_requests
    else if ltb dev unit32 && ltb drop_off (minus32 unit32 dev)
    then some (drop_exceeds (percent (minus32 unit32 dev)) (percent drop_off))
    else none

module _ (get_endpoint : Endpoint → Option Counters) where
  unfoldable pub error_rate_check : Str → ℕ → StatsManager → RateReport × Option Complaint
  error_rate_check ep err_rate s =
      let (srate, erate) = rate1 get_endpoint ep s in
      (
        record { error_rate1 = percent erate; success_rate1 = percent srate },
        if ltb err_rate erate then some (rate_exceeds (percent erate) (percent err_rate)) else none,
      )

  unfoldable pub drop_off_check :
      Str → ℕ → StatsManager → StatsManager × DropReport × Option Complaint
  drop_off_check ep drop_off s =
      let old_rate = get_metric (total_key ep) s in
      let new_rate = rate1_total get_endpoint ep s in
      let dev = deviation new_rate old_rate in
      (
        save_metric (total_key ep) new_rate s,
        drop_report (shown new_rate) dev,
        complaint drop_off (shown new_rate) dev,
      )
