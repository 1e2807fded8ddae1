-- ===== src/Stats.antt =====
-- The rates of requests (stats/stats.go, stats/endpoint.go). The platform's statistics are a
-- parameter: what they hold of an endpoint. A rate is a float32 that is not negative, counted in
-- units of 2^-149.
pub mod Bounds
mod Tests
use api_proxy.Prelude.{ℕ, ◌+◌, Bool, not, ◌==◌, if◌then◌else◌, Option, none, some, List, [], ◌∷◌}
use api_proxy.Text.{Str}
use api_proxy.Text.Maps.{Map, lookup, insert}
use api_proxy.ControlPlane.Float.{add32, div32}

pub record Endpoint : Type 0 where
  name : Str
  mean : ℕ
  upper95 : ℕ

-- `GetRate1` of the successes and of the errors, where the platform has them.
pub record Counters : Type 0 where
  pub success : Option ℕ
  pub error : Option ℕ

pub record StatsManager : Type 0 where
  pub endpoints : Map Endpoint
  pub metrics : Map ℕ

abbrev pub new_stats_manager : StatsManager
new_stats_manager = record { endpoints = []; metrics = [] }

-- The endpoint, whether it failed and the duration that `pstats.Record` is called with.
abbrev pub record_request : Str → Bool → ℕ → StatsManager → Option (Endpoint × Bool × ℕ)
record_request ep success d s = elim (lookup ep s.endpoints) [
  | none ↦ none
  | some epoint ↦ some (epoint, not success, d)
]

abbrev pub new_endpoint : Str → Endpoint
new_endpoint ep = record { name = ep; mean = 10000; upper95 = 30000 }

-- With the endpoint that the platform is told of.
unfoldable pub register : Str → StatsManager → StatsManager × Option Endpoint
register ep s = elim (lookup ep s.endpoints) [
  | some _ ↦ (s, none)
  | none ↦
      (record s { endpoints = insert ep (new_endpoint ep) s.endpoints }, some (new_endpoint ep))
]

abbrev rate_of : Option ℕ → ℕ
rate_of none = 0
rate_of (some rate) = rate

-- The share of the first rate in both.
abbrev pub share : ℕ → ℕ → ℕ
share a b = if a == 0 then 0 else div32 a (add32 b a)

module _ (get_endpoint : Endpoint → Option Counters) where
  unfoldable pub counters_of : Str → StatsManager → Option Counters
  counters_of ep s = elim (lookup ep s.endpoints) [ none ↦ none | some epp ↦ get_endpoint epp ]

  -- The shares of the successes and of the errors.
  unfoldable pub rate1 : Str → StatsManager → ℕ × ℕ
  rate1 ep s = elim (counters_of ep s) [
    | none ↦ (0, 0)
    | some st ↦ (
      share (rate_of st.success) (rate_of st.error),
      share (rate_of st.error) (rate_of st.success),
    )
  ]

  unfoldable pub rate1_total : Str → StatsManager → ℕ
  rate1_total ep s = elim (counters_of ep s) [
    | none ↦ 0
    | some st ↦ add32 (rate_of st.success) (rate_of st.error)
  ]

unfoldable pub get_metric : Str → StatsManager → ℕ
get_metric key s = rate_of (lookup key s.metrics)

unfoldable pub save_metric : Str → ℕ → StatsManager → StatsManager
save_metric key value s = record s { metrics = insert key value s.metrics }
