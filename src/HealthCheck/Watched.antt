-- ===== src/HealthCheck/Watched.antt =====
-- The endpoints that main.go registers, and the checks that it makes of them. A threshold is the
-- float32 nearest to the number of the source.
use api_proxy.Prelude.{ℕ, ◌*◌, ◌^◌, ◌≡◌, refl, some, List, [], ◌∷◌, ◌++◌, All, arith}
use api_proxy.Text.{Str, bytes, str_eq}
use api_proxy.Text.Maps.{lookup, insert}
use api_proxy.ControlPlane.Float.Quotient.{IsFloat32}
use api_proxy.ControlPlane.Float.{round24, bit_length, drop_bits, rounds_up}
use api_proxy.Stats.{StatsManager, new_stats_manager, register, new_endpoint}

abbrev pub endpoints : List Str
endpoints = bytes "/rpc" ∷ bytes "/v2/h2/call" ∷ bytes "/v1/point/batch" ∷ bytes "/" ∷ []

unfoldable pub register_all : List Str → StatsManager → StatsManager
register_all [] s = s
register_all (ep ∷ eps) s = register_all eps (register ep s).0

-- Which rate a check is about.
pub data CheckKind : Type 0 where
  of_errors : CheckKind
  of_drop : CheckKind

pub record Check : Type 0 where
  pub id : Str
  pub kind : CheckKind
  pub endpoint : Str
  pub threshold : ℕ

-- Behind the name of the service.
abbrev pub checks : Str → List Check
checks name =
    record {
      id = name ++ bytes ".http.root";
      kind = of_errors;
      endpoint = bytes "/";
      threshold = 13421773 * 2 ^ 121;
    }
    ∷ record {
      id = name ++ bytes ".http.v2-h2-call";
      kind = of_errors;
      endpoint = bytes "/v2/h2/call";
      threshold = 2 ^ 147;
    }
    ∷ record {
      id = name ++ bytes ".http.rpc";
      kind = of_errors;
      endpoint = bytes "/rpc";
      threshold = 2 ^ 147;
    }
    ∷ record {
      id = name ++ bytes ".http.v1-point-batch";
      kind = of_errors;
      endpoint = bytes "/v1/point/batch";
      threshold = 13421773 * 2 ^ 122;
    }
    ∷ record {
      id = name ++ bytes ".http.root.request-rate";
      kind = of_drop;
      endpoint = bytes "/";
      threshold = 2 ^ 148;
    }
    ∷ []

-- A check watches an endpoint that is registered, with a threshold that is a float32.
abbrev pub IsWatched : StatsManager → Check → Type 0
IsWatched s c =
    (lookup c.endpoint s.endpoints ≡ some (new_endpoint c.endpoint)) × IsFloat32 c.threshold

-- Every check watches an endpoint that is registered before, with a threshold that is a float32.
checks-IsWatched :
    (name : Str) → All (IsWatched (register_all endpoints new_stats_manager)) (checks name)
unfolding register_all register insert lookup bytes str_eq round24 bit_length drop_bits rounds_up
checks-IsWatched name = (
  (refl, (omega arith, refl)),
  (
    (refl, (omega arith, refl)),
    ((refl, (omega arith, refl)), ((refl, (omega arith, refl)), ((refl, (omega arith, refl)), tt))),
  ),
)
