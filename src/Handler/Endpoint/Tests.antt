-- ===== src/Handler/Endpoint/Tests.antt =====
-- Paths, and the theorem about them at a concrete one.
use api_proxy.Prelude.{◌≡◌, refl, List, [], ◌∷◌, ◌++◌}
use api_proxy.Text.{Str, bytes, join}
use api_proxy.Http.Run.{run_http}
use api_proxy.Handler.Endpoint.{
  slash, without_last, last_or, go_up, clean_step, clean_all, clean, service_prefix,
  path_to_endpoint,
}
use api_proxy.Handler.Endpoint.Paths.{IsPlain, path_to_endpoint-join}

dots_test :
    path_to_endpoint (bytes "/v1/./customer//x/../index")
    ≡ (bytes "com.HailoOSS.api.v1.customer", bytes "index")
unfolding run_http go_up clean_step clean_all clean path_to_endpoint without_last last_or
dots_test = refl

bare_test : path_to_endpoint (bytes "/") ≡ (bytes "com.HailoOSS.api.", [])
unfolding run_http go_up clean_step clean_all clean path_to_endpoint without_last last_or
bare_test = refl

abbrev elements : List Str
elements = (b'p' ∷ b'q' ∷ []) ∷ []

first_IsPlain : IsPlain (b'v' ∷ b'1' ∷ [])
unfolding run_http
first_IsPlain = record {
  given = refl;
  no_dot = refl;
  no_dots = refl;
  no_slash = (refl, (refl, tt));
}

second_IsPlain : IsPlain (b'p' ∷ b'q' ∷ [])
unfolding run_http
second_IsPlain = record {
  given = refl;
  no_dot = refl;
  no_dots = refl;
  no_slash = (refl, (refl, tt));
}

path_to_endpoint-join_example :
    path_to_endpoint (slash ++ join ((b'v' ∷ b'1' ∷ []) ∷ elements) slash) ≡ (
      service_prefix ++ join (without_last ((b'v' ∷ b'1' ∷ []) ∷ elements)) (b'.' ∷ []),
      last_or [] ((b'v' ∷ b'1' ∷ []) ∷ elements),
    )
path_to_endpoint-join_example =
    path_to_endpoint-join (b'v' ∷ b'1' ∷ []) elements (first_IsPlain, (second_IsPlain, tt))
