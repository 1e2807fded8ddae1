-- ===== src/Handler/Mux.antt =====
-- http.ServeMux of the language's library, for patterns without a host: the longest pattern that
-- matches, and the redirection to a clean path. The order of the map of patterns is that of the list.
pub mod Longest
use api_proxy.Prelude.{
  ℕ, ◌+◌, ◌==◌, ltb, Bool, true, false, not, ◌&&◌, Option, none, some, List, [], ◌∷◌, ◌++◌, length,
  if◌then◌else◌,
}
use api_proxy.Text.{Str, bytes, str_eq, has_prefix}
use api_proxy.Handler.Endpoint.{slash, clean, last_or}

unfoldable pub ends_in_slash : Str → Bool
ends_in_slash [] = false
ends_in_slash (c ∷ []) = c == b'/'
ends_in_slash (c ∷ d ∷ s) = ends_in_slash (d ∷ s)

-- `pathMatch`: a pattern that ends in a slash stands for all paths below it.
unfoldable pub path_match : Str → Str → Bool
unfolding ends_in_slash
path_match pattern path =
    if ends_in_slash pattern then has_prefix path pattern else str_eq path pattern

unfoldable pub rooted : Str → Str
rooted [] = slash
rooted (c ∷ s) = if c == b'/' then c ∷ s else b'/' ∷ c ∷ s

-- `cleanPath`: a slash at the end stays.
unfoldable pub clean_path : Str → Str
unfolding rooted ends_in_slash
clean_path [] = slash
clean_path (c ∷ s) =
    let p = rooted (c ∷ s) in
    if ends_in_slash p && not (str_eq (clean p) slash) then clean p ++ slash else clean p

module _ {ℓ} {A : Type ℓ} where
  -- The pattern found so far, with its handler.
  unfoldable pub better : Str × A → Option (Str × A) → Option (Str × A)
  better e none = some e
  better (pattern, a) (some (found, b)) =
      if ltb (length found) (length pattern) then some (pattern, a) else some (found, b)

  -- The loop of `match`.
  unfoldable pub match_from : Option (Str × A) → List (Str × A) → Str → Option (Str × A)
  unfolding better
  match_from found [] path = found
  match_from found ((pattern, a) ∷ ps) path =
      if path_match pattern path
      then match_from (better (pattern, a) found) ps path
      else match_from found ps path

  unfoldable pub matched : List (Str × A) → Str → Option (Str × A)
  matched ps path = match_from none ps path
