-- ===== src/Handler/Endpoint.antt =====
-- Which service and endpoint of H2 a path stands for (`pathToEndpoint` of handler/h2.go), with
-- `path.Clean` and `strings.TrimPrefix` of the language's library.
pub mod Paths
mod Tests
use api_proxy.Prelude.{
  Bool, true, false, ◌||◌, Option, none, some, List, [], ◌∷◌, ◌++◌, if◌then◌else◌,
}
use api_proxy.Text.{Str, bytes, str_eq, is_blank, split, join, trim_prefix}

abbrev pub slash : Str
slash = b'/' ∷ []

-- All but the last.
unfoldable pub without_last : List Str → List Str
without_last [] = []
without_last (s ∷ []) = []
without_last (s ∷ t ∷ ss) = s ∷ without_last (t ∷ ss)

unfoldable pub last_or : Str → List Str → Str
last_or d [] = d
last_or d (s ∷ ss) = last_or s ss

-- What `..` leaves of the elements before it.
unfoldable pub go_up : Bool → List Str → List Str
go_up true [] = []
go_up false [] = bytes ".." ∷ []
go_up rooted (s ∷ ss) =
    if str_eq (last_or s ss) (bytes "..")
    then (s ∷ ss) ++ bytes ".." ∷ []
    else without_last (s ∷ ss)

-- One element of a path, behind those that are kept.
unfoldable pub clean_step : Bool → List Str → Str → List Str
clean_step rooted kept s =
    if is_blank s || str_eq s (bytes ".")
    then kept
    else if str_eq s (bytes "..")
    then go_up rooted kept
    else kept ++ s ∷ []

unfoldable pub clean_all : Bool → List Str → List Str → List Str
clean_all rooted kept [] = kept
clean_all rooted kept (s ∷ ss) = clean_all rooted (clean_step rooted kept s) ss

unfoldable pub or_dot : Str → Str
or_dot [] = bytes "."
or_dot (c ∷ s) = c ∷ s

unfoldable pub is_rooted : Str → Bool
is_rooted [] = false
is_rooted (c ∷ s) = str_eq (c ∷ []) slash

-- `path.Clean`.
unfoldable pub clean : Str → Str
unfolding or_dot is_rooted
clean p =
    let kept = join (clean_all (is_rooted p) [] (split p b'/')) slash in
    if is_rooted p then slash ++ kept else or_dot kept

abbrev pub service_prefix : Str
service_prefix = bytes "com.HailoOSS.api."

-- `pathToEndpoint`.
unfoldable pub path_to_endpoint : Str → Str × Str
path_to_endpoint p =
    let parts = split (trim_prefix (clean p) slash) b'/' in
    (service_prefix ++ join (without_last parts) (b'.' ∷ []), last_or [] parts)
