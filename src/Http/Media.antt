-- ===== src/Http/Media.antt =====
-- mime.ParseMediaType: the media type in front of the parameters, and whether the whole is well
-- formed. A quoted parameter is taken to hold neither `;` nor `\`, and no name to stand twice.
use api_proxy.Prelude.{
  ℕ, Bool, true, false, ◌&&◌, ◌||◌, Option, none, some, List, [], ◌∷◌, ◌==◌, if◌then◌else◌, leb,
}
use api_proxy.Text.{Str, split, to_lower, is_blank}
use api_proxy.Http.Header.{is_token}
use api_proxy.Http.Query.{cut}

is_space : ℕ → Bool
is_space c = c == b' ' || (leb 9 c && leb c 13)

trim_left : Str → Str
unfolding is_space
trim_left [] = []
trim_left (c ∷ s) = let rest = trim_left s in if is_space c then rest else c ∷ s

trim_right : Str → Str
unfolding is_space
trim_right [] = []
trim_right (c ∷ s) = keep c (trim_right s)
  where
    keep : ℕ → Str → Str
    keep c [] = if is_space c then [] else c ∷ []
    keep c (d ∷ r) = c ∷ d ∷ r

-- `strings.TrimSpace`.
unfoldable pub trim_space : Str → Str
unfolding trim_left trim_right
trim_space s = trim_right (trim_left s)

is_name : Str → Bool
unfolding is_token
is_name s = is_token s && nonempty s
  where
    nonempty : Str → Bool
    nonempty [] = false
    nonempty (_ ∷ _) = true

is_media_type : Str × Option Str → Bool
unfolding is_name
is_media_type (base, none) = is_name base
is_media_type (base, some sub) = is_name base && is_name sub

is_value : Str → Bool
unfolding is_name
is_value [] = false
is_value (c ∷ s) = c == b'"' && ends_quoted s || is_name (c ∷ s)
  where
    ends_quoted : Str → Bool
    ends_quoted [] = false
    ends_quoted (d ∷ []) = d == b'"'
    ends_quoted (d ∷ e ∷ r) = (if d == b'"' then false else true) && ends_quoted (e ∷ r)

is_param : Str × Option Str → Bool
unfolding is_value is_name
is_param (name, none) = false
is_param (name, some v) = is_name name && is_value v

-- The last piece may be blank.
params_ok : List Str → Bool
unfolding is_param trim_space cut
params_ok [] = true
params_ok (p ∷ []) = is_blank (trim_space p) || is_param (cut (trim_space p) b'=')
params_ok (p ∷ q ∷ ps) = is_param (cut (trim_space p) b'=') && params_ok (q ∷ ps)

parse_pieces : List Str → Str × Bool
unfolding is_media_type params_ok trim_space to_lower cut
parse_pieces [] = ([], false)
parse_pieces (base ∷ params) =
    let media = trim_space (to_lower base) in
    if is_media_type (cut media b'/') then (media, params_ok params) else ([], false)

-- The media type, and whether there was no error.
unfoldable pub parse_media_type : Str → Str × Bool
unfolding parse_pieces split
parse_media_type s = parse_pieces (split s b';')
