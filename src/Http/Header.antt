-- ===== src/Http/Header.antt =====
-- http.Header: a map from canonical keys to the values given for them.
pub mod Laws
pub mod Canonical
use api_proxy.Prelude.{
  ℕ, ◌-◌, ◌+◌, Bool, true, false, ◌&&◌, ◌||◌, Option, none, some, List, [], ◌∷◌, ◌++◌, leb, ◌==◌,
  if◌then◌else◌, head_or,
}
use api_proxy.Text.{Str, upper, lower, bytes}
use api_proxy.Text.Maps.{Map, lookup, insert}

abbrev pub Header : Type 0
Header = Map (List Str)

unfoldable pub is_alphanumeric : ℕ → Bool
is_alphanumeric c =
    (leb b'a' c && leb c b'z') || ((leb b'A' c && leb c b'Z') || (leb b'0' c && leb c b'9'))

one_of : ℕ → Str → Bool
one_of c [] = false
one_of c (d ∷ s) = c == d || one_of c s

-- A byte that may stand in a header's name.
unfoldable pub is_token_byte : ℕ → Bool
unfolding is_alphanumeric one_of bytes
is_token_byte c = is_alphanumeric c || one_of c (bytes "!#$%&'*+-.^_`|~")

unfoldable pub is_token : Str → Bool
unfolding is_token_byte
is_token [] = true
is_token (c ∷ s) = is_token_byte c && is_token s

canonical_from : Bool → Str → Str
canonical_from up [] = []
canonical_from up (c ∷ s) = (if up then upper c else lower c) ∷ canonical_from (c == b'-') s

-- `textproto.CanonicalMIMEHeaderKey`.
unfoldable pub canonical_key : Str → Str
unfolding canonical_from is_token
canonical_key k = if is_token k then canonical_from true k else k

unfoldable pub get : Header → Str → Str
get h k = elim (lookup (canonical_key k) h) [ none ↦ [] | some vs ↦ head_or [] vs ]

unfoldable pub set : Header → Str → Str → Header
set h k v = insert (canonical_key k) (v ∷ []) h

-- `h[k]`, with no canonical form of the key: nil for a missing one.
unfoldable pub values : Header → Str → List Str
values h k = elim (lookup k h) [ none ↦ [] | some vs ↦ vs ]

unfoldable pub add : Header → Str → Str → Header
unfolding values
add h k v = insert (canonical_key k) (values h (canonical_key k) ++ v ∷ []) h
