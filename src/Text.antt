-- ===== src/Text.antt =====
-- Go strings as lists of bytes, and what the proxy calls of the package strings. Case mapping is
-- that of ASCII; a byte above 127 stays.
pub mod Laws
pub mod Maps
pub mod Decimal
pub mod Order
use Prim.Native.Char.{code}
use api_proxy.Prelude.{
  ℕ, suc, ◌+◌, ◌-◌, Bool, true, false, ◌&&◌, ◌||◌, Option, none, some, List, [], ◌∷◌, ◌++◌, String,
  leb, ◌==◌, if◌then◌else◌, map,
}

abbrev pub Str : Type 0
Str = List ℕ

-- A string literal. It stays shut, so that a proof sees it as one name.
unfoldable pub bytes : String → Str
bytes String.[] = []
bytes (String.◌∷◌ c s) = code c ∷ bytes s

unfoldable pub str_eq : Str → Str → Bool
str_eq [] [] = true
str_eq [] (_ ∷ _) = false
str_eq (_ ∷ _) [] = false
str_eq (a ∷ s) (b ∷ t) = a == b && str_eq s t

-- `s == ""`, and `len(s) == 0`.
abbrev pub is_blank : Str → Bool
is_blank [] = true
is_blank (_ ∷ _) = false

unfoldable pub has_prefix : Str → Str → Bool
has_prefix s [] = true
has_prefix [] (_ ∷ _) = false
has_prefix (a ∷ s) (b ∷ p) = a == b && has_prefix s p

unfoldable pub trim_prefix : Str → Str → Str
unfolding has_prefix
trim_prefix s p = if has_prefix s p then rest s p else s
  where
    rest : Str → Str → Str
    rest s [] = s
    rest [] (_ ∷ _) = []
    rest (_ ∷ s) (_ ∷ p) = rest s p

unfoldable pub contains : Str → Str → Bool
unfolding has_prefix
contains [] p = has_prefix [] p
contains (c ∷ s) p = has_prefix (c ∷ s) p || contains s p

unfoldable pub cons_head : ℕ → List Str → List Str
cons_head c [] = (c ∷ []) ∷ []
cons_head c (s ∷ ss) = (c ∷ s) ∷ ss

-- `strings.Split` at a separator of one byte.
unfoldable pub split : Str → ℕ → List Str
unfolding cons_head
split [] sep = [] ∷ []
split (c ∷ s) sep = let rest = split s sep in if c == sep then [] ∷ rest else cons_head c rest

unfoldable pub join : List Str → Str → Str
join [] sep = []
join (s ∷ []) sep = s
join (s ∷ t ∷ ss) sep = s ++ (sep ++ join (t ∷ ss) sep)

abbrev pub upper : ℕ → ℕ
upper c = if leb b'a' c && leb c b'z' then c - 32 else c

abbrev pub lower : ℕ → ℕ
lower c = if leb b'A' c && leb c b'Z' then c + 32 else c

unfoldable pub to_upper : Str → Str
to_upper s = map upper s

unfoldable pub to_lower : Str → Str
to_lower s = map lower s

-- `strings.Replace(s, old, new, -1)` for texts of one byte.
unfoldable pub replace : ℕ → ℕ → Str → Str
replace old new s = map (λ c. if c == old then new else c) s

-- `strings.LastIndex` of a byte; `none` is -1.
unfoldable pub last_index : Str → ℕ → Option ℕ
last_index [] b = none
last_index (c ∷ s) b = elim (last_index s b) [
  | some i ↦ some (suc i)
  | none ↦ if c == b then some 0 else none
]

-- `a < b` on strings, byte by byte.
unfoldable pub str_lt : Str → Str → Bool
str_lt s [] = false
str_lt [] (_ ∷ _) = true
str_lt (a ∷ s) (b ∷ t) = if a == b then str_lt s t else leb a b
