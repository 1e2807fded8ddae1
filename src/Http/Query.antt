-- ===== src/Http/Query.antt =====
-- url.Values, and the text of a query: url.ParseQuery and Values.Encode.
use api_proxy.Prelude.{
  ℕ, ◌-◌, ◌+◌, ◌*◌, ◌/◌, ◌%◌, Bool, true, false, ◌&&◌, ◌||◌, Option, none, some, List, [], ◌∷◌,
  ◌++◌, leb, ltb, ◌==◌, if◌then◌else◌, head_or,
}
use api_proxy.Text.{Str, split, contains, is_blank, str_lt, join}
use api_proxy.Text.Maps.{Map, lookup, insert}

abbrev pub Values : Type 0
Values = Map (List Str)

-- `vs[0]`. A key of parsed values has a value, so that "" never stands for a missing one.
abbrev pub first : List Str → Str
first = head_or []

unfoldable pub all_of : Values → Str → List Str
all_of q k = elim (lookup k q) [ none ↦ [] | some vs ↦ vs ]

-- `Values.Get`.
unfoldable pub get : Values → Str → Str
unfolding all_of
get q k = first (all_of q k)

-- `Values.Add`.
unfoldable pub add : Values → Str → Str → Values
unfolding all_of
add q k v = insert k (all_of q k ++ v ∷ []) q

hex_digit : ℕ → Option ℕ
hex_digit c =
    if leb b'0' c && leb c b'9'
    then some (c - b'0')
    else if leb b'a' c && leb c b'f'
    then some (c - b'a' + 10)
    else if leb b'A' c && leb c b'F'
    then some (c - b'A' + 10)
    else none

plain_byte : ℕ → ℕ
plain_byte c = if c == b'+' then b' ' else c

cons_some : Option ℕ → Option Str → Option Str
cons_some none s = none
cons_some (some c) none = none
cons_some (some c) (some s) = some (c ∷ s)

hex_pair : Option ℕ → Option ℕ → Option ℕ
hex_pair (some a) (some b) = some (a * 16 + b)
hex_pair _ _ = none

-- `url.QueryUnescape`; `none` is its error.
unfoldable pub unescape : Str → Option Str
unfolding hex_digit plain_byte cons_some hex_pair
unescape [] = some []
unescape (c ∷ []) = if c == b'%' then none else some (plain_byte c ∷ [])
unescape (c ∷ d ∷ []) =
    let rest = unescape (d ∷ []) in if c == b'%' then none else cons_some (some (plain_byte c)) rest
unescape (c ∷ d ∷ e ∷ s) =
    let escaped = cons_some (hex_pair (hex_digit d) (hex_digit e)) (unescape s) in
    let plain = cons_some (some (plain_byte c)) (unescape (d ∷ e ∷ s)) in
    if c == b'%' then escaped else plain

-- Cut at the first byte that equals `sep`, if there is one.
unfoldable pub cut : Str → ℕ → Str × Option Str
cut [] sep = ([], none)
cut (c ∷ s) sep =
    let (before, after) = cut s sep in if c == sep then ([], some s) else (c ∷ before, after)

cut_value : Option Str → Str
cut_value none = []
cut_value (some v) = v

-- The values read so far, and whether an error was met.
abbrev pub Parsed : Type 0
Parsed = Values × Bool

parse_pair : Parsed → Option Str → Option Str → Parsed
unfolding add
parse_pair (q, bad) (some k) (some v) = (add q k v, bad)
parse_pair (q, bad) _ _ = (q, true)

parse_piece : Parsed → Str → Parsed
unfolding parse_pair cut_value contains cut unescape
parse_piece (q, bad) piece =
    if contains piece (b';' ∷ [])
    then (q, true)
    else if is_blank piece
    then (q, bad)
    else let (key, value) = cut piece b'=' in
      parse_pair (q, bad) (unescape key) (unescape (cut_value value))

parse_pieces : Parsed → List Str → Parsed
unfolding parse_piece
parse_pieces p [] = p
parse_pieces p (piece ∷ pieces) = parse_pieces (parse_piece p piece) pieces

-- `url.ParseQuery`: the values, and whether some piece was malformed.
unfoldable pub parse_query : Str → Parsed
unfolding parse_pieces split
parse_query s = parse_pieces ([], false) (split s b'&')

hex_char : ℕ → ℕ
hex_char d = if ltb d 10 then b'0' + d else b'A' + (d - 10)

is_unreserved : ℕ → Bool
is_unreserved c =
    (leb b'a' c && leb c b'z')
    || ((leb b'A' c && leb c b'Z')
        || ((leb b'0' c && leb c b'9') || (c == b'-' || (c == b'_' || (c == b'.' || c == b'~')))))

-- `url.QueryEscape`.
unfoldable pub escape : Str → Str
unfolding is_unreserved hex_char
escape [] = []
escape (c ∷ s) =
    if is_unreserved c
    then c ∷ escape s
    else if c == b' '
    then b'+' ∷ escape s
    else b'%' ∷ hex_char (c / 16) ∷ hex_char (c % 16) ∷ escape s

-- The keys in order, as `sort.Strings` leaves them.
insert_key : Str × List Str → Values → Values
insert_key e [] = e ∷ []
insert_key (k, vs) ((j, ws) ∷ q) =
    let later = insert_key (k, vs) q in
    if str_lt j k then (j, ws) ∷ later else (k, vs) ∷ (j, ws) ∷ q

sort_keys : Values → Values
unfolding insert_key str_lt
sort_keys [] = []
sort_keys (e ∷ q) = insert_key e (sort_keys q)

encode_values : Str → List Str → List Str
unfolding escape
encode_values k [] = []
encode_values k (v ∷ vs) = (escape k ++ (b'=' ∷ escape v)) ∷ encode_values k vs

encode_pieces : Values → List Str
unfolding encode_values
encode_pieces [] = []
encode_pieces ((k, vs) ∷ q) = encode_values k vs ++ encode_pieces q

-- `Values.Encode`.
unfoldable pub encode : Values → Str
unfolding sort_keys encode_pieces join
encode q = join (encode_pieces (sort_keys q)) (b'&' ∷ [])
