-- ===== src/Text/Decimal.antt =====
-- Numbers printed in decimal, as `%d` does.
use api_proxy.Prelude.{
  ℕ, zero, suc, ◌+◌, ◌-◌, ◌*◌, ◌^◌, ◌/◌, ◌%◌, [], ◌∷◌, ltb, leb, ◌==◌, ◌&&◌, if◌then◌else◌, Option,
  none, some,
}
use api_proxy.Prelude.Int.{ℤ, pos, negsuc}
use api_proxy.Text.{Str}

-- The fuel bounds the number of digits; `n + 1` is enough for `n`.
digits_from : ℕ → ℕ → Str → Str
digits_from zero n acc = acc
digits_from (suc fuel) n acc =
    let longer = digits_from fuel (n / 10) ((b'0' + n % 10) ∷ acc) in
    if ltb n 10 then (b'0' + n) ∷ acc else longer

unfoldable pub decimal : ℕ → Str
unfolding digits_from
decimal n = digits_from (suc n) n []

unfoldable pub decimal_int : ℤ → Str
unfolding decimal
decimal_int (pos n) = decimal n
decimal_int (negsuc n) = b'-' ∷ decimal (suc n)

digits_value : ℕ → Str → Option ℕ
digits_value n [] = some n
digits_value n (c ∷ s) =
    let rest = digits_value (n * 10 + (c - b'0')) s in
    if leb b'0' c && leb c b'9' then rest else none

-- A numeral of one digit or more.
natural : Str → Option ℕ
unfolding digits_value
natural [] = none
natural (c ∷ s) = digits_value 0 (c ∷ s)

to_positive : Option ℕ → Option ℤ
to_positive none = none
to_positive (some n) = if ltb n (2 ^ 63) then some (pos n) else none

to_negative : Option ℕ → Option ℤ
to_negative none = none
to_negative (some zero) = some (pos 0)
to_negative (some (suc n)) = if ltb n (2 ^ 63) then some (negsuc n) else none

signed : ℕ → Str → Option ℤ
unfolding natural to_positive to_negative
signed c s =
    if c == b'-'
    then to_negative (natural s)
    else if c == b'+'
    then to_positive (natural s)
    else to_positive (natural (c ∷ s))

-- `strconv.Atoi`; `none` is an error, of syntax or of range.
unfoldable pub atoi : Str → Option ℤ
unfolding signed
atoi [] = none
atoi (c ∷ s) = signed c s
