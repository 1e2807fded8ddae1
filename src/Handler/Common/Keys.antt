-- ===== src/Handler/Common/Keys.antt =====
-- What the names are.
use api_proxy.Prelude.{
  ℕ, ◌≤◌, ◌≡◌, refl, ltb, false, [], ◌∷◌, length, All, Bool-cases, inl, inr, arith, ◌⊎◌, some, none,
}
use mathlib.Core.Option.{some-injective}
use api_proxy.Text.{Str, str_eq}
use api_proxy.Text.Laws.{str_eq_iff}
use api_proxy.Text.Maps.{lookup, Distinct}
use api_proxy.Http.Header.{is_alphanumeric}
use api_proxy.Http.Query.{Values, first}
use api_proxy.Handler.Marshal.{hob}
use api_proxy.Handler.Marshal.HobCode.{parameter}
use api_proxy.Handler.Common.{extract_step, extract_values, sanitize_byte, sanitize_key}

-- A digit, a small letter or an underscore.
abbrev pub IsKeyByte : ℕ → Type 0
IsKeyByte c = ((48 ≤ c) × (c ≤ 57)) ⊎ (((97 ≤ c) × (c ≤ 122)) ⊎ (c ≡ 95))

sanitize_byte-IsKeyByte : (c : ℕ) → IsKeyByte (sanitize_byte c)
unfolding sanitize_byte is_alphanumeric
sanitize_byte-IsKeyByte c = ground arith

sanitize_byte_idem : (c : ℕ) → sanitize_byte (sanitize_byte c) ≡ sanitize_byte c
unfolding sanitize_byte is_alphanumeric
sanitize_byte_idem c = ground arith

-- A key is made of digits, small letters and underscores.
pub sanitize_key-IsKeyByte : (key : Str) → All IsKeyByte (sanitize_key key)
unfolding sanitize_key
sanitize_key-IsKeyByte [] = tt
sanitize_key-IsKeyByte (c ∷ key) = (sanitize_byte-IsKeyByte c, sanitize_key-IsKeyByte key)

-- A key that was made is left as it is.
pub sanitize_key_idem : (key : Str) → sanitize_key (sanitize_key key) ≡ sanitize_key key
unfolding sanitize_key
sanitize_key_idem [] = refl
sanitize_key_idem (c ∷ key) = rw (sanitize_byte_idem c, sanitize_key_idem key) refl

-- A code of three bytes or more stays where no hob follows.
extract_values-stays :
    (q : Values) (code : Str) → lookup hob q ≡ none → 3 ≤ length code → extract_values q code ≡ code
unfolding extract_values extract_step lookup
extract_values-stays [] code no_hob long = refl
extract_values-stays ((k, vs) ∷ q) code no_hob long =
    let other : str_eq k hob ≡ false = ground (arith, no_hob) in
    let full : ltb (length code) 3 ≡ false = ground (arith, long) in
    let later : lookup hob q ≡ none = ground (arith, no_hob) in
    let same : extract_step k (first vs) code ≡ code = rw other (ground (arith, full)) in
    rw same (extract_values-stays q code later long)

-- If no parameter stands twice and there is a hob of three bytes or more, it is the code, in whatever
-- order the parameters are met and whatever was found before them.
pub extract_values-hob :
    (q : Values) (code h : Str)
    → Distinct q
    → parameter hob q ≡ some h
    → 3 ≤ length h
    → extract_values q code ≡ h
unfolding extract_values extract_step lookup
extract_values-hob [] code h d given long = cc
extract_values-hob ((k, vs) ∷ q) code h (alone, d) given long = elim (Bool-cases (str_eq k hob)) [
  | inl same ↦
      let is : k ≡ hob = (str_eq_iff k hob).0 same in
      let no_hob : lookup hob q ≡ none = rw (← is) alone in
      let value : first vs ≡ h = some-injective (first vs) h (rw same at given) in
      rw same (rw value (extract_values-stays q h no_hob long))
  | inr other ↦ extract_values-hob q _ h d (rw other at given) long
]
