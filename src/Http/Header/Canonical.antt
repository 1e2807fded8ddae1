-- ===== src/Http/Header/Canonical.antt =====
-- The canonical form of a header's name is its own canonical form.
use api_proxy.Prelude.{
  ℕ, ◌≡◌, refl, ap, Bool, true, false, ◌&&◌, [], ◌∷◌, leb, ◌==◌, if◌then◌else◌, Bool-cases, inl,
  inr, arith, ◌⊎◌,
}
use api_proxy.Text.{Str, upper, lower}
use api_proxy.Http.Header.{is_alphanumeric, is_token_byte, is_token, canonical_from, canonical_key}

-- How a byte is written behind a dash, or elsewhere.
abbrev cased : Bool → ℕ → ℕ
cased up c = if up then upper c else lower c

cased_idem : (up : Bool) (c : ℕ) → cased up (cased up c) ≡ cased up c
cased_idem true c = ground arith
cased_idem false c = ground arith

cased_dash : (up : Bool) (c : ℕ) → (cased up c == b'-') ≡ (c == b'-')
cased_dash true c = ground arith
cased_dash false c = ground arith

cased_token : (up : Bool) (c : ℕ) → is_token_byte c ≡ true → is_token_byte (cased up c) ≡ true
unfolding is_token_byte is_alphanumeric
cased_token true c h = elim (Bool-cases (leb b'a' c && leb c b'z')) [
  | inl small ↦ ground arith
  | inr not_small ↦ rw not_small h
]
cased_token false c h = elim (Bool-cases (leb b'A' c && leb c b'Z')) [
  | inl large ↦ ground arith
  | inr not_large ↦ rw not_large h
]

canonical_from_idem :
    (up : Bool) (s : Str) → canonical_from up (canonical_from up s) ≡ canonical_from up s
unfolding canonical_from
canonical_from_idem up [] = refl
canonical_from_idem up (c ∷ s) =
    rw (cased_idem up c)
      (rw (cased_dash up c) (ap (λ t. cased up c ∷ t) (canonical_from_idem (c == b'-') s)))

canonical_from_token :
    (up : Bool) (s : Str) → is_token s ≡ true → is_token (canonical_from up s) ≡ true
unfolding is_token canonical_from
canonical_from_token up [] h = refl
canonical_from_token up (c ∷ s) h =
    let head : is_token_byte c ≡ true = ground arith in
    let tail : is_token s ≡ true = ground arith in
    rw (cased_token up c head) (canonical_from_token (c == b'-') s tail)

pub canonical_key_idem : (k : Str) → canonical_key (canonical_key k) ≡ canonical_key k
unfolding canonical_key
canonical_key_idem k = elim (Bool-cases (is_token k)) [
  | inl token ↦ rw token (rw (canonical_from_token true k token) (canonical_from_idem true k))
  | inr bad ↦ rw bad (rw bad refl)
]

-- The first byte of a canonical key is the key's, or its capital.
pub canonical_key-first :
    (c : ℕ) (s : Str)
    → (t : Str) × ((canonical_key (c ∷ s) ≡ c ∷ t) ⊎ (canonical_key (c ∷ s) ≡ upper c ∷ t))
unfolding canonical_key canonical_from
canonical_key-first c s = elim (Bool-cases (is_token (c ∷ s))) [
  | inl token ↦ (canonical_from (c == b'-') s, inr (rw token refl))
  | inr other ↦ (s, inl (rw other refl))
]
