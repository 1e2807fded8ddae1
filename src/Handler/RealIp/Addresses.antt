-- ===== src/Handler/RealIp/Addresses.antt =====
-- Addresses that are joined can be split again, and what a request's address becomes.
use api_proxy.Prelude.{
  ℕ, ◌≡◌, refl, ◌∙◌, ◌==◌, false, ◌||◌, Option, none, some, [], ◌∷◌, ◌++◌, if◌then◌else◌,
  Bool-cases, inl, inr, arith,
}
use api_proxy.Text.{Str}
use api_proxy.Http.Query.{cut}
use api_proxy.Handler.RealIp.{
  has_byte, later_cut, cut_last, after_bracket, no_brackets, plain_host, bracketed, from_bracket,
  split_host_port, join_host_port,
}

-- A text without brackets; a port has no colon either.
pub record IsHost (host : Str) : Type 0 where
  pub no_open : has_byte b'[' host ≡ false
  pub no_close : has_byte b']' host ≡ false

pub record IsPort (port : Str) : Type 0 where
  pub no_open : has_byte b'[' port ≡ false
  pub no_close : has_byte b']' port ≡ false
  pub no_colon : has_byte b':' port ≡ false

cut-append : (b : ℕ) (s t : Str) → has_byte b s ≡ false → cut (s ++ b ∷ t) b ≡ (s, some t)
unfolding cut has_byte
cut-append b [] t h = ground arith
cut-append b (c ∷ s) t h =
    let other : (c == b) ≡ false = ground (arith, h) in
    rw (cut-append b s t (ground (arith, h, other)), cut) (rw other refl)

cut_last-none : (b : ℕ) (s : Str) → has_byte b s ≡ false → cut_last s b ≡ none
unfolding cut_last later_cut has_byte
cut_last-none b [] h = refl
cut_last-none b (c ∷ s) h =
    let other : (c == b) ≡ false = ground (arith, h) in
    rw (cut_last-none b s (ground (arith, h, other)), cut_last) (rw other refl)

cut_last-append : (b : ℕ) (s t : Str) → has_byte b t ≡ false → cut_last (s ++ b ∷ t) b ≡ some (s, t)
unfolding cut_last later_cut
cut_last-append b [] t h = rw (cut_last-none b t h, cut_last) (ground arith)
cut_last-append b (c ∷ s) t h = rw (cut_last-append b s t h, cut_last) refl

module _ (host port : Str) (h : IsHost host) (p : IsPort port) where
  split_bracketed : split_host_port ((b'[' ∷ host) ++ (b']' ∷ b':' ∷ port)) ≡ some (host, port)
  unfolding split_host_port from_bracket after_bracket bracketed
  split_bracketed =
      rw (cut-append b']' host (b':' ∷ port) h.no_close, from_bracket)
        (rw p.no_colon (rw h.no_open (rw p.no_open (rw p.no_close refl))))

  plain_pair :
      plain_host (some (host, port)) ≡ (if has_byte b':' host then none else some (host, port))
  unfolding plain_host no_brackets
  plain_pair = rw h.no_open (rw h.no_close (rw p.no_open (rw p.no_close refl)))

split_plain :
    (host port : Str)
    → IsHost host
    → IsPort port
    → has_byte b':' host ≡ false
    → split_host_port (host ++ (b':' ∷ port)) ≡ some (host, port)
unfolding split_host_port has_byte
split_plain [] port h p plain =
    rw (cut_last-append b':' [] port p.no_colon) (plain_pair [] port h p)
split_plain (c ∷ s) port h p plain =
    let no_bracket : (c == b'[') ≡ false = ground (arith, h.no_open) in
    rw no_bracket (
      rw (cut_last-append b':' (c ∷ s) port p.no_colon)
        (plain_pair (c ∷ s) port h p ∙ rw plain refl))

-- A host without brackets and a port without brackets and colon, once joined, are split into the same
-- host and port, a host with colons (an IPv6 address) included.
pub split_host_port-join :
    (host port : Str)
    → IsHost host
    → IsPort port
    → split_host_port (join_host_port host port) ≡ some (host, port)
unfolding join_host_port
split_host_port-join host port h p = elim (Bool-cases (has_byte b':' host)) [
  | inl colons ↦ rw colons (split_bracketed host port h p)
  | inr plain ↦ rw plain (split_plain host port h p plain)
]

-- What a split gives: no address, or one whose port is a port.
pub data Split : Option (Str × Str) → Type 0 where
  no_address : Split none
  address : (host port : Str) → IsPort port → Split (some (host, port))

-- The text behind the last occurrence does not hold the byte.
data LastCut (b : ℕ) (s : Str) : Option (Str × Str) → Type 0 where
  no_cut : has_byte b s ≡ false → LastCut b s none
  cut_at : (before after : Str) → has_byte b after ≡ false → LastCut b s (some (before, after))

later_cut-LastCut :
    (b c : ℕ) (s : Str) (o : Option (Str × Str))
    → LastCut b s o
    → LastCut b (c ∷ s) (later_cut b c s o)
unfolding later_cut has_byte
later_cut-LastCut b c s _ (no_cut h) = elim (Bool-cases (c == b)) [
  | inl same ↦ rw same (cut_at [] s h)
  | inr other ↦ rw other (no_cut (rw other h))
]
later_cut-LastCut b c s _ (cut_at before after h) = cut_at (c ∷ before) after h

cut_last-LastCut : (b : ℕ) (s : Str) → LastCut b s (cut_last s b)
unfolding cut_last has_byte
cut_last-LastCut b [] = no_cut refl
cut_last-LastCut b (c ∷ s) = later_cut-LastCut b c s _ (cut_last-LastCut b s)

no_brackets-Split : (host port : Str) → has_byte b':' port ≡ false → Split (no_brackets host port)
unfolding no_brackets
no_brackets-Split host port no_colon =
    elim (Bool-cases
      (has_byte b'[' host || (has_byte b']' host || (has_byte b'[' port || has_byte b']' port)))) [
        | inl brackets ↦ rw brackets no_address
        | inr none' ↦ rw none' (
            address host port (record {
              no_open = ground (arith, none');
              no_close = ground (arith, none');
              no_colon = no_colon;
            }))
      ]

plain_host-Split : (s : Str) (o : Option (Str × Str)) → LastCut b':' s o → Split (plain_host o)
unfolding plain_host
plain_host-Split s _ (no_cut h) = no_address
plain_host-Split s _ (cut_at host port h) = elim (Bool-cases (has_byte b':' host)) [
  | inl colons ↦ rw colons no_address
  | inr plain ↦ rw plain (no_brackets-Split host port h)
]

-- What stands behind a bracket, with a port that has no colon.
data Behind : Option (Str × Str) → Type 0 where
  nothing : Behind none
  behind : (host port : Str) → has_byte b':' port ≡ false → Behind (some (host, port))

after_bracket-Behind : (host : Str) (rest : Option Str) → Behind (after_bracket host rest)
unfolding after_bracket
after_bracket-Behind host none = nothing
after_bracket-Behind host (some []) = nothing
after_bracket-Behind host (some (c ∷ port)) = elim (Bool-cases (c == b':')) [
  | inr other ↦ rw other nothing
  | inl colon ↦ elim (Bool-cases (has_byte b':' port)) [
    | inl more ↦ rw colon (rw more nothing)
    | inr none' ↦ rw colon (rw none' (behind host port none'))
  ]
]

bracketed-Split : (o : Option (Str × Str)) → Behind o → Split (bracketed o)
unfolding bracketed
bracketed-Split _ nothing = no_address
bracketed-Split _ (behind host port h) =
    elim (Bool-cases (has_byte b'[' host || (has_byte b'[' port || has_byte b']' port))) [
      | inl brackets ↦ rw brackets no_address
      | inr none' ↦ rw none' (
          address host port (record {
            no_open = ground (arith, none');
            no_close = ground (arith, none');
            no_colon = h;
          }))
    ]

pub split_host_port-Split : (s : Str) → Split (split_host_port s)
unfolding split_host_port from_bracket
split_host_port-Split [] = no_address
split_host_port-Split (c ∷ s) = elim (Bool-cases (c == b'[')) [
  | inl opened ↦ rw opened (bracketed-Split _ (after_bracket-Behind (cut s b']').0 (cut s b']').1))
  | inr plain ↦ rw plain (plain_host-Split (c ∷ s) _ (cut_last-LastCut b':' (c ∷ s)))
]
