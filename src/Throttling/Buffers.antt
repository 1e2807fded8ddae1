-- ===== src/Throttling/Buffers.antt =====
-- What holds of the buffers between two steps: a counter belongs to one key, the buffer that is
-- reported and the one that is filled share none, and the ingester never overwrites a count.
use api_proxy.Prelude.{
  ℕ, ◌≡◌, ◌≢◌, ◌≤◌, ◌<◌, sym, ◌∙◌, subst, none, [], if◌then◌else◌, ◌==◌, inl, inr, ◌⊎◌, All,
  All-map, arith,
}
use api_proxy.Text.{Str}
use api_proxy.Text.Maps.{lookup, Distinct}
use api_proxy.Throttling.State.{
  Buffer, Shared, Ingester, idle, received, loaded, copying, copied, Synchroniser, put,
}
use api_proxy.Throttling.Ledger.{unread}

-- Every counter of the buffer belongs to its key and has an address from `lo` and below `hi`.
abbrev pub Good : (ℕ → Str) → ℕ → ℕ → Buffer → Type 0
Good owner lo hi m = All (λ (e : Str × ℕ). (owner e.1 ≡ e.0) × (lo ≤ e.1) × (e.1 < hi)) m

-- The pointer that the ingester loaded is still current, or the buffer was swapped since and is empty.
abbrev pub Held : ℕ → Buffer → ℕ → Buffer → Type 0
Held current buffer p buf = ((p ≡ current) × (buf ≡ buffer)) ⊎ ((p ≢ current) × (buffer ≡ []))

-- The same, with the new counter above `base` if the pointer is current.
abbrev pub HeldCopy : ℕ → ℕ → Buffer → ℕ → Buffer → ℕ → Type 0
HeldCopy base current buffer p buf one =
    ((p ≡ current) × (buf ≡ buffer) × (base ≤ one)) ⊎ ((p ≢ current) × (buffer ≡ []))

abbrev pub IngesterOk : (ℕ → Str) → ℕ → ℕ → Buffer → (ℕ → ℕ) → ℕ → Ingester → Type 0
IngesterOk owner base current buffer counters next idle = Unit
IngesterOk owner base current buffer counters next (received key) = Unit
IngesterOk owner base current buffer counters next (loaded key p buf) =
    Held current buffer p buf × (p < next) × Good owner 0 next buf
IngesterOk owner base current buffer counters next (copying key p buf) =
    Held current buffer p buf × (p < next) × (lookup key buf ≡ none)
IngesterOk owner base current buffer counters next (copied key p buf one) =
    HeldCopy base current buffer p buf one
    × (p < next)
    × (lookup key buf ≡ none)
    × (counters one ≡ 1)
    × (owner one ≡ key)
    × (one < next)

pub record Inv (s : Shared) (i : Ingester) (y : Synchroniser) : Type 0 where
  pub owner : ℕ → Str
  pub base : ℕ
  pub base_le : base ≤ s.next
  pub current_lt : s.current < s.next
  pub filled : Good owner base s.next s.buffer
  pub filled_once : Distinct s.buffer
  pub reported : Good owner 0 base (unread y)
  pub reported_once : Distinct (unread y)
  pub ingester : IngesterOk owner base s.current s.buffer s.counters s.next i

pub Good-widen :
    (owner : ℕ → Str) (lo hi lo' hi' : ℕ) (m : Buffer)
    → lo' ≤ lo
    → hi ≤ hi'
    → Good owner lo hi m
    → Good owner lo' hi' m
Good-widen owner lo hi lo' hi' m h k g =
    All-map (λ e (o, above, below). (o, omega arith, omega arith)) m g

-- A new owner of an address that is above all addresses of the buffer.
unfoldable pub give : (ℕ → Str) → ℕ → Str → ℕ → Str
give owner a key b = if b == a then key else owner b

pub give_other :
    (owner : ℕ → Str) (a : ℕ) (key : Str) (b : ℕ) → b < a → give owner a key b ≡ owner b
unfolding give
give_other owner a key b h = ground arith

pub give_self : (owner : ℕ → Str) (a : ℕ) (key : Str) → give owner a key a ≡ key
unfolding give
give_self owner a key = ground arith

pub put_self : (c : ℕ → ℕ) (a v : ℕ) → put c a v a ≡ v
unfolding put
put_self c a v = ground arith

pub put_other : (c : ℕ → ℕ) (a v b : ℕ) → b ≢ a → put c a v b ≡ c b
unfolding put
put_other c a v b h = ground arith

pub Good-give :
    (owner : ℕ → Str) (lo hi a : ℕ) (key : Str) (m : Buffer)
    → hi ≤ a
    → Good owner lo hi m
    → Good (give owner a key) lo hi m
Good-give owner lo hi a key m h g =
    All-map (λ e (o, above, below). (give_other owner a key e.1 (omega arith) ∙ o, above, below)) m
      g

pub Held-copy :
    (base current : ℕ) (buffer : Buffer) (p : ℕ) (buf : Buffer) (one : ℕ)
    → base ≤ one
    → Held current buffer p buf
    → HeldCopy base current buffer p buf one
Held-copy base current buffer p buf one h (inl (same, is)) = inl (same, is, h)
Held-copy base current buffer p buf one h (inr lost) = inr lost

-- A step that leaves the buffer and the supply alone.
pub keep :
    {s : Shared} {i : Ingester} {y : Synchroniser} (i' : Ingester) (y' : Synchroniser) (s' : Shared)
    (v : Inv s i y)
    → s' ≡ record s { queue = s'.queue; counters = s'.counters; throttled = s'.throttled }
    → IngesterOk v.owner v.base s.current s.buffer s'.counters s.next i'
    → Good v.owner 0 v.base (unread y')
    → Distinct (unread y')
    → Inv s' i' y'
keep {s} i' y' s' v same ok good once =
    subst (λ t. Inv t i' y') (sym same)
      (record {
        owner = v.owner;
        base = v.base;
        base_le = v.base_le;
        current_lt = v.current_lt;
        filled = v.filled;
        filled_once = v.filled_once;
        reported = good;
        reported_once = once;
        ingester = ok;
      })
