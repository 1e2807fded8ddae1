-- ===== src/Throttling/Accounting.antt =====
-- Where the requests of a bucket go: the account balances in every state that is reached.
use api_proxy.Prelude.{
  ℕ, ◌+◌, ◌%◌, ◌^◌, ◌≡◌, ◌≤◌, ◌<◌, refl, sym, ◌∙◌, subst, Bool, true, false, some, if◌then◌else◌,
  inl, inr, Bool-cases, Option-cases, arith, ◌||◌, ◌&&◌, not,
}
use api_proxy.Text.{Str, str_eq}
use api_proxy.Text.Laws.{str_eq_iff}
use api_proxy.Text.Maps.{lookup, lookup-All_entry}
use api_proxy.Throttling.State.{Buffer, Shared, Ingester, idle, loaded, Synchroniser, put}
use api_proxy.Throttling.Ledger.{count_in, unread, one_if, pending, Ledger, holds, note_hit}
use api_proxy.Throttling.Buffers.{Good, Inv}

-- Every request that was taken from the channel is in one place.
abbrev pub Balance : Str → Shared → Ingester → Synchroniser → Ledger → Type 0
Balance k s i y l =
    l.taken
    ≡ pending k i
      + (count_in k s.buffer s.counters
          + (count_in k (unread y) s.counters + (l.sent + (l.lost + l.dropped))))

-- A counter set.
pub count_in-put :
    (k : Str) (m : Buffer) (c : ℕ → ℕ) (a v : ℕ)
    → count_in k m (put c a v) ≡ (if holds (lookup k m) a then v else count_in k m c)
unfolding count_in put holds
count_in-put k m c a v = elim (Option-cases (lookup k m)) [
  | inl missing ↦ rw (missing, count_in, holds)
  | inr (b, at) ↦ rw (at, count_in, holds)
]

count_in-holds :
    (k : Str) (m : Buffer) (c : ℕ → ℕ) (a : ℕ) → holds (lookup k m) a ≡ true → count_in k m c ≡ c a
unfolding count_in holds
count_in-holds k m c a h = elim (Option-cases (lookup k m)) [
  | inl missing ↦ ground (arith, missing)
  | inr (b, at) ↦ ground (arith, at)
]

-- An address that a buffer holds for a key is in the buffer's range, and the key owns it.
pub holds-Good :
    (owner : ℕ → Str) (lo hi : ℕ) (k : Str) (m : Buffer) (a : ℕ)
    → Good owner lo hi m
    → holds (lookup k m) a ≡ true
    → (owner a ≡ k) × (lo ≤ a) × (a < hi)
unfolding holds
holds-Good owner lo hi k m a good h = elim (Option-cases (lookup k m)) [
  | inl missing ↦ absurd (ground (arith, missing))
  | inr (b, at) ↦
      let here : b ≡ a = ground (arith, at) in
      subst (λ x. (owner x ≡ k) × (lo ≤ x) × (x < hi)) here
        (lookup-All_entry (λ (e : Str × ℕ). (owner e.1 ≡ e.0) × (lo ≤ e.1) × (e.1 < hi)) k m good
          at)
]

-- The arithmetic of an increment: of the bucket's key or not, of the buffer's counter, of the unread
-- one's, or of a counter that nobody reads.
hit_sum :
    (same filled left : Bool) (taken cb cu ca sent lost dropped : ℕ)
    → (filled ≡ true → same ≡ true)
    → (left ≡ true → same ≡ true)
    → (filled ≡ true → left ≡ false)
    → (filled ≡ true → cb ≡ ca)
    → (left ≡ true → cu ≡ ca)
    → taken < 2 ^ 64
    → taken ≡ one_if same + (cb + (cu + (sent + (lost + dropped))))
    → taken
      ≡ 0
        + ((if filled then (ca + 1) % 2 ^ 64 else cb)
            + ((if left then (ca + 1) % 2 ^ 64 else cu)
                + (sent + ((if same && not (filled || left) then lost + 1 else lost) + dropped))))
unfolding one_if
hit_sum true true true taken cb cu ca sent lost dropped f l apart eb eu small sum =
    absurd (true_false (apart refl))
  where
    true_false : true ≡ false → ⊥
    true_false e = cc
hit_sum true true false taken cb cu ca sent lost dropped f l apart eb eu small sum =
    let e = eb refl in omega arith
hit_sum true false true taken cb cu ca sent lost dropped f l apart eb eu small sum =
    let e = eu refl in omega arith
hit_sum true false false taken cb cu ca sent lost dropped f l apart eb eu small sum = omega arith
hit_sum false true left taken cb cu ca sent lost dropped f l apart eb eu small sum =
    absurd (false_true (f refl))
  where
    false_true : false ≡ true → ⊥
    false_true e = cc
hit_sum false false true taken cb cu ca sent lost dropped f l apart eb eu small sum =
    absurd (false_true (l refl))
  where
    false_true : false ≡ true → ⊥
    false_true e = cc
hit_sum false false false taken cb cu ca sent lost dropped f l apart eb eu small sum = omega arith

-- Whether an increment is lost.
abbrev pub is_lost : Str → ℕ → Str → Shared → Synchroniser → Bool
is_lost k a key s y =
    str_eq key k && not (holds (lookup k s.buffer) a || holds (lookup k (unread y)) a)

pub note_hit-fields :
    (k : Str) (a : ℕ) (key : Str) (s : Shared) (y : Synchroniser) (l : Ledger)
    → note_hit k (some a) key s y l
      ≡ record l { lost = if is_lost k a key s y then l.lost + 1 else l.lost }
unfolding note_hit
note_hit-fields k a key s y l = elim (Bool-cases (is_lost k a key s y)) [
  | inl gone ↦ rw gone refl
  | inr kept ↦ rw kept refl
]

pub note_read-fields :
    (k key : Str) (a : ℕ) (c : ℕ → ℕ) (l : Ledger)
    → (if str_eq key k then record l { sent = l.sent + c a } else l)
      ≡ record l { sent = if str_eq key k then l.sent + c a else l.sent }
note_read-fields k key a c l = elim (Bool-cases (str_eq key k)) [
  | inl same ↦ rw same refl
  | inr other ↦ rw other refl
]

pub hit-Balance :
    (k key : Str) (a p : ℕ) (buf : Buffer) (s : Shared) (y : Synchroniser) (l : Ledger)
    → lookup key buf ≡ some a
    → Inv s (loaded key p buf) y
    → l.taken < 2 ^ 64
    → Balance k s (loaded key p buf) y l
    → Balance k
        (record s { counters = put s.counters a ((s.counters a + 1) % 2 ^ 64) })
        idle
        y
        (note_hit k (some a) key s y l)
unfolding pending
hit-Balance k key a p buf s y l at v small sum =
    let (_, _, good) = v.ingester in
    let (mine, _, _) =
      lookup-All_entry (λ (e : Str × ℕ). (v.owner e.1 ≡ e.0) × (0 ≤ e.1) × (e.1 < s.next)) key buf
        good at in
    rw (note_hit-fields k a key s y l) (
      rw (count_in-put k s.buffer s.counters a ((s.counters a + 1) % 2 ^ 64)) (
        rw (count_in-put k (unread y) s.counters a ((s.counters a + 1) % 2 ^ 64)) (
          hit_sum (str_eq key k) (holds (lookup k s.buffer) a) (holds (lookup k (unread y)) a)
            l.taken (count_in k s.buffer s.counters) (count_in k (unread y) s.counters)
            (s.counters a) l.sent l.lost l.dropped
            (λ f.
              let (o, _, _) = holds-Good v.owner v.base s.next k s.buffer a v.filled f in
              (str_eq_iff key k).1 (sym mine ∙ o))
            (λ f.
              let (o, _, _) = holds-Good v.owner 0 v.base k (unread y) a v.reported f in
              (str_eq_iff key k).1 (sym mine ∙ o))
            (apart v) (count_in-holds k s.buffer s.counters a)
            (count_in-holds k (unread y) s.counters a) small sum)))
  where
    apart :
        Inv s (loaded key p buf) y
        → holds (lookup k s.buffer) a ≡ true
        → holds (lookup k (unread y)) a ≡ false
    apart v f = elim (Bool-cases (holds (lookup k (unread y)) a)) [
      | inr absent ↦ absent
      | inl there ↦
          let (_, above, _) = holds-Good v.owner v.base s.next k s.buffer a v.filled f in
          let (_, _, below) = holds-Good v.owner 0 v.base k (unread y) a v.reported there in
          absurd (omega arith)
    ]
