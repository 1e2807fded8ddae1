-- ===== src/Handler/H1/Cors.antt =====
-- The old backend cannot change the CORS headers of a response.
use api_proxy.Prelude.{
  ℕ, ◌≡◌, refl, ap, sym, ◌∙◌, subst, true, false, Option, none, some, List, [], ◌∷◌, ◌++◌, All,
  Bool-cases, Option-cases, inl, inr, ◌&&◌, ◌==◌,
}
use api_proxy.Text.{Str, str_eq, has_prefix}
use api_proxy.Text.Laws.{str_eq_iff}
use api_proxy.Text.Maps.{lookup-insert, insert-All}
use api_proxy.Http.Header
use api_proxy.Http.Header.{Header, canonical_key}
use api_proxy.Http.Header.Canonical.{canonical_key_idem}
use api_proxy.Http.Request.{Request}
use api_proxy.Http.Writer.{Writer, add_header, write_header, write}
use api_proxy.Handler.H1.{
  Call, set_call, add_call, status_call, write_call, H1Writer, cors_prefix, proxy_error_payload,
  h1_write, add_values, copy_headers, h1_write_header, call, serve, proxy_writer, finish,
  h1_handler,
}

-- What was sent of a header's name, if anything was sent, is `vs`.
abbrev pub SentIs : Str → List Str → Option (ℕ × Header) → Type 0
SentIs key vs none = Unit
SentIs key vs (some (status, h)) = Header.values h key ≡ vs

-- The response's values of a header's name are `vs`, and so are those that were sent.
abbrev pub Has : Str → List Str → Writer → Type 0
Has key vs w = (Header.values w.header key ≡ vs) × SentIs key vs w.sent

-- Every key of the header is in its canonical form.
abbrev IsCanonical : Header → Type 0
IsCanonical h = All (λ (e : Str × List Str). canonical_key e.0 ≡ e.0) h

set-IsCanonical : (h : Header) (k v : Str) → IsCanonical h → IsCanonical (Header.set h k v)
unfolding Header.set
set-IsCanonical h k v c = insert-All _ (canonical_key k) (v ∷ []) h c (canonical_key_idem k)

add-IsCanonical : (h : Header) (k v : Str) → IsCanonical h → IsCanonical (Header.add h k v)
unfolding Header.add
add-IsCanonical h k v c =
    insert-All _ (canonical_key k) (Header.values h (canonical_key k) ++ v ∷ []) h c
      (canonical_key_idem k)

module _ (key : Str) (vs : List Str) (cors : has_prefix key cors_prefix ≡ true) where
  -- A key without the prefix is another one.
  other_key : (k : Str) → has_prefix k cors_prefix ≡ false → str_eq k key ≡ false
  other_key k plain = elim (Bool-cases (str_eq k key)) [
    | inr other ↦ other
    | inl same ↦
        let is : k ≡ key = (str_eq_iff k key).0 same in
        absurd (clash (sym cors ∙ (ap (λ j. has_prefix j cors_prefix) (sym is) ∙ plain)))
  ]
    where
      clash : true ≡ false → ⊥
      clash e = cc

  add_header-Has :
      (w : Writer) (k v : Str)
      → canonical_key k ≡ k
      → has_prefix k cors_prefix ≡ false
      → Has key vs w
      → Has key vs (add_header w k v)
  unfolding add_header Header.add Header.values
  add_header-Has w k v canonical plain (here, sent) = (
    rw
        (
          lookup-insert (canonical_key k) key (Header.values w.header (canonical_key k) ++ v ∷ [])
              w.header,
          Header.values,
        )
        (rw canonical (rw (other_key k plain) here)),
    sent,
  )

  add_values-Has :
      (k : Str) (values : List Str) (w : Writer)
      → canonical_key k ≡ k
      → has_prefix k cors_prefix ≡ false
      → Has key vs w
      → Has key vs (add_values k values w)
  unfolding add_values
  add_values-Has k [] w canonical plain h = h
  add_values-Has k (v ∷ values) w canonical plain h =
      add_values-Has k values (add_header w k v) canonical plain
        (add_header-Has w k v canonical plain h)

  copy_headers-Has :
      (hs : Header) (w : Writer) → IsCanonical hs → Has key vs w → Has key vs (copy_headers hs w)
  unfolding copy_headers
  copy_headers-Has [] w c h = h
  copy_headers-Has ((k, values) ∷ hs) w (canonical, c) h =
      elim (Bool-cases (has_prefix k cors_prefix)) [
        | inl filtered ↦ rw (filtered, copy_headers) (copy_headers-Has hs w c h)
        | inr plain ↦
            rw (plain, copy_headers)
              (copy_headers-Has hs (add_values k values w) c
                (add_values-Has k values w canonical plain h))
      ]

  write_header-Has : (w : Writer) (status : ℕ) → Has key vs w → Has key vs (write_header w status)
  unfolding write_header
  write_header-Has w status (here, sent) = elim (Option-cases w.sent) [
    | inl unsent ↦ rw (unsent, write_header) (here, here)
    | inr (x, is) ↦ rw (is, write_header) (here, sent)
  ]

  write-Has : (w : Writer) (s : Str) → Has key vs w → Has key vs (write w s)
  unfolding write
  write-Has w s h = write_header-Has w 200 h

  call-Has :
      (c : Call) (rw' : H1Writer)
      → IsCanonical rw'.header × Has key vs rw'.inner
      → IsCanonical (call c rw').header × Has key vs (call c rw').inner
  unfolding call h1_write h1_write_header
  call-Has (set_call k v) rw' (c, h) = (set-IsCanonical rw'.header k v c, h)
  call-Has (add_call k v) rw' (c, h) = (add-IsCanonical rw'.header k v c, h)
  call-Has (status_call status) rw' (c, h) = (
    c,
    write_header-Has (copy_headers rw'.header rw'.inner) status
        (copy_headers-Has rw'.header rw'.inner c h),
  )
  call-Has (write_call s) rw' (c, h) = (c, write-Has rw'.inner s h)

  serve-Has :
      (calls : List Call) (rw' : H1Writer)
      → IsCanonical rw'.header × Has key vs rw'.inner
      → Has key vs (serve calls rw').inner
  unfolding serve
  serve-Has [] rw' (c, h) = h
  serve-Has (x ∷ calls) rw' h = serve-Has calls (call x rw') (call-Has x rw' h)

  finish-Has : (rw' : H1Writer) → Has key vs rw'.inner → Has key vs (finish rw').inner
  unfolding finish h1_write
  finish-Has rw' h = elim (Bool-cases (rw'.status == 500 && rw'.written == 0)) [
    | inl failed ↦ rw failed (write-Has rw'.inner proxy_error_payload h)
    | inr fine ↦ rw fine h
  ]

-- Whatever calls the reverse proxy makes on its writer, the values of a CORS header in the response
-- are those that it had before, and so are those that are sent.
pub h1_handler-Has :
    (key : Str) (proxy : Request → List Call) (w : Writer) (r : Request)
    → has_prefix key cors_prefix ≡ true
    → w.sent ≡ none
    → Has key (Header.values w.header key) (h1_handler proxy w r)
unfolding h1_handler
h1_handler-Has key proxy w r cors unsent =
    let vs = Header.values w.header key in
    finish-Has key vs cors (serve (proxy r) (proxy_writer w)) (
      serve-Has key vs cors (proxy r) (proxy_writer w)
        (tt, (refl, subst (SentIs key vs) (sym unsent) tt)))
