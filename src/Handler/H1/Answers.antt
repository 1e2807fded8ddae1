-- ===== src/Handler/H1/Answers.antt =====
-- The body that a client is sent of the old backend's response.
use api_proxy.Prelude.{
  ℕ, ◌≡◌, refl, ap, sym, ◌∙◌, Bool, true, false, List, [], ◌∷◌, ◌++◌, if◌then◌else◌, Bool-cases,
  inl, inr, arith, ◌&&◌, ◌==◌, ◌+◌, length, length-append,
}
use mathlib.Core.List.{append_assoc}
use api_proxy.Text.{Str, has_prefix}
use api_proxy.Http.Header.{Header}
use api_proxy.Http.Request.{Request}
use api_proxy.Http.Writer.{Writer, add_header}
use api_proxy.Http.Writer.Laws.{body-write, body-write_header}
use api_proxy.Handler.H1.{
  Call, set_call, add_call, status_call, write_call, H1Writer, cors_prefix, proxy_error_payload,
  h1_write, add_values, copy_headers, h1_write_header, call, serve, proxy_writer, finish,
  h1_handler,
}

-- All that the calls write.
abbrev pub texts : List Call → Str
texts [] = []
texts (write_call s ∷ calls) = s ++ texts calls
texts (_ ∷ calls) = texts calls

-- The last status that the calls give, or else `status`.
abbrev pub last_status : ℕ → List Call → ℕ
last_status status [] = status
last_status status (status_call n ∷ calls) = last_status n calls
last_status status (_ ∷ calls) = last_status status calls

add_values-body : (k : Str) (vs : List Str) (w : Writer) → (add_values k vs w).body ≡ w.body
unfolding add_values add_header
add_values-body k [] w = refl
add_values-body k (v ∷ vs) w = add_values-body k vs _

copy_headers-body : (hs : Header) (w : Writer) → (copy_headers hs w).body ≡ w.body
unfolding copy_headers
copy_headers-body [] w = refl
copy_headers-body ((k, vs) ∷ hs) w = elim (Bool-cases (has_prefix k cors_prefix)) [
  | inl filtered ↦ rw (filtered, copy_headers) (copy_headers-body hs w)
  | inr plain ↦
      rw (plain, copy_headers) (copy_headers-body hs (add_values k vs w) ∙ add_values-body k vs w)
]

-- What a writer holds after calls that wrote `s`, from the writer before them.
record Adds (s : Str) (status : ℕ) (before after : H1Writer) : Type 0 where
  body : after.inner.body ≡ before.inner.body ++ s
  written : after.written ≡ before.written + length s
  last : after.status ≡ status

append_blank : (s : Str) → s ++ [] ≡ s
append_blank [] = refl
append_blank (c ∷ s) = ap (λ t. c ∷ t) (append_blank s)

serve-Adds :
    (calls : List Call) (rw' : H1Writer)
    → Adds (texts calls) (last_status rw'.status calls) rw' (serve calls rw')
unfolding serve call h1_write h1_write_header
serve-Adds [] rw' = record {
  body = sym (append_blank rw'.inner.body);
  written = omega arith;
  last = refl;
}
serve-Adds (set_call k v ∷ calls) rw' =
    let a = serve-Adds calls (call (set_call k v) rw') in
    record { body = a.body; written = a.written; last = a.last }
serve-Adds (add_call k v ∷ calls) rw' =
    let a = serve-Adds calls (call (add_call k v) rw') in
    record { body = a.body; written = a.written; last = a.last }
serve-Adds (status_call n ∷ calls) rw' =
    let a = serve-Adds calls (h1_write_header n rw') in
    record {
      body =
          a.body
          ∙ ap (λ b. b ++ texts calls)
              (body-write_header (copy_headers rw'.header rw'.inner) n
                ∙ copy_headers-body rw'.header rw'.inner);
      written = a.written;
      last = a.last;
    }
serve-Adds (write_call s ∷ calls) rw' =
    let a = serve-Adds calls (h1_write s rw') in
    record {
      body =
          a.body
          ∙ (ap (λ b. b ++ texts calls) (body-write rw'.inner s)
              ∙ append_assoc rw'.inner.body s (texts calls));
      written = omega (arith, a.written, length-append s (texts calls));
      last = a.last;
    }

-- What the handler adds if the proxy failed without a word.
abbrev pub default_text : ℕ → Str → Str
default_text status text = if status == 500 && length text == 0 then proxy_error_payload else []

finish-body :
    (rw' : H1Writer) (status n : ℕ)
    → rw'.status ≡ status
    → rw'.written ≡ n
    → (finish rw').inner.body
      ≡ rw'.inner.body ++ (if status == 500 && n == 0 then proxy_error_payload else [])
unfolding finish h1_write
finish-body rw' status n is wrote =
    rw (← is) (rw (← wrote) (by_test (rw'.status == 500 && rw'.written == 0)))
  where
    by_test :
        (b : Bool)
        → (if b then h1_write proxy_error_payload rw' else rw').inner.body
          ≡ rw'.inner.body ++ (if b then proxy_error_payload else [])
    by_test true = body-write rw'.inner proxy_error_payload
    by_test false = sym (append_blank rw'.inner.body)

-- The client is sent all that the reverse proxy writes, in order, and nothing else; only if the last
-- status that the proxy gave is 500 and it wrote nothing is it sent the standard failure.
pub h1_handler-body :
    (proxy : Request → List Call) (w : Writer) (r : Request)
    → (h1_handler proxy w r).body
      ≡ (w.body ++ texts (proxy r)) ++ default_text (last_status 0 (proxy r)) (texts (proxy r))
unfolding h1_handler
h1_handler-body proxy w r =
    let a = serve-Adds (proxy r) (proxy_writer w) in
    finish-body (serve (proxy r) (proxy_writer w)) (last_status 0 (proxy r))
      (length (texts (proxy r))) a.last (omega (arith, a.written))
    ∙ ap (λ b. b ++ default_text (last_status 0 (proxy r)) (texts (proxy r))) a.body
