-- ===== src/Http/Writer/Laws.antt =====
-- What is sent of a response: the first status and the header at that time.
use api_proxy.Prelude.{ℕ, ◌≡◌, refl, none, some, ◌++◌, Option-cases, inl, inr}
use api_proxy.Text.{Str}
use api_proxy.Http.Header.{Header}
use api_proxy.Http.Writer.{Writer, write_header, write}

pub sent-write_header :
    (w : Writer) (status : ℕ)
    → w.sent ≡ none
    → (write_header w status).sent ≡ some (status, w.header)
unfolding write_header
sent-write_header w status unsent = rw (unsent, write_header)

pub write_header-sent :
    (w : Writer) (status : ℕ) {x : ℕ × Header}
    → w.sent ≡ some x
    → (write_header w status).sent ≡ some x
unfolding write_header
write_header-sent w status sent = rw (sent, write_header) sent

pub sent-write :
    (w : Writer) (s : Str) {x : ℕ × Header} → w.sent ≡ some x → (write w s).sent ≡ some x
unfolding write
sent-write w s sent = write_header-sent w 200 sent

pub sent-write_unsent :
    (w : Writer) (s : Str) → w.sent ≡ none → (write w s).sent ≡ some (200, w.header)
unfolding write
sent-write_unsent w s unsent = sent-write_header w 200 unsent

pub body-write : (w : Writer) (s : Str) → (write w s).body ≡ w.body ++ s
unfolding write
body-write w s = refl

pub body-write_header : (w : Writer) (status : ℕ) → (write_header w status).body ≡ w.body
unfolding write_header
body-write_header w status = elim (Option-cases w.sent) [
  | inl unsent ↦ rw (unsent, write_header) refl
  | inr (s, sent) ↦ rw (sent, write_header) refl
]
