-- ===== src/Http/Writer.antt =====
-- http.ResponseWriter: the header map, what was sent of it, and the body.
pub mod Laws
use api_proxy.Prelude.{ℕ, Option, none, some, ◌++◌, [], ◌≡◌, refl}
use api_proxy.Text.{Str}
use api_proxy.Http.Header.{Header}
use api_proxy.Http.Header

pub record Writer : Type 0 where
  pub header : Header  -- Header()
  pub sent : Option (ℕ × Header)  -- the status, and the header as it stood when it was written
  pub body : Str

abbrev pub new_writer : Writer
new_writer = record { header = []; sent = none; body = [] }

unfoldable pub set_header : Writer → Str → Str → Writer
set_header w k v = record w { header = Header.set w.header k v }

unfoldable pub add_header : Writer → Str → Str → Writer
add_header w k v = record w { header = Header.add w.header k v }

-- `WriteHeader`: only the first call counts.
unfoldable pub write_header : Writer → ℕ → Writer
write_header w status = elim w.sent [
  | none ↦ record w { sent = some (status, w.header) }
  | some s ↦ w
]

-- `Write`: sends a 200 if no status was written.
unfoldable pub write : Writer → Str → Writer
unfolding write_header
write w s = record (write_header w 200) { body = w.body ++ s }
