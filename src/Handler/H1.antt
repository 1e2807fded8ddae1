-- ===== src/Handler/H1.antt =====
-- The handler of the old backend (handler/h1.go). The reverse proxy is a parameter: the calls that it
-- makes on the response writer for a request. Writes do not fail, and the statistics are left out.
pub mod Cors
pub mod Answers
mod Tests
use api_proxy.Prelude.{ℕ, ◌+◌, ◌==◌, ◌&&◌, Bool, true, false, List, [], ◌∷◌, if◌then◌else◌, length}
use api_proxy.Text.{Str, bytes, has_prefix}
use api_proxy.Http.Header
use api_proxy.Http.Header.{Header}
use api_proxy.Http.Request.{Request}
use api_proxy.Http.Writer.{Writer, add_header, write_header, write}

-- A call of the reverse proxy on its writer.
pub data Call : Type 0 where
  set_call : (key value : Str) → Call
  add_call : (key value : Str) → Call
  status_call : ℕ → Call
  write_call : Str → Call

-- `h1ProxyResponseWriter`.
pub record H1Writer : Type 0 where
  pub inner : Writer
  pub header : Header
  pub status : ℕ
  pub written : ℕ

abbrev pub cors_prefix : Str
cors_prefix = bytes "Access-Control-"

abbrev pub proxy_error_payload : Str
proxy_error_payload =
    bytes
      "{\"status\":false,\"payload\":\"Internal low-level service failure, cannot complete request\",\"debug\":{\"errorCode\":\"proxy error\"},\"code\":11}"

unfoldable pub h1_write : Str → H1Writer → H1Writer
h1_write data' rw = record rw { inner = write rw.inner data'; written = rw.written + length data' }

-- The inner loop of `WriteHeader`.
unfoldable pub add_values : Str → List Str → Writer → Writer
add_values key [] w = w
add_values key (v ∷ vs) w = add_values key vs (add_header w key v)

-- The outer loop: all headers but those of CORS.
unfoldable pub copy_headers : Header → Writer → Writer
copy_headers [] w = w
copy_headers ((key, values) ∷ h) w =
    copy_headers h (if has_prefix key cors_prefix then w else add_values key values w)

unfoldable pub h1_write_header : ℕ → H1Writer → H1Writer
h1_write_header status rw = record rw {
  inner = write_header (copy_headers rw.header rw.inner) status;
  status = status;
}

unfoldable pub call : Call → H1Writer → H1Writer
unfolding h1_write h1_write_header
call (set_call key value) rw = record rw { header = Header.set rw.header key value }
call (add_call key value) rw = record rw { header = Header.add rw.header key value }
call (status_call status) rw = h1_write_header status rw
call (write_call data') rw = h1_write data' rw

unfoldable pub serve : List Call → H1Writer → H1Writer
serve [] rw = rw
serve (c ∷ calls) rw = serve calls (call c rw)

abbrev pub proxy_writer : Writer → H1Writer
proxy_writer w = record { inner = w; header = []; status = 0; written = 0 }

-- The default answer, if the proxy failed and wrote nothing.
unfoldable pub finish : H1Writer → H1Writer
unfolding h1_write
finish rw = if rw.status == 500 && rw.written == 0 then h1_write proxy_error_payload rw else rw

unfoldable pub h1_handler : (Request → List Call) → Writer → Request → Writer
unfolding serve finish
h1_handler proxy w r = (finish (serve (proxy r) (proxy_writer w))).inner
