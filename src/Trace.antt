-- ===== src/Trace.antt =====
-- Which requests are traced (trace/trace.go). Whether the random choice falls on a request and the
-- identifier that would be minted are arguments; the event that is sent is left out.
use api_proxy.Prelude.{Bool, not, ◌||◌, ◌&&◌, if◌then◌else◌}
use api_proxy.Text.{Str, bytes, str_eq, is_blank}
use api_proxy.Http.Header
use api_proxy.Http.Request.{Request}
use api_proxy.Http.Writer.{Writer, set_header}

-- `APITraceInfo`.
pub record TraceInfo : Type 0 where
  pub trace_id : Str
  pub persistent : Bool

abbrev pub trace_header : Str
trace_header = bytes "X-H-TRACEID"

unfoldable pub start : Bool → Str → Request → TraceInfo
start rolled uuid r =
    let id = Header.get r.header trace_header in
    let user = str_eq (Header.get r.header (bytes "X-H-TRACE")) (bytes "1") || not (is_blank id) in
    record { trace_id = if (user || rolled) && is_blank id then uuid else id; persistent = user }

-- `trace.Write`.
unfoldable pub write_trace : TraceInfo → Writer → Writer
write_trace info w = if is_blank info.trace_id then w else set_header w trace_header info.trace_id
