-- ===== src/Handler/Pci.antt =====
-- The filter of sensitive requests (handler/pcifilter.go). The paths of the loaded configuration are
-- an argument, and the next handler is a parameter. `Forward` is called by nothing.
pub mod Sensitive
mod Tests
use api_proxy.Prelude.{Bool, true, false, not, ◌&&◌, ◌||◌, List, [], ◌∷◌, ◌++◌, if◌then◌else◌}
use api_proxy.Text.{Str, bytes, str_eq}
use api_proxy.Http.Header
use api_proxy.Http.Request.{Request}
use api_proxy.Http.Writer.{Writer}
use api_proxy.StatusMonitor.Response.{http_error}

-- The method and the path, with a blank between them.
abbrev pub method_and_path : Request → Str
method_and_path r = r.method ++ (b' ' ∷ r.path)

-- Whether the set made by `loadConfig` has the text.
unfoldable pub is_listed : List Str → Str → Bool
is_listed [] s = false
is_listed (p ∷ ps) s = str_eq p s || is_listed ps s

unfoldable pub is_sensitive_request : List Str → Request → Bool
unfolding is_listed
is_sensitive_request paths r =
    is_listed paths (method_and_path r)
    && not (str_eq (Header.get r.header (bytes "X-Encrypted")) (bytes "true"))

abbrev pub sensitive_text : Str
sensitive_text = bytes "Sensitive requests should be sent to the secure API"

unfoldable pub serve_pci : (Writer → Request → Writer) → List Str → Writer → Request → Writer
serve_pci next paths w r =
    if is_sensitive_request paths r then http_error w sensitive_text 400 else next w r
