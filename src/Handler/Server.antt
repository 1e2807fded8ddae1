-- ===== src/Handler/Server.antt =====
-- The chain of handlers in front of the mux, and what the mux serves (handler/server.go). The pages of
-- net/http/pprof and the redirection are parameters; the tombs, the timeouts and the listener are left
-- out.
pub mod Chain
pub mod Slash
mod Tests
use api_proxy.Prelude.{
  ℕ, Bool, true, false, not, ◌&&◌, Option, none, some, List, [], ◌∷◌, ◌++◌, if◌then◌else◌,
}
use api_proxy.Text.{Str, bytes, str_eq}
use api_proxy.Http.Request.{Request}
use api_proxy.Http.Writer.{Writer, set_header, write, write_header}
use api_proxy.Session.{Order}
use api_proxy.Trace
use api_proxy.ControlPlane.Types.{Float32}
use api_proxy.ControlPlane.Router.{Config}
use api_proxy.ControlPlane.Config.{ControlPlane}
use api_proxy.StatusMonitor.State.{StatusMonitor}
use api_proxy.StatusMonitor.Response
use api_proxy.StatusMonitor.Response.{http_error}
use api_proxy.Throttling.State.{Shared}
use api_proxy.Throttling.Request.{serve_http}
use api_proxy.Handler.Dispatch
use api_proxy.Handler.H1
use api_proxy.Handler.H1.{h1_handler}
use api_proxy.Handler.H2.{Backend, h2_handler}
use api_proxy.Handler.Rpc
use api_proxy.Handler.Rpc.{Platform}
use api_proxy.Handler.Marshal.{Ranges}
use api_proxy.Handler.EndpointsPage.{Reply, endpoints_handler}
use api_proxy.Handler.Cors.{serve_cors}
use api_proxy.Handler.Pci.{serve_pci}
use api_proxy.Handler.RealIp.{serve_real_ip}
use api_proxy.Handler.Mux.{clean_path, matched}

-- What a pattern of the mux leads to. The pattern without a slash at the end is the mux's own, beside
-- the one that has it.
pub data Page : Type 0 where
  version favicon pprof_index pprof_cmdline pprof_profile pprof_symbol pprof_redirect : Page
  rpc main az_status status endpoints : Page

-- The patterns in the order of `initServeMux`.
abbrev pub patterns : List (Str × Page)
patterns =
    (bytes "/version", version)
    ∷ (bytes "/favicon.ico", favicon)
    ∷ (bytes "/debug/pprof/", pprof_index)
    ∷ (bytes "/debug/pprof", pprof_redirect)
    ∷ (bytes "/debug/pprof/cmdline", pprof_cmdline)
    ∷ (bytes "/debug/pprof/profile", pprof_profile)
    ∷ (bytes "/debug/pprof/symbol", pprof_symbol)
    ∷ (bytes "/rpc", rpc)
    ∷ (bytes "/v2/h2/call", rpc)
    ∷ (bytes "/", main)
    ∷ (bytes "/v2/az/status", az_status)
    ∷ (bytes "/status", status)
    ∷ (bytes "/endpoints", endpoints)
    ∷ []

-- The handlers behind the patterns.
pub record Handlers : Type 0 where
  pub version_text : Str
  pub favicon_bytes : Str
  pub pprof : Page → Writer → Request → Writer
  pub redirect : (path : Str) → Writer → Request → Writer
  pub rpc_handler : Writer → Request → Writer
  pub main_handler : Writer → Request → Writer
  pub monitor_handler : Writer → Writer
  pub status_handler : Writer → Writer
  pub endpoints_handler : Writer → Request → Writer

abbrev pub version_json : Str → Str
version_json v = bytes "{\"version\":\"" ++ (v ++ bytes "\"}")

module _ (site : Handlers) where
  unfoldable pub serve_page : Page → Writer → Request → Writer
  serve_page version w r = write w (version_json site.version_text)
  serve_page favicon w r =
      write (set_header w (bytes "Content-Type") (bytes "image/png")) site.favicon_bytes
  serve_page pprof_index w r = site.pprof pprof_index w r
  serve_page pprof_cmdline w r = site.pprof pprof_cmdline w r
  serve_page pprof_profile w r = site.pprof pprof_profile w r
  serve_page pprof_symbol w r = site.pprof pprof_symbol w r
  serve_page pprof_redirect w r = site.redirect (bytes "/debug/pprof/") w r
  serve_page rpc w r = site.rpc_handler w r
  serve_page main w r = site.main_handler w r
  serve_page az_status w r = site.monitor_handler w
  serve_page status w r = site.status_handler w
  serve_page endpoints w r = site.endpoints_handler w r

  unfoldable pub serve_found : Option (Str × Page) → Writer → Request → Writer
  unfolding serve_page
  serve_found none w r = http_error w (bytes "404 page not found") 404
  serve_found (some (pattern, page)) w r = serve_page page w r

  -- A request for "*" (of a client of HTTP/1.1) is refused; only a request to connect may have a path
  -- that is not clean.
  unfoldable pub serve_mux : Writer → Request → Writer
  unfolding serve_found
  serve_mux w r =
      if str_eq r.path (bytes "*")
      then write_header (set_header w (bytes "Connection") (bytes "close")) 400
      else if not (str_eq r.method (bytes "CONNECT")) && not (str_eq (clean_path r.path) r.path)
      then site.redirect (clean_path r.path) w r
      else serve_found (matched patterns r.path) w r

  -- The chain of `NewServer`: the address, the throttling, the sensitive requests, CORS, the mux.
  unfoldable pub serve :
      Order → (throttled paths : List Str) → Writer → Request → Shared → Shared × Writer
  serve order throttled paths w r s =
      serve_real_ip
        (λ w' r'. serve_http (serve_pci (serve_cors serve_mux) paths) order throttled w' r' s) w r

-- What a request finds: the loaded data as each part reads it, and the world outside.
pub record World : Type 0 where
  pub platform : Platform
  pub backend : Backend
  pub proxy : Request → List H1.Call
  pub order : Order
  pub ranges : Ranges
  pub roll : ℕ → Float32
  pub rolled : Bool
  pub uuid : Str
  pub config : Config
  pub control : ControlPlane
  pub monitor : StatusMonitor
  pub dials : List (Option Str)
  pub to_json : Reply → Str
  pub version_text : Str
  pub favicon_bytes : Str
  pub pprof : Page → Writer → Request → Writer
  pub redirect : (path : Str) → Writer → Request → Writer

-- The handlers that `initServeMux` registers, while the configuration is not replaced.
abbrev pub handlers : World → Handlers
handlers a = record {
  version_text = a.version_text;
  favicon_bytes = a.favicon_bytes;
  pprof = a.pprof;
  redirect = a.redirect;
  rpc_handler =
      Dispatch.rpc_handler
        (λ w r. (Rpc.rpc_handler a.platform a.order (Trace.start a.rolled a.uuid r) w r).0) a.order
        a.config;
  main_handler =
      Dispatch.handler (h1_handler a.proxy)
        (λ w e.
          (h2_handler a.backend a.order a.order a.ranges a.config
            (Trace.start a.rolled a.uuid e.req) w e).writer)
        a.order a.roll a.config a.config a.config;
  monitor_handler = Response.handler a.monitor;
  status_handler = Response.status_handler a.dials;
  endpoints_handler = endpoints_handler a.to_json a.order a.config a.control;
}
