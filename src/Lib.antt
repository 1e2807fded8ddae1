-- ===== src/Lib.antt =====
-- The API proxy: the process that takes every inbound request of the apps, and serves it from the old
-- backend (H1), from the services behind the message broker (H2), or with a refusal.
--
-- The parts, and the files that model them (paths from the repository's root):
--   * controlplane/: rules choose the backend, regions choose the host name. ControlPlane.Types is
--     types.go; ControlPlane.Rules is rules.go (`sort`, `less`, `matches`, `sample`, `hash_sample`,
--     `within_csv`); ControlPlane.Regions is regions.go; ControlPlane.HostMap is citymapping.go;
--     ControlPlane.Extractor is extractor.go (the lazy reading of a request, with the body, the form
--     and the query string that it leaves behind); ControlPlane.Router is router.go (`route`,
--     `get_hob_mode`, `region`, `correct_hostname`, `force_route`); ControlPlane.Config is the load
--     cycle of controlplane.go, and the start in ControlPlane.Config.StartUp.
--   * session/session.go: the session ID of a request, in Session. The extractor calls it.
--   * statusmonitor/: the health of the availability zone, with the failover lock in ZooKeeper, in
--     StatusMonitor (State is types.go, Response is statusmonitor.go, ZooKeeper is zk.go). Several
--     instances that share the lock run as interleaved steps in StatusMonitor.Zones.
--   * handler/throttling.go and handler/throttlesync.go: the goroutines that count the requests of a
--     throttling bucket, as interleaved atomic steps, and the check of a request, in Throttling. What
--     the proofs follow there is an account of one bucket (Ledger) beside the run.
--   * handler/handler.go, throttle.go and deprecate.go: the dispatch of a request by the router's
--     answers, the refusals and the pinning headers, in Handler. handler/h1.go is Handler.H1, over the
--     calls that the reverse proxy makes on its writer. handler/h2rpc.go is Handler.Rpc, over a record
--     of what it uses of the platform's packages. handler/cors.go and handler/pcifilter.go are
--     Handler.Cors and Handler.Pci, over the next handler. handler/h2.go is Handler.H2, over a
--     record of what it uses of the platform's packages, with `pathToEndpoint` in Handler.Endpoint and
--     handler/marshaling.go in Handler.Marshal; handler/endpoints.go is Handler.EndpointsPage.
--     handler/server.go is Handler.Server (the chain of handlers) with Handler.Mux,
--     handler/realip.go is Handler.RealIp, and handler/common.go is Handler.Common.
--   * stats/ and healthcheck/healthcheck.go: the rates of an endpoint and the checks of them, in Stats
--     and HealthCheck; the checks that main.go makes are in HealthCheck.Watched.
--   * hostmapping/hostmapping.go: the host name of the old backend, in HostMapping.
--   * errors/errors.go and trace/trace.go: how an error is answered, and which requests are traced, in
--     Errors and Trace.
--   * Text and Http model what these use of the language's library: strings as lists of bytes, maps,
--     headers, query strings, forms, media types and the response writer.
--
-- How code becomes definitions. A method that changes its receiver returns the changed receiver; an
-- error is a value, and a panic is `none` or a constructor of its own. Maps are association lists,
-- and a map that the source ranges over carries its order, so that what holds for every list holds
-- for every order of iteration; the two header extractors of session.go have their order as an
-- argument (`Order`). A float32 counts units of 2^-149, which is exact, and
-- sums, products and quotients are rounded to 24 bits. Random rolls, the clock, the outcome of
-- dials, the reply of the throttling service and the answers of the config and the monitoring
-- service are arguments. The ZooKeeper client is a record parameter with what it documents of one
-- node while the sessions last; its calls may fail, and where a theorem needs that they do not,
-- `Reliable` says so; the hash of the configuration is a function parameter.
--
-- Bounds. Fuel serves the printing of a number (one more than the number, which has fewer digits) and
-- the count of its binary digits (512; a product or a quotient of finite float32s has fewer). Every
-- other loop is structural in the list that it ranges over, and the unbounded loops
-- (the load cycle, the monitor, the goroutines) run over a list of the rounds or events that happen.
-- `sort` is the insertion sort that the library uses below its threshold of twelve elements; of a
-- longer slice the library only promises an order that `IsSorted` describes.
-- A counter wraps at 2^64.
--
-- Not modelled: the listener and the tombs of the server, the set-up of the reverse proxy, the
-- counters of the handlers, the registration of the health checks and the start of the process; the
-- generated code; logging everywhere. The JSON of the configuration is decoded outside the model.
pub mod Prelude
pub mod Text
pub mod Http
pub mod Session
pub mod ControlPlane
pub mod StatusMonitor
pub mod Throttling
pub mod HostMapping
pub mod Trace
pub mod Errors
pub mod Stats
pub mod HealthCheck
pub mod Handler
