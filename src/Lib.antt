-- ===== src/Lib.antt =====
-- golancer, an HTTP load balancer in Go: its core as executable definitions, and what makes it
-- correct.
--
-- The program starts from a configuration file, which is validated as a whole. Its backends fill a
-- registry, which the registration API changes and the prober marks healthy or unhealthy. The proxy
-- asks a selector for a healthy backend for each request, forwards the request there, and fails
-- over to another selection if the backend cannot be reached.
--
-- Files, with the code that they are about, from the root of the repository:
--   Domain      internal/domain/backend.go: Backend, in memory cells that are shared by pointer
--   Registry    internal/backend/registry.go: Registry and its operations. An operation takes the
--               registry with the heap and returns it; Registry/Invariant states what is valid,
--               and Registry/Writers has the writers in the steps between which others may run
--   Balancer    internal/balancer: GetServer of round robin (round_robin, with the counter passed
--               explicitly), least connections and random, and GetServerForKey of the hash selector
--   Prober      internal/health/prober.go: record is record_result, with its two branches success and
--               failure; probeRound is probe_round, ProbeOnce probe_once, and Run run, over the ticks
--               that it receives until its context ends
--   Http        the requests, headers and texts of the Go library that the proxy reads
--   Proxy       internal/proxy/proxy.go: ClientIP, setForwarded; Proxy/Handler has ServeHTTP
--   Config      internal/config/types.go and validate.go: Validate gives the list of errors;
--               Config/Load has internal/config/load.go, and Config/Serving the proxy as it is configured
--   Handlers    internal/handlers: the registration API (register, deregister, list) and readyz
--   Middleware  internal/bootstrap/middleware.go: chain, bearerAuth, limitBody, requestMetrics and
--               statusRecorder, and the order in which runner.go puts them before the API
--   System      what runs at the same time: the requests, the registration API and the prober as a step
--               relation, one step for each atomic operation on what they share
--   Bootstrap   internal/bootstrap/runner.go and server.go, internal/server/server.go: Run up to the
--               listeners is boot, with the servers and the routes that they serve; Bootstrap/Shutdown
--               has the rest of Run: the goroutines of startServer, the signal and wg.Wait
--   Service     one request at one of the servers: the middleware, the mux (serve_mux), the handlers behind
--               the routes (serve_endpoint), what is written, and the state that is left. What the
--               proxy writes includes the informational statuses that it passes on (early_writes)
--               and the hijack of an upgrade (reply_writes)
--   Simulator   scripts/simulate_server/main.go: the simulated backends, their flags and how they claim
--               their ports
--   Runner      scripts/run/main.go: the processes that the runner starts, its error group, and freePort
--   Prelude     lists, tests and integers that the components share; Prelude/Run is the outcome of code
--               that may panic
--   Fixtures    concrete data for the tests, which stand in the Tests module of each component
--
-- State is passed explicitly. A call that may panic at run time has a result in Run. A uint32 is
-- taken modulo 2 ^ 32 and a uint64 modulo 2 ^ 64 where the code computes, an int32 is its bit
-- pattern, the int64 of the flag -id of the simulated server wraps around, and any other Go int or
-- int64 is an integer without bounds. Errors are values: none for
-- ErrNoBackends, a constructor for each error of Validate. No definition runs on fuel: the loop of
-- ServeHTTP recurs on the number of rounds that the retries allow, listenWhenFree on its 50
-- attempts, and every other loop on its list. The printer that parsePorts and portPIDs are
-- compared with takes the number of digits: 5, enough for every port, and 10, enough for every
-- process ID below 2 ^ 31.
--
-- What runs at the same time as an operation enters as an argument: the round trip of one attempt
-- (forward of Env) returns the state that other requests, the prober and the API leave behind, and
-- so does meanwhile for the probes of a round. The theorems about the proxy are stated for every
-- invariant that these keep; System instantiates them with the states that its steps reach.
--
-- Parameters, since their code is not in the repository: URLs (UrlLib), addresses (NetLib), the
-- reverse proxy's round trip (Env), the choice of the mux of net/http and what it writes where it
-- answers by itself (World), promhttp, the random generator, the drawn instance IDs, durations, decimals (itoa),
-- YAML and JSON, and for the scripts the processes, the sockets and what lsof and netstat print.
-- http.MaxBytesReader, Shutdown and ListenAndServe of an http.Server, and errgroup are modelled by
-- their documented behaviour. The rewinding of a buffered body cannot fail, and the order of
-- concurrent probes does not matter for their results. The random generator is a function of its
-- argument, so that two draws of one run over the same total are equal.
--
-- Not modelled: the limit on concurrent probes, which delays them only; the log; and the Prometheus
-- client and the script that sends one request, which are calls of libraries.
pub mod Prelude
pub mod Domain
pub mod Registry
pub mod Balancer
pub mod Prober
pub mod Http
pub mod Proxy
pub mod Config
pub mod Fixtures
pub mod Handlers
pub mod Middleware
pub mod System
pub mod Bootstrap
pub mod Service
pub mod Simulator
pub mod Runner
