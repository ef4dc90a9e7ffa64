-- ===== src/Bootstrap.antt =====
-- internal/bootstrap/runner.go and server.go, internal/server/server.go: the configuration is loaded,
-- the prober seeds the registry, and the three servers are built.
pub mod Started
pub mod Shutdown
mod Tests
use Prim.Native.String.{◌++◌ as text_append}
use mathlib.Core.List.{flat_map}
use golancer.Prelude.{ℕ, String, Bool, Option, none, some, List, [], ◌∷◌}
use golancer.Prelude.Int.{ℤ}
use golancer.Prelude.Run.{Run, done, ◌>>=◌}
use golancer.Domain.{UrlLib, empty_heap}
use golancer.Registry.{Registry, new_registry}
use golancer.Prober.{Prober, new_prober, probe_once}
use golancer.Http.{NetLib}
use golancer.Proxy.Handler.{Handler}
use golancer.Config.{Config, Invalid}
use golancer.Config.Load.{
  Loaded, loaded, unreadable, unparsable, invalid, load, domain_backends, proxy_selector,
  trusted_proxies, health_config, ServerConfig, balancer_config, registry_config, metrics_config,
  proxy_body_limit,
}
use golancer.Middleware.{HttpHandler, Middleware, common_middleware, registry_middleware}

-- The handlers that the routes lead to, with what they were built with.
pub data Endpoint (Url Prefix : Type 0) : Type 0 where
  prometheus : ℤ → Endpoint Url Prefix
  backends_list backends_register backends_deregister health_live health_ready : Endpoint Url Prefix
  proxy_all : Handler Url Prefix → Endpoint Url Prefix

-- The implementations of `RouteRegistrar`.
pub data RouteRegistrar (Url Prefix : Type 0) : Type 0 where
  prometheus_handler : ℤ → RouteRegistrar Url Prefix
  backend_handler health_handler : RouteRegistrar Url Prefix
  proxy_handler : Handler Url Prefix → RouteRegistrar Url Prefix

-- `Routes` of each of them: what it mounts onto the mux, by pattern.
abbrev pub routes :
    {Url Prefix : Type 0} → RouteRegistrar Url Prefix → List (String × Endpoint Url Prefix)
routes (prometheus_handler timeout) = ("/metrics", prometheus timeout) ∷ []
routes backend_handler =
    ("GET /backends", backends_list)
    ∷ ("POST /backends", backends_register)
    ∷ ("DELETE /backends/{instanceID}", backends_deregister)
    ∷ []
routes (proxy_handler h) = ("/", proxy_all h) ∷ []
routes health_handler = ("GET /healthz", health_live) ∷ ("GET /readyz", health_ready) ∷ []

-- What `New` sets of an `http.Server`.
pub record HttpServer (S : Type 0) : Type 0 where
  pub addr : String
  pub handler : HttpHandler S
  pub read_timeout : ℤ
  pub write_timeout : ℤ

-- What `Run` leaves when its servers have been started, or how it exits.
pub data Boot (Url S : Type 0) : Type 0 where
  exited : Loaded → Boot Url S
  started : Registry Url → Prober → List (HttpServer S) → Boot Url S

-- `proxy.NewHandler` with what the configuration says.
abbrev pub lb_handler :
    {Url Addr Prefix : Type 0} → NetLib Addr Prefix → (ℕ → ℕ) → Config → Handler Url Prefix
lb_handler net draw c =
    let trusted = trusted_proxies net c.proxy.trusted_proxies in
    record {
      balancer = proxy_selector net draw trusted c.balancer.strategy;
      max_retries = c.balancer.max_retries;
      trusted = trusted;
    }

-- `mux` is the `http.ServeMux` on the routes that it was given, and `itoa` is `strconv.Itoa`.
module _ {Url Addr Prefix S : Type 0} (net : NetLib Addr Prefix) (urls : UrlLib Url)
    (parse : String → Option ℤ) (draw : ℕ → ℕ)
    (mux : List (String × Endpoint Url Prefix) → HttpHandler S) (itoa : ℤ → String) where
  -- `newRouter`
  abbrev pub new_router : List (RouteRegistrar Url Prefix) → HttpHandler S
  new_router registrars = mux (flat_map routes registrars)

  -- `server.New`; the middleware is none for nil.
  unfoldable pub new_server :
      ServerConfig → Option (Middleware S) → List (RouteRegistrar Url Prefix) → HttpServer S
  new_server cfg middleware registrars = record {
    addr = text_append ":" (itoa cfg.port);
    handler = elim middleware [
      | none ↦ new_router registrars
      | some mw ↦ mw (new_router registrars)
    ];
    read_timeout = cfg.read_timeout;
    write_timeout = cfg.write_timeout;
  }

  abbrev pub start_metrics_registry_server : Middleware S → Config → HttpServer S
  start_metrics_registry_server mw c =
      new_server (metrics_config parse c) (some mw)
        (prometheus_handler (metrics_config parse c).write_timeout ∷ [])

  abbrev pub start_registry_server : Middleware S → Config → HttpServer S
  start_registry_server mw c = new_server (registry_config parse c) (some mw) (backend_handler ∷ [])

  abbrev pub start_balancer_server : Middleware S → Config → HttpServer S
  start_balancer_server mw c =
      new_server (balancer_config parse c) (some mw)
        (proxy_handler (lb_handler net draw c) ∷ health_handler ∷ [])

  -- The servers, in the order in which `Run` starts them. `token` is the registry's.
  unfoldable pub servers : String → Config → List (HttpServer S)
  servers token c =
      let limit = proxy_body_limit c in
      start_metrics_registry_server (common_middleware limit) c
      ∷ start_registry_server (registry_middleware limit token) c
      ∷ start_balancer_server (common_middleware limit) c
      ∷ []

  -- `Run` up to the listeners. No other goroutine runs before they are started, so that nothing
  -- changes the registry while the seeding round probes.
  unfoldable pub boot :
      (String → Option Config)
      → (ℕ → String)
      → (String → Option ℕ)
      → Option String
      → String
      → Run (Boot Url S)
  boot unmarshal id get file token = elim (load urls net parse unmarshal file) [
    | loaded c ↦
        let (h, ps) = domain_backends urls id 0 empty_heap c.backends in
        probe_once urls get (λ r. r) (new_registry h ps) (new_prober (health_config parse c))
        >>= λ (r, p). done (started r p (servers token c))
    | unreadable ↦ done (exited unreadable)
    | unparsable ↦ done (exited unparsable)
    | invalid es ↦ done (exited (invalid es))
  ]
