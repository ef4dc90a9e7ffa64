-- ===== src/Config/Load.antt =====
-- internal/config/load.go: what the rest of the program takes from the configuration.
use golancer.Prelude.{
  ℕ, suc, String, Option, none, some, List, [], ◌∷◌, str_eq, if◌then◌else◌, ◌==◌,
}
use golancer.Prelude.Int.{ℤ, pos, eqb_ℤ}
use golancer.Prelude.Run.{Run, done, ◌>>=◌}
use golancer.Domain.{UrlLib, Heap, Ptr, new_backend}
use golancer.Balancer.{round_robin, least_connections, random, server_for_key}
use golancer.Prober.{ProbeConfig, seconds}
use golancer.Http.{NetLib}
use golancer.Proxy.Handler.{Shared, Balancer, rotate_balancer, by_client_ip}
use golancer.Config.{
  BackendSettings, ServerSettings, Config, Invalid, validate, port_or, parse_prefix,
  default_balancer_port, default_registry_port, default_metrics_port,
}

-- The result of `Load`, with the step that fails.
pub data Loaded : Type 0 where
  loaded : Config → Loaded
  unreadable : Loaded
  unparsable : Loaded
  invalid : List Invalid → Loaded

-- `Load`. `file` is the content of the file, if it can be read, and `unmarshal` is `yaml.Unmarshal`.
unfoldable pub load :
    {Url Addr Prefix : Type 0}
    → UrlLib Url
    → NetLib Addr Prefix
    → (String → Option ℤ)
    → (String → Option Config)
    → Option String
    → Loaded
load urls net parse unmarshal none = unreadable
load urls net parse unmarshal (some file) = elim (unmarshal file) [
  | none ↦ unparsable
  | some cfg ↦ elim (validate net urls parse cfg) [ [] ↦ loaded cfg | e ∷ es ↦ invalid (e ∷ es) ]
]

-- A weight that is omitted is 1.
abbrev pub weight_or_one : ℕ → ℕ
weight_or_one w = if w == 0 then 1 else w

module _ {Url : Type 0} where
  -- The loop of `DomainBackends`, which ignores the parser's error. `id` gives the instance ID that
  -- is drawn for the i-th backend.
  unfoldable pub domain_backends :
      UrlLib Url → (ℕ → String) → ℕ → Heap Url → List BackendSettings → Heap Url × List Ptr
  domain_backends urls id i h [] = (h, [])
  domain_backends urls id i h (b ∷ bs) =
      let (h₁, p) = new_backend h (id i) (urls.parse b.url) (weight_or_one b.weight) in
      let (h₂, ps) = domain_backends urls id (suc i) h₁ bs in (h₂, p ∷ ps)

  abbrev pub selector_round_robin : Shared Url → Run (ℕ × Option Ptr)
  selector_round_robin s = round_robin s.registry s.current

  -- A selector that leaves the counter of the round robin alone.
  abbrev pub keeping : Shared Url → Run (Option Ptr) → Run (ℕ × Option Ptr)
  keeping s m = m >>= λ o. done (s.current, o)

  -- `ProxySelector`. `draw` is the random generator.
  unfoldable pub proxy_selector :
      {Addr Prefix : Type 0} → NetLib Addr Prefix → (ℕ → ℕ) → List Prefix → String → Balancer Url
  proxy_selector net draw trusted strategy =
      if str_eq strategy "ip-hash"
      then by_client_ip net (λ s key. keeping s (server_for_key s.registry key)) trusted
      else if str_eq strategy "least-connections"
      then rotate_balancer (λ s. keeping s (done (least_connections s.registry)))
      else if str_eq strategy "random"
      then rotate_balancer (λ s. keeping s (random draw s.registry))
      else rotate_balancer selector_round_robin

-- `time.ParseDuration` with the error ignored, and nothing for an empty text.
abbrev pub duration_or : (String → Option ℤ) → String → ℤ → ℤ
duration_or parse s def = if str_eq s "" then def else elim (parse s) [ none ↦ pos 0 | some d ↦ d ]

-- `HealthConfig`
unfoldable pub health_config : (String → Option ℤ) → Config → ProbeConfig
health_config parse c = record {
  interval = duration_or parse c.health.interval (pos 0);
  timeout = duration_or parse c.health.client.timeout (pos 0);
  path = c.health.client.path;
  healthy_threshold = c.health.healthy_threshold;
  unhealthy_threshold = c.health.unhealthy_threshold;
  max_concurrent = c.health.max_concurrent;
}

-- `server.Config`
pub record ServerConfig : Type 0 where
  pub port : ℤ
  pub read_timeout : ℤ
  pub write_timeout : ℤ

-- `serverConfig`
unfoldable pub server_config : (String → Option ℤ) → ServerSettings → ℤ → ServerConfig
server_config parse s def = record {
  port = port_or s def;
  read_timeout = duration_or parse s.read_timeout (seconds 5);
  write_timeout = duration_or parse s.write_timeout (seconds 10);
}

abbrev pub balancer_config : (String → Option ℤ) → Config → ServerConfig
balancer_config parse c = server_config parse c.balancer.server default_balancer_port

abbrev pub registry_config : (String → Option ℤ) → Config → ServerConfig
registry_config parse c = server_config parse c.discovery.registry_server default_registry_port

abbrev pub metrics_config : (String → Option ℤ) → Config → ServerConfig
metrics_config parse c = server_config parse c.metrics_server default_metrics_port

-- `ProxyBodyLimit`, with `DefaultProxyBodyLimit`.
unfoldable pub proxy_body_limit : Config → ℤ
proxy_body_limit c = if eqb_ℤ c.proxy.body_limit (pos 0) then pos 16384 else c.proxy.body_limit

-- `TrustedProxies`: entries that do not parse are skipped.
unfoldable pub trusted_proxies :
    {Addr Prefix : Type 0} → NetLib Addr Prefix → List String → List Prefix
trusted_proxies net [] = []
trusted_proxies net (s ∷ ss) = elim (parse_prefix net s) [
  | none ↦ trusted_proxies net ss
  | some p ↦ p ∷ trusted_proxies net ss
]
