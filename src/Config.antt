-- ===== src/Config.antt =====
-- internal/config/types.go and validate.go: the settings, and what is checked of them.
pub mod Load
pub mod Ports
pub mod Selector
pub mod Serving
pub mod Startup
pub mod Sample
mod Tests
use Prim.Native.String.{◌++◌ as text_append}
use golancer.Prelude.{
  ℕ, zero, suc, ◌+◌, String, Bool, true, false, not, Option, none, some, List, [], ◌∷◌, ◌++◌,
  str_eq, ◌||◌, ◌&&◌, if◌then◌else◌, ltb, leb,
}
use golancer.Prelude.Int.{ℤ, pos, negsuc, ltb_ℤ, eqb_ℤ}
use golancer.Domain.{UrlLib, max_weight}
use golancer.Http.{NetLib, has_char}

pub record BackendSettings : Type 0 where
  pub url : String
  pub weight : ℕ

pub record ServerSettings : Type 0 where
  pub port : ℤ
  pub read_timeout : String
  pub write_timeout : String

pub record BalancerSettings : Type 0 where
  pub strategy : String
  pub max_retries : ℤ
  pub server : ServerSettings

pub record HealthClientSettings : Type 0 where
  pub timeout : String
  pub path : String

pub record HealthSettings : Type 0 where
  pub interval : String
  pub healthy_threshold : ℤ
  pub unhealthy_threshold : ℤ
  pub max_concurrent : ℤ
  pub client : HealthClientSettings

pub record DiscoverySettings : Type 0 where
  pub mode : String
  pub registry_server : ServerSettings

pub record ProxySettings : Type 0 where
  pub body_limit : ℤ
  pub trusted_proxies : List String

-- `Config`. `metrics_server` is `Observability.Metrics.Server`.
pub record Config : Type 0 where
  pub backends : List BackendSettings
  pub balancer : BalancerSettings
  pub health : HealthSettings
  pub discovery : DiscoverySettings
  pub metrics_server : ServerSettings
  pub proxy : ProxySettings

abbrev pub default_balancer_port : ℤ
default_balancer_port = pos 8080

abbrev pub default_registry_port : ℤ
default_registry_port = pos 8081

abbrev pub default_metrics_port : ℤ
default_metrics_port = pos 2112

-- The errors that `Validate` collects, with their arguments.
pub data Invalid : Type 0 where
  unknown_strategy : String → Invalid
  bad_url : ℕ → String → Invalid
  no_scheme_or_host : ℕ → String → Invalid
  wrong_scheme : ℕ → String → Invalid
  too_heavy : ℕ → ℕ → Invalid
  bad_duration : String → String → Invalid
  negative_duration : String → String → Invalid
  negative_value : String → ℤ → Invalid
  bad_port : String → ℤ → Invalid
  port_in_use : String → ℤ → String → Invalid
  bad_trusted_proxy : ℕ → String → Invalid

abbrev pub complain : Bool → Invalid → List Invalid
complain b e = if b then e ∷ [] else []

abbrev pub is_strategy : String → Bool
is_strategy s =
    str_eq s "ip-hash"
    || str_eq s "least-connections"
    || str_eq s "random"
    || str_eq s "round-robin"
    || str_eq s ""

-- The check of one URL, which the registration API repeats.
unfoldable pub check_url : {Url : Type 0} → UrlLib Url → ℕ → String → List Invalid
check_url urls i s = elim (urls.parse s) [
  | none ↦ bad_url i s ∷ []
  | some u ↦
      if str_eq (urls.scheme u) "" || str_eq (urls.host u) ""
      then no_scheme_or_host i s ∷ []
      else complain (not (str_eq (urls.scheme u) "http") && not (str_eq (urls.scheme u) "https"))
          (wrong_scheme i s)
]

unfoldable pub check_backends :
    {Url : Type 0} → UrlLib Url → ℕ → List BackendSettings → List Invalid
check_backends urls i [] = []
check_backends urls i (b ∷ bs) =
    check_url urls i b.url
    ++ (complain (ltb max_weight b.weight) (too_heavy i b.weight) ++ check_backends urls (suc i) bs)

-- `validateDuration`. `parse` is `time.ParseDuration`, in nanoseconds.
unfoldable pub check_duration : (String → Option ℤ) → String → String → List Invalid
check_duration parse field s = if str_eq s "" then [] else elim (parse s) [
  | none ↦ bad_duration field s ∷ []
  | some d ↦ complain (ltb_ℤ d (pos 0)) (negative_duration field s)
]

unfoldable pub check_nonneg : String → ℤ → List Invalid
check_nonneg field v = complain (ltb_ℤ v (pos 0)) (negative_value field v)

-- `portOr`
abbrev pub port_or : ServerSettings → ℤ → ℤ
port_or s def = if not (eqb_ℤ s.port (pos 0)) then s.port else def

-- The map `usedPorts`. A missing key reads as the empty text.
abbrev pub Ports : Type 0
Ports = List (ℤ × String)

abbrev pub user_of : ℤ → Ports → String
user_of p [] = ""
user_of p ((q, name) ∷ used) = if eqb_ℤ q p then name else user_of p used

-- `validateServer`: the errors, and the ports in use after it.
unfoldable pub check_server :
    (String → Option ℤ) → String → ServerSettings → ℤ → Ports → List Invalid × Ports
unfolding check_duration
check_server parse prefix s def used =
    let p = port_or s def in
    let timeouts =
      check_duration parse (text_append prefix ".read-timeout") s.read_timeout
      ++ check_duration parse (text_append prefix ".write-timeout") s.write_timeout in
    if ltb_ℤ s.port (pos 0) || ltb_ℤ (pos 65535) s.port
    then (bad_port prefix s.port ∷ timeouts, used)
    else if not (str_eq (user_of p used) "")
    then (port_in_use prefix p (user_of p used) ∷ timeouts, used)
    else (timeouts, (p, prefix) ∷ used)

module _ {Addr Prefix : Type 0} (net : NetLib Addr Prefix) where
  -- `parsePrefix`
  unfoldable pub parse_prefix : String → Option Prefix
  parse_prefix s =
      if has_char b'/' s
      then elim (net.parse_prefix s) [ none ↦ none | some p ↦ some (net.masked p) ]
      else elim (net.parse_addr s) [
        | none ↦ none
        | some a ↦ some (net.prefix_from (net.unmap a) (net.bit_len (net.unmap a)))
      ]

  unfoldable pub check_trusted : ℕ → List String → List Invalid
  check_trusted i [] = []
  check_trusted i (s ∷ ss) = elim (parse_prefix s) [
    | none ↦ bad_trusted_proxy i s ∷ check_trusted (suc i) ss
    | some p ↦ check_trusted (suc i) ss
  ]

  -- The servers in their order, each with the ports that those before it use.
  unfoldable pub check_servers : (String → Option ℤ) → Config → List Invalid
  check_servers parse c =
      let (e₁, used₁) =
        check_server parse "balancing.server" c.balancer.server default_balancer_port [] in
      let (e₂, used₂) =
        check_server parse "discovery.registry.server" c.discovery.registry_server
          default_registry_port used₁ in
      let (e₃, used₃) =
        check_server parse "observability.metrics.server" c.metrics_server default_metrics_port
          used₂ in
      e₁ ++ (e₂ ++ e₃)

  -- `Validate`: all errors, in the order in which they are found; none for a valid configuration.
  unfoldable pub validate :
      {Url : Type 0} → UrlLib Url → (String → Option ℤ) → Config → List Invalid
  validate urls parse c =
      complain (not (is_strategy c.balancer.strategy)) (unknown_strategy c.balancer.strategy)
      ++ (check_backends urls 0 c.backends
          ++ (check_duration parse "health.interval" c.health.interval
              ++ (check_duration parse "health.client.timeout" c.health.client.timeout
                  ++ (check_nonneg "health.healthy-threshold" c.health.healthy_threshold
                      ++ (check_nonneg "health.unhealthy-threshold" c.health.unhealthy_threshold
                          ++ (check_nonneg "health.max-concurrent" c.health.max_concurrent
                              ++ (check_servers parse c
                                  ++ (check_nonneg "balancing.max-retries" c.balancer.max_retries
                                      ++ (check_trusted 0 c.proxy.trusted_proxies
                                          ++ check_nonneg "proxy.body-limit"
                                              c.proxy.body_limit)))))))))
