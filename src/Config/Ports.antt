-- ===== src/Config/Ports.antt =====
-- internal/config/validate.go: what a validated configuration guarantees to the three servers.
use mathlib.Core.Bool.{false≢true}
use golancer.Prelude.{
  ◌<◌, ◌≤◌, sym, ℕ, zero, suc, ◌∙◌, ◌≡◌, refl, ◌≢◌, inl, inr, String, true, false, Option, List, [],
  ◌∷◌, ◌++◌, arith, Bool-cases, str_eq,
}
use golancer.Prelude.Int.{ℤ, pos, negsuc, ltb_ℤ, eqb_ℤ}
use golancer.Domain.{UrlLib}
use golancer.Http.{NetLib}
use golancer.Config.{
  Config, ServerSettings, port_or, Ports, user_of, check_server, check_servers, check_backends,
  check_duration, check_nonneg, check_trusted, validate, default_balancer_port,
  default_registry_port, default_metrics_port,
}

-- Both parts of a list of errors are empty if the whole is.
pub append-eq-nil : {A : Type 0} (xs ys : List A) → xs ++ ys ≡ [] → (xs ≡ []) × (ys ≡ [])
append-eq-nil [] ys e = (refl, e)
append-eq-nil (x ∷ xs) ys e = cc

-- A port that a server can listen on.
abbrev pub IsPort : ℤ → Type 0
IsPort p = (n : ℕ) × (p ≡ pos n) × (0 < n) × (n ≤ 65535)

-- A server without errors has a port that no server before it uses, and claims it.
check_server-ok :
    (parse : String → Option ℤ) (prefix : String) (s : ServerSettings) (def : ℤ) (used : Ports)
    → (check_server parse prefix s def used).0 ≡ []
    → (str_eq (user_of (port_or s def) used) "" ≡ true)
      × ((check_server parse prefix s def used).1 ≡ (port_or s def, prefix) ∷ used)
      × (ltb_ℤ s.port (pos 0) ≡ false)
      × (ltb_ℤ (pos 65535) s.port ≡ false)
unfolding check_server
check_server-ok parse prefix s def used e = ground arith

port_or-IsPort :
    (s : ServerSettings) (p : ℤ) (d : ℕ)
    → s.port ≡ p
    → 0 < d
    → d ≤ 65535
    → ltb_ℤ p (pos 0) ≡ false
    → ltb_ℤ (pos 65535) p ≡ false
    → IsPort (port_or s (pos d))
port_or-IsPort s (pos zero) d e pos_d le lo hi = (d, rw e, pos_d, le)
port_or-IsPort s (pos (suc n)) d e pos_d le lo hi =
    (suc n, rw e (ground arith), omega arith, ground arith)
port_or-IsPort s (negsuc n) d e pos_d le lo hi = absurd (ground arith)

eqb_ℤ_self : (p : ℤ) → eqb_ℤ p p ≡ true
eqb_ℤ_self p = ground arith

-- A port that the list of claimed ports says is free differs from the one claimed last, and is free
-- in the rest too.
free-ne :
    (p q : ℤ) (name : String) (used : Ports)
    → str_eq name "" ≡ false
    → str_eq (user_of p ((q, name) ∷ used)) "" ≡ true
    → (q ≢ p) × (str_eq (user_of p used) "" ≡ true)
free-ne p q name used ne free = elim (Bool-cases (eqb_ℤ q p)) [
  | inl same ↦ absurd (false≢true (sym ne ∙ rw same at free))
  | inr other ↦ ((λ e. false≢true (sym other ∙ rw e (eqb_ℤ_self p))), rw other at free)
]

module _ {Url Addr Prefix : Type 0} (net : NetLib Addr Prefix) (urls : UrlLib Url)
    (parse : String → Option ℤ) (c : Config) where
  -- The checks of a configuration without errors, one by one.
  pub record Parts : Type 0 where
    pub backends : check_backends urls 0 c.backends ≡ []
    pub interval : check_duration parse "health.interval" c.health.interval ≡ []
    pub timeout : check_duration parse "health.client.timeout" c.health.client.timeout ≡ []
    pub healthy : check_nonneg "health.healthy-threshold" c.health.healthy_threshold ≡ []
    pub unhealthy : check_nonneg "health.unhealthy-threshold" c.health.unhealthy_threshold ≡ []
    pub servers : check_servers net parse c ≡ []
    pub retries : check_nonneg "balancing.max-retries" c.balancer.max_retries ≡ []
    pub trusted : check_trusted net 0 c.proxy.trusted_proxies ≡ []
    pub body_limit : check_nonneg "proxy.body-limit" c.proxy.body_limit ≡ []

  pub validate-Parts : validate net urls parse c ≡ [] → Parts
  unfolding validate
  validate-Parts e =
      let (_, e₁) = append-eq-nil _ _ e in
      let (backends, e₂) = append-eq-nil _ _ e₁ in
      let (interval, e₃) = append-eq-nil _ _ e₂ in
      let (timeout, e₄) = append-eq-nil _ _ e₃ in
      let (healthy, e₅) = append-eq-nil _ _ e₄ in
      let (unhealthy, e₆) = append-eq-nil _ _ e₅ in
      let (_, e₇) = append-eq-nil _ _ e₆ in
      let (servers, e₈) = append-eq-nil _ _ e₇ in
      let (retries, e₉) = append-eq-nil _ _ e₈ in
      let (trusted, body_limit) = append-eq-nil _ _ e₉ in
      record {
        backends = backends;
        interval = interval;
        timeout = timeout;
        healthy = healthy;
        unhealthy = unhealthy;
        servers = servers;
        retries = retries;
        trusted = trusted;
        body_limit = body_limit;
      }

  -- A configuration without errors gives each of the three servers a port from 1 to 65535, after
  -- the defaults are put in, and no two of them the same.
  pub validate-ports :
      validate net urls parse c ≡ []
      → IsPort (port_or c.balancer.server default_balancer_port)
        × IsPort (port_or c.discovery.registry_server default_registry_port)
        × IsPort (port_or c.metrics_server default_metrics_port)
        × (port_or c.balancer.server default_balancer_port
            ≢ port_or c.discovery.registry_server default_registry_port)
        × (port_or c.balancer.server default_balancer_port
            ≢ port_or c.metrics_server default_metrics_port)
        × (port_or c.discovery.registry_server default_registry_port
            ≢ port_or c.metrics_server default_metrics_port)
  unfolding check_servers str_eq
  validate-ports e =
      let servers = (validate-Parts e).servers in
      let (e₁, rest) = append-eq-nil _ _ servers in
      let (e₂, e₃) = append-eq-nil _ _ rest in
      let (free₁, used₁, lo₁, hi₁) =
        check_server-ok parse _ c.balancer.server default_balancer_port [] e₁ in
      let (free₂, used₂, lo₂, hi₂) =
        check_server-ok parse _ c.discovery.registry_server default_registry_port _ e₂ in
      let (free₃, used₃, lo₃, hi₃) =
        check_server-ok parse _ c.metrics_server default_metrics_port _ e₃ in
      let port₁ =
        port_or-IsPort c.balancer.server (c.balancer.server.port) 8080 refl (omega arith)
          (omega arith) lo₁ hi₁ in
      let port₂ =
        port_or-IsPort c.discovery.registry_server (c.discovery.registry_server.port) 8081 refl
          (omega arith) (omega arith) lo₂ hi₂ in
      let port₃ =
        port_or-IsPort c.metrics_server (c.metrics_server.port) 2112 refl (omega arith)
          (omega arith) lo₃ hi₃ in
      let (ne₁₂, _) = free-ne _ _ "balancing.server" [] refl (rw used₁ at free₂) in
      let (ne₂₃, free₁₃) = free-ne _ _ "discovery.registry.server" _ refl (rw used₂ at free₃) in
      let (ne₁₃, _) = free-ne _ _ "balancing.server" [] refl (rw used₁ at free₁₃) in
      (port₁, port₂, port₃, ne₁₂, ne₁₃, ne₂₃)
