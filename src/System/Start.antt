-- ===== src/System/Start.antt =====
-- internal/bootstrap/runner.go: the program from its start on, with a configuration without errors.
use mathlib.Core.Path.{subst}
use golancer.Prelude.{
  ℕ, suc, ◌*◌, ◌%◌, ◌^◌, ◌≤◌, ◌<◌, ◌≡◌, refl, ap, String, Option, none, some, List, [], ◌∷◌, arith,
  All, All-map, In, length,
}
use golancer.Prelude.Int.{ℤ}
use golancer.Domain.{UrlLib, Heap, Ptr, new_backend, empty_heap}
use golancer.Registry.{new_registry, list_healthy_backends}
use golancer.Balancer.{least_connections, weight}
use golancer.Balancer.LeastConnections.{IsSane, LoadLe, least_connections-least}
use golancer.Balancer.Weighted.{HasWeight}
use golancer.Http.{Body, NetLib}
use golancer.Proxy.Handler.{Balancer}
use golancer.Proxy.Serve.{count_of}
use golancer.Config.{BackendSettings, Config, validate}
use golancer.Config.Load.{domain_backends, weight_or_one, proxy_selector, trusted_proxies}
use golancer.Config.Startup.{startup-IsValid}
use golancer.Config.Selector.{IsGood, proxy_selector-Routes, healthy-HasWeight}
use golancer.Handlers.{RegisterBackendRequest}
use golancer.System.{State, Reach, occurrences}
use golancer.System.Invariant.{IsCounted, Reach-IsCounted}

module _ {Url : Type 0} (urls : UrlLib Url) (id : ℕ → String) where
  -- What `Run` shares between the servers and the prober before it starts them.
  abbrev pub start : Config → State Url
  start c =
      let (h, ps) = domain_backends urls id 0 empty_heap c.backends in
      record { shared = record { registry = new_registry h ps; current = 0 }; in_flight = [] }

  length-domain_backends :
      (i : ℕ) (h : Heap Url) (bs : List BackendSettings)
      → length (domain_backends urls id i h bs).1 ≡ length bs
  unfolding domain_backends
  length-domain_backends i h [] = refl
  length-domain_backends i h (b ∷ bs) = ap suc (
      length-domain_backends (suc i)
        (new_backend h (id i) (urls.parse b.url) (weight_or_one b.weight)).0 bs)

  domain_backends-idle :
      (i : ℕ) (h : Heap Url) (bs : List BackendSettings)
      → ((q : Ptr) → (h.cell q).active_connections_no ≡ 0)
      → (q : Ptr) → ((domain_backends urls id i h bs).0.cell q).active_connections_no ≡ 0
  unfolding domain_backends new_backend
  domain_backends-idle i h [] idle = idle
  domain_backends-idle i h (b ∷ bs) idle =
      domain_backends-idle (suc i)
        (new_backend h (id i) (urls.parse b.url) (weight_or_one b.weight)).0 bs
        (λ q. ground (arith, idle q))

  domain_backends-blank :
      (i : ℕ) (h : Heap Url) (bs : List BackendSettings)
      → ((q : Ptr) → h.next ≤ q → (h.cell q).url ≡ none)
      → (q : Ptr) → (domain_backends urls id i h bs).0.next ≤ q
      → ((domain_backends urls id i h bs).0.cell q).url ≡ none
  unfolding domain_backends new_backend
  domain_backends-blank i h [] blank = blank
  domain_backends-blank i h (b ∷ bs) blank =
      domain_backends-blank (suc i)
        (new_backend h (id i) (urls.parse b.url) (weight_or_one b.weight)).0 bs
        (λ q le. ground (arith, blank q (omega arith)))

  pub start-IsCounted :
      {Addr Prefix : Type 0} (net : NetLib Addr Prefix) (parse : String → Option ℤ) (c : Config)
      → validate net urls parse c ≡ []
      → length c.backends ≤ 2 ^ 31
      → ((i j : ℕ) → id i ≡ id j → i ≡ j)
      → IsCounted (start c)
  start-IsCounted net parse c ok few id_inj =
      let (valid, weights) = startup-IsValid net urls parse c ok id id_inj in
      record {
        good = record {
          valid = valid;
          weights = weights;
          few = rw (length-domain_backends 0 empty_heap c.backends) few;
          counter = omega arith;
        };
        counts = domain_backends-idle 0 empty_heap c.backends (λ q. refl);
        allocated = tt;
        blank = domain_backends-blank 0 empty_heap c.backends (λ q le. refl);
      }

occurrences-length : (q : Ptr) (ps : List Ptr) → occurrences q ps ≤ length ps
occurrences-length q [] = omega arith
occurrences-length q (p ∷ ps) = ground (arith, occurrences-length q ps)

module _ {Url : Type 0} where
  counted-IsSane :
      (s : State Url) (ps : List Ptr)
      → IsCounted s
      → length s.in_flight < 2 ^ 31
      → All (HasWeight s.shared.registry.heap) ps
      → All (IsSane s.shared.registry.heap) ps
  counted-IsSane s ps inv few weights =
      All-map (HasWeight s.shared.registry.heap) (IsSane s.shared.registry.heap)
        (λ p w. record {
          counted = omega (arith, inv.counts p, occurrences-length p s.in_flight, few);
          positive = w.0;
          bounded = w.1;
        })
        ps weights

  -- As many attempts as the count says.
  exact_counts :
      (s : State Url) (q : Ptr)
      → IsCounted s
      → length s.in_flight < 2 ^ 31
      → (s.shared.registry.heap.cell q).active_connections_no ≡ occurrences q s.in_flight
  exact_counts s q inv few = omega (arith, inv.counts q, occurrences-length q s.in_flight)

-- The balancer of the configured strategy.
abbrev pub configured :
    {Url Addr Prefix : Type 0} → NetLib Addr Prefix → (ℕ → ℕ) → Config → Balancer Url
configured net draw c =
    proxy_selector net draw (trusted_proxies net c.proxy.trusted_proxies) c.balancer.strategy

module _ {Url Addr Prefix : Type 0} (net : NetLib Addr Prefix) (urls : UrlLib Url)
    (parse : String → Option ℤ) (decode : Body → Option RegisterBackendRequest) (id : ℕ → String)
    (id_inj : (i j : ℕ) → id i ≡ id j → i ≡ j) (draw : ℕ → ℕ) (small : (n : ℕ) → 0 < n → draw n < n)
    (c : Config) (ok : validate net urls parse c ≡ []) (few : length c.backends ≤ 2 ^ 31) where
  pub started-IsCounted :
      {t : State Url} → Reach urls decode (configured net draw c) (start urls id c) t → IsCounted t
  started-IsCounted reach =
      Reach-IsCounted urls decode (configured net draw c)
        (λ s q good.
          proxy_selector-Routes net draw (trusted_proxies net c.proxy.trusted_proxies)
            c.balancer.strategy s q small good)
        (start-IsCounted urls id net parse c ok few id_inj) reach

  -- After the start with a configuration without errors, with at most 2 ^ 31 backends and instance
  -- IDs that are all different, if the generator draws below its argument, in every state that any
  -- order of atomic steps of the requests, the registration API and the prober reaches, with the
  -- selector of any strategy, the registry is valid, the weights are admitted and the counter is a
  -- uint32, and the connection count of every backend, also of one that was deregistered meanwhile,
  -- is the number of the attempts on it that are under way, modulo 2 ^ 32. A step may register a
  -- backend only under an ID that no registered backend has and while fewer than 2 ^ 31 are
  -- registered.
  pub start-Reach :
      {t : State Url}
      → Reach urls decode (configured net draw c) (start urls id c) t
      → IsGood t.shared × ((q : Ptr) → count_of t.shared q ≡ occurrences q t.in_flight % 2 ^ 32)
  start-Reach reach = let inv = started-IsCounted reach in (inv.good, inv.counts)

  -- In every state that the steps reach after the start with a configuration without errors, with
  -- at most 2 ^ 31 backends and instance IDs that are all different, if the generator draws below
  -- its argument, while fewer than 2 ^ 31 attempts are under way, GetServer of least connections
  -- returns a healthy backend, if there is one, and for no healthy backend is the number of
  -- attempts under way, divided by the weight, less than for the one returned.
  pub start-least_connections :
      {t : State Url} {p : Ptr} {ps : List Ptr}
      → Reach urls decode (configured net draw c) (start urls id c) t
      → length t.in_flight < 2 ^ 31
      → list_healthy_backends t.shared.registry ≡ p ∷ ps
      → (q : Ptr) × (least_connections t.shared.registry ≡ some q)
        × In q (p ∷ ps)
        × All
            (λ x.
              occurrences q t.in_flight * weight t.shared.registry.heap x
              ≤ occurrences x t.in_flight * weight t.shared.registry.heap q)
            (p ∷ ps)
  start-least_connections {t} {p} {ps} reach under e =
      let inv = started-IsCounted reach in
      let r = t.shared.registry in
      let sane =
        counted-IsSane t (p ∷ ps) inv under
          (subst (All (HasWeight r.heap)) e (healthy-HasWeight r inv.good.weights)) in
      let (q, found, i, least) = least_connections-least r e sane in
      (
        q,
        found,
        i,
        All-map (LoadLe r.heap q) _
            (λ x le. rw (← exact_counts t q inv under, ← exact_counts t x inv under) le) (p ∷ ps)
            least,
      )
