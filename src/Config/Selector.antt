-- ===== src/Config/Selector.antt =====
-- internal/config/load.go, `ProxySelector`: the selectors as the proxy uses them.
use mathlib.Core.Path.{subst}
use golancer.Prelude.{
  ℕ, ◌^◌, ◌≤◌, ◌<◌, ◌≡◌, refl, sym, ap, String, Option, none, some, inl, inr, List, [], ◌∷◌, arith,
  All, All-keep, In, str_eq, length, length-keep, keep, Bool-cases,
}
use golancer.Prelude.Run.{Run, done}
use golancer.Domain.{Ptr, healthy}
use golancer.Registry.{Registry, list_backends, list_healthy_backends}
use golancer.Registry.Invariant.{IsValid}
use golancer.Balancer.{least_connections, random, server_for_key}
use golancer.Balancer.RoundRobin.{IsRoutable, round_robin-IsRoutable}
use golancer.Balancer.LeastConnections.{least_connections-In}
use golancer.Balancer.Weighted.{HasWeight, healthy_In, random-IsFound, server_for_key-IsFound}
use golancer.Http.{Request, NetLib}
use golancer.Proxy.{client_ip}
use golancer.Proxy.Handler.{Shared}
use golancer.Config.Load.{proxy_selector, keeping}

module _ {Url : Type 0} where
  -- What the requests share, between two operations: a valid registry of admitted backends, and a
  -- counter that is a uint32.
  pub record IsGood (s : Shared Url) : Type 0 where
    pub valid : IsValid s.registry
    pub weights : All (HasWeight s.registry.heap) (list_backends s.registry)
    pub few : length (list_backends s.registry) ≤ 2 ^ 31
    pub counter : s.current < 2 ^ 32

  -- A selector's run without a panic: no backend, or a registered and healthy one.
  abbrev Selects : Registry Url → Run (Option Ptr) → Type 0
  Selects r m = (o : Option Ptr) × (m ≡ done o) × IsRoutable r.heap (list_backends r) o

  pub healthy-HasWeight :
      (r : Registry Url)
      → All (HasWeight r.heap) (list_backends r)
      → All (HasWeight r.heap) (list_healthy_backends r)
  healthy-HasWeight r w = by_backends r.backends w
    where
      by_backends :
          (o : Option (List Ptr))
          → All (HasWeight r.heap) (elim o [ none ↦ [] | some ps ↦ ps ])
          → All (HasWeight r.heap) (elim o [ none ↦ [] | some ps ↦ keep (healthy r.heap) ps ])
      by_backends none w = tt
      by_backends (some ps) w = All-keep (HasWeight r.heap) (healthy r.heap) ps w

  pub length-healthy :
      (r : Registry Url) → length (list_healthy_backends r) ≤ length (list_backends r)
  length-healthy r = by_backends r.backends
    where
      by_backends :
          (o : Option (List Ptr))
          → length (elim o [ none ↦ [] | some ps ↦ keep (healthy r.heap) ps ])
            ≤ length (elim o [ none ↦ [] | some ps ↦ ps ])
      by_backends none = omega arith
      by_backends (some ps) = length-keep (healthy r.heap) ps

  least_connections-Selects :
      (r : Registry Url) (ps : List Ptr)
      → list_healthy_backends r ≡ ps
      → Selects r (done (least_connections r))
  unfolding least_connections
  least_connections-Selects r [] e = (none, rw (e, least_connections), tt)
  least_connections-Selects r (p ∷ ps) e =
      let (q, at_q, i) = least_connections-In r e in
      (some q, ap done at_q, healthy_In r (subst (In q) (sym e) i))

  random-Selects :
      (r : Registry Url) (draw : ℕ → ℕ) (ps : List Ptr)
      → ((n : ℕ) → 0 < n → draw n < n)
      → list_healthy_backends r ≡ ps
      → All (HasWeight r.heap) (list_backends r)
      → length (list_backends r) ≤ 2 ^ 31
      → Selects r (random draw r)
  unfolding random
  random-Selects r draw [] small e w few = (none, rw e, tt)
  random-Selects r draw (p ∷ ps) small e w few =
      let (q, at_q, listed, up) =
        random-IsFound r draw small e (subst (All (HasWeight r.heap)) e (healthy-HasWeight r w))
          (few_of (length-healthy r)) in
      (some q, at_q, (listed, up))
    where
      few_of :
          length (list_healthy_backends r) ≤ length (list_backends r) → length (p ∷ ps) ≤ 2 ^ 44
      few_of le = let same = ap length e in omega (arith, le, few, same)

  server_for_key-Selects :
      (r : Registry Url) (key : String) (ps : List Ptr)
      → list_healthy_backends r ≡ ps
      → All (HasWeight r.heap) (list_backends r)
      → length (list_backends r) ≤ 2 ^ 31
      → Selects r (server_for_key r key)
  unfolding server_for_key
  server_for_key-Selects r key [] e w few = (none, rw e, tt)
  server_for_key-Selects r key (p ∷ ps) e w few =
      let (q, at_q, listed, up) =
        server_for_key-IsFound r key e (subst (All (HasWeight r.heap)) e (healthy-HasWeight r w))
          (few_of (length-healthy r)) in
      (some q, at_q, (listed, up))
    where
      few_of :
          length (list_healthy_backends r) ≤ length (list_backends r) → length (p ∷ ps) ≤ 2 ^ 44
      few_of le = let same = ap length e in omega (arith, le, few, same)

  -- The same of a balancer, which returns the counter too.
  abbrev pub Routes : Shared Url → Run (ℕ × Option Ptr) → Type 0
  Routes s m =
      (c : ℕ) × (o : Option Ptr) × (m ≡ done (c, o))
      × (c < 2 ^ 32)
      × IsRoutable s.registry.heap (list_backends s.registry) o

  keeping-Routes :
      (s : Shared Url) (m : Run (Option Ptr))
      → s.current < 2 ^ 32
      → Selects s.registry m
      → Routes s (keeping s m)
  keeping-Routes s m lt (o, e, ok) = (s.current, o, rw e, lt, ok)

  -- With every configured strategy, known or not, the balancer of the proxy does not panic on a
  -- good state, returns no backend or one that is registered and healthy, and leaves the counter a
  -- uint32, if the generator draws below its argument.
  pub proxy_selector-Routes :
      {Addr Prefix : Type 0} (net : NetLib Addr Prefix) (draw : ℕ → ℕ) (t : List Prefix)
      (strategy : String) (s : Shared Url) (r : Request)
      → ((n : ℕ) → 0 < n → draw n < n)
      → IsGood s
      → Routes s (proxy_selector net draw t strategy s r)
  unfolding proxy_selector
  proxy_selector-Routes net draw t strategy s r small good =
      let reg = s.registry in
      let hash = keeping-Routes s (server_for_key reg (client_ip net t r)) good.counter (
        server_for_key-Selects reg (client_ip net t r) (list_healthy_backends reg) refl good.weights
          good.few) in
      let least =
        keeping-Routes s (done (least_connections reg)) good.counter
          (least_connections-Selects reg (list_healthy_backends reg) refl) in
      let weighted =
        keeping-Routes s (random draw reg) good.counter
          (random-Selects reg draw (list_healthy_backends reg) small refl good.weights good.few) in
      let rotating = round_robin-IsRoutable reg s.current (omega (arith, good.few)) good.counter in
      elim (Bool-cases (str_eq strategy "ip-hash")) [
        | inl e ↦ rw e hash
        | inr e ↦ rw e (elim (Bool-cases (str_eq strategy "least-connections")) [
          | inl f ↦ rw f least
          | inr f ↦ rw f (elim (Bool-cases (str_eq strategy "random")) [
            | inl g ↦ rw g weighted
            | inr g ↦ rw g rotating
          ])
        ])
      ]
