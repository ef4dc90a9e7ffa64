-- ===== src/Config/Serving.antt =====
-- internal/config/load.go and internal/proxy/proxy.go together: the proxy with a configured selector
-- on a registry that other goroutines keep in a good state.
use mathlib.Core.Path.{subst}
use golancer.Prelude.{
  ℕ, ◌-◌, ◌^◌, ◌≤◌, ◌<◌, ◌≡◌, ◌≢◌, String, Option, none, some, List, [], ◌∷◌, arith, All, length,
}
use golancer.Prelude.Int.{ℤ}
use golancer.Prelude.Run.{done}
use golancer.Domain.{Ptr}
use golancer.Registry.{list_backends}
use golancer.Registry.Invariant.{HasUrl}
use golancer.Registry.Fields.{All-field, DistinctIds-field, All-In_map}
use golancer.Balancer.RoundRobin.{IsRoutable}
use golancer.Balancer.Weighted.{HasWeight}
use golancer.Http.{Request, NetLib}
use golancer.Proxy.Handler.{
  Shared, Handler, Env, Served, Outbound, connect, max_retries_for, rounds, serve_http,
}
use golancer.Proxy.Serve.{Keeps, serve_http-total}
use golancer.Config.Load.{proxy_selector}
use golancer.Config.Selector.{IsGood, proxy_selector-Routes}

module _ {Url : Type 0} where
  HasWeight-connect :
      (s : Shared Url) (p : Ptr) (d : ℕ) (ps : List Ptr)
      → All (HasWeight s.registry.heap) ps
      → All (HasWeight (connect s p d).registry.heap) ps
  HasWeight-connect s p d [] w = tt
  HasWeight-connect s p d (q ∷ ps) w = (ground (arith, w.0), HasWeight-connect s p d ps w.1)

  -- Counting a connection keeps a good state good.
  pub connect-IsGood : (s : Shared Url) (p : Ptr) (d : ℕ) → IsGood s → IsGood (connect s p d)
  connect-IsGood s p d good =
      let cell = s.registry.heap.cell in
      let cell' = (connect s p d).registry.heap.cell in
      record {
        valid = record {
          ptrs = good.valid.ptrs;
          stored = good.valid.stored;
          allocated = good.valid.allocated;
          has_url =
              All-field cell cell' (λ b. b.url) (λ u. u ≢ none) good.valid.ptrs
                (λ q i. ground arith) good.valid.has_url;
          distinct =
              DistinctIds-field cell cell' good.valid.ptrs (λ q i. ground arith)
                good.valid.distinct;
        };
        weights = HasWeight-connect s p d (list_backends s.registry) good.weights;
        few = good.few;
        counter = good.counter;
      }

  pub routable-HasUrl :
      (s : Shared Url) (o : Option Ptr)
      → IsGood s
      → IsRoutable s.registry.heap (list_backends s.registry) o
      → (p : Ptr) → o ≡ some p
      → (s.registry.heap.cell p).url ≢ none
  routable-HasUrl s none good ok p e = cc
  routable-HasUrl s (some q) good ok p e =
      subst (λ x. (s.registry.heap.cell x).url ≢ none) (some_inj e)
        (All-In_map HasUrl s.registry.heap.cell (list_backends s.registry)
          (rw good.valid.stored good.valid.has_url) ok.0)
    where
      some_inj : {a b : Ptr} → ◌≡◌ {A = Option Ptr} (some a) (some b) → a ≡ b
      some_inj e = cc

module _ {Url Addr Prefix : Type 0} (net : NetLib Addr Prefix) (draw : ℕ → ℕ) (t : List Prefix)
    (strategy : String) (retries : ℤ) (env : Env Url) where
  -- `NewHandler` with the selector of the configuration.
  abbrev pub configured_handler : Handler Url Prefix
  configured_handler = record {
    balancer = proxy_selector net draw t strategy;
    max_retries = retries;
    trusted = t;
  }

  configured-Keeps :
      ((n : ℕ) → 0 < n → draw n < n)
      → ((k : ℕ) (s : Shared Url) (p : Ptr) (out : Outbound Url)
          → IsGood s
          → IsGood (env.forward k s p out).0)
      → Keeps net configured_handler env IsGood
  configured-Keeps small kept = record {
    selects = λ s r good.
        let (c, o, e, lt, ok) = proxy_selector-Routes net draw t strategy s r small good in
        (
          c,
          o,
          e,
          record { valid = good.valid; weights = good.weights; few = good.few; counter = lt },
          routable-HasUrl s o good ok,
        );
    cycles = λ k s p out good has.
        connect-IsGood (env.forward k (connect s p 1) p out).0 p (2 ^ 32 - 1)
          (kept k (connect s p 1) p out (connect-IsGood s p 1 good));
  }

  -- With the selector of any configured strategy, if the generator draws below its argument, and
  -- the prober, the registration API and the other requests keep the shared state good while an
  -- attempt is under way, every request on a good state is served to an end without a nil
  -- dereference, an index out of range or a division by zero, is sent at most once more than the
  -- retries that its method allows, and leaves a good state.
  pub serve_http-IsGood :
      ((n : ℕ) → 0 < n → draw n < n)
      → ((k : ℕ) (s : Shared Url) (p : Ptr) (out : Outbound Url)
          → IsGood s
          → IsGood (env.forward k s p out).0)
      → (s : Shared Url) (r : Request) → IsGood s
      → (v : Served Url) × (serve_http net configured_handler env s r ≡ done v)
        × IsGood v.shared
        × (length v.sent ≤ rounds (max_retries_for configured_handler r))
  serve_http-IsGood small kept s r good =
      serve_http-total net configured_handler env IsGood (configured-Keeps small kept) s r good
