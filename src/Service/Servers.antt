-- ===== src/Service/Servers.antt =====
-- internal/bootstrap/server.go, internal/server/server.go: requests at the three servers that `Run`
-- starts, through their middleware.
use mathlib.Core.Path.{subst}
use mathlib.Core.List.{flat_map}
use golancer.Prelude.{
  ℕ, ◌^◌, ◌≤◌, ◌<◌, ◌≡◌, refl, sym, ◌≢◌, String, Option, List, [], All, All-map, length,
}
use golancer.Prelude.Int.{ℤ}
use golancer.Domain.{UrlLib}
use golancer.Registry.{list_backends}
use golancer.Registry.Invariant.{entries}
use golancer.Http.{Body, Request, NetLib}
use golancer.Proxy.Handler.{Shared, Handler}
use golancer.Config.{Config, validate}
use golancer.Config.Load.{trusted_proxies, proxy_body_limit}
use golancer.Config.Selector.{IsGood, proxy_selector-Routes}
use golancer.Handlers.{RegisterBackendRequest}
use golancer.Middleware.{Observed, HttpHandler}
use golancer.Middleware.Guards.{common_middleware_lem, registry_middleware_lem}
use golancer.Bootstrap.{Endpoint, lb_handler, new_server, servers}
use golancer.System.{State, Reach}
use golancer.System.Invariant.{Reach-IsCounted}
use golancer.System.Requests.{ByOthers}
use golancer.System.Start.{start, configured, started-IsCounted}
use golancer.Service.{World, serve_mux}
use golancer.Service.Requests.{IsReady}
use golancer.Service.Mounted.{
  IsCountedOnce, Handles, serve_mux-Behaves, bearer_auth-Behaves, request_metrics-Handles,
}

module _ {Url Addr Prefix : Type 0} (net : NetLib Addr Prefix) (urls : UrlLib Url)
    (parse : String → Option ℤ) (decode : Body → Option RegisterBackendRequest) (draw : ℕ → ℕ)
    (itoa : ℤ → String) (world : World Url) (c : Config) (x : State Url) where
  abbrev pub our_handler : Handler Url Prefix
  our_handler = lb_handler net draw c

  abbrev pub mux : List (String × Endpoint Url Prefix) → HttpHandler (Shared Url)
  mux = serve_mux net urls decode world

  servers-Handles :
      (token : String)
      → IsReady net urls decode our_handler world x
      → All
          (λ v. Handles net urls decode our_handler world x v.handler)
          (servers net urls parse draw mux itoa token c)
  unfolding servers new_server flat_map
  servers-Handles token ready =
      let limit = proxy_body_limit c in
      let behaves = serve_mux-Behaves net urls decode our_handler world x ready in
      let common = request_metrics-Handles net urls decode our_handler world x limit in
      (
        subst (Handles net urls decode our_handler world x) (sym (common_middleware_lem limit _))
            (common _ (behaves _ (tt, tt))),
        (
          subst (Handles net urls decode our_handler world x)
              (sym (registry_middleware_lem limit token _))
              (common _ (
                bearer_auth-Behaves net urls decode our_handler world x token _
                  (behaves _ (tt, (tt, (tt, tt)))))),
          (
            subst (Handles net urls decode our_handler world x)
                (sym (common_middleware_lem limit _)) (common _ (behaves _ (refl, (tt, (tt, tt))))),
            tt,
          ),
        ),
      )

module _ {Url Addr Prefix : Type 0} (net : NetLib Addr Prefix) (urls : UrlLib Url)
    (parse : String → Option ℤ) (decode : Body → Option RegisterBackendRequest) (id : ℕ → String)
    (id_inj : (i j : ℕ) → id i ≡ id j → i ≡ j) (draw : ℕ → ℕ) (small : (n : ℕ) → 0 < n → draw n < n)
    (itoa : ℤ → String) (world : World Url) (c : Config) (ok : validate net urls parse c ≡ [])
    (few : length c.backends ≤ 2 ^ 31) where
  -- After the start with a configuration without errors, with at most 2 ^ 31 backends and instance
  -- IDs that are all different, if the generator draws below its argument, in every state that the
  -- steps reach, at each of the three servers, with any token, any choice of the mux and any
  -- request, the handler with its middleware leaves a shared state that further steps reach and
  -- that is good, and the metrics count the request once, or not at all if it ended by a panic. The
  -- other goroutines take steps while an attempt is under way, the instance ID that is drawn for
  -- the request is one that no registered backend has, and fewer than 2 ^ 31 are registered.
  pub servers-Reach :
      (token : String) (x : State Url)
      → Reach urls decode (configured net draw c) (start urls id c) x
      → ByOthers net urls decode (lb_handler net draw c) world.env
      → All (λ b. b.instance_id ≢ world.id) (entries x.shared.registry)
      → length (list_backends x.shared.registry) < 2 ^ 31
      → All
          (λ v.
            (ms : List Observed) (r : Request)
            → let o = v.handler x.shared ms r in
              ((t : State Url) × Reach urls decode (configured net draw c) x t
                × (t.shared ≡ o.state))
              × IsGood o.state
              × IsCountedOnce ms r o)
          (servers net urls parse draw (serve_mux net urls decode world) itoa token c)
  servers-Reach token x reach others unused fits =
      let counted = started-IsCounted net urls parse decode id id_inj draw small c ok few reach in
      let routed = λ (s : Shared Url) (q : Request) (good : IsGood s).
        proxy_selector-Routes net draw (trusted_proxies net c.proxy.trusted_proxies)
          c.balancer.strategy s q small good in
      All-map _ _
        (λ v handles ms r.
          let ((t, further, same), once) = handles ms r in
          (
            (t, further, same),
            subst IsGood same
                (Reach-IsCounted urls decode (configured net draw c) routed counted further).good,
            once,
          ))
        (servers net urls parse draw (serve_mux net urls decode world) itoa token c)
        (servers-Handles net urls parse decode draw itoa world c x token (record {
          counted = counted;
          routes = routed;
          others = others;
          unused = unused;
          fits = fits;
        }))
