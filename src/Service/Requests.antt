-- ===== src/Service/Requests.antt =====
-- internal/handlers, internal/proxy/proxy.go: each handler among the other parts, as a run of steps.
use mathlib.Core.Path.{subst}
use golancer.Prelude.{
  ◌^◌, ◌<◌, ◌≡◌, refl, sym, ap, ◌∙◌, ◌≢◌, String, Option, List, All, All-to_map, length,
}
use golancer.Domain.{UrlLib}
use golancer.Registry.{list_backends}
use golancer.Registry.Invariant.{entries}
use golancer.Http.{Body, Request, NetLib}
use golancer.Proxy.Handler.{Shared, Handler, serve_http}
use golancer.Config.Selector.{IsGood, Routes}
use golancer.Handlers.{RegisterBackendRequest, register, deregister}
use golancer.Handlers.Calls.{IsAdmitted, deregister-done, register-IsValid}
use golancer.Middleware.{Observed}
use golancer.Bootstrap.{
  Endpoint, prometheus, backends_list, backends_register, backends_deregister, health_live,
  health_ready, proxy_all,
}
use golancer.System.{State, Reach, here, next, registered, deregistered, with_registry}
use golancer.System.Invariant.{IsCounted}
use golancer.System.Requests.{ByOthers, serve_http-Reach}
use golancer.Service.{World, api_answer, proxy_answer, serve_endpoint}

module _ {Url Addr Prefix : Type 0} (net : NetLib Addr Prefix) (urls : UrlLib Url)
    (decode : Body → Option RegisterBackendRequest) (h : Handler Url Prefix) (world : World Url)
    (start : State Url) where
  -- What the theorems below ask for: the connection counts are right, the selector neither panics
  -- on a good state nor picks what is not registered, the other goroutines take steps while an
  -- attempt is under way, and the instance ID is a new one and there is room for a backend.
  pub record IsReady : Type 0 where
    pub counted : IsCounted start
    pub routes : (s : Shared Url) (q : Request) → IsGood s → Routes s (h.balancer s q)
    pub others : ByOthers net urls decode h world.env
    pub unused : All (λ b. b.instance_id ≢ world.id) (entries start.shared.registry)
    pub fits : length (list_backends start.shared.registry) < 2 ^ 31

  -- The shared state of a state that the steps reach.
  abbrev pub Reached : Shared Url → Type 0
  Reached s = (t : State Url) × Reach urls decode h.balancer start t × (t.shared ≡ s)

  abbrev pub Serves : Endpoint Url Prefix → Type 0
  Serves e =
      (value : String) (ms : List Observed) (r : Request)
      → Reached (serve_endpoint net urls decode world e value start.shared ms r).shared

  abbrev pub IsOurs : Endpoint Url Prefix → Type 0
  IsOurs (prometheus timeout) = Unit
  IsOurs backends_list = Unit
  IsOurs backends_register = Unit
  IsOurs backends_deregister = Unit
  IsOurs health_live = Unit
  IsOurs health_ready = Unit
  IsOurs (proxy_all g) = g ≡ h

  stays : Reached start.shared
  stays = (start, here, refl)

  registers :
      IsReady
      → (body : Body)
      → Reached
          (api_answer start.shared
            (register urls decode start.shared.registry world.id body)).shared
  registers ready body =
      let r = start.shared.registry in
      let good = ready.counted.good in
      let (r', reply, e, _, _) =
        register-IsValid urls decode r world.id body good.valid
          (All-to_map r.heap.cell IsAdmitted (list_backends r) good.weights) ready.unused in
      (
        with_registry start r',
        next here (registered start world.id body r' reply ready.unused ready.fits e),
        ap (λ m. (api_answer start.shared m).shared) (sym e),
      )

  deregisters :
      IsReady
      → (target : String)
      → Reached (api_answer start.shared (deregister start.shared.registry target)).shared
  deregisters ready target =
      let (r', reply, e) = deregister-done start.shared.registry target ready.counted.good.valid in
      (
        with_registry start r',
        next here (deregistered start target r' reply e),
        ap (λ m. (api_answer start.shared m).shared) (sym e),
      )

  proxies :
      IsReady
      → (q : Request)
      → Reached
          (proxy_answer world.env start.shared (serve_http net h world.env start.shared q)).shared
  proxies ready q =
      let (v, e, (t, reach, same)) =
        serve_http-Reach net urls decode h world.env start ready.counted ready.routes ready.others
          q in
      (t, reach, same ∙ ap (λ m. (proxy_answer world.env start.shared m).shared) (sym e))

  pub serve_endpoint-Reached : IsReady → (e : Endpoint Url Prefix) → IsOurs e → Serves e
  serve_endpoint-Reached ready (prometheus timeout) o value ms r = stays
  serve_endpoint-Reached ready backends_list o value ms r = stays
  serve_endpoint-Reached ready backends_register o value ms r = registers ready r.body
  serve_endpoint-Reached ready backends_deregister o value ms r = deregisters ready value
  serve_endpoint-Reached ready health_live o value ms r = stays
  serve_endpoint-Reached ready health_ready o value ms r = stays
  serve_endpoint-Reached ready (proxy_all g) o value ms r =
      subst
        (λ x.
          Reached
            (serve_endpoint net urls decode world (proxy_all x) value start.shared ms r).shared)
        (sym o) (proxies ready r)
