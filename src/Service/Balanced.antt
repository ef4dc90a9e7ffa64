-- ===== src/Service/Balanced.antt =====
-- internal/bootstrap/server.go, startBalancerServer: requests at the server of the balancer.
use mathlib.Core.Path.{subst}
use mathlib.Core.List.{flat_map}
use golancer.Prelude.{
  ℕ, ◌<◌, ◌≡◌, refl, sym, String, false, Option, inl, inr, List, [], ◌∷◌, ◌++◌, ◌==◌, Bool-cases,
  length,
}
use golancer.Prelude.Int.{ℤ}
use golancer.Domain.{UrlLib, Ptr}
use golancer.Registry.{list_healthy_backends}
use golancer.Http.{Body, Request, NetLib}
use golancer.Proxy.Handler.{Shared, Outbound}
use golancer.Config.{Config}
use golancer.Config.Load.{trusted_proxies}
use golancer.Config.Selector.{IsGood}
use golancer.Config.Serving.{serve_http-IsGood}
use golancer.Handlers.{RegisterBackendRequest}
use golancer.Middleware.{
  Observed, HttpHandler, route_label, limited_request, request_metrics, limit_body,
  common_middleware,
}
use golancer.Middleware.Guards.{common_middleware_lem, IsPlain, sent_status}
use golancer.Bootstrap.{
  health_live, health_ready, proxy_all, routes, proxy_handler, health_handler, lb_handler,
  new_server, start_balancer_server,
}
use golancer.Service.{World, proxy_answer, reply_writes, serve_mux}
use golancer.Service.Answers.{IsCalm, Answers, Calms, serve_mux-Answers, observed_lem}
use golancer.Service.Proxied.{IsFinalAnswer, early_writes-reply, serve_http-Finals}

module _ {Url Addr Prefix : Type 0} (net : NetLib Addr Prefix) (urls : UrlLib Url)
    (parse : String → Option ℤ) (decode : Body → Option RegisterBackendRequest) (draw : ℕ → ℕ)
    (itoa : ℤ → String) (world : World Url) (c : Config) (s : Shared Url)
    (small : (n : ℕ) → 0 < n → draw n < n)
    (kept : (k : ℕ) (s' : Shared Url) (p : Ptr) (out : Outbound Url)
      → IsGood s'
      → IsGood (world.env.forward k s' p out).0)
    (final : (k : ℕ) (s' : Shared Url) (p : Ptr) (out : Outbound Url)
      → IsFinalAnswer (world.env.forward k s' p out).1)
    (quiet : (k : ℕ) → world.env.informs k ≡ [])
    (refuse_plain : (r : Request) → IsPlain (world.refuse r).1) (good : IsGood s) where
  proxy-Calms : Calms net urls decode world s refuse_plain (proxy_all (lb_handler net draw c))
  proxy-Calms value ms r =
      let h = lb_handler {Url = Url} net draw c in
      let (v, e, _, _) =
        serve_http-IsGood net draw (trusted_proxies net c.proxy.trusted_proxies) c.balancer.strategy
          c.balancer.max_retries world.env small kept s r good in
      let (whole, plain) = serve_http-Finals net h world.env final s r v e in
      subst
        (λ m.
          IsCalm net urls decode world s (proxy_answer world.env s m).panicked
            (proxy_answer world.env s m).writes)
        (sym e)
        (
          whole,
          subst IsPlain
              (sym
                (early_writes-reply world.env.informs quiet (length v.sent) (reply_writes v.reply)))
              plain,
        )

  live-Calms : Calms net urls decode world s refuse_plain health_live
  unfolding IsPlain
  live-Calms value ms r = (refl, refl)

  ready-Calms : Calms net urls decode world s refuse_plain health_ready
  unfolding IsPlain
  ready-Calms value ms r = (
    refl,
    elim (Bool-cases (length (list_healthy_backends s.registry) == 0)) [
      | inl e ↦ rw e refl
      | inr e ↦ rw e refl
    ],
  )

  balancer_mux-Answers : Answers net urls decode world s (
      serve_mux net urls decode world
        (flat_map routes (proxy_handler (lb_handler net draw c) ∷ health_handler ∷ [])))
  unfolding flat_map
  balancer_mux-Answers =
      serve_mux-Answers net urls decode world s refuse_plain
        (flat_map routes (proxy_handler (lb_handler net draw c) ∷ health_handler ∷ []))
        (proxy-Calms, (live-Calms, (ready-Calms, tt)))

  -- On a good state, if the generator draws below its argument, the other goroutines keep the state
  -- good while an attempt is under way, no backend sends an informational status or upgrades the
  -- connection, the status of every answer is at least 200, none breaks off, and what net/http
  -- writes where it answers a request by itself has no informational status, flush or hijack first,
  -- the server of the balancer, with the selector of any strategy, any choice of the mux and any
  -- request, does not panic, and the metrics count the request exactly once, under the pattern of
  -- the mux and the status that the client gets.
  pub balancer_server-counted :
      (limit : ℤ) (ms : List Observed) (r : Request)
      → let v =
          start_balancer_server net urls parse draw
            (serve_mux net urls decode world)
            itoa
            (common_middleware limit)
            c in
        let o = v.handler s ms r in
        (o.panicked ≡ false)
        × (o.metrics
            ≡ ms
              ++ record {
                path = route_label o.pattern;
                method = r.method;
                status = sent_status o.writes;
              }
                ∷ [])
  unfolding new_server request_metrics limit_body
  balancer_server-counted limit ms r =
      let next =
        serve_mux net urls decode world
          (flat_map routes (proxy_handler (lb_handler net draw c) ∷ health_handler ∷ [])) in
      let ((calm, told), same) = balancer_mux-Answers ms (limited_request limit r) in
      let o = next s ms (limited_request limit r) in
      subst
        (λ (f : HttpHandler (Shared Url)).
          ((f s ms r).panicked ≡ false)
          × ((f s ms r).metrics
              ≡ ms
                ++ record {
                  path = route_label (f s ms r).pattern;
                  method = r.method;
                  status = sent_status (f s ms r).writes;
                }
                  ∷ []))
        (sym (common_middleware_lem limit next)) (calm, observed_lem ms r o calm told same)
