-- ===== src/Service/Limited.antt =====
-- internal/bootstrap/middleware.go, limitBody, before internal/proxy/proxy.go: a request with a body
-- beyond the limit at the server of the balancer.
use mathlib.Core.List.{flat_map}
use text.Mathlib.TextEquality.{eq_iff}
use golancer.Prelude.{
  ℕ, ◌<◌, ◌≡◌, refl, ap, ◌∙◌, String, false, Option, none, some, List, [], ◌∷◌, ◌++◌, arith, ◌≢◌,
  str_eq_ne, str_eq_refl, length,
}
use golancer.Prelude.Int.{ℤ, pos_part}
use golancer.Domain.{UrlLib}
use golancer.Http.{Body, readable, Request, NetLib}
use golancer.Proxy.Handler.{Shared}
use golancer.Config.{Config}
use golancer.Config.Load.{proxy_body_limit}
use golancer.Handlers.{RegisterBackendRequest}
use golancer.Middleware.{
  Observed, Outcome, observe_request, HttpHandler, record_writes, limited_request, request_metrics,
  limit_body, common_middleware,
}
use golancer.Middleware.Guards.{common_middleware_lem, limited_request-serve_http}
use golancer.Bootstrap.{
  routes, proxy_handler, health_handler, lb_handler, new_server, start_balancer_server,
}
use golancer.Service.{
  World, answer, outcome_of, proxy_answer, serve_pattern, serve_mux, early_writes, http_error,
}

root_ne : ◌≢◌ {A = String} "/" ""
root_ne = ground (arith, eq_iff "/" "")

module _ {Url Addr Prefix : Type 0} (net : NetLib Addr Prefix) (urls : UrlLib Url)
    (parse : String → Option ℤ) (decode : Body → Option RegisterBackendRequest) (draw : ℕ → ℕ)
    (itoa : ℤ → String) (world : World Url) (c : Config) where
  -- What the handlers leave of such a request.
  abbrev rejected : Shared Url → List Observed → Outcome (Shared Url)
  rejected s ms = record {
    state = s;
    metrics = ms;
    pattern = "/";
    writes = http_error 400;
    panicked = false;
  }

  rejected_lem :
      (bytes : List ℕ) (value : String) (s : Shared Url) (ms : List Observed) (r : Request)
      → r.body ≡ readable bytes
      → pos_part (proxy_body_limit c) < length bytes
      → world.matches
          ("/" ∷ "GET /healthz" ∷ "GET /readyz" ∷ [])
          (limited_request (proxy_body_limit c) r)
        ≡ some ("/", value)
      → serve_mux net urls decode world
          (flat_map routes (proxy_handler (lb_handler net draw c) ∷ health_handler ∷ []))
          s
          ms
          (limited_request (proxy_body_limit c) r)
        ≡ rejected s ms
  unfolding serve_mux flat_map early_writes
  rejected_lem bytes value s ms r is_body long matched =
      let limit = proxy_body_limit c in
      let h = lb_handler {Url = Url} net draw c in
      let q = limited_request limit r in
      let rs = flat_map routes (proxy_handler h ∷ health_handler ∷ []) in
      let chosen : Option (String × String) → Outcome (Shared Url) = λ o. elim o [
        | none ↦ outcome_of ms (world.refuse q).0 (answer s (world.refuse q).1)
        | some (pattern, v) ↦ serve_pattern net urls decode world rs pattern v s ms q
      ] in
      ap chosen matched
      ∙ rw (str_eq_refl "/") (
          ap (λ m. outcome_of ms "/" (proxy_answer world.env s m))
            (limited_request-serve_http net h world.env limit bytes s r is_body long))

  -- At the server of the balancer, with the body limit of any configuration, a request whose body
  -- is longer than the limit and that the mux gives to the proxy gets 400, the shared state is left
  -- alone, so that nothing is selected, sent or counted on a backend, there is no panic, and the
  -- metrics gain exactly one request under the pattern of the proxy, with 400.
  pub balancer_server-limited :
      (bytes : List ℕ) (value : String) (s : Shared Url) (ms : List Observed) (r : Request)
      → r.body ≡ readable bytes
      → pos_part (proxy_body_limit c) < length bytes
      → world.matches
          ("/" ∷ "GET /healthz" ∷ "GET /readyz" ∷ [])
          (limited_request (proxy_body_limit c) r)
        ≡ some ("/", value)
      → let v =
          start_balancer_server net urls parse draw
            (serve_mux net urls decode world)
            itoa
            (common_middleware (proxy_body_limit c))
            c in
        v.handler s ms r ≡ record {
          state = s;
          metrics = ms ++ record { path = "/"; method = r.method; status = 400 } ∷ [];
          pattern = "/";
          writes = http_error 400;
          panicked = false;
        }
  unfolding new_server request_metrics limit_body record_writes flat_map
  balancer_server-limited bytes value s ms r is_body long matched =
      let limit = proxy_body_limit c in
      let next =
        serve_mux net urls decode world
          (flat_map routes (proxy_handler (lb_handler net draw c) ∷ health_handler ∷ [])) in
      ap (λ (f : HttpHandler (Shared Url)). f s ms r) (common_middleware_lem limit next)
      ∙ ap (observe_request r) (rejected_lem bytes value s ms r is_body long matched)
      ∙ rw (str_eq_ne "/" "" root_ne) refl
