-- ===== src/Service/Registered.antt =====
-- internal/handlers/backends.go behind its middleware: what the clients of the registration API and
-- the metrics get to see.
use mathlib.Core.List.{flat_map}
use mathlib.Core.Path.{subst}
use golancer.Prelude.{ℕ, ◌≡◌, refl, sym, ◌≢◌, String, false, Option, List, [], ◌∷◌, ◌++◌, All}
use golancer.Prelude.Int.{ℤ}
use golancer.Prelude.Run.{Run, done}
use golancer.Domain.{UrlLib}
use golancer.Registry.{Registry}
use golancer.Registry.Invariant.{IsValid, entries}
use golancer.Http.{Body, Request, NetLib}
use golancer.Proxy.Handler.{Shared}
use golancer.Config.{Config}
use golancer.Handlers.{
  RegisterBackendRequest, ApiReply, listed, created, removed, bad_request, missing_id, conflict,
  not_found, register, deregister,
}
use golancer.Handlers.Calls.{IsAdmitted, deregister-done, register-IsValid}
use golancer.Middleware.{
  Observed, HttpHandler, route_label, limited_request, request_metrics, limit_body, bearer_auth,
  registry_middleware,
}
use golancer.Middleware.Guards.{registry_middleware_lem, IsPlain, sent_status}
use golancer.Bootstrap.{
  routes, backend_handler, Endpoint, backends_list, backends_register, backends_deregister,
  new_server, start_registry_server,
}
use golancer.Service.{World, api_writes, api_answer, serve_mux}
use golancer.Service.Answers.{
  IsCalm, Answers, Calms, serve_mux-Answers, bearer_auth-Answers, observed_lem,
}

api_writes-IsPlain : (reply : ApiReply) → IsPlain (api_writes reply)
unfolding IsPlain
api_writes-IsPlain (listed bs) = refl
api_writes-IsPlain (created id) = refl
api_writes-IsPlain removed = refl
api_writes-IsPlain (bad_request e) = refl
api_writes-IsPlain missing_id = refl
api_writes-IsPlain conflict = refl
api_writes-IsPlain (not_found id) = refl

module _ {Url Addr Prefix : Type 0} (net : NetLib Addr Prefix) (urls : UrlLib Url)
    (decode : Body → Option RegisterBackendRequest) (world : World Url) (s : Shared Url) where
  done_lem :
      (m : Run (Registry Url × ApiReply)) (r' : Registry Url) (reply : ApiReply)
      → m ≡ done (r', reply)
      → IsCalm net urls decode world s (api_answer s m).panicked (api_answer s m).writes
  done_lem m r' reply e =
      subst (λ q. IsCalm net urls decode world s (api_answer s q).panicked (api_answer s q).writes)
        (sym e) (refl, api_writes-IsPlain reply)

  module _ (valid : IsValid s.registry) (weights : All IsAdmitted (entries s.registry))
      (unused : All (λ b. b.instance_id ≢ world.id) (entries s.registry))
      (refuse_plain : (r : Request) → IsPlain (world.refuse r).1) where
    abbrev OurCalms : Endpoint Url Prefix → Type 0
    OurCalms e = Calms net urls decode world s refuse_plain e

    list-Calms : OurCalms backends_list
    unfolding IsPlain
    list-Calms value ms r = (refl, refl)

    register-Calms : OurCalms backends_register
    register-Calms value ms r =
        let (r', reply, e, _, _) =
          register-IsValid urls decode s.registry world.id r.body valid weights unused in
        done_lem (register urls decode s.registry world.id r.body) r' reply e

    deregister-Calms : OurCalms backends_deregister
    deregister-Calms value ms r =
        let (r', reply, e) = deregister-done s.registry value valid in
        done_lem (deregister s.registry value) r' reply e

    registry_mux-Answers :
        Answers net urls decode world s
          (serve_mux net urls decode world (flat_map routes (backend_handler ∷ [])))
    unfolding flat_map
    registry_mux-Answers =
        serve_mux-Answers net urls decode world s refuse_plain
          (flat_map routes (backend_handler ∷ []))
          (list-Calms, (register-Calms, (deregister-Calms, tt)))

module _ {Url Addr Prefix : Type 0} (net : NetLib Addr Prefix) (urls : UrlLib Url)
    (parse : String → Option ℤ) (decode : Body → Option RegisterBackendRequest) (draw : ℕ → ℕ)
    (itoa : ℤ → String) (world : World Url) (c : Config) where
  -- On a valid registry of backends with admitted weights, if the instance ID that is drawn is one
  -- that no registered backend has, and what net/http writes where it answers a request by itself
  -- has no informational status, flush or hijack first, the server of the registration API, with
  -- any token, any choice of the mux and any request, does not panic, and the metrics count the
  -- request exactly once, under the pattern of the mux and the status that the client gets.
  pub registry_server-counted :
      (limit : ℤ) (token : String) (s : Shared Url) (ms : List Observed) (r : Request)
      → IsValid s.registry
      → All IsAdmitted (entries s.registry)
      → All (λ b. b.instance_id ≢ world.id) (entries s.registry)
      → ((q : Request) → IsPlain (world.refuse q).1)
      → let v =
          start_registry_server net urls parse draw
            (serve_mux net urls decode world)
            itoa
            (registry_middleware limit token)
            c in
        let o = v.handler s ms r in
        (o.panicked ≡ false)
        × (o.metrics
            ≡ ms
              ++ record {
                path = route_label o.pattern;
                method = r.method;
                status = sent_status o.writes;
              }
                ∷ [])
  unfolding new_server request_metrics limit_body
  registry_server-counted limit token s ms r valid weights unused plain =
      let next = serve_mux net urls decode world (flat_map routes (backend_handler ∷ [])) in
      let ((calm, told), same) =
        bearer_auth-Answers net urls decode world s plain token next
          (registry_mux-Answers net urls decode world s valid weights unused plain) ms
          (limited_request limit r) in
      let o = bearer_auth token next s ms (limited_request limit r) in
      subst
        (λ (f : HttpHandler (Shared Url)).
          ((f s ms r).panicked ≡ false)
          × ((f s ms r).metrics
              ≡ ms
                ++ record {
                  path = route_label (f s ms r).pattern;
                  method = r.method;
                  status = sent_status (f s ms r).writes;
                }
                  ∷ []))
        (sym (registry_middleware_lem limit token next)) (calm, observed_lem ms r o calm told same)
