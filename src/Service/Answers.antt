-- ===== src/Service/Answers.antt =====
-- internal/bootstrap/middleware.go, internal/server/server.go: handlers that end without a panic, behind
-- the mux and the middleware, and the status that is counted for them.
use Prim.Native.String.{◌++◌ as text_append}
use golancer.Prelude.{
  ◌≡◌, refl, ap, ◌∙◌, String, Bool, false, Option, none, some, inl, inr, List, [], ◌∷◌, ◌++◌, map,
  All, str_eq, Bool-cases, if◌then◌else◌,
}
use golancer.Domain.{UrlLib}
use golancer.Http.{Body, Request, get, NetLib}
use golancer.Proxy.Handler.{Shared}
use golancer.Handlers.{RegisterBackendRequest}
use golancer.Middleware.{
  observe_request, Observed, Outcome, HttpHandler, Write, recorded_status, route_label, bearer_auth,
}
use golancer.Middleware.Guards.{IsPlain, sent_status, recorded_status-sent_status}
use golancer.Bootstrap.{Endpoint}
use golancer.Service.{World, answer, outcome_of, serve_endpoint, serve_pattern, serve_mux}

pub observed_lem :
    {S : Type 0} (ms : List Observed) (r : Request) (o : Outcome S)
    → o.panicked ≡ false
    → IsPlain o.writes
    → o.metrics ≡ ms
    → (observe_request r o).metrics
      ≡ ms
        ++ record { path = route_label o.pattern; method = r.method; status = sent_status o.writes }
          ∷ []
observed_lem ms r o calm plain same =
    let e : Observed = record {
      path = route_label o.pattern;
      method = r.method;
      status = recorded_status o.writes;
    } in
    ap (λ b. if b then o.metrics else o.metrics ++ e ∷ []) calm
    ∙ ap (λ l. l ++ e ∷ []) same
    ∙ ap (λ n. ms ++ record { path = route_label o.pattern; method = r.method; status = n } ∷ [])
        (recorded_status-sent_status o.writes plain)

module _ {Url Addr Prefix : Type 0} (net : NetLib Addr Prefix) (urls : UrlLib Url)
    (decode : Body → Option RegisterBackendRequest) (world : World Url) (s : Shared Url) where
  -- The handler does not panic, and writes so that the metrics can tell the status.
  abbrev pub IsCalm : Bool → List Write → Type 0
  IsCalm panicked ws = (panicked ≡ false) × IsPlain ws

  abbrev pub Answers : HttpHandler (Shared Url) → Type 0
  Answers next =
      (ms : List Observed) (r : Request)
      → IsCalm (next s ms r).panicked (next s ms r).writes × ((next s ms r).metrics ≡ ms)

  module _ (refuse_plain : (r : Request) → IsPlain (world.refuse r).1) where
    abbrev pub Calms : Endpoint Url Prefix → Type 0
    Calms e =
        (value : String) (ms : List Observed) (r : Request)
        → let a = serve_endpoint net urls decode world e value s ms r in IsCalm a.panicked a.writes

    refuse-Answers :
        (ms : List Observed) (r : Request)
        → let o = outcome_of ms (world.refuse r).0 (answer s (world.refuse r).1) in
          IsCalm o.panicked o.writes × (o.metrics ≡ ms)
    refuse-Answers ms r = ((refl, refuse_plain r), refl)

    serve_pattern-Answers :
        (rs : List (String × Endpoint Url Prefix)) (pattern value : String)
        → All (λ e. Calms e.1) rs
        → Answers (serve_pattern net urls decode world rs pattern value)
    serve_pattern-Answers [] pattern value calm ms r = refuse-Answers ms r
    serve_pattern-Answers ((p, e) ∷ rest) pattern value calm ms r =
        elim (Bool-cases (str_eq p pattern)) [
          | inl y ↦ rw y (calm.0 value ms r, refl)
          | inr y ↦ rw y (serve_pattern-Answers rest pattern value calm.1 ms r)
        ]

    pub serve_mux-Answers :
        (rs : List (String × Endpoint Url Prefix))
        → All (λ e. Calms e.1) rs
        → Answers (serve_mux net urls decode world rs)
    unfolding serve_mux
    serve_mux-Answers rs calm ms r = by_match (world.matches (map (λ y. y.0) rs) r)
      where
        by_match :
            (o : Option (String × String))
            → let q : Outcome (Shared Url) = elim o [
              | none ↦ outcome_of ms (world.refuse r).0 (answer s (world.refuse r).1)
              | some (pattern, value) ↦ serve_pattern net urls decode world rs pattern value s ms r
            ] in
              IsCalm q.panicked q.writes × (q.metrics ≡ ms)
        by_match none = refuse-Answers ms r
        by_match (some (pattern, value)) = serve_pattern-Answers rs pattern value calm ms r

    pub bearer_auth-Answers :
        (token : String) (next : HttpHandler (Shared Url))
        → Answers next
        → Answers (bearer_auth token next)
    unfolding bearer_auth IsPlain
    bearer_auth-Answers token next b ms r = elim (Bool-cases (str_eq token "")) [
      | inl e ↦ rw e (b ms r)
      | inr e ↦
          elim (Bool-cases (str_eq (get "Authorization" r.header) (text_append "Bearer " token))) [
            | inl k ↦ rw (e, k) (b ms r)
            | inr k ↦ rw (e, k) ((refl, refl), refl)
          ]
    ]
