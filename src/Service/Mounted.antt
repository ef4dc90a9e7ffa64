-- ===== src/Service/Mounted.antt =====
-- internal/bootstrap/middleware.go, internal/server/server.go: what the mux and the middleware make of
-- handlers whose effects are steps.
use Prim.Native.String.{◌++◌ as text_append}
use golancer.Prelude.{
  ◌≡◌, refl, ap, String, Bool, true, false, Option, none, some, inl, inr, List, [], ◌∷◌, ◌++◌, map,
  All, str_eq, Bool-cases, if◌then◌else◌, ◌⊎◌,
}
use golancer.Prelude.Int.{ℤ}
use golancer.Domain.{UrlLib}
use golancer.Http.{Body, Request, get, NetLib}
use golancer.Proxy.Handler.{Shared, Handler}
use golancer.Handlers.{RegisterBackendRequest}
use golancer.Middleware.{
  Observed, Outcome, HttpHandler, recorded_status, route_label, limited_request, request_metrics,
  limit_body, bearer_auth,
}
use golancer.Bootstrap.{Endpoint}
use golancer.System.{State, here}
use golancer.Service.{World, answer, outcome_of, serve_pattern, serve_mux}
use golancer.Service.Requests.{IsReady, Reached, IsOurs, serve_endpoint-Reached}

-- A request that ends by a panic is not counted, any other exactly once.
abbrev pub IsCountedOnce : {S : Type 0} → List Observed → Request → Outcome S → Type 0
IsCountedOnce ms r o =
    ((o.panicked ≡ true) × (o.metrics ≡ ms))
    ⊎ ((o.panicked ≡ false)
        × (o.metrics
            ≡ ms
              ++ record {
                path = route_label o.pattern;
                method = r.method;
                status = recorded_status o.writes;
              }
                ∷ []))

once :
    {A : Type 0} (b : Bool) (xs ys es : List A)
    → xs ≡ ys
    → ((b ≡ true) × ((if b then xs else xs ++ es) ≡ ys))
      ⊎ ((b ≡ false) × ((if b then xs else xs ++ es) ≡ ys ++ es))
once true xs ys es e = inl (refl, e)
once false xs ys es e = inr (refl, ap (λ l. l ++ es) e)

module _ {Url Addr Prefix : Type 0} (net : NetLib Addr Prefix) (urls : UrlLib Url)
    (decode : Body → Option RegisterBackendRequest) (h : Handler Url Prefix) (world : World Url)
    (x : State Url) where
  -- A handler behind the middleware: it leaves a state that steps reach, and the metrics as they are.
  abbrev pub Behaves : HttpHandler (Shared Url) → Type 0
  Behaves next =
      (ms : List Observed) (r : Request)
      → Reached net urls decode h world x (next x.shared ms r).state
        × ((next x.shared ms r).metrics ≡ ms)

  -- The same of what a server runs, which counts the request.
  abbrev pub Handles : HttpHandler (Shared Url) → Type 0
  Handles next =
      (ms : List Observed) (r : Request)
      → Reached net urls decode h world x (next x.shared ms r).state
        × IsCountedOnce ms r (next x.shared ms r)

  serve_pattern-Behaves :
      IsReady net urls decode h world x
      → (rs : List (String × Endpoint Url Prefix)) (pattern value : String)
      → All (λ e. IsOurs net urls decode h world x e.1) rs
      → Behaves (serve_pattern net urls decode world rs pattern value)
  serve_pattern-Behaves ready [] pattern value ours ms r = ((x, here, refl), refl)
  serve_pattern-Behaves ready ((p, e) ∷ rest) pattern value ours ms r =
      elim (Bool-cases (str_eq p pattern)) [
        | inl y ↦
            rw y (serve_endpoint-Reached net urls decode h world x ready e ours.0 value ms r, refl)
        | inr y ↦ rw y (serve_pattern-Behaves ready rest pattern value ours.1 ms r)
      ]

  pub serve_mux-Behaves :
      IsReady net urls decode h world x
      → (rs : List (String × Endpoint Url Prefix))
      → All (λ e. IsOurs net urls decode h world x e.1) rs
      → Behaves (serve_mux net urls decode world rs)
  unfolding serve_mux
  serve_mux-Behaves ready rs ours ms r = by_match (world.matches (map (λ y. y.0) rs) r)
    where
      by_match :
          (o : Option (String × String))
          → let q : Outcome (Shared Url) = elim o [
            | none ↦ outcome_of ms (world.refuse r).0 (answer x.shared (world.refuse r).1)
            | some (pattern, value) ↦
                serve_pattern net urls decode world rs pattern value x.shared ms r
          ] in
            Reached net urls decode h world x q.state × (q.metrics ≡ ms)
      by_match none = ((x, here, refl), refl)
      by_match (some (pattern, value)) = serve_pattern-Behaves ready rs pattern value ours ms r

  pub bearer_auth-Behaves :
      (token : String) (next : HttpHandler (Shared Url))
      → Behaves next
      → Behaves (bearer_auth token next)
  unfolding bearer_auth
  bearer_auth-Behaves token next b ms r = elim (Bool-cases (str_eq token "")) [
    | inl e ↦ rw e (b ms r)
    | inr e ↦
        elim (Bool-cases (str_eq (get "Authorization" r.header) (text_append "Bearer " token))) [
          | inl k ↦ rw (e, k) (b ms r)
          | inr k ↦ rw (e, k) ((x, here, refl), refl)
        ]
  ]

  pub request_metrics-Handles :
      (limit : ℤ) (next : HttpHandler (Shared Url))
      → Behaves next
      → Handles (request_metrics (limit_body limit next))
  unfolding request_metrics limit_body
  request_metrics-Handles limit next b ms r =
      let (reached, same) = b ms (limited_request limit r) in
      let o = next x.shared ms (limited_request limit r) in
      (reached, once o.panicked o.metrics ms _ same)
