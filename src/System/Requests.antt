-- ===== src/System/Requests.antt =====
-- internal/proxy/proxy.go among the other parts: a request, as `ServeHTTP` runs it, is a run of steps.
use mathlib.Core.Path.{subst}
use golancer.Prelude.{ℕ, ◌-◌, ◌^◌, ◌≡◌, refl, sym, ap, ◌≢◌, Option, none, some, ◌∷◌, In, inl}
use golancer.Prelude.Run.{done}
use golancer.Domain.{UrlLib, Ptr}
use golancer.Http.{Body, Request, NetLib}
use golancer.Proxy.Handler.{Shared, Balancer, Handler, Env, Served, Outbound, connect, serve_http}
use golancer.Proxy.Serve.{Keeps, serve_http-total}
use golancer.Config.Selector.{IsGood, Routes}
use golancer.Config.Serving.{routable-HasUrl}
use golancer.Handlers.{RegisterBackendRequest}
use golancer.System.{State, Reach, selected, began, finished, here, next, remove_first}
use golancer.System.Invariant.{IsCounted, Reach-IsCounted}

module _ {Url : Type 0} {urls : UrlLib Url} {decode : Body → Option RegisterBackendRequest}
    {balancer : Balancer Url} where
  Reach-trans :
      {s t u : State Url}
      → Reach urls decode balancer s t
      → Reach urls decode balancer t u
      → Reach urls decode balancer s u
  Reach-trans a here = a
  Reach-trans a (next b st) = next (Reach-trans a b) st

module _ {Url Addr Prefix : Type 0} (net : NetLib Addr Prefix) (urls : UrlLib Url)
    (decode : Body → Option RegisterBackendRequest) (h : Handler Url Prefix) (env : Env Url) where
  -- While an attempt is under way, other goroutines take steps, and the attempt stays under way.
  abbrev pub ByOthers : Type 0
  ByOthers =
      (k : ℕ) (s : State Url) (p : Ptr) (out : Outbound Url)
      → In p s.in_flight
      → (t : State Url) × Reach urls decode h.balancer s t
        × (t.shared ≡ (env.forward k s.shared p out).0)
        × In p t.in_flight

  module _ (start : State Url) (counted : IsCounted start)
      (routes : (s : Shared Url) (q : Request) → IsGood s → Routes s (h.balancer s q))
      (others : ByOthers) where
    -- The shared state of a state that the steps reach.
    abbrev Reached : Shared Url → Type 0
    Reached s = (t : State Url) × Reach urls decode h.balancer start t × (t.shared ≡ s)

    abbrev Selects : Request → Shared Url → Type 0
    Selects q s =
        (c : ℕ) × (o : Option Ptr) × (h.balancer s q ≡ done (c, o))
        × Reached (record s { current = c })
        × ((p : Ptr) → o ≡ some p → (s.registry.heap.cell p).url ≢ none)

    selection_lem :
        (q : Request) (t : State Url) → Reach urls decode h.balancer start t → Selects q t.shared
    selection_lem q t reach =
        let good = (Reach-IsCounted urls decode h.balancer routes counted reach).good in
        let (c, o, e, lt, ok) = routes t.shared q good in
        (
          c,
          o,
          e,
          (
            record t { shared = record (t.shared) { current = c } },
            next reach (selected t q c o e),
            refl,
          ),
          routable-HasUrl t.shared o good ok,
        )

    cycles-Reached :
        (k : ℕ) (p : Ptr) (out : Outbound Url) (t : State Url)
        → Reach urls decode h.balancer start t
        → (t.shared.registry.heap.cell p).url ≢ none
        → Reached (connect (env.forward k (connect t.shared p 1) p out).0 p (2 ^ 32 - 1))
    cycles-Reached k p out t reach has =
        let up : State Url = record {
          shared = connect t.shared p 1;
          in_flight = p ∷ t.in_flight;
        } in
        let (u, steps, same, i) = others k up p out (inl refl) in
        (
          record {
            shared = connect u.shared p (2 ^ 32 - 1);
            in_flight = remove_first p u.in_flight;
          },
          next (Reach-trans (next reach (began t p has)) steps) (finished u p i),
          ap (λ s. connect s p (2 ^ 32 - 1)) same,
        )

    steps-Keeps : Keeps net h env Reached
    steps-Keeps = record {
      selects = λ s q reached.
          let (t, reach, same) = reached in subst (Selects q) same (selection_lem q t reach);
      cycles = λ k s p out reached has.
          let (t, reach, same) = reached in
          subst (λ x. Reached (connect (env.forward k (connect x p 1) p out).0 p (2 ^ 32 - 1))) same
            (cycles-Reached k p out t reach
              (subst (λ x. (x.registry.heap.cell p).url ≢ none) (sym same) has));
    }

    -- If, while an attempt is under way, the other goroutines take atomic steps after which it is
    -- still under way, and the selector never panics on a good state and picks registered backends,
    -- then ServeHTTP ends on every state in which the counts are right, and the shared state that
    -- it leaves is one that atomic steps reach from there.
    pub serve_http-Reach :
        (q : Request)
        → (v : Served Url) × (serve_http net h env start.shared q ≡ done v)
          × ((t : State Url) × Reach urls decode h.balancer start t × (t.shared ≡ v.shared))
    serve_http-Reach q =
        let (v, e, reached, _) =
          serve_http-total net h env Reached steps-Keeps start.shared q (start, here, refl) in
        (v, e, reached)
