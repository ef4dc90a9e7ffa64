-- ===== src/Handlers/Ready.antt =====
-- internal/handlers/health.go: the readiness endpoint against the selectors.
use mathlib.Core.Path.{subst}
use golancer.Prelude.{
  ℕ, ◌^◌, ◌≤◌, ◌<◌, ◌≡◌, refl, ap, ◌⊎◌, inl, inr, String, none, some, List, [], ◌∷◌, All, arith,
  length,
}
use golancer.Prelude.Run.{done}
use golancer.Domain.{Ptr}
use golancer.Registry.{Registry, list_backends, list_healthy_backends}
use golancer.Balancer.{least_connections, random, server_for_key}
use golancer.Balancer.LeastConnections.{least_connections-In}
use golancer.Balancer.Weighted.{HasWeight, random-IsFound, server_for_key-IsFound}
use golancer.Config.Selector.{healthy-HasWeight, length-healthy}
use golancer.Handlers.{readyz}

module _ {Url : Type 0} where
  -- No selector over the healthy backends has one to offer.
  abbrev pub FindsNone : Registry Url → (ℕ → ℕ) → String → Type 0
  FindsNone r draw key =
      (least_connections r ≡ none)
      × (random draw r ≡ done none)
      × (server_for_key r key ≡ done none)

  -- Every one of them has.
  abbrev pub FindsOne : Registry Url → (ℕ → ℕ) → String → Type 0
  FindsOne r draw key =
      ((q : Ptr) × (least_connections r ≡ some q))
      × ((q : Ptr) × (random draw r ≡ done (some q)))
      × ((q : Ptr) × (server_for_key r key ≡ done (some q)))

  -- With admitted weights and at most 2 ^ 31 backends, readyz answers 503 with a count of 0 and the
  -- three selectors over the healthy backends report that there is none, or it answers 200 with a
  -- positive count and each of these selectors returns a backend, whatever the key and the draw
  -- below the total weight.
  pub readyz-selectors :
      (r : Registry Url) (draw : ℕ → ℕ) (key : String)
      → ((n : ℕ) → 0 < n → draw n < n)
      → All (HasWeight r.heap) (list_backends r)
      → length (list_backends r) ≤ 2 ^ 31
      → ((readyz r ≡ (503, 0)) × FindsNone r draw key)
        ⊎ (((readyz r).0 ≡ 200) × (0 < (readyz r).1) × FindsOne r draw key)
  unfolding least_connections random server_for_key
  readyz-selectors r draw key small w few = by_healthy (list_healthy_backends r) refl
    where
      by_healthy :
          (ps : List Ptr)
          → list_healthy_backends r ≡ ps
          → ((readyz r ≡ (503, 0)) × FindsNone r draw key)
            ⊎ (((readyz r).0 ≡ 200) × (0 < (readyz r).1) × FindsOne r draw key)
      by_healthy [] e = inl (
        rw e refl,
        (rw (e, least_connections) refl, rw (e, random) refl, rw (e, server_for_key) refl),
      )
      by_healthy (p ∷ ps) e =
          let fits : length (p ∷ ps) ≤ 2 ^ 44 = omega (arith, few, length-healthy r, ap length e) in
          let weights = subst (All (HasWeight r.heap)) e (healthy-HasWeight r w) in
          let (least, at_least, _) = least_connections-In r e in
          let (drawn, at_drawn, _, _) = random-IsFound r draw small e weights fits in
          let (hashed, at_hashed, _, _) = server_for_key-IsFound r key e weights fits in
          inr (
            rw e (ground arith),
            rw e (omega arith),
            ((least, at_least), (drawn, at_drawn), (hashed, at_hashed)),
          )
