-- ===== src/System/Sticky.antt =====
-- internal/balancer/hash.go behind ByClientIP: the requests of one client, while other requests come
-- and go.
use golancer.Prelude.{
  ℕ, ◌+◌, ◌-◌, ◌%◌, ◌^◌, ◌<◌, ◌≡◌, refl, sym, ap, ◌∙◌, String, Option, none, some, List, [], ◌∷◌,
  arith, keep, str_eq_refl,
}
use golancer.Prelude.Run.{done, done-pair_inj, >>=-eq-done}
use golancer.Domain.{UrlLib, Heap, Ptr, healthy}
use golancer.Registry.{Registry, list_backends, list_healthy_backends}
use golancer.Balancer.{weight, add_weights, in_band, walk, server_for_key, fnv_32a}
use golancer.Balancer.RoundRobin.{IsRoutable}
use golancer.Http.{Body, Request, NetLib}
use golancer.Proxy.{client_ip}
use golancer.Proxy.Handler.{Shared, Balancer, connect}
use golancer.Config.Load.{proxy_selector, keeping}
use golancer.Config.Selector.{IsGood, proxy_selector-Routes}
use golancer.Handlers.{RegisterBackendRequest}
use golancer.System.{
  State, Step, Reach, selected, began, finished, probed, registered, deregistered, here, next,
}

module _ {Url : Type 0} where
  -- What the hash selector reads of a registry.
  record SameWeights (r r' : Registry Url) : Type 0 where
    list : list_healthy_backends r' ≡ list_healthy_backends r
    weights : (q : Ptr) → weight r'.heap q ≡ weight r.heap q

  add_weights-same :
      (h h' : Heap Url) (total : ℕ) (ps : List Ptr)
      → ((q : Ptr) → weight h' q ≡ weight h q)
      → add_weights h' total ps ≡ add_weights h total ps
  unfolding add_weights
  add_weights-same h h' total [] same = refl
  add_weights-same h h' total (p ∷ ps) same =
      rw (same p) (add_weights-same h h' ((total + weight h p) % 2 ^ 64) ps same)

  in_band-same :
      (h h' : Heap Url) (pick : ℕ) (ps : List Ptr)
      → ((q : Ptr) → weight h' q ≡ weight h q)
      → in_band h' pick ps ≡ in_band h pick ps
  unfolding in_band
  in_band-same h h' pick [] same = refl
  in_band-same h h' pick (p ∷ ps) same =
      rw (same p, in_band-same h h' (pick - weight h p) ps same) refl

  walk-same :
      (h h' : Heap Url) (pick : ℕ) (ps : List Ptr)
      → ((q : Ptr) → weight h' q ≡ weight h q)
      → walk h' pick ps ≡ walk h pick ps
  unfolding walk
  walk-same h h' pick ps same = rw (in_band-same h h' pick ps same, walk) refl

  server_for_key-same :
      (r r' : Registry Url) (key : String)
      → SameWeights r r'
      → server_for_key r' key ≡ server_for_key r key
  unfolding server_for_key
  server_for_key-same r r' key s =
      rw
        (
          s.list,
          add_weights-same r.heap r'.heap 0 (list_healthy_backends r) s.weights,
          walk-same r.heap r'.heap (fnv_32a key % add_weights r.heap 0 (list_healthy_backends r))
              (list_healthy_backends r) s.weights,
        )
        refl

  keep-healthy :
      (s : Shared Url) (p : Ptr) (d : ℕ) (ps : List Ptr)
      → keep (healthy (connect s p d).registry.heap) ps ≡ keep (healthy s.registry.heap) ps
  keep-healthy s p d [] = refl
  keep-healthy s p d (q ∷ ps) = ground (arith, keep-healthy s p d ps)

  connect-same :
      (s : Shared Url) (p : Ptr) (d : ℕ) → SameWeights s.registry (connect s p d).registry
  connect-same s p d = record {
    list = by_backends s.registry.backends;
    weights = λ q. ground arith;
  }
    where
      by_backends :
          (o : Option (List Ptr))
          → ◌≡◌ {A = List Ptr}
              (elim o [ none ↦ [] | some ps ↦ keep (healthy (connect s p d).registry.heap) ps ])
              (elim o [ none ↦ [] | some ps ↦ keep (healthy s.registry.heap) ps ])
      by_backends none = refl
      by_backends (some ps) = keep-healthy s p d ps

module _ {Url Addr Prefix : Type 0} (net : NetLib Addr Prefix) (urls : UrlLib Url)
    (decode : Body → Option RegisterBackendRequest) (draw : ℕ → ℕ) (trusted : List Prefix) where
  abbrev ip_hash : Balancer Url
  ip_hash = proxy_selector net draw trusted "ip-hash"

  -- A step of a request: it selects, or an attempt begins or ends.
  abbrev pub IsTraffic : {s t : State Url} → Step urls decode ip_hash s t → Type 0
  IsTraffic (selected s q c o e) = Unit
  IsTraffic (began s p has) = Unit
  IsTraffic (finished s p i) = Unit
  IsTraffic (probed s pr b ok initial) = ⊥
  IsTraffic (registered s id body r' reply unused fits e) = ⊥
  IsTraffic (deregistered s target r' reply e) = ⊥

  abbrev pub AllTraffic : {s t : State Url} → Reach urls decode ip_hash s t → Type 0
  AllTraffic here = Unit
  AllTraffic (next reach step) = AllTraffic reach × IsTraffic step

  Step-same :
      {s t : State Url} (step : Step urls decode ip_hash s t)
      → IsTraffic step
      → SameWeights s.shared.registry t.shared.registry
  Step-same (selected s q c o e) i = record { list = refl; weights = λ x. refl }
  Step-same (began s p has) i = connect-same s.shared p 1
  Step-same (finished s p j) i = connect-same s.shared p (2 ^ 32 - 1)
  Step-same (probed s pr b ok initial) i = elim i [ ]
  Step-same (registered s id body r' reply unused fits e) i = elim i [ ]
  Step-same (deregistered s target r' reply e) i = elim i [ ]

  Reach-same :
      {s t : State Url} (reach : Reach urls decode ip_hash s t)
      → AllTraffic reach
      → SameWeights s.shared.registry t.shared.registry
  Reach-same here i = record { list = refl; weights = λ x. refl }
  Reach-same (next reach step) (i, j) =
      let a = Reach-same reach i in
      let b = Step-same step j in
      record { list = b.list ∙ a.list; weights = λ x. b.weights x ∙ a.weights x }

  ip_hash_lem :
      (s : Shared Url) (q : Request)
      → ip_hash s q ≡ keeping s (server_for_key s.registry (client_ip net trusted q))
  unfolding proxy_selector
  ip_hash_lem s q = rw (str_eq_refl "ip-hash") refl

  -- With the strategy ip-hash, on a good state, if the generator draws below its argument, two
  -- requests of the same client, by ClientIP, get the same backend, which is registered and
  -- healthy, or both none, however many attempts of this and other clients begin and end in
  -- between, as long as the prober records no result and no backend is registered or deregistered.
  pub proxy_selector-sticky :
      ((n : ℕ) → 0 < n → draw n < n)
      → {s t : State Url} (reach : Reach urls decode ip_hash s t) → AllTraffic reach
      → IsGood s.shared
      → (q q' : Request) → client_ip net trusted q ≡ client_ip net trusted q'
      → (o : Option Ptr) × (proxy_selector net draw trusted "ip-hash" s.shared q
          ≡ done (s.shared.current, o))
        × (proxy_selector net draw trusted "ip-hash" t.shared q' ≡ done (t.shared.current, o))
        × IsRoutable s.shared.registry.heap (list_backends s.shared.registry) o
  proxy_selector-sticky small {s} {t} reach traffic good q q' client =
      let (c, o, e, _, routable) =
        proxy_selector-Routes net draw trusted "ip-hash" s.shared q small good in
      let hash = server_for_key s.shared.registry (client_ip net trusted q) in
      let same : server_for_key t.shared.registry (client_ip net trusted q') ≡ hash =
        server_for_key-same s.shared.registry t.shared.registry (client_ip net trusted q')
          (Reach-same reach traffic)
        ∙ ap (server_for_key s.shared.registry) (sym client) in
      let (x, found, e') = >>=-eq-done hash _ (sym (ip_hash_lem s.shared q) ∙ e) in
      let (now, it) = done-pair_inj e' in
      (
        o,
        e ∙ ap (λ k. done (k, o)) (sym now),
        ip_hash_lem t.shared q' ∙ ap (keeping t.shared) (same ∙ found ∙ ap done it),
        routable,
      )
