-- ===== src/Registry/Writers/Log.antt =====
-- internal/backend/registry.go: the registered backends by the log of the calls that took effect.
use mathlib.Core.Path.{subst}
use mathlib.Core.List.{map-append}
use golancer.Prelude.{
  ℕ, suc, ◌<◌, ◌≡◌, refl, sym, ap, ◌∙◌, String, Bool, true, false, not, Option, none, some, inl,
  inr, List, [], ◌∷◌, ◌++◌, map, arith, All, All-append, All-map, All-keep, str_eq, keep, keep-map,
  Bool-cases, Option-cases, any, ◌==◌,
}
use golancer.Prelude.Run.{Run, done, panic, nil_dereference, >>=-eq-done, done-pair_inj}
use golancer.Domain.{UrlLib, Heap, Ptr, new_backend, set_healthy, add_connections}
use golancer.Registry.{
  Registry, Added, registered, already_registered, list_backends, has_id, contains_url,
  add_new_backend, remove_instance_by_id,
}
use golancer.Registry.Writers.{
  Call, add, remove, Result, added, removed, Entry, committed, flagged, counted, Event, interleave,
  fresh_writers, atomic,
}
use golancer.Registry.Writers.Moves.{Explains}
use golancer.Registry.Writers.Linearizable.{interleave-atomic}

module _ {Url : Type 0} where
  -- A registered backend by what nobody writes after its registration: instance ID and URL.
  abbrev pub labels_in : Heap Url → List Ptr → List (String × Option Url)
  labels_in h ps = map (λ p. ((h.cell p).instance_id, (h.cell p).url)) ps

  abbrev pub labels : Registry Url → List (String × Option Url)
  labels r = labels_in r.heap (list_backends r)

  -- What a call that took effect with a result does to the registered backends.
  abbrev pub effect : Call Url → Result → List (String × Option Url) → List (String × Option Url)
  effect (add id u w) (added (registered i)) ls = ls ++ (id, some u) ∷ []
  effect (add id u w) (added already_registered) ls = ls
  effect (add id u w) (removed found) ls = ls
  effect (remove id) (added a) ls = ls
  effect (remove id) (removed true) ls = keep (λ l. not (str_eq l.0 id)) ls
  effect (remove id) (removed false) ls = ls

  -- The registered backends by the log, the newest entry first.
  unfoldable pub replay :
      (ℕ → Call Url) → List (String × Option Url) → List Entry → List (String × Option Url)
  replay calls ls [] = ls
  replay calls ls (committed t x ∷ h) = effect (calls t) x (replay calls ls h)
  replay calls ls (flagged p v ∷ h) = replay calls ls h
  replay calls ls (counted p d ∷ h) = replay calls ls h

  abbrev pub IsAllocated : Registry Url → Type 0
  IsAllocated r = All (λ p. p < r.heap.next) (list_backends r)

  -- Two heaps with the same labels.
  labels-same :
      (h h' : Heap Url) (ps : List Ptr)
      → ((q : Ptr)
          → ((h'.cell q).instance_id ≡ (h.cell q).instance_id) × ((h'.cell q).url ≡ (h.cell q).url))
      → labels_in h' ps ≡ labels_in h ps
  labels-same h h' [] same = refl
  labels-same h h' (p ∷ ps) same = let (i, u) = same p in rw (i, u, labels-same h h' ps same) refl

  labels-new :
      (h : Heap Url) (id : String) (u : Url) (w : ℕ) (ps : List Ptr)
      → All (λ p. p < h.next) ps
      → labels_in (new_backend h id (some u) w).0 ps ≡ labels_in h ps
  unfolding new_backend
  labels-new h id u w [] below = refl
  labels-new h id u w (p ∷ ps) below =
      let ne : (h.next == p) ≡ false = ground (arith, below.0) in
      rw (ne, labels-new h id u w ps below.1) refl

  appended :
      (r : Registry Url) (id : String) (u : Url) (w : ℕ)
      → IsAllocated r
      → let (h, p) = new_backend r.heap id (some u) w in
        (labels_in h (list_backends r ++ p ∷ []) ≡ labels r ++ (id, some u) ∷ [])
        × All (λ q. q < h.next) (list_backends r ++ p ∷ [])
  unfolding new_backend
  appended r id u w below =
      let (h, p) = new_backend r.heap id (some u) w in
      (
        map-append _ (list_backends r) (p ∷ [])
            ∙ (let mine : (r.heap.next == r.heap.next) ≡ true = ground arith in
                rw (mine, labels-new r.heap id u w (list_backends r) below) refl),
        All-append (λ q. q < h.next) (list_backends r) (p ∷ [])
            (All-map (λ q. q < r.heap.next) (λ q. q < suc r.heap.next) (λ q lt. omega arith)
              (list_backends r) below)
            (omega arith, tt),
      )

  add-effect :
      (urls : UrlLib Url) (r r' : Registry Url) (id : String) (u : Url) (w : ℕ) (a : Added)
      → IsAllocated r
      → add_new_backend urls r id u w ≡ done (r', a)
      → (labels r' ≡ effect (add id u w) (added a) (labels r)) × IsAllocated r'
  unfolding add_new_backend
  add-effect urls r r' id u w a below e =
      let (found, _, e') =
        >>=-eq-done (contains_url urls r.heap (urls.to_string u) (list_backends r)) _ e in
      elim (Bool-cases found) [
        | inl t ↦ let (x, y) = done-pair_inj (rw t at e') in rw (← x, ← y) (refl, below)
        | inr f ↦ let (x, y) = done-pair_inj (rw f at e') in rw (← x, ← y) (appended r id u w below)
      ]

  remove-effect :
      (r r' : Registry Url) (id : String) (found : Bool)
      → IsAllocated r
      → remove_instance_by_id r id ≡ done (r', found)
      → (labels r' ≡ effect (remove id) (removed found) (labels r)) × IsAllocated r'
  unfolding remove_instance_by_id
  remove-effect r r' id found below e = elim (Option-cases r.backends) [
    | inl n ↦
        let bad : ◌≡◌ {A = Run (Registry Url × Bool)} (panic nil_dereference) (done (r', found)) =
          rw n at e in
        cc
    | inr (ps, l) ↦
        let list : Option (List Ptr) → List Ptr = λ o. elim o [ none ↦ [] | some qs ↦ qs ] in
        let low : All (λ q. q < r.heap.next) ps =
          subst (λ o. All (λ q. q < r.heap.next) (list o)) l below in
        let same : labels_in r.heap ps ≡ labels r = ap (λ o. labels_in r.heap (list o)) (sym l) in
        elim (Bool-cases (any (has_id r.heap id) ps)) [
          | inl t ↦
              let (x, y) = done-pair_inj (rw (l, t) at e) in
              rw (← x, ← y)
                (
                  sym (keep-map _ (λ k. not (str_eq k.0 id)) ps)
                      ∙ ap (keep (λ k. not (str_eq k.0 id))) same,
                  All-keep (λ q. q < r.heap.next) (λ p. not (has_id r.heap id p)) ps low,
                )
          | inr f ↦ let (x, y) = done-pair_inj (rw (l, f) at e) in rw (← x, ← y) (same, low)
        ]
  ]

  atomic-effect :
      (urls : UrlLib Url) (c : Call Url) (r r' : Registry Url) (x : Result)
      → IsAllocated r
      → atomic urls c r ≡ done (r', x)
      → (labels r' ≡ effect c x (labels r)) × IsAllocated r'
  atomic-effect urls (add id u w) r r' x below e =
      let ((r₁, a), q, e') = >>=-eq-done (add_new_backend urls r id u w) _ e in
      let (same, y) = done-pair_inj e' in rw (← y, ← same) (add-effect urls r r₁ id u w a below q)
  atomic-effect urls (remove id) r r' x below e =
      let ((r₁, found), q, e') = >>=-eq-done (remove_instance_by_id r id) _ e in
      let (same, y) = done-pair_inj e' in rw (← y, ← same) (remove-effect r r₁ id found below q)

module _ {Url : Type 0} (urls : UrlLib Url) (calls : ℕ → Call Url) (r₀ : Registry Url)
    (below : IsAllocated r₀) where
  Explains-replay :
      (h : List Entry) (r : Registry Url)
      → Explains urls calls r₀ h r
      → (labels r ≡ replay calls (labels r₀) h) × IsAllocated r
  unfolding replay
  Explains-replay [] r e = rw e (refl, below)
  Explains-replay (committed t x ∷ h) r (r₁, ex, e) =
      let (same, ok) = Explains-replay h r₁ ex in
      let (step, ok') = atomic-effect urls (calls t) r₁ r x ok e in
      (step ∙ ap (effect (calls t) x) same, ok')
  Explains-replay (flagged p v ∷ h) r (r₁, ex, e) =
      let (same, ok) = Explains-replay h r₁ ex in
      rw e (
        labels-same r₁.heap (set_healthy r₁.heap p v) (list_backends r₁)
              (λ q. (ground arith, ground arith))
            ∙ same,
        ok,
      )
  Explains-replay (counted p d ∷ h) r (r₁, ex, e) =
      let (same, ok) = Explains-replay h r₁ ex in
      rw e (
        labels-same r₁.heap (add_connections r₁.heap p d) (list_backends r₁)
              (λ q. (ground arith, ground arith))
            ∙ same,
        ok,
      )

  -- An interleaving leaves registered exactly what the log of the calls that took effect says.
  pub interleave-replay :
      (es : List Event)
      → let s = interleave urls calls es (fresh_writers r₀) in
        labels s.registry ≡ replay calls (labels r₀) s.history
  interleave-replay es =
      let s = interleave urls calls es (fresh_writers r₀) in
      (Explains-replay s.history s.registry (interleave-atomic urls calls r₀ es).0).0
