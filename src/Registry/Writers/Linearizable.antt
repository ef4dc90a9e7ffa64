-- ===== src/Registry/Writers/Linearizable.antt =====
-- internal/backend/registry.go: every interleaving of the writers has the effect of whole calls, one
-- after the other.
use golancer.Prelude.{ℕ, ◌≡◌, refl, sym, ap, ◌∙◌, String, true, some, List, [], ◌∷◌, arith, any}
use golancer.Domain.{UrlLib, Heap, Ptr, set_healthy, add_connections}
use golancer.Registry.{Registry, list_backends, has_id}
use golancer.Registry.Writers.{
  Call, add, remove, Pc, waiting, locked, confirmed, loaded, stored, finished, crashed, Writers,
  Event, turn, flag, count, with_heap, advance, happen, interleave, fresh_writers,
}
use golancer.Registry.Writers.Moves.{
  IsInside, given, commits, Explains, Sees, IsLinear, move-IsLinear, lock-IsLinear, unlock-IsLinear,
}
use golancer.Registry.Writers.Stores.{
  confirm_in-IsLinear, store_removed-IsLinear, store_added-IsLinear,
}

module _ {Url : Type 0} (urls : UrlLib Url) (calls : ℕ → Call Url) where
  advance-IsLinear :
      (r₀ : Registry Url) (s : Writers Url) (t : ℕ) (c : Call Url) (v : Pc)
      → IsLinear urls calls r₀ s
      → calls t ≡ c
      → s.pc t ≡ v
      → Sees c v s.registry
      → IsLinear urls calls r₀ (advance urls c v t s)
  unfolding advance
  advance-IsLinear r₀ s t c waiting inv call at own =
      lock-IsLinear urls calls r₀ s t inv (ap given at)
  advance-IsLinear r₀ s t (add id u w) locked inv call at own =
      move-IsLinear urls calls r₀ s t (loaded (list_backends s.registry)) inv (rw at tt)
        (rw call refl) (rw at refl)
  advance-IsLinear r₀ s t (remove id) locked inv call at own =
      confirm_in-IsLinear urls calls r₀ s id t s.registry.backends inv refl call (rw at tt)
        (ap given at)
  advance-IsLinear r₀ s t (add id u w) confirmed inv call at own =
      move-IsLinear urls calls r₀ s t (loaded (list_backends s.registry)) inv (rw at tt)
        (rw call refl) (rw at refl)
  advance-IsLinear r₀ s t (remove id) confirmed inv call at (ps, e, present) =
      move-IsLinear urls calls r₀ s t (loaded (list_backends s.registry)) inv (rw at tt)
        (rw call (reloaded s.registry id ps e present)) (rw at refl)
    where
      reloaded :
          (r : Registry Url) (id : String) (ps : List Ptr)
          → r.backends ≡ some ps
          → any (has_id r.heap id) ps ≡ true
          → (r.backends ≡ some (list_backends r))
            × (any (has_id r.heap id) (list_backends r) ≡ true)
      reloaded r id ps e present = (rw e refl, rw e present)
  advance-IsLinear r₀ s t (add id u w) (loaded cur) inv call at own =
      store_added-IsLinear urls calls r₀ s id u w cur t inv call (rw at tt) (ap given at) own
  advance-IsLinear r₀ s t (remove id) (loaded cur) inv call at own =
      store_removed-IsLinear urls calls r₀ s id cur t inv call (rw at tt) (ap given at) own
  advance-IsLinear r₀ s t c (stored x) inv call at own =
      unlock-IsLinear urls calls r₀ s t (finished x) inv (rw at tt) (λ i. i) (rw at refl)
  advance-IsLinear r₀ s t c (finished x) inv call at own = inv
  advance-IsLinear r₀ s t c crashed inv call at own = inv

  -- Calls see of the cells only the instance IDs, which nobody writes.
  any-has_id :
      (h h' : Heap Url) (id : String) (ps : List Ptr)
      → ((q : Ptr) → (h'.cell q).instance_id ≡ (h.cell q).instance_id)
      → any (has_id h' id) ps ≡ any (has_id h id) ps
  any-has_id h h' id [] same = refl
  any-has_id h h' id (p ∷ ps) same = ground (arith, same p, any-has_id h h' id ps same)

  with_heap-Sees :
      (c : Call Url) (v : Pc) (r : Registry Url) (h : Heap Url)
      → ((q : Ptr) → (h.cell q).instance_id ≡ (r.heap.cell q).instance_id)
      → Sees c v r
      → Sees c v (with_heap r h)
  with_heap-Sees c waiting r h same own = tt
  with_heap-Sees c locked r h same own = tt
  with_heap-Sees (add id u w) confirmed r h same own = tt
  with_heap-Sees (remove id) confirmed r h same (ps, e, found) =
      (ps, e, any-has_id r.heap h id ps same ∙ found)
  with_heap-Sees (add id u w) (loaded cur) r h same own = own
  with_heap-Sees (remove id) (loaded cur) r h same (e, found) =
      (e, any-has_id r.heap h id cur same ∙ found)
  with_heap-Sees c (stored x) r h same own = tt
  with_heap-Sees c (finished x) r h same own = tt
  with_heap-Sees c crashed r h same own = tt

  happen-IsLinear :
      (r₀ : Registry Url) (e : Event) (s : Writers Url)
      → IsLinear urls calls r₀ s
      → IsLinear urls calls r₀ (happen urls calls e s)
  unfolding happen
  happen-IsLinear r₀ (turn t) s inv =
      advance-IsLinear r₀ s t (calls t) (s.pc t) inv refl refl (inv.sees t)
  happen-IsLinear r₀ (flag p v) s inv = record {
    explained = (s.registry, inv.explained, refl);
    held = inv.held;
    sees = λ q.
        with_heap-Sees (calls q) (s.pc q) s.registry (set_healthy s.registry.heap p v)
          (λ x. ground arith) (inv.sees q);
    once = inv.once;
  }
  happen-IsLinear r₀ (count p d) s inv = record {
    explained = (s.registry, inv.explained, refl);
    held = inv.held;
    sees = λ q.
        with_heap-Sees (calls q) (s.pc q) s.registry (add_connections s.registry.heap p d)
          (λ x. ground arith) (inv.sees q);
    once = inv.once;
  }

  interleave-IsLinear :
      (r₀ : Registry Url) (es : List Event) (s : Writers Url)
      → IsLinear urls calls r₀ s
      → IsLinear urls calls r₀ (interleave urls calls es s)
  unfolding interleave
  interleave-IsLinear r₀ [] s inv = inv
  interleave-IsLinear r₀ (e ∷ es) s inv =
      interleave-IsLinear r₀ es (happen urls calls e s) (happen-IsLinear r₀ e s inv)

  -- For every schedule of any number of goroutines, each with one call of AddNewBackend or
  -- RemoveInstanceByID, in which other goroutines may run between the lock, each load, the store
  -- and the unlock, and set health flags and connection counts at any time, the registry is at each
  -- moment what the calls that took effect, each as one undivided step and in the order of the
  -- history, and the flags and counts make of it, a call that stored or returned took effect
  -- exactly once and with the result that it returns, every other call has had no effect, and at
  -- most one call is between its lock and its unlock.
  pub interleave-atomic :
      (r₀ : Registry Url) (es : List Event)
      → let s = interleave urls calls es (fresh_writers r₀) in
        Explains urls calls r₀ s.history s.registry
        × ((t : ℕ) → commits t s.history ≡ given (s.pc t))
        × ((t q : ℕ) → IsInside (s.pc t) → IsInside (s.pc q) → t ≡ q)
  interleave-atomic r₀ es =
      let s = interleave urls calls es (fresh_writers r₀) in
      let inv : IsLinear urls calls r₀ s =
        interleave-IsLinear r₀ es (fresh_writers r₀)
          (record { explained = refl; held = λ q i. absurd i; sees = λ q. tt; once = λ q. refl }) in
      (
        inv.explained,
        inv.once,
        (λ t q i j. let both : some t ≡ some q = sym (inv.held t i) ∙ inv.held q j in cc),
      )
