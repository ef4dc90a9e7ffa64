-- ===== src/Registry/Writers/Stores.antt =====
-- internal/backend/registry.go: the steps of a writer that take effect, each like its whole call.
use mathlib.Core.Path.{subst}
use golancer.Prelude.{
  ℕ, ◌≡◌, refl, sym, String, Bool, true, false, not, Option, none, some, List, [], ◌∷◌, ◌++◌, any,
  keep, Bool-cases, inl, inr,
}
use golancer.Prelude.Run.{Run, done, panic}
use golancer.Domain.{UrlLib, Ptr, new_backend}
use golancer.Registry.{
  Registry, registered, already_registered, list_backends, has_id, contains_url, add_new_backend,
  remove_instance_by_id,
}
use golancer.Registry.Writers.{
  Call, add, remove, added, removed, confirmed, loaded, crashed, Writers, confirm_in, store_added,
  store_removed, atomic,
}
use golancer.Registry.Writers.Moves.{
  IsInside, given, Sees, IsLinear, move-IsLinear, unlock-IsLinear, commit-IsLinear,
}

module _ {Url : Type 0} (urls : UrlLib Url) (calls : ℕ → Call Url) where
  remove_absent :
      (r : Registry Url) (id : String) (ps : List Ptr)
      → r.backends ≡ some ps
      → any (has_id r.heap id) ps ≡ false
      → atomic urls (remove id) r ≡ done (r, removed false)
  unfolding remove_instance_by_id
  remove_absent r id ps e absent = rw (e, absent)

  remove_present :
      (r : Registry Url) (id : String) (ps : List Ptr)
      → r.backends ≡ some ps
      → any (has_id r.heap id) ps ≡ true
      → atomic urls (remove id) r
        ≡ done
            (record r { backends = some (keep (λ p. not (has_id r.heap id p)) ps) }, removed true)
  unfolding remove_instance_by_id
  remove_present r id ps e present = rw (e, present)

  pub confirm_in-IsLinear :
      (r₀ : Registry Url) (s : Writers Url) (id : String) (t : ℕ) (o : Option (List Ptr))
      → IsLinear urls calls r₀ s
      → s.registry.backends ≡ o
      → calls t ≡ remove id
      → IsInside (s.pc t)
      → given (s.pc t) ≡ []
      → IsLinear urls calls r₀ (confirm_in o id t s)
  confirm_in-IsLinear r₀ s id t none inv e call inside idle =
      unlock-IsLinear urls calls r₀ s t crashed inv inside (λ i. i) (sym idle)
  confirm_in-IsLinear r₀ s id t (some ps) inv e call inside idle =
      elim (Bool-cases (any (has_id s.registry.heap id) ps)) [
        | inl found ↦ rw found (
            move-IsLinear urls calls r₀ s t confirmed inv inside (rw call (ps, e, found))
              (sym idle))
        | inr absent ↦ rw absent (
            commit-IsLinear urls calls r₀ s t (removed false) s.registry inv inside idle
              (rw call (remove_absent s.registry id ps e absent)))
      ]

  pub store_removed-IsLinear :
      (r₀ : Registry Url) (s : Writers Url) (id : String) (cur : List Ptr) (t : ℕ)
      → IsLinear urls calls r₀ s
      → calls t ≡ remove id
      → IsInside (s.pc t)
      → given (s.pc t) ≡ []
      → Sees (remove id) (loaded cur) s.registry
      → IsLinear urls calls r₀ (store_removed id cur t s)
  store_removed-IsLinear r₀ s id cur t inv call inside idle (e, present) =
      commit-IsLinear urls calls r₀ s t (removed true) _ inv inside idle
        (rw call (remove_present s.registry id cur e present))

  add_found :
      (r : Registry Url) (id : String) (u : Url) (w : ℕ)
      → contains_url urls r.heap (urls.to_string u) (list_backends r) ≡ done true
      → atomic urls (add id u w) r ≡ done (r, added already_registered)
  unfolding add_new_backend
  add_found r id u w e = rw e refl

  add_absent :
      (r : Registry Url) (id : String) (u : Url) (w : ℕ)
      → contains_url urls r.heap (urls.to_string u) (list_backends r) ≡ done false
      → let (h, p) = new_backend r.heap id (some u) w in
        atomic urls (add id u w) r
        ≡ done (
          record { heap = h; backends = some (list_backends r ++ p ∷ []) },
          added (registered id),
        )
  unfolding add_new_backend
  add_absent r id u w e = rw e refl

  pub store_added-IsLinear :
      (r₀ : Registry Url) (s : Writers Url) (id : String) (u : Url) (w : ℕ) (cur : List Ptr) (t : ℕ)
      → IsLinear urls calls r₀ s
      → calls t ≡ add id u w
      → IsInside (s.pc t)
      → given (s.pc t) ≡ []
      → list_backends s.registry ≡ cur
      → IsLinear urls calls r₀ (store_added urls id u w cur t s)
  store_added-IsLinear r₀ s id u w cur t inv call inside idle same =
      subst (λ x. IsLinear urls calls r₀ (store_added urls id u w x t s)) same
        (by_test (contains_url urls s.registry.heap (urls.to_string u) (list_backends s.registry))
          refl)
    where
      by_test :
          (m : Run Bool)
          → contains_url urls s.registry.heap (urls.to_string u) (list_backends s.registry) ≡ m
          → IsLinear urls calls r₀ (store_added urls id u w (list_backends s.registry) t s)
      by_test (panic x) e =
          rw (store_added, e)
            (unlock-IsLinear urls calls r₀ s t crashed inv inside (λ i. i) (sym idle))
      by_test (done true) e =
          rw (store_added, e)
            (commit-IsLinear urls calls r₀ s t (added already_registered) s.registry inv inside idle
              (rw call (add_found s.registry id u w e)))
      by_test (done false) e =
          rw (store_added, e)
            (commit-IsLinear urls calls r₀ s t (added (registered id)) _ inv inside idle
              (rw call (add_absent s.registry id u w e)))
