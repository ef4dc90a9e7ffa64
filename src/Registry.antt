-- ===== src/Registry.antt =====
-- internal/backend/registry.go: the set of backends, replaced wholesale on every mutation.
pub mod Invariant
pub mod Fields
pub mod Laws
pub mod Health
pub mod Writers
mod Tests
use golancer.Prelude.{
  ℕ, String, Bool, true, false, not, Option, none, some, List, [], ◌∷◌, ◌++◌, str_eq, if◌then◌else◌,
  keep, any,
}
use golancer.Prelude.Run.{Run, done, panic, nil_dereference, ◌>>=◌}
use golancer.Domain.{UrlLib, Heap, Ptr, new_backend, healthy, set_healthy}

-- The memory cells, and the slice that the atomic pointer refers to; none is the nil pointer.
pub record Registry (Url : Type 0) : Type 0 where
  pub heap : Heap Url
  pub backends : Option (List Ptr)

-- The results of `AddNewBackend`.
pub data Added : Type 0 where
  registered : String → Added
  already_registered : Added

module _ {Url : Type 0} where
  abbrev pub new_registry : Heap Url → List Ptr → Registry Url
  new_registry h ps = record { heap = h; backends = some ps }

  abbrev pub list_backends : Registry Url → List Ptr
  list_backends r = elim r.backends [ none ↦ [] | some ps ↦ ps ]

  -- The subset that is marked healthy, in registration order.
  abbrev pub list_healthy_backends : Registry Url → List Ptr
  list_healthy_backends r = elim r.backends [ none ↦ [] | some ps ↦ keep (healthy r.heap) ps ]

  abbrev pub has_id : Heap Url → String → Ptr → Bool
  has_id h id p = str_eq (h.cell p).instance_id id

  -- `slices.ContainsFunc` with the test of `AddNewBackend`: a backend with no URL panics.
  unfoldable pub contains_url : UrlLib Url → Heap Url → String → List Ptr → Run Bool
  contains_url urls h s [] = done false
  contains_url urls h s (p ∷ ps) = elim (h.cell p).url [
    | none ↦ panic nil_dereference
    | some u ↦ if str_eq (urls.to_string u) s then done true else contains_url urls h s ps
  ]

  -- `AddNewBackend`, given the instance ID that is drawn for the backend.
  unfoldable pub add_new_backend :
      UrlLib Url → Registry Url → String → Url → ℕ → Run (Registry Url × Added)
  unfolding new_backend
  add_new_backend urls r id u weight =
      let cur = list_backends r in
      contains_url urls r.heap (urls.to_string u) cur >>= λ found.
      if found
      then done (r, already_registered)
      else let (h, p) = new_backend r.heap id (some u) weight in
        done (record { heap = h; backends = some (cur ++ p ∷ []) }, registered id)

  unfoldable pub remove_instance_by_id : Registry Url → String → Run (Registry Url × Bool)
  remove_instance_by_id r id = elim r.backends [
    | none ↦ panic nil_dereference
    | some ps ↦
        if not (any (has_id r.heap id) ps)
        then done (r, false)
        else done (
          record r { backends = some (keep (λ p. not (has_id r.heap id p)) (list_backends r)) },
          true,
        )
  ]

  -- The loop of `SetHealthy`, which stops at the first backend with the ID.
  unfoldable pub set_healthy_in : Heap Url → String → Bool → List Ptr → Heap Url × Bool
  set_healthy_in h id v [] = (h, false)
  set_healthy_in h id v (p ∷ ps) =
      if has_id h id p then (set_healthy h p v, true) else set_healthy_in h id v ps

  unfoldable pub registry_set_healthy : Registry Url → String → Bool → Registry Url × Bool
  unfolding set_healthy_in
  registry_set_healthy r id v =
      let (h, found) = set_healthy_in r.heap id v (list_backends r) in
      (record r { heap = h }, found)
