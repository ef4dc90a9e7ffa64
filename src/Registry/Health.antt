-- ===== src/Registry/Health.antt =====
-- internal/backend/registry.go: `SetHealthy` and `ListHealthyBackends` on the list of backends.
use golancer.Prelude.{
  ◌≡◌, refl, sym, ap, ◌∙◌, ◌≢◌, String, Bool, true, false, inl, inr, List, [], ◌∷◌, map, arith, All,
  str_eq, str_eq_iff, if◌then◌else◌, keep, any, keep-map, any-map, Bool-cases, Option-cases,
}
use golancer.Domain.{Heap, Ptr, Backend, set_healthy}
use golancer.Registry.{
  Registry, list_healthy_backends, has_id, set_healthy_in, registry_set_healthy,
}
use golancer.Registry.Invariant.{IsValid, DistinctIds, HasUrl, entries}

module _ {Url : Type 0} where
  -- The backend with the flag set, if it has the ID.
  abbrev pub mark : String → Bool → Backend Url → Backend Url
  mark id v b = if str_eq b.instance_id id then record b { healthy = v } else b

  -- A registry as a list of backends: `SetHealthy`.
  abbrev pub mark_entries : List (Backend Url) → String → Bool → List (Backend Url) × Bool
  mark_entries es id v = (map (mark id v) es, any (λ b. str_eq b.instance_id id) es)

  pub set_healthy_in_other :
      (h : Heap Url) (id : String) (v : Bool) (ps : List Ptr) (q : Ptr)
      → has_id h id q ≡ false
      → (set_healthy_in h id v ps).0.cell q ≡ h.cell q
  unfolding set_healthy_in
  set_healthy_in_other h id v [] q e = refl
  set_healthy_in_other h id v (p ∷ ps) q e = elim (Bool-cases (has_id h id p)) [
    | inl t ↦ rw t (ground arith)
    | inr f ↦ rw f (set_healthy_in_other h id v ps q e)
  ]

  pub next-set_healthy_in :
      (h : Heap Url) (id : String) (v : Bool) (ps : List Ptr)
      → (set_healthy_in h id v ps).0.next ≡ h.next
  unfolding set_healthy_in
  next-set_healthy_in h id v [] = refl
  next-set_healthy_in h id v (p ∷ ps) = ground (arith, next-set_healthy_in h id v ps)

  -- A store at a backend with the ID misses the backends with other IDs, and so does `mark`.
  map-store_miss :
      (h : Heap Url) (id : String) (v : Bool) (p : Ptr) (ps : List Ptr)
      → (h.cell p).instance_id ≡ id
      → All (λ b. b.instance_id ≢ (h.cell p).instance_id) (map h.cell ps)
      → map (set_healthy h p v).cell ps ≡ map (mark id v) (map h.cell ps)
  map-store_miss h id v p [] e fresh = refl
  map-store_miss h id v p (q ∷ ps) e fresh =
      let ih = map-store_miss h id v p ps e fresh.1 in
      ground (
        arith,
        ih,
        str_eq_iff (h.cell q).instance_id id,
        λ (d : p ≡ q). ap (λ x. (h.cell x).instance_id) d,
      )

  set_healthy_in_hit :
      (h : Heap Url) (id : String) (v : Bool) (p : Ptr) (ps : List Ptr)
      → has_id h id p ≡ true
      → set_healthy_in h id v (p ∷ ps) ≡ (set_healthy h p v, true)
  unfolding set_healthy_in
  set_healthy_in_hit h id v p ps t = rw t

  set_healthy_in_miss :
      (h : Heap Url) (id : String) (v : Bool) (p : Ptr) (ps : List Ptr)
      → has_id h id p ≡ false
      → set_healthy_in h id v (p ∷ ps) ≡ set_healthy_in h id v ps
  unfolding set_healthy_in
  set_healthy_in_miss h id v p ps f = rw f

  set_healthy_in-mark :
      (h : Heap Url) (id : String) (v : Bool) (ps : List Ptr)
      → DistinctIds (map h.cell ps)
      → map (set_healthy_in h id v ps).0.cell ps ≡ map (mark id v) (map h.cell ps)
  set_healthy_in-mark h id v [] d = refl
  set_healthy_in-mark h id v (p ∷ ps) d = elim (Bool-cases (has_id h id p)) [
    | inl t ↦
        ap (λ (r : Heap Url × Bool). map r.0.cell (p ∷ ps)) (set_healthy_in_hit h id v p ps t)
        ∙ ground (arith, t, map-store_miss h id v p ps ((str_eq_iff _ _).0 t) d.0)
    | inr f ↦
        ap (λ (r : Heap Url × Bool). map r.0.cell (p ∷ ps)) (set_healthy_in_miss h id v p ps f)
        ∙ ground (arith, f, set_healthy_in_other h id v ps p f, set_healthy_in-mark h id v ps d.1)
  ]

  found-set_healthy_in :
      (h : Heap Url) (id : String) (v : Bool) (ps : List Ptr)
      → (set_healthy_in h id v ps).1 ≡ any (has_id h id) ps
  unfolding set_healthy_in
  found-set_healthy_in h id v [] = refl
  found-set_healthy_in h id v (p ∷ ps) = ground (arith, found-set_healthy_in h id v ps)

  -- On a valid registry SetHealthy sets the flag of the backend with the ID, changes no other
  -- backend, and reports whether there is one.
  pub set_healthy-refines :
      (r : Registry Url) (id : String) (v : Bool)
      → IsValid r
      → (entries (registry_set_healthy r id v).0, (registry_set_healthy r id v).1)
        ≡ mark_entries (entries r) id v
  unfolding registry_set_healthy
  set_healthy-refines r id v ok = rw (ok.stored) (
      ground (
        arith,
        set_healthy_in-mark r.heap id v ok.ptrs ok.distinct,
        found-set_healthy_in r.heap id v ok.ptrs,
        any-map r.heap.cell (λ (b : Backend Url). str_eq b.instance_id id) ok.ptrs,
      ))

  -- The healthy backends by value are those of the registered ones that carry the flag, in order.
  pub list_healthy-entries :
      (r : Registry Url)
      → map r.heap.cell (list_healthy_backends r) ≡ keep (λ b. b.healthy) (entries r)
  list_healthy-entries r = elim (Option-cases r.backends) [
    | inl e ↦ rw e
    | inr (ps, e) ↦ rw e (sym (keep-map r.heap.cell (λ b. b.healthy) ps))
  ]

  mark-DistinctIds-All :
      (id : String) (v : Bool) (s : String) (bs : List (Backend Url))
      → All (λ c. c.instance_id ≢ s) bs
      → All (λ c. c.instance_id ≢ s) (map (mark id v) bs)
  mark-DistinctIds-All id v s [] d = tt
  mark-DistinctIds-All id v s (b ∷ bs) d = ground (arith, mark-DistinctIds-All id v s bs d.1)

  instance_id-mark :
      (id : String) (v : Bool) (b : Backend Url) → (mark id v b).instance_id ≡ b.instance_id
  instance_id-mark id v b = ground arith

  mark-DistinctIds :
      (id : String) (v : Bool) (bs : List (Backend Url))
      → DistinctIds bs
      → DistinctIds (map (mark id v) bs)
  mark-DistinctIds id v [] d = tt
  mark-DistinctIds id v (b ∷ bs) d = (
    rw (instance_id-mark id v b) (mark-DistinctIds-All id v b.instance_id bs d.0),
    mark-DistinctIds id v bs d.1,
  )

  mark-HasUrl :
      (id : String) (v : Bool) (bs : List (Backend Url))
      → All HasUrl bs
      → All HasUrl (map (mark id v) bs)
  mark-HasUrl id v [] d = tt
  mark-HasUrl id v (b ∷ bs) d = ground (arith, mark-HasUrl id v bs d.1)

  -- SetHealthy leaves a valid registry valid.
  pub set_healthy-IsValid :
      (r : Registry Url) (id : String) (v : Bool)
      → IsValid r
      → IsValid (registry_set_healthy r id v).0
  unfolding registry_set_healthy
  set_healthy-IsValid r id v ok = record {
    ptrs = ok.ptrs;
    stored = ok.stored;
    allocated = rw (ok.stored, next-set_healthy_in r.heap id v ok.ptrs) ok.allocated;
    has_url =
        rw (ok.stored, set_healthy_in-mark r.heap id v ok.ptrs ok.distinct)
          (mark-HasUrl id v (map r.heap.cell ok.ptrs) ok.has_url);
    distinct =
        rw (ok.stored, set_healthy_in-mark r.heap id v ok.ptrs ok.distinct)
          (mark-DistinctIds id v (map r.heap.cell ok.ptrs) ok.distinct);
  }
