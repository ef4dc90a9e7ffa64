-- ===== src/Registry/Laws.antt =====
-- internal/backend/registry.go: registration and deregistration against a list of backends, which
-- knows nothing of pointers and memory cells.
use mathlib.Core.List.{map-append}
use golancer.Prelude.{
  ℕ, suc, ◌<◌, ◌≡◌, refl, ap, ◌∙◌, ◌≢◌, String, Bool, true, false, not, none, some, inl, inr, List,
  [], ◌∷◌, ◌++◌, map, arith, All, All-append, All-keep, All-map, str_eq, if◌then◌else◌, keep, any,
  keep-map, any-map, Bool-cases,
}
use golancer.Prelude.Run.{Run, done, ◌>>=◌}
use golancer.Domain.{UrlLib, Heap, Ptr, Backend, store}
use golancer.Registry.{
  Registry, Added, registered, already_registered, has_id, contains_url, add_new_backend,
  remove_instance_by_id,
}
use golancer.Registry.Invariant.{IsValid, DistinctIds-append, DistinctIds-keep, HasUrl, entries}

keep_none :
    {A : Type 0} (p : A → Bool) (xs : List A) → any p xs ≡ false → keep (λ x. not (p x)) xs ≡ xs
keep_none p [] e = refl
keep_none p (x ∷ xs) e = ground (arith, keep_none p xs)

module _ {Url : Type 0} where
  -- What a registration adds.
  abbrev pub fresh_backend : String → Url → ℕ → Backend Url
  fresh_backend id u w = record {
    instance_id = id;
    url = some u;
    healthy = false;
    active_connections_no = 0;
    weight = w;
  }

  abbrev pub url_is : UrlLib Url → String → Backend Url → Bool
  url_is urls s b = elim b.url [ none ↦ false | some u ↦ str_eq (urls.to_string u) s ]

  -- A registry as a list of backends: `AddNewBackend` and `RemoveInstanceByID`.
  abbrev pub add_entry :
      UrlLib Url → List (Backend Url) → String → Url → ℕ → List (Backend Url) × Added
  add_entry urls es id u w =
      if any (url_is urls (urls.to_string u)) es
      then (es, already_registered)
      else (es ++ fresh_backend id u w ∷ [], registered id)

  abbrev pub remove_entry : List (Backend Url) → String → List (Backend Url) × Bool
  remove_entry es id =
      (keep (λ b. not (str_eq b.instance_id id)) es, any (λ b. str_eq b.instance_id id) es)

  -- A registry call's result, seen through `entries`.
  abbrev pub seen {ℓ} : {A : Type ℓ} → Run (Registry Url × A) → Run (List (Backend Url) × A)
  seen m = m >>= λ (r, a). done (entries r, a)

  store-above :
      (h : Heap Url) (b : Backend Url) (ps : List Ptr)
      → All (λ p. p < h.next) ps
      → map (store h h.next b).cell ps ≡ map h.cell ps
  store-above h b [] below = refl
  store-above h b (p ∷ ps) below = ground (arith, store-above h b ps below.1)

  contains_url_lem :
      (urls : UrlLib Url) (h : Heap Url) (s : String) (ps : List Ptr)
      → All HasUrl (map h.cell ps)
      → contains_url urls h s ps ≡ done (any (url_is urls s) (map h.cell ps))
  unfolding contains_url
  contains_url_lem urls h s [] ok = refl
  contains_url_lem urls h s (p ∷ ps) ok = ground (arith, contains_url_lem urls h s ps ok.1)

  -- The backends after a new cell is put at the end of the list.
  entries-new :
      (h : Heap Url) (b : Backend Url) (ps : List Ptr)
      → All (λ p. p < h.next) ps
      → map (store h h.next b).cell (ps ++ h.next ∷ []) ≡ map h.cell ps ++ b ∷ []
  entries-new h b ps below =
      map-append _ ps (h.next ∷ []) ∙ ground (arith, store-above h b ps below)

  -- On a valid registry AddNewBackend does not panic, and on the list of backends it does what the
  -- list specification says: a backend whose URL text is registered already is refused and the list
  -- stays as it is, any other is appended, unhealthy and with no connection.
  pub add_new_backend-refines :
      (urls : UrlLib Url) (r : Registry Url) (id : String) (u : Url) (w : ℕ)
      → IsValid r
      → seen (add_new_backend urls r id u w) ≡ done (add_entry urls (entries r) id u w)
  unfolding add_new_backend
  add_new_backend-refines urls r id u w v =
      rw (v.stored, contains_url_lem urls r.heap (urls.to_string u) v.ptrs v.has_url)
        (elim (Bool-cases (any (url_is urls (urls.to_string u)) (map r.heap.cell v.ptrs))) [
          | inl e ↦ rw e
          | inr e ↦
              rw e (ap (λ es. done (es, registered id)) (entries-new r.heap _ v.ptrs v.allocated))
        ])

  -- On a valid registry RemoveInstanceByID does not panic; it takes out the backends with the ID,
  -- keeps the others as they are and in order, and reports whether there was one.
  pub remove_instance_by_id-refines :
      (r : Registry Url) (id : String)
      → IsValid r
      → seen (remove_instance_by_id r id) ≡ done (remove_entry (entries r) id)
  unfolding remove_instance_by_id
  remove_instance_by_id-refines r id v =
      rw v.stored (elim (Bool-cases (any (has_id r.heap id) v.ptrs)) [
        | inl e ↦ rw (e, keep-map r.heap.cell _ v.ptrs, any-map r.heap.cell _ v.ptrs, e)
        | inr e ↦ rw (
          e,
          keep-map r.heap.cell _ v.ptrs,
          any-map r.heap.cell _ v.ptrs,
          e,
          keep_none (has_id r.heap id) v.ptrs e,
        )
      ])

  -- The registry after an accepted registration.
  abbrev added : Registry Url → String → Url → ℕ → List Ptr → Registry Url
  added r id u w ps = record {
    heap = record (store r.heap r.heap.next (fresh_backend id u w)) { next = suc r.heap.next };
    backends = some (ps ++ r.heap.next ∷ []);
  }

  -- On a valid registry AddNewBackend, with an instance ID that no registered backend has, returns
  -- without a panic and leaves a valid registry.
  pub add_new_backend-IsValid :
      (urls : UrlLib Url) (r : Registry Url) (id : String) (u : Url) (w : ℕ)
      → IsValid r
      → All (λ b. b.instance_id ≢ id) (entries r)
      → (r' : Registry Url) × (a : Added) × (add_new_backend urls r id u w ≡ done (r', a))
        × IsValid r'
  unfolding add_new_backend
  add_new_backend-IsValid urls r id u w v fresh =
      elim (Bool-cases (any (url_is urls (urls.to_string u)) (map r.heap.cell v.ptrs))) [
        | inl e ↦ (
          r,
          already_registered,
          rw (v.stored, contains_url_lem urls r.heap (urls.to_string u) v.ptrs v.has_url, e),
          v,
        )
        | inr e ↦ (
          added r id u w v.ptrs,
          registered id,
          rw (v.stored, contains_url_lem urls r.heap (urls.to_string u) v.ptrs v.has_url, e),
          record {
            ptrs = v.ptrs ++ r.heap.next ∷ [];
            stored = refl;
            allocated =
                All-append (λ p. p < suc r.heap.next) v.ptrs (r.heap.next ∷ [])
                  (All-map (λ p. p < r.heap.next) (λ p. p < suc r.heap.next) (λ p lt. omega arith)
                    v.ptrs v.allocated)
                  (omega arith, tt);
            has_url =
                rw (entries-new r.heap (fresh_backend id u w) v.ptrs v.allocated)
                  (All-append HasUrl (map r.heap.cell v.ptrs) _ v.has_url (cc, tt));
            distinct = rw (entries-new r.heap (fresh_backend id u w) v.ptrs v.allocated) (
                DistinctIds-append (map r.heap.cell v.ptrs) (fresh_backend id u w) v.distinct
                  (rw v.stored at fresh));
          },
        )
      ]

  -- On a valid registry RemoveInstanceByID returns without a panic and leaves a valid registry.
  pub remove_instance_by_id-IsValid :
      (r : Registry Url) (id : String)
      → IsValid r
      → (r' : Registry Url) × (found : Bool) × (remove_instance_by_id r id ≡ done (r', found))
        × IsValid r'
  unfolding remove_instance_by_id
  remove_instance_by_id-IsValid r id v = elim (Bool-cases (any (has_id r.heap id) v.ptrs)) [
    | inr e ↦ (r, false, rw (v.stored, e), v)
    | inl e ↦ (
      record r { backends = some (keep (λ p. not (has_id r.heap id p)) v.ptrs) },
      true,
      rw (v.stored, e),
      record {
        ptrs = keep (λ p. not (has_id r.heap id p)) v.ptrs;
        stored = refl;
        allocated = All-keep (λ p. p < r.heap.next) _ v.ptrs v.allocated;
        has_url =
            rw (← keep-map r.heap.cell (λ b. not (str_eq b.instance_id id)) v.ptrs)
              (All-keep HasUrl _ (map r.heap.cell v.ptrs) v.has_url);
        distinct =
            rw (← keep-map r.heap.cell (λ b. not (str_eq b.instance_id id)) v.ptrs)
              (DistinctIds-keep _ (map r.heap.cell v.ptrs) v.distinct);
      },
    )
  ]
