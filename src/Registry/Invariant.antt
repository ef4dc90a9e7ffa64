-- ===== src/Registry/Invariant.antt =====
-- internal/backend/registry.go: what holds of the registry between two calls.
use golancer.Prelude.{
  ◌<◌, ◌≡◌, sym, ◌≢◌, Bool, none, some, List, [], ◌∷◌, ◌++◌, map, arith, All, All-append, All-keep,
  keep,
}
use golancer.Domain.{Ptr, Backend}
use golancer.Registry.{Registry, list_backends}

module _ {Url : Type 0} where
  -- The registered backends by value, in order.
  abbrev pub entries : Registry Url → List (Backend Url)
  entries r = map r.heap.cell (list_backends r)

  -- No backend of the list shares its instance ID with another.
  abbrev pub DistinctIds : List (Backend Url) → Type 0
  DistinctIds [] = Unit
  DistinctIds (b ∷ bs) = All (λ c. c.instance_id ≢ b.instance_id) bs × DistinctIds bs

  abbrev pub HasUrl : Backend Url → Type 0
  HasUrl b = b.url ≢ none

  pub DistinctIds-append :
      (bs : List (Backend Url)) (b : Backend Url)
      → DistinctIds bs
      → All (λ c. c.instance_id ≢ b.instance_id) bs
      → DistinctIds (bs ++ b ∷ [])
  DistinctIds-append [] b d fresh = (tt, tt)
  DistinctIds-append (c ∷ bs) b d fresh = (
    All-append (λ x. x.instance_id ≢ c.instance_id) bs (b ∷ []) d.0 ((λ e. fresh.0 (sym e)), tt),
    DistinctIds-append bs b d.1 fresh.1,
  )

  pub DistinctIds-keep :
      (p : Backend Url → Bool) (bs : List (Backend Url)) → DistinctIds bs → DistinctIds (keep p bs)
  DistinctIds-keep p [] d = tt
  DistinctIds-keep p (b ∷ bs) d = ground (
    arith,
    DistinctIds-keep p bs d.1,
    All-keep (λ (c : Backend Url). c.instance_id ≢ b.instance_id) p bs d.0,
  )

-- Every listed backend is allocated and has a URL, and the instance IDs are distinct.
pub record IsValid {Url : Type 0} (r : Registry Url) : Type 0 where
  pub ptrs : List Ptr
  pub stored : r.backends ≡ some ptrs
  pub allocated : All (λ p. p < r.heap.next) ptrs
  pub has_url : All HasUrl (map r.heap.cell ptrs)
  pub distinct : DistinctIds (map r.heap.cell ptrs)
