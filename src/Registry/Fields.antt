-- ===== src/Registry/Fields.antt =====
-- internal/backend/registry.go: predicates on the listed backends, when some fields of the cells change.
use mathlib.Core.Path.{subst}
use golancer.Prelude.{◌≡◌, refl, sym, ◌≢◌, List, [], ◌∷◌, inl, inr, map, All, In}
use golancer.Domain.{Ptr, Backend}
use golancer.Registry.Invariant.{DistinctIds}

module _ {Url : Type 0} where
  -- A predicate of all listed backends holds of each of them.
  pub All-In_map :
      (P : Backend Url → Type 0) (cell : Ptr → Backend Url) (ps : List Ptr) {p : Ptr}
      → All P (map cell ps)
      → In p ps
      → P (cell p)
  All-In_map P cell [] h i = elim i [ ]
  All-In_map P cell (q ∷ ps) h (inl e) = rw e h.0
  All-In_map P cell (q ∷ ps) h (inr i) = All-In_map P cell ps h.1 i

  pub All-field :
      (cell cell' : Ptr → Backend Url) {B : Type 0} (f : Backend Url → B) (Q : B → Type 0)
      (ps : List Ptr)
      → ((q : Ptr) → In q ps → f (cell' q) ≡ f (cell q))
      → All (λ b. Q (f b)) (map cell ps)
      → All (λ b. Q (f b)) (map cell' ps)
  All-field cell cell' f Q [] same h = tt
  All-field cell cell' f Q (p ∷ ps) same h = (
    subst Q (sym (same p (inl refl))) h.0,
    All-field cell cell' f Q ps (λ q i. same q (inr i)) h.1,
  )

  pub DistinctIds-field :
      (cell cell' : Ptr → Backend Url) (ps : List Ptr)
      → ((q : Ptr) → In q ps → (cell' q).instance_id ≡ (cell q).instance_id)
      → DistinctIds (map cell ps)
      → DistinctIds (map cell' ps)
  DistinctIds-field cell cell' [] same d = tt
  DistinctIds-field cell cell' (p ∷ ps) same d = (
    All-field cell cell' (λ b. b.instance_id) (λ i. i ≢ (cell' p).instance_id) ps
        (λ q i. same q (inr i))
        (subst (λ i. All (λ b. b.instance_id ≢ i) (map cell ps)) (sym (same p (inl refl))) d.0),
    DistinctIds-field cell cell' ps (λ q i. same q (inr i)) d.1,
  )
