-- ===== src/Balancer/LeastConnections.antt =====
-- internal/balancer/least_connections.go: the comparison by products in uint64 gives the least load.
use native.Mathlib.Nat.{mod-eq_of_lt, mul-le-mul, mul-le-mul_right, le_of_mul-le-mul_right}
use mathlib.Core.Path.{subst}
use golancer.Prelude.{
  ℕ, ◌+◌, ◌-◌, ◌*◌, ◌^◌, ◌≤◌, ◌<◌, ◌≡◌, refl, sym, Bool, true, false, some, inl, inr, List, [], ◌∷◌,
  arith, All, In, ltb, ltb→lt, lt→ltb, ltb→le, if◌then◌else◌, Bool-cases,
}
use golancer.Domain.{Heap, Ptr, max_weight}
use golancer.Registry.{Registry, list_healthy_backends}
use golancer.Balancer.{weight, less_loaded, min_func, least_connections}

module _ {Url : Type 0} (h : Heap Url) where
  -- The number of connections is not negative, and the weight is one that the program admits.
  pub record IsSane (p : Ptr) : Type 0 where
    pub counted : (h.cell p).active_connections_no < 2 ^ 31
    pub positive : 0 < weight h p
    pub bounded : weight h p ≤ max_weight

  -- The load of `p`, connections divided by weight, is at most that of `q`.
  abbrev pub LoadLe : Ptr → Ptr → Type 0
  LoadLe p q =
      (h.cell p).active_connections_no * weight h q ≤ (h.cell q).active_connections_no * weight h p

product-lt : (c w : ℕ) → c < 2 ^ 31 → w ≤ max_weight → c * w < 2 ^ 64
product-lt c w lc lw =
    let le : c ≤ 2 ^ 31 = omega arith in
    let p : c * w ≤ 2 ^ 31 * max_weight = mul-le-mul le lw in omega arith

cross : (a b c wa wb wc : ℕ) → 0 < wb → a * wb ≤ b * wa → b * wc ≤ c * wb → a * wc ≤ c * wa
cross a b c wa wb wc pos h k =
    le_of_mul-le-mul_right (omega (arith, mul-le-mul_right wc h, mul-le-mul_right wa k)) pos

In-skip : {A : Type 0} {a : A} (x y : A) (ys : List A) → In a (x ∷ ys) → In a (x ∷ y ∷ ys)
In-skip x y ys (inl e) = inl e
In-skip x y ys (inr i) = inr (inr i)

-- The loop of `slices.MinFunc`, for a test that decides an order on the elements of a predicate.
module _ {A : Type 0} (less : A → A → Bool) (S : A → Type 0) (R : A → A → Type 0)
    (itself : (a : A) → R a a) (trans : (a b c : A) → S b → R a b → R b c → R a c)
    (below : (a b : A) → S a → S b → less a b ≡ true → R a b)
    (above : (a b : A) → S a → S b → less a b ≡ false → R b a) where
  abbrev IsLeast : A → A → List A → Type 0
  IsLeast r m ps = In r (m ∷ ps) × R r m × All (R r) ps

  min_func-step :
      (m p : A) (ps : List A) (b : Bool)
      → less p m ≡ b
      → min_func less m (p ∷ ps) ≡ min_func less (if b then p else m) ps
  unfolding min_func
  min_func-step m p ps b e = rw e

  pub min_func-IsLeast : (m : A) (ps : List A) → S m → All S ps → IsLeast (min_func less m ps) m ps
  unfolding min_func
  min_func-IsLeast m [] sm sps = (inl refl, itself m, tt)
  min_func-IsLeast m (p ∷ ps) sm (sp, sps) = elim (Bool-cases (less p m)) [
    | inl lt ↦
        let (mem, le, all) = min_func-IsLeast p ps sp sps in
        subst (λ r. IsLeast r m (p ∷ ps)) (sym (min_func-step m p ps true lt))
          (inr mem, trans _ p m sp le (below p m sp sm lt), (le, all))
    | inr ge ↦
        let (mem, le, all) = min_func-IsLeast m ps sm sps in
        subst (λ r. IsLeast r m (p ∷ ps)) (sym (min_func-step m p ps false ge))
          (In-skip m p ps mem, le, (trans _ m p sm le (above p m sp sm ge), all))
  ]

abbrev Any : Ptr → Type 0
Any p = Unit

signed : (w : ℕ) → w < 2 ^ 31 → (if ltb w (2 ^ 31) then w else w + (2 ^ 64 - 2 ^ 32)) ≡ w
signed w lt = rw (lt→ltb w (2 ^ 31) lt)

module _ {Url : Type 0} where
  less_loaded_lem :
      (h : Heap Url) (p q : Ptr)
      → IsSane h p
      → IsSane h q
      → less_loaded h p q
        ≡ ltb
            ((h.cell p).active_connections_no * weight h q)
            ((h.cell q).active_connections_no * weight h p)
  less_loaded_lem h p q sp sq = rw (
    signed (h.cell p).active_connections_no sp.counted,
    signed (h.cell q).active_connections_no sq.counted,
    mod-eq_of_lt (product-lt (h.cell p).active_connections_no (weight h q) sp.counted sq.bounded),
    mod-eq_of_lt (product-lt (h.cell q).active_connections_no (weight h p) sq.counted sp.bounded),
  )

  load_below :
      (h : Heap Url) (p q : Ptr) → IsSane h p → IsSane h q → less_loaded h p q ≡ true → LoadLe h p q
  load_below h p q sp sq t = omega (
    arith,
    ltb→lt ((h.cell p).active_connections_no * weight h q)
        ((h.cell q).active_connections_no * weight h p) (rw (less_loaded_lem h p q sp sq) at t),
  )

  load_above :
      (h : Heap Url) (p q : Ptr)
      → IsSane h p
      → IsSane h q
      → less_loaded h p q ≡ false
      → LoadLe h q p
  load_above h p q sp sq t = omega (
    arith,
    ltb→le ((h.cell p).active_connections_no * weight h q)
        ((h.cell q).active_connections_no * weight h p) (rw (less_loaded_lem h p q sp sq) at t),
  )

  -- Whatever the counts and weights are, the pick is one of the list.
  pub least_connections-In :
      (r : Registry Url) {p : Ptr} {ps : List Ptr}
      → list_healthy_backends r ≡ p ∷ ps
      → (q : Ptr) × (least_connections r ≡ some q) × In q (p ∷ ps)
  unfolding least_connections
  least_connections-In r {p} {ps} e =
      let (mem, _, _) =
        min_func-IsLeast (less_loaded r.heap) Any (λ _ _. Unit) (λ a. tt) (λ a b c s h k. tt)
          (λ a b s t h. tt) (λ a b s t h. tt) p ps tt (all_units ps) in
      (min_func (less_loaded r.heap) p ps, rw (e, least_connections), mem)
    where
      all_units : (qs : List Ptr) → All Any qs
      all_units [] = tt
      all_units (q ∷ qs) = (tt, all_units qs)

  -- While the connection counts of the healthy backends are not negative and their weights lie
  -- between 1 and the maximum, the products in uint64 do not overflow, and GetServer returns a
  -- healthy backend whose load, connections divided by weight, is at most that of each healthy
  -- backend.
  pub least_connections-least :
      (r : Registry Url) {p : Ptr} {ps : List Ptr}
      → list_healthy_backends r ≡ p ∷ ps
      → All (IsSane r.heap) (p ∷ ps)
      → (q : Ptr) × (least_connections r ≡ some q) × In q (p ∷ ps) × All (LoadLe r.heap q) (p ∷ ps)
  unfolding least_connections
  least_connections-least r {p} {ps} e sane =
      let h = r.heap in
      let (mem, le, all) =
        min_func-IsLeast (less_loaded h) (IsSane h) (LoadLe h) (λ a. omega arith)
          (λ a b c sb. cross _ _ _ _ _ _ sb.positive) (load_below h) (load_above h) p ps sane.0
          sane.1 in
      (min_func (less_loaded h) p ps, rw (e, least_connections), mem, (le, all))
