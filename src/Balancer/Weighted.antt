-- ===== src/Balancer/Weighted.antt =====
-- internal/balancer/random.go and hash.go: what the weighted selectors return.
use native.Mathlib.Nat.{mod-lt}
use mathlib.Core.Path.{subst}
use golancer.Prelude.{
  ℕ, ◌*◌, ◌%◌, ◌^◌, ◌≤◌, ◌<◌, ◌≡◌, sym, ◌∙◌, String, Bool, true, false, Option, some, inl, inr,
  List, [], ◌∷◌, arith, All, In, length, ◌==◌, In-keep, Option-cases,
}
use golancer.Prelude.Run.{Run, done, panic}
use golancer.Domain.{Heap, Ptr, healthy, max_weight}
use golancer.Registry.{Registry, list_backends, list_healthy_backends}
use golancer.Balancer.{weight, add_weights, in_band, walk, random, fnv_32a, server_for_key}
use golancer.Balancer.Bands.{
  sum_weights, add_weights-sum, in_band-found, walk-found, count_below, count_below-ext, is_ptr,
  DistinctPtrs, count_below-in_band,
}

eqb_pos : (n : ℕ) → 0 < n → (n == 0) ≡ false
eqb_pos n pos = ground arith

-- A selector's run ends with the backend `q`.
abbrev pub returns : Ptr → Run (Option Ptr) → Bool
returns q (done o) = is_ptr q o
returns q (panic e) = false

module _ {Url : Type 0} where
  -- The weights that the program admits.
  abbrev pub HasWeight : Heap Url → Ptr → Type 0
  HasWeight h p = (0 < weight h p) × (weight h p ≤ max_weight)

  sum_weights-le :
      (h : Heap Url) (ps : List Ptr)
      → All (HasWeight h) ps
      → sum_weights h ps ≤ length ps * max_weight
  sum_weights-le h [] w = omega arith
  sum_weights-le h (p ∷ ps) w = omega (arith, sum_weights-le h ps w.1)

  total_lem :
      (h : Heap Url) (ps : List Ptr)
      → sum_weights h ps < 2 ^ 64
      → add_weights h 0 ps ≡ sum_weights h ps
  total_lem h ps lt = omega (arith, add_weights-sum h 0 ps (omega arith))

  -- With 2 ^ 44 backends at most the sum of the weights fits into a uint64.
  pub sum_weights-lt :
      (h : Heap Url) (ps : List Ptr)
      → All (HasWeight h) ps
      → length ps ≤ 2 ^ 44
      → sum_weights h ps < 2 ^ 64
  sum_weights-lt h ps w few = omega (arith, sum_weights-le h ps w)

  pub random-walk :
      (r : Registry Url) (draw : ℕ → ℕ) (p : Ptr) (ps : List Ptr)
      → list_healthy_backends r ≡ p ∷ ps
      → 0 < sum_weights r.heap (p ∷ ps)
      → sum_weights r.heap (p ∷ ps) < 2 ^ 64
      → random draw r ≡ walk r.heap (draw (sum_weights r.heap (p ∷ ps))) (p ∷ ps)
  unfolding random
  random-walk r draw p ps e pos lt = rw (
    e,
    total_lem r.heap (p ∷ ps) lt,
    eqb_pos (sum_weights r.heap (p ∷ ps)) pos,
    eqb_pos (length (p ∷ ps)) (omega arith),
  )

  pub server_for_key-walk :
      (r : Registry Url) (key : String) (p : Ptr) (ps : List Ptr)
      → list_healthy_backends r ≡ p ∷ ps
      → 0 < sum_weights r.heap (p ∷ ps)
      → sum_weights r.heap (p ∷ ps) < 2 ^ 64
      → server_for_key r key ≡ walk r.heap (fnv_32a key % sum_weights r.heap (p ∷ ps)) (p ∷ ps)
  unfolding server_for_key
  server_for_key-walk r key p ps e pos lt = rw (
    e,
    total_lem r.heap (p ∷ ps) lt,
    eqb_pos (sum_weights r.heap (p ∷ ps)) pos,
    eqb_pos (length (p ∷ ps)) (omega arith),
  )

  -- A selector's answer on healthy backends with admitted weights: no panic, and a healthy one.
  abbrev IsFound : Registry Url → Run (Option Ptr) → Type 0
  IsFound r m = (q : Ptr) × (m ≡ done (some q)) × In q (list_backends r) × (healthy r.heap q ≡ true)

  pub healthy_In :
      (r : Registry Url) {q : Ptr}
      → In q (list_healthy_backends r)
      → In q (list_backends r) × (healthy r.heap q ≡ true)
  healthy_In r {q} i = elim (Option-cases r.backends) [
    | inl e ↦ elim (rw e at i) [ ]
    | inr (ps, e) ↦ rw e (In-keep (healthy r.heap) ps (rw e at i))
  ]

  walk-IsFound :
      (r : Registry Url) (pick : ℕ) {ps : List Ptr}
      → list_healthy_backends r ≡ ps
      → pick < sum_weights r.heap ps
      → IsFound r (walk r.heap pick ps)
  walk-IsFound r pick {ps} e lt =
      let (q, at_q, i) = in_band-found r.heap pick ps lt in
      let (listed, up) = healthy_In r (subst (In q) (sym e) i) in
      (q, walk-found r.heap pick ps at_q, listed, up)

  -- If some backend is healthy and the at most 2 ^ 44 healthy ones have admitted weights, the
  -- random selector does not panic and returns a registered, healthy backend, whatever number below
  -- its argument the generator draws.
  pub random-IsFound :
      (r : Registry Url) (draw : ℕ → ℕ) {p : Ptr} {ps : List Ptr}
      → ((n : ℕ) → 0 < n → draw n < n)
      → list_healthy_backends r ≡ p ∷ ps
      → All (HasWeight r.heap) (p ∷ ps)
      → length (p ∷ ps) ≤ 2 ^ 44
      → (q : Ptr) × (random draw r ≡ done (some q))
        × In q (list_backends r)
        × (healthy r.heap q ≡ true)
  random-IsFound r draw {p} {ps} small e w few =
      let pos : 0 < sum_weights r.heap (p ∷ ps) = omega (arith, w.0.0) in
      rw (random-walk r draw p ps e pos (sum_weights-lt r.heap (p ∷ ps) w few))
        (walk-IsFound r (draw (sum_weights r.heap (p ∷ ps))) e (small _ pos))

  -- If some backend is healthy and the at most 2 ^ 44 healthy ones have admitted weights, the hash
  -- selector does not panic and returns a registered, healthy backend for every key.
  pub server_for_key-IsFound :
      (r : Registry Url) (key : String) {p : Ptr} {ps : List Ptr}
      → list_healthy_backends r ≡ p ∷ ps
      → All (HasWeight r.heap) (p ∷ ps)
      → length (p ∷ ps) ≤ 2 ^ 44
      → (q : Ptr) × (server_for_key r key ≡ done (some q))
        × In q (list_backends r)
        × (healthy r.heap q ≡ true)
  server_for_key-IsFound r key {p} {ps} e w few =
      let pos : 0 < sum_weights r.heap (p ∷ ps) = omega (arith, w.0.0) in
      rw (server_for_key-walk r key p ps e pos (sum_weights-lt r.heap (p ∷ ps) w few))
        (walk-IsFound r (fnv_32a key % sum_weights r.heap (p ∷ ps)) e (mod-lt (fnv_32a key) pos))

  -- Of the equally likely draws below the sum of the weights, exactly as many make the random
  -- selector return a healthy backend as the weight of that backend says, for at most 2 ^ 44
  -- healthy backends, all different and with admitted weights.
  pub random-weighted :
      (r : Registry Url) (q p : Ptr) (ps : List Ptr)
      → list_healthy_backends r ≡ p ∷ ps
      → DistinctPtrs (p ∷ ps)
      → All (HasWeight r.heap) (p ∷ ps)
      → length (p ∷ ps) ≤ 2 ^ 44
      → In q (p ∷ ps)
      → count_below (sum_weights r.heap (p ∷ ps)) (λ x. returns q (random (λ _. x) r))
        ≡ weight r.heap q
  random-weighted r q p ps e d w few i =
      count_below-ext (sum_weights r.heap (p ∷ ps)) _ _ draw_lands
      ∙ count_below-in_band r.heap q (p ∷ ps) d i
    where
      pos : 0 < sum_weights r.heap (p ∷ ps)
      pos = omega (arith, w.0.0)

      draw_lands :
          (x : ℕ)
          → x < sum_weights r.heap (p ∷ ps)
          → returns q (random (λ _. x) r) ≡ is_ptr q (in_band r.heap x (p ∷ ps))
      draw_lands x lt =
          let (o, at_o, _) = in_band-found r.heap x (p ∷ ps) lt in
          rw (
            random-walk r (λ _. x) p ps e pos (sum_weights-lt r.heap (p ∷ ps) w few),
            walk-found r.heap x (p ∷ ps) at_o,
            at_o,
          )
