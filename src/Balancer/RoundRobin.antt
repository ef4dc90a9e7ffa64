-- ===== src/Balancer/RoundRobin.antt =====
-- internal/balancer/round_robin.go: the scan in uint32 arithmetic against a rotation of the list.
use native.Mathlib.Nat.{mod-lt, mod-eq_of_lt, mod-eq-sub-mod, mod-add-mod}
use native.Mathlib.Decide.{dec_lt}
use golancer.Prelude.{
  ℕ, zero, suc, ◌+◌, ◌-◌, ◌%◌, ◌^◌, ◌≤◌, ◌<◌, ◌≡◌, refl, sym, ap, ◌∙◌, true, false, Option, none,
  some, inl, inr, List, [], ◌∷◌, ◌++◌, arith, In, if◌then◌else◌, length, get_elem?, get_elem?-lt,
  get_elem?-append_left, get_elem?-append_right, get_elem?-drop, get_elem?-take, length-drop,
  length-rotate, drop, take, drop-cons, drop-all, rotate, Bool-cases, ◌==◌,
}
use golancer.Prelude.Run.{done, ◌>>=◌}
use golancer.Domain.{Heap, Ptr, healthy}
use golancer.Registry.{Registry, list_backends}
use golancer.Balancer.{scan, round_robin}

wrap_once : (a n : ℕ) → n ≤ a → a < n + n → a % n ≡ a - n
wrap_once a n le lt = mod-eq-sub-mod le ∙ mod-eq_of_lt (omega arith)

-- The element that the rotation has at an index.
pub get_elem?-rotate {ℓ} :
    {A : Type ℓ} (xs : List A) (s i : ℕ)
    → s < length xs
    → i < length xs
    → get_elem? (rotate s xs) i ≡ get_elem? xs ((s + i) % length xs)
get_elem?-rotate xs s i hs hi = elim (dec_lt (s + i) (length xs)) [
  | yes lt ↦
      get_elem?-append_left (drop s xs) (take s xs) i (omega (arith, length-drop s xs))
      ∙ get_elem?-drop s xs i
      ∙ ap (get_elem? xs) (sym (mod-eq_of_lt lt))
  | no ge ↦
      let j : ℕ = s + i - length xs in
      let here : i ≡ length (drop s xs) + j = omega (arith, length-drop s xs) in
      let wrapped : (s + i) % length xs ≡ j =
        wrap_once (s + i) (length xs) (omega arith) (omega arith) in
      rw wrapped (
        ap (get_elem? (drop s xs ++ take s xs)) here
        ∙ get_elem?-append_right (drop s xs) (take s xs) j
        ∙ get_elem?-take s xs j (omega arith))
]

-- The counter that `Add(1) - 1` gives back.
start_lem :
    (current : ℕ) → current < 2 ^ 32 → ((current + 1) % 2 ^ 32 + 2 ^ 32 - 1) % 2 ^ 32 ≡ current
start_lem current lt = omega arith

count_lem : (n : ℕ) → 0 < n → n < 2 ^ 32 → ((n % 2 ^ 32) == 0) ≡ false
count_lem n pos lt = rw (mod-eq_of_lt lt) (ground arith)

In-get_elem? : {A : Type 0} {a : A} (xs : List A) (i : ℕ) → get_elem? xs i ≡ some a → In a xs
In-get_elem? [] i e = cc
In-get_elem? (x ∷ xs) zero e = inl (cc)
In-get_elem? (x ∷ xs) (suc i) e = inr (In-get_elem? xs i e)

module _ {Url : Type 0} where
  -- The first healthy backend of a list.
  abbrev pub first_healthy : Heap Url → List Ptr → Option Ptr
  first_healthy h [] = none
  first_healthy h (p ∷ ps) = if healthy h p then some p else first_healthy h ps

  pub scan-step :
      (h : Heap Url) (ps : List Ptr) (start n k i : ℕ) {p : Ptr}
      → get_elem? ps ((start + i) % 2 ^ 32 % n) ≡ some p
      → scan h ps start n (suc k) i
        ≡ (if healthy h p then done (some p) else scan h ps start n k (i + 1))
  unfolding scan
  scan-step h ps start n k i e = rw (e, scan)

  -- While the index does not wrap, the scan reads the rotation from its `i`-th element on.
  scan-rotate :
      (h : Heap Url) (ps : List Ptr) (start k i : ℕ)
      → 0 < length ps
      → start + length ps ≤ 2 ^ 32
      → k + i ≡ length ps
      → scan h ps start (length ps) k i
        ≡ done (first_healthy h (drop i (rotate (start % length ps) ps)))
  unfolding scan
  scan-rotate h ps start zero i pos nowrap e =
      let s : ℕ = start % length ps in
      let short : s ≤ length ps = omega (arith, mod-lt start pos) in
      rw (drop-all (rotate s ps) i (omega (arith, length-rotate s ps short)))
  scan-rotate h ps start (suc k) i pos nowrap e =
      let s : ℕ = start % length ps in
      let small : s < length ps = mod-lt start pos in
      let same : (start + i) % 2 ^ 32 % length ps ≡ (s + i) % length ps =
        ap (λ (x : ℕ). x % length ps) (mod-eq_of_lt (omega arith))
        ∙ sym (mod-add-mod start (length ps) i) in
      let (p, at_p) = get_elem?-lt ps ((s + i) % length ps) (mod-lt (s + i) pos) in
      let found = get_elem?-rotate ps s i small (omega arith) ∙ at_p in
      rw
        (
          scan-step h ps start (length ps) k i (ap (get_elem? ps) same ∙ at_p),
          drop-cons (rotate s ps) i found,
        )
        (ground (arith, drop_next i, scan-rotate h ps start k (i + 1) pos nowrap))
    where
      drop_next :
          (i : ℕ)
          → drop (suc i) (rotate (start % length ps) ps)
            ≡ drop (i + 1) (rotate (start % length ps) ps)
      drop_next i = let e : suc i ≡ i + 1 = omega arith in rw e

  pub round_robin-scan :
      (r : Registry Url) (current : ℕ)
      → 0 < length (list_backends r)
      → length (list_backends r) < 2 ^ 32
      → current < 2 ^ 32
      → round_robin r current ≡ (
          scan r.heap
            (list_backends r)
            current
            (length (list_backends r))
            (length (list_backends r))
            0
          >>= λ o. done ((current + 1) % 2 ^ 32, o))
  unfolding round_robin
  round_robin-scan r current pos few lt =
      rw (count_lem (length (list_backends r)) pos few, start_lem current lt, mod-eq_of_lt few)

  -- If the counter and the number of backends are together at most 2 ^ 32, there are fewer than 2 ^
  -- 32 backends, and the list is not empty, round robin picks the first healthy backend of the
  -- registered list read cyclically from the position of the counter on, and none if no backend is
  -- healthy; it steps the counter by one and does not panic.
  pub round_robin-rotate :
      (r : Registry Url) (current : ℕ)
      → 0 < length (list_backends r)
      → length (list_backends r) < 2 ^ 32
      → current + length (list_backends r) ≤ 2 ^ 32
      → round_robin r current
        ≡ done (
          (current + 1) % 2 ^ 32,
          first_healthy r.heap (rotate (current % length (list_backends r)) (list_backends r)),
        )
  round_robin-rotate r current pos few nowrap =
      round_robin-scan r current pos few (omega arith)
      ∙ ap (λ m. m >>= λ o. done ((current + 1) % 2 ^ 32, o))
          (scan-rotate r.heap (list_backends r) current (length (list_backends r)) 0 pos nowrap
            (omega arith))

  -- What a selector may return: no backend, or a listed one that is healthy.
  abbrev pub IsRoutable : Heap Url → List Ptr → Option Ptr → Type 0
  IsRoutable h ps none = Unit
  IsRoutable h ps (some p) = In p ps × (healthy h p ≡ true)

  scan-IsRoutable :
      (h : Heap Url) (ps : List Ptr) (start k i : ℕ)
      → 0 < length ps
      → (o : Option Ptr) × (scan h ps start (length ps) k i ≡ done o) × IsRoutable h ps o
  unfolding scan
  scan-IsRoutable h ps start zero i pos = (none, refl, tt)
  scan-IsRoutable h ps start (suc k) i pos =
      let j : ℕ = (start + i) % 2 ^ 32 % length ps in
      let (p, at_p) = get_elem?-lt ps j (mod-lt ((start + i) % 2 ^ 32) pos) in
      elim (Bool-cases (healthy h p)) [
        | inl up ↦ (
          some p,
          rw (scan-step h ps start (length ps) k i at_p, up),
          (In-get_elem? ps j at_p, up),
        )
        | inr down ↦
            let (o, e, ok) = scan-IsRoutable h ps start k (i + 1) pos in
            (o, rw (scan-step h ps start (length ps) k i at_p, down) e, ok)
      ]

  -- At every value of the counter, also where the index wraps, round robin over fewer than 2 ^ 32
  -- backends does not panic, what it returns is registered and healthy, and the counter stays a
  -- uint32.
  pub round_robin-IsRoutable :
      (r : Registry Url) (current : ℕ)
      → length (list_backends r) < 2 ^ 32
      → current < 2 ^ 32
      → (c : ℕ) × (o : Option Ptr) × (round_robin r current ≡ done (c, o))
        × (c < 2 ^ 32)
        × IsRoutable r.heap (list_backends r) o
  unfolding round_robin
  round_robin-IsRoutable r current few lt = elim (dec_lt 0 (length (list_backends r))) [
    | yes pos ↦
        let n : ℕ = length (list_backends r) in
        let (o, e, ok) = scan-IsRoutable r.heap (list_backends r) current n 0 pos in
        (
          (current + 1) % 2 ^ 32,
          o,
          round_robin-scan r current pos few lt
              ∙ ap (λ m. m >>= λ o. done ((current + 1) % 2 ^ 32, o)) e,
          omega arith,
          ok,
        )
    | no empty ↦
        (current, none, (let e : length (list_backends r) ≡ 0 = omega arith in rw e), lt, tt)
  ]
