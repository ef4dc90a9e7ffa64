-- ===== src/Balancer/Bands.antt =====
-- internal/balancer/random.go and hash.go: the walk over the weight bands.
use mathlib.Core.Path.{ap₂}
use golancer.Prelude.{
  ℕ, zero, suc, ◌+◌, ◌-◌, ◌%◌, ◌^◌, ◌<◌, ◌≡◌, refl, ap, ◌∙◌, All-In, ◌≢◌, Bool, true, false, Option,
  none, some, inl, inr, List, [], ◌∷◌, arith, All, In, ltb, ltb→le, lt→ltb, if◌then◌else◌,
  Bool-cases, ◌==◌,
}
use golancer.Prelude.Run.{done}
use golancer.Domain.{Heap, Ptr}
use golancer.Balancer.{weight, add_weights, in_band, walk}

module _ {Url : Type 0} (h : Heap Url) where
  -- The sum of the weights as a number.
  abbrev pub sum_weights : List Ptr → ℕ
  sum_weights [] = 0
  sum_weights (p ∷ ps) = weight h p + sum_weights ps

  pub add_weights-sum :
      (total : ℕ) (ps : List Ptr)
      → total + sum_weights ps < 2 ^ 64
      → add_weights h total ps ≡ total + sum_weights ps
  unfolding add_weights
  add_weights-sum total [] lt = omega arith
  add_weights-sum total (p ∷ ps) lt =
      let e : (total + weight h p) % 2 ^ 64 ≡ total + weight h p = omega arith in
      rw e (omega (arith, add_weights-sum (total + weight h p) ps (omega arith)))

  -- A pick below the sum lands in a band.
  pub in_band-found :
      (pick : ℕ) (ps : List Ptr)
      → pick < sum_weights ps
      → (p : Ptr) × (in_band h pick ps ≡ some p) × In p ps
  unfolding in_band
  in_band-found pick [] lt = absurd (omega arith)
  in_band-found pick (p ∷ ps) lt = elim (Bool-cases (ltb pick (weight h p))) [
    | inl here ↦ (p, rw here, inl refl)
    | inr later ↦
        let (q, e, i) = in_band-found (pick - weight h p) ps (omega (arith, ltb→le _ _ later)) in
        (q, rw later e, inr i)
  ]

  pub walk-found :
      (pick : ℕ) (ps : List Ptr) {p : Ptr}
      → in_band h pick ps ≡ some p
      → walk h pick ps ≡ done (some p)
  unfolding walk
  walk-found pick ps e = rw (e, walk)

  in_band-here :
      (pick : ℕ) (p : Ptr) (ps : List Ptr) → pick < weight h p → in_band h pick (p ∷ ps) ≡ some p
  unfolding in_band
  in_band-here pick p ps lt = rw (lt→ltb _ _ lt)

  in_band-later :
      (x : ℕ) (p : Ptr) (ps : List Ptr) → in_band h (weight h p + x) (p ∷ ps) ≡ in_band h x ps
  unfolding in_band
  in_band-later x p ps =
      let e : ltb (weight h p + x) (weight h p) ≡ false = ground arith in
      let d : weight h p + x - weight h p ≡ x = omega arith in rw (e, d)

-- How many numbers below a bound pass a test.
abbrev pub count_below : ℕ → (ℕ → Bool) → ℕ
count_below zero f = 0
count_below (suc n) f = count_below n f + (if f n then 1 else 0)

count_below-add :
    (m n : ℕ) (f : ℕ → Bool)
    → count_below (m + n) f ≡ count_below m f + count_below n (λ x. f (m + x))
count_below-add m zero f = let e : m + 0 ≡ m = omega arith in rw e (omega arith)
count_below-add m (suc n) f =
    let e : m + suc n ≡ suc (m + n) = omega arith in rw e (omega (arith, count_below-add m n f))

pub count_below-ext :
    (n : ℕ) (f g : ℕ → Bool) → ((x : ℕ) → x < n → f x ≡ g x) → count_below n f ≡ count_below n g
count_below-ext zero f g e = refl
count_below-ext (suc n) f g e =
    rw (e n (omega arith), count_below-ext n f g (λ x lt. e x (omega arith)))

count_below-true : (n : ℕ) → count_below n (λ _. true) ≡ n
count_below-true zero = refl
count_below-true (suc n) = omega (arith, count_below-true n)

count_below-false : (n : ℕ) → count_below n (λ _. false) ≡ 0
count_below-false zero = refl
count_below-false (suc n) = omega (arith, count_below-false n)

-- A selector's answer is the backend `q`.
abbrev pub is_ptr : Ptr → Option Ptr → Bool
is_ptr q none = false
is_ptr q (some p) = p == q

-- No pointer stands twice in the list.
abbrev pub DistinctPtrs : List Ptr → Type 0
DistinctPtrs [] = Unit
DistinctPtrs (p ∷ ps) = All (λ q. q ≢ p) ps × DistinctPtrs ps

module _ {Url : Type 0} (h : Heap Url) where
  count_below-head :
      (q p : Ptr) (ps : List Ptr) (b : Bool)
      → (p == q) ≡ b
      → count_below (weight h p) (λ x. is_ptr q (in_band h x (p ∷ ps)))
        ≡ (if b then weight h p else 0)
  count_below-head q p ps true e =
      count_below-ext (weight h p) _ (λ _. true) (λ x lt. rw (in_band-here h x p ps lt) e)
      ∙ count_below-true (weight h p)
  count_below-head q p ps false e =
      count_below-ext (weight h p) _ (λ _. false) (λ x lt. rw (in_band-here h x p ps lt) e)
      ∙ count_below-false (weight h p)

  -- No pick lands at a backend that is not in the list.
  in_band-absent :
      (q : Ptr) (x : ℕ) (ps : List Ptr) → All (λ p. p ≢ q) ps → is_ptr q (in_band h x ps) ≡ false
  unfolding in_band
  in_band-absent q x [] a = refl
  in_band-absent q x (p ∷ ps) a = ground (arith, in_band-absent q (x - weight h p) ps a.1)

  count_below-cons :
      (q p : Ptr) (ps : List Ptr) (b : Bool)
      → (p == q) ≡ b
      → count_below (sum_weights h (p ∷ ps)) (λ x. is_ptr q (in_band h x (p ∷ ps)))
        ≡ (if b then weight h p else 0)
          + count_below (sum_weights h ps) (λ x. is_ptr q (in_band h x ps))
  count_below-cons q p ps b e =
      count_below-add (weight h p) (sum_weights h ps) (λ x. is_ptr q (in_band h x (p ∷ ps)))
      ∙ ap₂ ◌+◌ (count_below-head q p ps b e)
          (count_below-ext (sum_weights h ps) _ _ (λ x lt. ap (is_ptr q) (in_band-later h x p ps)))

  -- Of the picks below the sum, as many land at a backend of the list as its weight says.
  pub count_below-in_band :
      (q : Ptr) (ps : List Ptr)
      → DistinctPtrs ps
      → In q ps
      → count_below (sum_weights h ps) (λ x. is_ptr q (in_band h x ps)) ≡ weight h q
  count_below-in_band q [] d i = elim i [ ]
  count_below-in_band q (p ∷ ps) d (inl e) = rw e (
      count_below-cons p p ps true (ground arith)
      ∙ omega (
        arith,
        count_below-ext (sum_weights h ps) (λ x. is_ptr p (in_band h x ps)) (λ _. false)
            (λ x lt. in_band-absent p x ps d.0),
        count_below-false (sum_weights h ps),
      ))
  count_below-in_band q (p ∷ ps) d (inr i) =
      let other = All-In (λ r. r ≢ p) ps d.0 i in
      count_below-cons q p ps false (ground arith) ∙ omega (arith, count_below-in_band q ps d.1 i)
