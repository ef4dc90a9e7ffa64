-- ===== src/Registry/Writers/Moves.antt =====
-- internal/backend/registry.go: what one step of a writer keeps, for each of the five kinds of step.
use mathlib.Core.Path.{subst}
use golancer.Prelude.{
  ℕ, ◌≡◌, refl, sym, ap, ◌∙◌, ◌≢◌, true, Option, none, some, List, [], ◌∷◌, arith, ◌==◌,
  if◌then◌else◌, any, Bool-cases, Option-cases, inl, inr,
}
use golancer.Prelude.Run.{done}
use golancer.Domain.{UrlLib, Ptr, set_healthy, add_connections}
use golancer.Registry.{Registry, list_backends, has_id}
use golancer.Registry.Writers.{
  Call, add, remove, Result, Pc, waiting, locked, confirmed, loaded, stored, finished, crashed,
  Entry, committed, flagged, counted, Writers, set_pc, with_heap, lock, unlock, move, commit,
  atomic,
}

-- A property of every goroutine's place, when one of them moves.
set_pc-all :
    (P : ℕ → Pc → Type 0) (pc : ℕ → Pc) (t : ℕ) (v : Pc)
    → P t v
    → ((q : ℕ) → t ≢ q → P q (pc q))
    → (q : ℕ) → P q (set_pc pc t v q)
set_pc-all P pc t v own others q = elim (Bool-cases (t == q)) [
  | inl e ↦ let same : t ≡ q = ground arith in rw e (subst (λ x. P x v) same own)
  | inr e ↦ rw e (others q (λ same. ground arith))
]

-- A goroutine has the mutex from the lock to the unlock.
abbrev pub IsInside : Pc → Type 0
IsInside waiting = ⊥
IsInside locked = Unit
IsInside confirmed = Unit
IsInside (loaded cur) = Unit
IsInside (stored x) = Unit
IsInside (finished x) = ⊥
IsInside crashed = ⊥

-- The results that a call has given: one from the moment it took effect.
abbrev pub given : Pc → List Result
given waiting = []
given locked = []
given confirmed = []
given (loaded cur) = []
given (stored x) = x ∷ []
given (finished x) = x ∷ []
given crashed = []

-- The results under which the goroutine `t` took effect, by the history.
abbrev pub commits : ℕ → List Entry → List Result
commits t [] = []
commits t (committed q x ∷ h) = if q == t then x ∷ commits t h else commits t h
commits t (flagged p v ∷ h) = commits t h
commits t (counted p d ∷ h) = commits t h

module _ {Url : Type 0} where
  -- What a call inside has seen of the registry still holds.
  abbrev pub Sees : Call Url → Pc → Registry Url → Type 0
  Sees c waiting r = Unit
  Sees c locked r = Unit
  Sees (add id u w) confirmed r = Unit
  Sees (remove id) confirmed r =
      (ps : List Ptr) × (r.backends ≡ some ps) × (any (has_id r.heap id) ps ≡ true)
  Sees (add id u w) (loaded cur) r = list_backends r ≡ cur
  Sees (remove id) (loaded cur) r = (r.backends ≡ some cur) × (any (has_id r.heap id) cur ≡ true)
  Sees c (stored x) r = Unit
  Sees c (finished x) r = Unit
  Sees c crashed r = Unit

  pub outside-Sees : (c : Call Url) (pc : Pc) (r : Registry Url) → (IsInside pc → ⊥) → Sees c pc r
  outside-Sees c waiting r out = tt
  outside-Sees c locked r out = tt
  outside-Sees (add id u w) confirmed r out = tt
  outside-Sees (remove id) confirmed r out = absurd (out tt)
  outside-Sees (add id u w) (loaded cur) r out = absurd (out tt)
  outside-Sees (remove id) (loaded cur) r out = absurd (out tt)
  outside-Sees c (stored x) r out = tt
  outside-Sees c (finished x) r out = tt
  outside-Sees c crashed r out = tt

module _ {Url : Type 0} (urls : UrlLib Url) (calls : ℕ → Call Url) where
  -- The history, with every call as one step, leads from the one registry to the other.
  abbrev pub Explains : Registry Url → List Entry → Registry Url → Type 0
  Explains r₀ [] r = r ≡ r₀
  Explains r₀ (committed t x ∷ h) r =
      (r₁ : Registry Url) × Explains r₀ h r₁ × (atomic urls (calls t) r₁ ≡ done (r, x))
  Explains r₀ (flagged p v ∷ h) r =
      (r₁ : Registry Url) × Explains r₀ h r₁ × (r ≡ with_heap r₁ (set_healthy r₁.heap p v))
  Explains r₀ (counted p d ∷ h) r =
      (r₁ : Registry Url) × Explains r₀ h r₁ × (r ≡ with_heap r₁ (add_connections r₁.heap p d))

  pub record IsLinear (r₀ : Registry Url) (s : Writers Url) : Type 0 where
    pub explained : Explains r₀ s.history s.registry
    pub held : (q : ℕ) → IsInside (s.pc q) → s.holder ≡ some q
    pub sees : (q : ℕ) → Sees (calls q) (s.pc q) s.registry
    pub once : (q : ℕ) → commits q s.history ≡ given (s.pc q)

  -- While one goroutine is inside, the others are not.
  alone :
      (r₀ : Registry Url) (s : Writers Url) (t q : ℕ)
      → IsLinear r₀ s
      → IsInside (s.pc t)
      → t ≢ q
      → IsInside (s.pc q)
      → ⊥
  alone r₀ s t q inv inside ne j =
      let both : some t ≡ some q = sym (inv.held t inside) ∙ inv.held q j in ne cc

  pub move-IsLinear :
      (r₀ : Registry Url) (s : Writers Url) (t : ℕ) (v : Pc)
      → IsLinear r₀ s
      → IsInside (s.pc t)
      → Sees (calls t) v s.registry
      → given v ≡ given (s.pc t)
      → IsLinear r₀ (move t v s)
  move-IsLinear r₀ s t v inv inside own same = record {
    explained = inv.explained;
    held =
        set_pc-all (λ q pc. IsInside pc → s.holder ≡ some q) s.pc t v (λ i. inv.held t inside)
          (λ q ne. inv.held q);
    sees = set_pc-all (λ q pc. Sees (calls q) pc s.registry) s.pc t v own (λ q ne. inv.sees q);
    once =
        set_pc-all (λ q pc. commits q s.history ≡ given pc) s.pc t v (inv.once t ∙ sym same)
          (λ q ne. inv.once q);
  }

  lock_taken : (s : Writers Url) (t q : ℕ) → s.holder ≡ some q → lock t s ≡ s
  lock_taken s t q e =
      ap
        (λ (o : Option ℕ). elim o [
          | none ↦ record s { holder = some t; pc = set_pc s.pc t locked }
          | some p ↦ s
        ])
        e

  pub lock-IsLinear :
      (r₀ : Registry Url) (s : Writers Url) (t : ℕ)
      → IsLinear r₀ s
      → given (s.pc t) ≡ []
      → IsLinear r₀ (lock t s)
  lock-IsLinear r₀ s t inv idle = elim (Option-cases s.holder) [
    | inr (q, e) ↦ subst (IsLinear r₀) (sym (lock_taken s t q e)) inv
    | inl e ↦ rw e (record {
      explained = inv.explained;
      held =
          set_pc-all (λ q pc. IsInside pc → some t ≡ some q) s.pc t locked (λ i. refl)
            (λ q ne i. let two = inv.held q i in cc);
      sees =
          set_pc-all (λ q pc. Sees (calls q) pc s.registry) s.pc t locked tt (λ q ne. inv.sees q);
      once =
          set_pc-all (λ q pc. commits q s.history ≡ given pc) s.pc t locked (inv.once t ∙ idle)
            (λ q ne. inv.once q);
    })
  ]

  pub unlock-IsLinear :
      (r₀ : Registry Url) (s : Writers Url) (t : ℕ) (v : Pc)
      → IsLinear r₀ s
      → IsInside (s.pc t)
      → (IsInside v → ⊥)
      → given v ≡ given (s.pc t)
      → IsLinear r₀ (unlock t v s)
  unlock-IsLinear r₀ s t v inv inside out same = record {
    explained = inv.explained;
    held =
        set_pc-all (λ q pc. IsInside pc → none ≡ some q) s.pc t v (λ i. absurd (out i))
          (λ q ne i. absurd (alone r₀ s t q inv inside ne i));
    sees =
        set_pc-all (λ q pc. Sees (calls q) pc s.registry) s.pc t v
          (outside-Sees (calls t) v s.registry out) (λ q ne. inv.sees q);
    once =
        set_pc-all (λ q pc. commits q s.history ≡ given pc) s.pc t v (inv.once t ∙ sym same)
          (λ q ne. inv.once q);
  }

  pub commit-IsLinear :
      (r₀ : Registry Url) (s : Writers Url) (t : ℕ) (x : Result) (r : Registry Url)
      → IsLinear r₀ s
      → IsInside (s.pc t)
      → given (s.pc t) ≡ []
      → atomic urls (calls t) s.registry ≡ done (r, x)
      → IsLinear r₀ (commit t x r s)
  commit-IsLinear r₀ s t x r inv inside idle whole = record {
    explained = (s.registry, inv.explained, whole);
    held =
        set_pc-all (λ q pc. IsInside pc → s.holder ≡ some q) s.pc t (stored x)
          (λ i. inv.held t inside) (λ q ne. inv.held q);
    sees =
        set_pc-all (λ q pc. Sees (calls q) pc r) s.pc t (stored x) tt
          (λ q ne. outside-Sees (calls q) (s.pc q) r (alone r₀ s t q inv inside ne));
    once =
        set_pc-all (λ q pc. commits q (committed t x ∷ s.history) ≡ given pc) s.pc t (stored x)
          (ground (arith, inv.once t ∙ idle)) (λ q ne. ground (arith, inv.once q));
  }
