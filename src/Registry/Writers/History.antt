-- ===== src/Registry/Writers/History.antt =====
-- internal/backend/registry.go: what is registered after any interleaving of the writers.
use mathlib.Core.Path.{subst}
use golancer.Prelude.{
  ℕ, ◌≡◌, refl, sym, ap, ◌∙◌, ◌≢◌, String, true, false, not, Option, some, inl, inr, List, [], ◌∷◌,
  ◌++◌, arith, In, In-keep_of, str_eq, str_eq_ne, Bool-cases, ◌==◌,
}
use golancer.Domain.{UrlLib}
use golancer.Registry.{Registry, registered, already_registered}
use golancer.Registry.Writers.{
  Call, add, remove, Result, added, removed, finished, Entry, committed, flagged, counted, Event,
  interleave, fresh_writers,
}
use golancer.Registry.Writers.Moves.{commits}
use golancer.Registry.Writers.Linearizable.{interleave-atomic}
use golancer.Registry.Writers.Log.{labels, effect, replay, IsAllocated, interleave-replay}

module _ {A : Type 0} where
  In-append_left : (a : A) (xs ys : List A) → In a xs → In a (xs ++ ys)
  In-append_left a [] ys i = elim i [ ]
  In-append_left a (x ∷ xs) ys (inl e) = inl e
  In-append_left a (x ∷ xs) ys (inr i) = inr (In-append_left a xs ys i)

  In-append_last : (a : A) (xs : List A) → In a (xs ++ a ∷ [])
  In-append_last a [] = inl refl
  In-append_last a (x ∷ xs) = inr (In-append_last a xs)

module _ {Url : Type 0} (calls : ℕ → Call Url) (ls : List (String × Option Url)) (id : String)
    (v : Url) (w : ℕ) (lasting : (q : ℕ) (i : String) → calls q ≡ remove i → id ≢ i) where
  effect-In :
      (c : Call Url) (x : Result) (ks : List (String × Option Url))
      → ((i : String) → c ≡ remove i → id ≢ i)
      → In (id, some v) ks
      → In (id, some v) (effect c x ks)
  effect-In (add i u n) (added (registered j)) ks other k =
      In-append_left (id, some v) ks ((i, some u) ∷ []) k
  effect-In (add i u n) (added already_registered) ks other k = k
  effect-In (add i u n) (removed found) ks other k = k
  effect-In (remove i) (added a) ks other k = k
  effect-In (remove i) (removed true) ks other k =
      In-keep_of (λ l. not (str_eq l.0 i)) ks k (rw (str_eq_ne id i (other i refl)) refl)
  effect-In (remove i) (removed false) ks other k = k

  replay-In :
      (t : ℕ) (h : List Entry)
      → calls t ≡ add id v w
      → In (added (registered id)) (commits t h)
      → In (id, some v) (replay calls ls h)
  unfolding replay
  replay-In t [] call i = elim i [ ]
  replay-In t (flagged p b ∷ h) call i = replay-In t h call i
  replay-In t (counted p d ∷ h) call i = replay-In t h call i
  replay-In t (committed q x ∷ h) call i = elim (Bool-cases (q == t)) [
    | inl e ↦
        let here : q ≡ t = ground arith in
        elim (rw e at i) as (λ _. In (id, some v) (effect (calls q) x (replay calls ls h))) [
          | inl y ↦
              let call_q : calls q ≡ add id v w = ap calls here ∙ call in
              rw (call_q, ← y) (In-append_last (id, some v) (replay calls ls h))
          | inr j ↦ effect-In (calls q) x (replay calls ls h) (lasting q) (replay-In t h call j)
        ]
    | inr e ↦ effect-In (calls q) x (replay calls ls h) (lasting q) (replay-In t h call (rw e at i))
  ]

module _ {Url : Type 0} (urls : UrlLib Url) (calls : ℕ → Call Url) (r₀ : Registry Url)
    (below : IsAllocated r₀) where
  -- Where the listed backends are allocated at first: after every schedule of the writers, with
  -- flags and counts at any time, the registered backends, by ID and URL, are in the order of the
  -- log those of the start and of the calls of AddNewBackend that took effect, less what the calls
  -- of RemoveInstanceByID removed, and no registration is lost: a backend whose call of
  -- AddNewBackend has returned its ID is registered, unless some call removes that ID.
  pub interleave-registered :
      (es : List Event)
      → let s = interleave urls calls es (fresh_writers r₀) in
        (labels s.registry ≡ replay calls (labels r₀) s.history)
        × ((t : ℕ) (id : String) (u : Url) (w : ℕ)
            → calls t ≡ add id u w
            → s.pc t ≡ finished (added (registered id))
            → ((q : ℕ) (i : String) → calls q ≡ remove i → id ≢ i)
            → In (id, some u) (labels s.registry))
  interleave-registered es =
      let s = interleave urls calls es (fresh_writers r₀) in
      let log = interleave-replay urls calls r₀ below es in
      let (_, once, _) = interleave-atomic urls calls r₀ es in
      (
        log,
        (λ t id u w call over lasting. subst (In (id, some u)) (sym log) (
            replay-In calls (labels r₀) id u w lasting t s.history call
              (rw (once t, over) (inl refl)))),
      )
