-- ===== src/Bootstrap/Shutdown/Servers.antt =====
-- internal/bootstrap/server.go: the servers that have been started, and their goroutines.
use mathlib.Core.Path.{subst}
use golancer.Prelude.{
  ℕ, zero, suc, ◌+◌, ◌≡◌, refl, Bool, true, false, some, List, [], ◌∷◌, ◌++◌, All, get_elem?,
  length, arith, if◌then◌else◌,
}
use golancer.Bootstrap.Shutdown.{
  Drain, awaiting, draining, ended, Listener, opening, listening, stopped, Serving, serving,
  ServerEvent, listen, fail, accept, finish, shut_down, drained, expire, close, Effect, goes_on,
  returns, fatal, is_awaiting, is_stopped, server_step, replace,
}

abbrev is_over : Drain → Bool
is_over awaiting = false
is_over draining = false
is_over (ended b) = true

-- The goroutines of a server that have not returned.
abbrev pub goroutines : Serving → ℕ
goroutines (serving d l n) = (if is_over d then 0 else 1) + (if is_stopped l then 0 else 1)

abbrev pub has_drained : Drain → Bool
has_drained awaiting = false
has_drained draining = false
has_drained (ended b) = b

abbrev pub IsSound : Bool → Serving → Type 0
IsSound signalled (serving d l n) =
    (is_awaiting d ≡ true → is_stopped l ≡ false)
    × (is_awaiting d ≡ false → signalled ≡ true)
    × (has_drained d ≡ true → n ≡ 0)

-- What an effect leaves of a server that had `k` goroutines.
abbrev pub Leaves : Bool → ℕ → Effect → Type 0
Leaves signalled k (goes_on s) = IsSound signalled s × (goroutines s ≡ k)
Leaves signalled k (returns s) = IsSound signalled s × (suc (goroutines s) ≡ k)
Leaves signalled k fatal = Unit

pub server_step-Leaves :
    (b : Bool) (e : ServerEvent) (d : Drain) (l : Listener) (n : ℕ)
    → IsSound b (serving d l n)
    → Leaves b (goroutines (serving d l n)) (server_step b e (serving d l n))
unfolding server_step
server_step-Leaves b listen d opening n h = ground arith
server_step-Leaves b listen d listening n h = ground arith
server_step-Leaves b listen d stopped n h = ground arith
server_step-Leaves b fail d l n h = ground arith
server_step-Leaves b accept d l n h = ground arith
server_step-Leaves b finish d l n h = ground arith
server_step-Leaves true shut_down awaiting l n h = ground arith
server_step-Leaves false shut_down awaiting l n h = ground arith
server_step-Leaves b shut_down draining l n h = ground arith
server_step-Leaves b shut_down (ended c) l n h = ground arith
server_step-Leaves b drained d l n h = ground arith
server_step-Leaves b expire d l n h = ground arith
server_step-Leaves b close d l n h = ground arith

-- The goroutines of all servers that have not returned.
unfoldable pub total : List Serving → ℕ
total [] = 0
total (s ∷ ss) = goroutines s + total ss

module _ (s s' : Serving) where
  pub total-replace :
      (ss : List Serving) (i : ℕ)
      → get_elem? ss i ≡ some s
      → total (replace i s' ss) + goroutines s ≡ total ss + goroutines s'
  unfolding total
  total-replace [] i e = cc
  total-replace (x ∷ xs) zero e = let same : x ≡ s = cc in rw same (omega arith)
  total-replace (x ∷ xs) (suc i) e = omega (arith, total-replace xs i e)

  pub get_elem?-replace :
      (ss : List Serving) (i : ℕ)
      → get_elem? ss i ≡ some s
      → get_elem? (replace i s' ss) i ≡ some s'
  get_elem?-replace [] i e = cc
  get_elem?-replace (x ∷ xs) zero e = refl
  get_elem?-replace (x ∷ xs) (suc i) e = get_elem?-replace xs i e

pub length-replace : (ss : List Serving) (i : ℕ) (s : Serving) → length (replace i s ss) ≡ length ss
length-replace [] i s = refl
length-replace (x ∷ xs) zero s = refl
length-replace (x ∷ xs) (suc i) s = omega (arith, length-replace xs i s)

pub All-replace :
    (P : Serving → Type 0) (ss : List Serving) (i : ℕ) (s : Serving)
    → P s
    → All P ss
    → All P (replace i s ss)
All-replace P [] i s h hs = tt
All-replace P (x ∷ xs) zero s h hs = (h, hs.1)
All-replace P (x ∷ xs) (suc i) s h hs = (hs.0, All-replace P xs i s h hs.1)

pub All-get_elem? :
    (P : Serving → Type 0) (ss : List Serving) (i : ℕ) (s : Serving)
    → All P ss
    → get_elem? ss i ≡ some s
    → P s
All-get_elem? P [] i s hs e = cc
All-get_elem? P (x ∷ xs) zero s hs e = let same : x ≡ s = cc in subst P same hs.0
All-get_elem? P (x ∷ xs) (suc i) s hs e = All-get_elem? P xs i s hs.1 e

pub total-append : (xs ys : List Serving) → total (xs ++ ys) ≡ total xs + total ys
unfolding total
total-append [] ys = omega arith
total-append (x ∷ xs) ys = omega (arith, total-append xs ys)
