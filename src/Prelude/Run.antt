-- ===== src/Prelude/Run.antt =====
-- The outcome of Go code that may panic at run time.
use mathlib.Core.Path.{◌≡◌, refl}

pub data Panic : Type 0 where
  nil_dereference index_out_of_range divide_by_zero invalid_argument : Panic

pub data Run {ℓ} (A : Type ℓ) : Type ℓ where
  done : A → Run A
  panic : Panic → Run A

infixl 5 ◌>>=◌
abbrev pub ◌>>=◌ {ℓ κ} : {A : Type ℓ} {B : Type κ} → Run A → (A → Run B) → Run B
done a >>= f = f a
panic e >>= f = panic e

-- Inversion of a bind that ended without a panic.
pub >>=-eq-done {ℓ κ} :
    {A : Type ℓ} {B : Type κ} (m : Run A) (f : A → Run B) {b : B}
    → (m >>= f) ≡ done b
    → (a : A) × (m ≡ done a) × (f a ≡ done b)
>>=-eq-done (done a) f h = (a, refl, h)
>>=-eq-done (panic e) f h = cc

-- Two results that are the same have the same parts.
pub done-pair_inj {ℓ κ} :
    {A : Type ℓ} {B : Type κ} {a a' : A} {b b' : B}
    → ◌≡◌ {A = Run (A × B)} (done (a, b)) (done (a', b'))
    → (a ≡ a') × (b ≡ b')
done-pair_inj e = (cc, cc)
