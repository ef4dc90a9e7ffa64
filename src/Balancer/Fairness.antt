-- ===== src/Balancer/Fairness.antt =====
-- internal/balancer/round_robin.go: consecutive calls while every backend is healthy, and the scan
-- at the end of the counter's range.
use golancer.Prelude.{ℕ, zero, suc, ◌-◌, ◌^◌, ◌≡◌, true, false, Option, none, List, [], ◌∷◌}
use golancer.Prelude.Run.{Run, done, ◌>>=◌}
use golancer.Domain.{Heap, Ptr, healthy}
use golancer.Registry.{Registry, new_registry}
use golancer.Balancer.{scan, round_robin}

module _ {Url : Type 0} where
  -- `k` calls of `GetServer`, one after the other, on a registry that stays as it is.
  unfoldable pub calls : Registry Url → ℕ → ℕ → Run (List (Option Ptr))
  calls r zero current = done []
  calls r (suc k) current = round_robin r current >>= λ (c, o). calls r k c >>= λ os. done (o ∷ os)

  -- Where the counter stands at its last value and of three registered backends only the third is
  -- healthy, the index wraps in uint32 and GetServer reports that no backend is available.
  pub round_robin_wrap :
      (h : Heap Url) (a b c : Ptr)
      → healthy h a ≡ false
      → healthy h b ≡ false
      → healthy h c ≡ true
      → round_robin (new_registry h (a ∷ b ∷ c ∷ [])) (2 ^ 32 - 1) ≡ done (0, none)
  unfolding round_robin scan
  round_robin_wrap h a b c da db uc = rw (da, db)
