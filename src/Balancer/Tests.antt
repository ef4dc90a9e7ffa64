-- ===== src/Balancer/Tests.antt =====
-- internal/balancer: the selectors on three backends, of which the second is not healthy.
use golancer.Prelude.{
  ◌+◌, ◌-◌, ◌%◌, ◌^◌, ◌≡◌, refl, leb, String, some, none, inl, inr, [], ◌∷◌, arith, rotate,
}
use golancer.Prelude.Run.{done}
use golancer.Domain.{Heap}
use golancer.Registry.{Registry, new_registry}
use golancer.Balancer.{
  round_robin, least_connections, min_func, random, weight, fnv_32a, fnv_write, utf8,
}
use golancer.Balancer.RoundRobin.{first_healthy, round_robin-rotate}
use golancer.Balancer.Fairness.{round_robin_wrap}
use golancer.Balancer.Bands.{sum_weights, count_below}
use golancer.Balancer.Weighted.{returns, random-weighted}
use golancer.Fixtures.{cells, three}

-- The two healthy ones alone.
abbrev up_two : Registry String
up_two = new_registry three.heap (0 ∷ 2 ∷ [])

round_robin-rotate_example :
    round_robin three 4
    ≡ done ((4 + 1) % 2 ^ 32, first_healthy three.heap (rotate 1 (0 ∷ 1 ∷ 2 ∷ [])))
round_robin-rotate_example = round_robin-rotate three 4 (omega arith) (omega arith) (omega arith)

-- Only the third backend is healthy.
abbrev last_up : Heap String
last_up = record three.heap { cell = λ p. record (cells p) { healthy = leb 2 p } }

round_robin_wrap_example :
    round_robin (new_registry last_up (0 ∷ 1 ∷ 2 ∷ [])) (2 ^ 32 - 1) ≡ done (0, none)
round_robin_wrap_example = round_robin_wrap last_up 0 1 2 refl refl refl

random-weighted_example :
    count_below (sum_weights three.heap (0 ∷ 2 ∷ [])) (λ x. returns 2 (random (λ _. x) three))
    ≡ weight three.heap 2
random-weighted_example =
    random-weighted three 2 0 (2 ∷ []) refl (((λ e. cc), tt), (tt, tt))
      ((omega arith, omega arith), ((omega arith, omega arith), tt)) (omega arith) (inr (inl refl))

-- FNV-1a of the empty text and of a letter, as published.
fnv_32a_empty : fnv_32a "" ≡ 0x811c9dc5
unfolding fnv_32a fnv_write utf8
fnv_32a_empty = refl

fnv_32a_a : fnv_32a "a" ≡ 0xe40c292c
unfolding fnv_32a fnv_write utf8
fnv_32a_a = refl

-- 4 connections at weight 1 are a higher load than 6 at weight 3.
least_connections_weighted : least_connections three ≡ some 2
unfolding least_connections min_func
least_connections_weighted = refl
