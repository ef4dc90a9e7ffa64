-- ===== src/Prober/Tests.antt =====
-- internal/health/prober.go: the default thresholds on short histories, and one recorded result.
use golancer.Prelude.{
  ℕ, String, Option, some, none, In, inr, ◌++◌, str_eq, if◌then◌else◌, ◌≡◌, refl, Bool, true, false,
  inl, List, [], ◌∷◌, arith,
}
use golancer.Prelude.Int.{pos}
use golancer.Domain.{Ptr}
use golancer.Registry.Invariant.{IsValid}
use golancer.Prober.{ProbeConfig, Prober, success, failure}
use golancer.Prober.Hysteresis.{watch, observe, verdict, watch-verdict}
use golancer.Prelude.Run.{done}
use golancer.Registry.{Registry, list_backends}
use golancer.Prober.{RunEvent, tick, with_defaults, run_prober}
use golancer.Prober.Round.{answers, Undisturbed}
use golancer.Prober.Lifetime.{history, run_prober-verdict, run_prober-settles}
use golancer.Fixtures.{text_urls, three, three-IsValid}

-- Two successes admit, three failures evict.
abbrev two_three : ProbeConfig
two_three = record {
  interval = pos 5;
  timeout = pos 2;
  path = "/healthz";
  healthy_threshold = pos 2;
  unhealthy_threshold = pos 3;
  max_concurrent = pos 0;
}

-- The newest first: admitted by two successes, and kept through two failures.
abbrev results : List Bool
results = false ∷ false ∷ true ∷ true ∷ false ∷ []

watch-verdict_example : (watch two_three false results).flag ≡ verdict 2 3 false results
watch-verdict_example =
    watch-verdict two_three 2 3 refl refl (omega arith) (omega arith) false results

watch_kept : (watch two_three false results).flag ≡ true
unfolding watch observe success failure
watch_kept = refl

watch_evicted : (watch two_three false (false ∷ results)).flag ≡ false
unfolding watch observe success failure
watch_evicted = refl

-- A success in the seeding round admits a backend before the threshold.
watch_seeded : (watch two_three true (true ∷ [])).flag ≡ true
unfolding watch observe success failure
watch_seeded = refl

-- Only the second backend answers.
abbrev get_b : String → Option ℕ
get_b s = if str_eq s "http://b" then some 200 else none

untouched : {b : Ptr} (r : Registry String) → IsValid r → In b (list_backends r) → Undisturbed b r r
untouched r v i = record { valid = v; listed = i; ids = λ q j. refl; url = refl; flag = refl }

interval_lem : (with_defaults two_three).interval ≡ pos 5
unfolding with_defaults
interval_lem = refl

up_lem : (with_defaults two_three).healthy_threshold ≡ pos 2
unfolding with_defaults
up_lem = refl

down_lem : (with_defaults two_three).unhealthy_threshold ≡ pos 3
unfolding with_defaults
down_lem = refl

abbrev silent : String → Option ℕ
silent s = none

abbrev answered_round : RunEvent String
answered_round = tick (λ r. r) get_b (λ r. r)

abbrev silent_round : RunEvent String
silent_round = tick (λ r. r) silent (λ r. r)

run_prober-verdict_example :
    let first = answers text_urls (with_defaults two_three) get_b three.heap 1 in
    (r' : Registry String) × (p' : Prober) × (run_prober text_urls two_three get_b
        (λ r. r)
        three
        (silent_round ∷ answered_round ∷ [])
      ≡ done (r', p'))
    × ((r'.heap.cell 1).healthy
        ≡ verdict 2 3 true (
            history text_urls 1
              (with_defaults two_three)
              three.heap
              (first ∷ [])
              (silent_round ∷ answered_round ∷ [])))
run_prober-verdict_example =
    run_prober-verdict text_urls 1 two_three 5 2 3 interval_lem (omega arith) up_lem down_lem
      (omega arith) (omega arith) get_b (λ r. r) three (silent_round ∷ answered_round ∷ [])
      three-IsValid (inr (inl refl)) refl untouched
      (untouched, untouched, (untouched, untouched, tt))

run_prober-settles_example :
    (r' : Registry String) × (p' : Prober) × (run_prober text_urls two_three get_b
        (λ r. r)
        three
        ((answered_round ∷ []) ++ silent_round ∷ silent_round ∷ silent_round ∷ [])
      ≡ done (r', p'))
    × ((r'.heap.cell 1).healthy ≡ false)
run_prober-settles_example =
    run_prober-settles text_urls 1 two_three 5 2 3 interval_lem (omega arith) up_lem down_lem
      (omega arith) (omega arith) get_b (λ r. r) three (answered_round ∷ [])
      (silent_round ∷ silent_round ∷ silent_round ∷ []) false three-IsValid (inr (inl refl)) refl
      untouched
      (
        untouched,
        untouched,
        (untouched, untouched, (untouched, untouched, (untouched, untouched, tt))),
      )
      tt (refl, (refl, (refl, tt))) (omega arith)
