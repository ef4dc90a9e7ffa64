-- ===== src/Runner/Tests.antt =====
-- scripts/run/main.go: runs of the runner.
use golancer.Prelude.{arith, not, ◌≡◌, refl, true, false, some, List, [], ◌∷◌, ◌++◌, map}
use golancer.Prelude.Int.{pos, eqb_ℤ}
use golancer.Simulator.Pids.{print_pids}
use golancer.Runner.{
  server, traffic, proxy, Event, exits, waited, run_main, happen_all, free_runner_port,
}
use golancer.Runner.Outcome.{IsSilent, run_main-IsSilent}
use golancer.Runner.Killed.{free_runner_port-print_pids}

-- The balancer fails, and with the context all other processes end.
abbrev failing : List Event
failing =
    exits (traffic 1) false
    ∷ exits proxy true
    ∷ map (λ p. exits p true)
        (server 1
          ∷ server 2
          ∷ server 3
          ∷ traffic 2
          ∷ traffic 3
          ∷ traffic 4
          ∷ traffic 5
          ∷ traffic 6
          ∷ traffic 7
          ∷ traffic 8
          ∷ traffic 9
          ∷ traffic 10
          ∷ [])

failing_lem : run_main [] true failing ≡ waited (some proxy) false
unfolding run_main happen_all
failing_lem = refl

run_main-IsSilent_example : IsSilent ([] ++ failing) (run_main [] true failing)
run_main-IsSilent_example = run_main-IsSilent [] true failing

-- The process 41 resists, and 57 is the runner itself.
free_runner_port-print_pids_example :
    free_runner_port false
      (λ p. "8080")
      (λ pids. pids)
      (pos 57)
      (λ pid. true)
      (λ pid. not (eqb_ℤ pid (pos 41)))
      (some (print_pids (41 ∷ 57 ∷ 60123 ∷ [])))
      (pos 8080)
    ≡ (pos 41, false) ∷ (pos 60123, true) ∷ []
free_runner_port-print_pids_example =
    free_runner_port-print_pids (λ p. "8080") (λ pids. pids) (pos 57) (λ pid. true)
      (λ pid. not (eqb_ℤ pid (pos 41))) (pos 8080) (41 ∷ 57 ∷ 60123 ∷ [])
      (omega arith, (omega arith, (omega arith, tt)))
