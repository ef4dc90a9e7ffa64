-- ===== src/Runner/Killed.antt =====
-- scripts/run/main.go, freePort and portPIDs: what the runner does to the processes on its ports.
use golancer.Prelude.{◌≡◌, ap, ◌∙◌, ℕ, String, Bool, false, not, some, List, All, map, keep, ◌&&◌}
use golancer.Prelude.Int.{ℤ, pos, eqb_ℤ}
use golancer.Simulator.{free_port}
use golancer.Simulator.Pids.{print_pids, IsPid, port_pids-print_pids, free_port-map}
use golancer.Runner.{free_runner_port}

-- Where lsof prints process IDs below 2 ^ 31 in decimal, one to a line, freePort of the runner
-- calls Kill on exactly these, in the same order, except for the runner itself and what FindProcess
-- does not find, and it goes on after a Kill that fails.
pub free_runner_port-print_pids :
    (itoa : ℤ → String) (order : List ℤ → List ℤ) (self : ℤ) (finds kills : ℤ → Bool) (port : ℤ)
    (pids : List ℕ)
    → All IsPid pids
    → free_runner_port false itoa order self finds kills (some (print_pids pids)) port
      ≡ map
          (λ pid. (pid, kills pid))
          (keep (λ pid. not (eqb_ℤ pid self) && finds pid) (map pos pids))
unfolding free_runner_port
free_runner_port-print_pids itoa order self finds kills port pids ok =
    ap (free_port self finds kills) (port_pids-print_pids itoa order port pids ok)
    ∙ free_port-map self finds kills (map pos pids)
