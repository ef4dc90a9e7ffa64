-- ===== src/Runner.antt =====
-- scripts/run/main.go: the development runner, which frees the ports, starts the simulated servers, the
-- balancer and the traffic, and waits for them.
pub mod Outcome
pub mod Killed
mod Tests
use Prim.Native.String.{◌++◌ as text_append}
use golancer.Prelude.{
  ℕ, zero, suc, String, Bool, true, false, not, ◌&&◌, ◌||◌, Option, none, some, List, [], ◌∷◌, ◌++◌,
  ◌==◌, if◌then◌else◌,
}
use golancer.Prelude.Int.{ℤ, pos}
use golancer.Simulator.{port_pids, free_port}

-- The processes, by what `main` numbers them with.
pub data Process : Type 0 where
  server traffic : ℕ → Process
  proxy : Process

-- The command of a process; `itoa` is the format %d.
abbrev pub command : (ℕ → String) → Process → List String
command itoa (server id) =
    "go" ∷ "run" ∷ "scripts/simulate_server/main.go" ∷ text_append "-id=" (itoa id) ∷ []
command itoa proxy = "go" ∷ "run" ∷ "./cmd/balancer" ∷ "--config" ∷ "config.local.yaml" ∷ []
command itoa (traffic id) = "go" ∷ "run" ∷ "scripts/simulate_traffic/main.go" ∷ []

abbrev pub same_process : Process → Process → Bool
same_process (server i) (server j) = i == j
same_process (server i) (traffic j) = false
same_process (server i) proxy = false
same_process (traffic i) (server j) = false
same_process (traffic i) (traffic j) = i == j
same_process (traffic i) proxy = false
same_process proxy (server j) = false
same_process proxy (traffic j) = false
same_process proxy proxy = true

-- An interrupt, or the end of a process: `cmd.Run` gives an error or none.
pub data Event : Type 0 where
  interrupt : Event
  exits : Process → Bool → Event

-- The group of `errgroup.WithContext`: whether its context has ended, what runs, and whose error was
-- the first.
pub record Group : Type 0 where
  pub cancelled : Bool
  pub running : List Process
  pub error : Option Process

abbrev pub fresh_group : Group
fresh_group = record { cancelled = false; running = []; error = none }

-- `g.Go`
abbrev pub go : Process → Group → Group
go p g = record g { running = p ∷ g.running }

abbrev pub go_all : List Process → Group → Group
go_all [] g = g
go_all (p ∷ ps) g = go_all ps (go p g)

abbrev pub is_running : Process → List Process → Bool
is_running p [] = false
is_running p (q ∷ qs) = if same_process q p then true else is_running p qs

abbrev pub stop : Process → List Process → List Process
stop p [] = []
stop p (q ∷ qs) = if same_process q p then qs else q ∷ stop p qs

-- `runProcess`: whether it returns an error, by the one of `cmd.Run` and by `ctx.Err`.
abbrev pub run_process : Bool → Bool → Bool
run_process failed cancelled = failed && not cancelled

-- A function of the group returns: its error, if it is the first, cancels the context.
abbrev pub first_error : Option Process → Process → Option Process
first_error none p = some p
first_error (some q) p = some q

abbrev pub return_from : Process → Bool → Group → Group
return_from p false g = record g { running = stop p g.running }
return_from p true g = record {
  cancelled = true;
  running = stop p g.running;
  error = first_error g.error p;
}

abbrev pub happen : Event → Group → Group
happen interrupt g = record g { cancelled = true }
happen (exits p failed) g =
    if is_running p g.running then return_from p (run_process failed g.cancelled) g else g

unfoldable pub happen_all : List Event → Group → Group
happen_all [] g = g
happen_all (e ∷ es) g = happen_all es (happen e g)

-- How `main` ends: it returns early at `ctx.Done`, it still waits, or `g.Wait` has returned an error
-- or none and the last lines have logged it or not.
pub data End : Type 0 where
  early : List Process → End
  waiting : Group → End
  waited : Option Process → Bool → End

-- `g.Wait` returns when nothing runs, and ends the context; then `main` logs an error that is there
-- while the context has not ended.
abbrev pub is_some : Option Process → Bool
is_some none = false
is_some (some p) = true

abbrev pub wait : List Process → Group → End
wait [] g =
    let after : Group = record g { cancelled = true } in
    waited after.error (is_some after.error && not after.cancelled)
wait (p ∷ ps) g = waiting g

abbrev pub traffics : ℕ → List Process
traffics zero = []
traffics (suc n) = traffics n ++ traffic (suc n) ∷ []

-- `main` behind the ports: what happens until the `select`, whether that takes its timer, and what
-- happens afterwards.
unfoldable pub run_main : List Event → Bool → List Event → End
run_main before timer later =
    let g = happen_all before (go_all (server 1 ∷ server 2 ∷ server 3 ∷ proxy ∷ []) fresh_group) in
    if g.cancelled && not timer
    then early g.running
    else let g' = happen_all later (go_all (traffics 10) g) in wait g'.running g'

-- `freePort` of the runner on a port, with `portPIDs`: what it tries to kill.
unfoldable pub free_runner_port :
    Bool
    → (ℤ → String)
    → (List ℤ → List ℤ)
    → ℤ
    → (ℤ → Bool)
    → (ℤ → Bool)
    → Option String
    → ℤ
    → List (ℤ × Bool)
free_runner_port windows itoa order self finds kills output port =
    free_port self finds kills (port_pids windows itoa order output port)

-- What `main` tries to kill before it starts anything, by what the lookup tool prints for a port.
abbrev pub free_ports :
    Bool
    → (ℤ → String)
    → (List ℤ → List ℤ)
    → ℤ
    → (ℤ → Bool)
    → (ℤ → Bool)
    → (ℤ → Option String)
    → List (ℤ × Bool)
free_ports windows itoa order self finds kills output =
    free_runner_port windows itoa order self finds kills (output (pos 8080)) (pos 8080)
    ++ free_runner_port windows itoa order self finds kills (output (pos 8081)) (pos 8081)
