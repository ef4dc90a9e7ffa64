-- ===== src/Bootstrap/Shutdown.antt =====
-- internal/bootstrap/server.go and runner.go: from the first listener to the end of `Run`, in the
-- steps between which the goroutines of the servers, their clients and a signal may come.
pub mod Servers
pub mod Drained
pub mod Forced
pub mod Ending
use golancer.Prelude.{
  ℕ, zero, suc, ◌+◌, ◌-◌, Bool, true, false, not, ◌&&◌, ◌==◌, Option, none, some, List, [], ◌∷◌,
  ◌++◌, get_elem?, if◌then◌else◌,
}

-- The goroutine of `startServer` that shuts a server down: before `<-ctx.Done()` has returned; in
-- `Shutdown`; and returned, after the requests had drained or at the deadline of ten seconds.
pub data Drain : Type 0 where
  awaiting draining : Drain
  ended : Bool → Drain

-- The goroutine of `startServer` that listens: before `ListenAndServe` listens, in it, returned.
pub data Listener : Type 0 where
  opening listening stopped : Listener

-- A started server, with the number of its connections that are not idle.
pub data Serving : Type 0 where
  serving : Drain → Listener → ℕ → Serving

-- What happens to a server: it begins to listen, it fails, a connection is accepted, a request is
-- answered, the signal reaches it, `Shutdown` returns, at the end or at the deadline, and
-- `ListenAndServe` returns with `ErrServerClosed`.
pub data ServerEvent : Type 0 where
  listen fail accept finish shut_down drained expire close : ServerEvent

-- What an event makes of a server: one of its goroutines returns, or the process exits.
pub data Effect : Type 0 where
  goes_on returns : Serving → Effect
  fatal : Effect

abbrev pub is_awaiting : Drain → Bool
is_awaiting awaiting = true
is_awaiting draining = false
is_awaiting (ended b) = false

abbrev pub is_draining : Drain → Bool
is_draining awaiting = false
is_draining draining = true
is_draining (ended b) = false

abbrev pub is_listening : Listener → Bool
is_listening opening = false
is_listening listening = true
is_listening stopped = false

abbrev pub is_stopped : Listener → Bool
is_stopped opening = false
is_stopped listening = false
is_stopped stopped = true

-- `<-ctx.Done()`
abbrev pub receive_done : Bool → Drain → Drain
receive_done true awaiting = draining
receive_done false awaiting = awaiting
receive_done signalled draining = draining
receive_done signalled (ended b) = ended b

-- `ListenAndServe` begins: it returns at once where `Shutdown` has been called.
abbrev pub begin_listening : Drain → Listener → ℕ → Effect
begin_listening d opening n =
    if is_awaiting d then goes_on (serving d listening n) else returns (serving d stopped n)
begin_listening d listening n = goes_on (serving d listening n)
begin_listening d stopped n = goes_on (serving d stopped n)

-- One step of the goroutines of `startServer`. An event that cannot happen changes nothing.
unfoldable pub server_step : Bool → ServerEvent → Serving → Effect
server_step signalled listen (serving d l n) = begin_listening d l n
server_step signalled fail (serving d l n) =
    if is_awaiting d && not (is_stopped l) then fatal else goes_on (serving d l n)
server_step signalled accept (serving d l n) =
    goes_on (serving d l (if is_awaiting d && is_listening l then suc n else n))
server_step signalled finish (serving d l n) = goes_on (serving d l (n - 1))
server_step signalled shut_down (serving d l n) = goes_on (serving (receive_done signalled d) l n)
server_step signalled drained (serving d l n) =
    if is_draining d && n == 0 then returns (serving (ended true) l n) else goes_on (serving d l n)
server_step signalled expire (serving d l n) =
    if is_draining d then returns (serving (ended false) l n) else goes_on (serving d l n)
server_step signalled close (serving d l n) =
    if is_listening l && not (is_awaiting d)
    then returns (serving d stopped n)
    else goes_on (serving d l n)

-- `Run` is still there, has returned, or was ended by `log.Fatalf`.
pub data Exit : Type 0 where
  running returned failed : Exit

-- `Run` after its context: the signal, the servers that it has yet to start, those that it has
-- started, and the counter of its WaitGroup.
pub record Process : Type 0 where
  pub signalled : Bool
  pub to_start : ℕ
  pub servers : List Serving
  pub wg : ℕ
  pub exit : Exit

-- A signal, a step of `Run` itself, or an event at one of the servers, by its position.
pub data Event : Type 0 where
  signal main : Event
  at : ℕ → ServerEvent → Event

-- `startServer`: two goroutines more, which the WaitGroup counts.
abbrev pub start_server : Process → Process
start_server p = record p { servers = p.servers ++ serving awaiting opening 0 ∷ []; wg = p.wg + 2 }

-- `Run` starts the next server; behind the last one, `wg.Wait` returns once the counter is 0.
abbrev pub main_step : ℕ → Process → Process
main_step (suc n) p = start_server (record p { to_start = n })
main_step zero p = if p.wg == 0 then record p { exit = returned } else p

abbrev pub replace : ℕ → Serving → List Serving → List Serving
replace i s [] = []
replace zero s (x ∷ xs) = s ∷ xs
replace (suc i) s (x ∷ xs) = x ∷ replace i s xs

-- A goroutine that returns calls `wg.Done`.
abbrev pub take_effect : ℕ → Effect → Process → Process
take_effect i (goes_on s) p = record p { servers = replace i s p.servers }
take_effect i (returns s) p = record p { servers = replace i s p.servers; wg = p.wg - 1 }
take_effect i fatal p = record p { exit = failed }

abbrev pub at_server : ℕ → ServerEvent → Option Serving → Process → Process
at_server i e none p = p
at_server i e (some s) p = take_effect i (server_step p.signalled e s) p

abbrev pub alive_step : Event → Process → Process
alive_step signal p = record p { signalled = true }
alive_step main p = main_step p.to_start p
alive_step (at i e) p = at_server i e (get_elem? p.servers i) p

-- Nothing happens in a process that has ended.
abbrev pub process_step : Exit → Event → Process → Process
process_step running e p = alive_step e p
process_step returned e p = p
process_step failed e p = p

-- A schedule, the first event first.
unfoldable pub run_until : List Event → Process → Process
run_until [] p = p
run_until (e ∷ es) p = run_until es (process_step p.exit e p)

-- `Run` when its context is there and `n` servers are to be started.
abbrev pub fresh_process : ℕ → Process
fresh_process n = record { signalled = false; to_start = n; servers = []; wg = 0; exit = running }
