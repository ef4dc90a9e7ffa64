-- ===== src/Bootstrap/Shutdown/Drained.antt =====
-- internal/bootstrap/server.go: what the shutdown waits for.
use golancer.Prelude.{
  ℕ, zero, suc, ◌+◌, ◌<◌, ◌≡◌, refl, Bool, true, false, ◌==◌, Bool-cases, Option, none, some, List,
  [], ◌∷◌, All, All-append, All-map, get_elem?, length, length-append, arith, ◌⊎◌, inl, inr,
}
use golancer.Bootstrap.Shutdown.{
  awaiting, draining, ended, opening, listening, stopped, Serving, serving, ServerEvent, Effect,
  goes_on, returns, fatal, server_step, Event, signal, main, at, Exit, running, returned, failed,
  Process, main_step, take_effect, at_server, alive_step, process_step, run_until, fresh_process,
}
use golancer.Bootstrap.Shutdown.Servers.{
  goroutines, IsSound, Leaves, server_step-Leaves, total, total-replace, length-replace,
  All-replace, All-get_elem?, total-append,
}

-- What holds of a process that was to start `n` servers.
pub record IsSteady (n : ℕ) (p : Process) : Type 0 where
  pub sound : All (IsSound p.signalled) p.servers
  pub counted : p.wg ≡ total p.servers
  pub all : length p.servers + p.to_start ≡ n
  pub over : p.exit ≡ returned → (p.wg ≡ 0) × (p.to_start ≡ 0)

take_effect-IsSteady :
    (n i : ℕ) (p : Process) (s : Serving) (w : Effect)
    → IsSteady n p
    → p.exit ≡ running
    → get_elem? p.servers i ≡ some s
    → Leaves p.signalled (goroutines s) w
    → IsSteady n (take_effect i w p)
take_effect-IsSteady n i p s (goes_on s') h r e k = record {
  sound = All-replace (IsSound p.signalled) p.servers i s' k.0 h.sound;
  counted = omega (arith, h.counted, total-replace s s' p.servers i e, k.1);
  all = omega (arith, h.all, length-replace p.servers i s');
  over = λ x. cc;
}
take_effect-IsSteady n i p s (returns s') h r e k = record {
  sound = All-replace (IsSound p.signalled) p.servers i s' k.0 h.sound;
  counted = omega (arith, h.counted, total-replace s s' p.servers i e, k.1);
  all = omega (arith, h.all, length-replace p.servers i s');
  over = λ x. cc;
}
take_effect-IsSteady n i p s fatal h r e k = record {
  sound = h.sound;
  counted = h.counted;
  all = h.all;
  over = λ x. cc;
}

at_server-IsSteady :
    (n i : ℕ) (e : ServerEvent) (p : Process) (o : Option Serving)
    → IsSteady n p
    → p.exit ≡ running
    → get_elem? p.servers i ≡ o
    → IsSteady n (at_server i e o p)
at_server-IsSteady n i e p none h r q = h
at_server-IsSteady n i e p (some (serving d l k)) h r q =
    take_effect-IsSteady n i p (serving d l k) (server_step p.signalled e (serving d l k)) h r q (
      server_step-Leaves p.signalled e d l k
        (All-get_elem? (IsSound p.signalled) p.servers i (serving d l k) h.sound q))

signal-IsSound : (b : Bool) (s : Serving) → IsSound b s → IsSound true s
signal-IsSound b (serving d l n) h = (h.0, (λ x. refl), h.2)

main_step-IsSteady :
    (n m : ℕ) (p : Process)
    → IsSteady n p
    → p.exit ≡ running
    → p.to_start ≡ m
    → IsSteady n (main_step m p)
unfolding total
main_step-IsSteady n zero p h r e = elim (Bool-cases (p.wg == 0)) [
  | inl z ↦
      rw z (record {
        sound = h.sound;
        counted = h.counted;
        all = h.all;
        over = λ x. (ground arith, e);
      })
  | inr z ↦ rw z h
]
main_step-IsSteady n (suc m) p h r e = record {
  sound =
      All-append (IsSound p.signalled) p.servers (serving awaiting opening 0 ∷ []) h.sound
        (((λ x. refl), (λ x. cc), (λ x. cc)), tt);
  counted = omega (arith, h.counted, total-append p.servers (serving awaiting opening 0 ∷ []));
  all = omega (arith, h.all, e, length-append p.servers (serving awaiting opening 0 ∷ []));
  over = λ x. cc;
}

pub alive_step-IsSteady :
    (n : ℕ) (e : Event) (p : Process)
    → IsSteady n p
    → p.exit ≡ running
    → IsSteady n (alive_step e p)
alive_step-IsSteady n signal p h r = record {
  sound =
      All-map (IsSound p.signalled) (IsSound true) (signal-IsSound p.signalled) p.servers h.sound;
  counted = h.counted;
  all = h.all;
  over = h.over;
}
alive_step-IsSteady n main p h r = main_step-IsSteady n p.to_start p h r refl
alive_step-IsSteady n (at i e) p h r = at_server-IsSteady n i e p (get_elem? p.servers i) h r refl

process_step-IsSteady :
    (n : ℕ) (x : Exit) (e : Event) (p : Process)
    → p.exit ≡ x
    → IsSteady n p
    → IsSteady n (process_step x e p)
process_step-IsSteady n running e p r h = alive_step-IsSteady n e p h r
process_step-IsSteady n returned e p r h = h
process_step-IsSteady n failed e p r h = h

pub run_until-IsSteady :
    (n : ℕ) (es : List Event) (p : Process) → IsSteady n p → IsSteady n (run_until es p)
unfolding run_until
run_until-IsSteady n [] p h = h
run_until-IsSteady n (e ∷ es) p h =
    run_until-IsSteady n es (process_step p.exit e p) (process_step-IsSteady n p.exit e p refl h)

pub fresh_process-IsSteady : (n : ℕ) → IsSteady n (fresh_process n)
unfolding total
fresh_process-IsSteady n = record { sound = tt; counted = refl; all = omega arith; over = λ x. cc }

-- A server of which both goroutines have returned.
abbrev pub HasEnded : Serving → Type 0
HasEnded (serving d l n) = (l ≡ stopped) × (((d ≡ ended true) × (n ≡ 0)) ⊎ (d ≡ ended false))

ended_lem : (b : Bool) (s : Serving) → IsSound b s → goroutines s ≡ 0 → HasEnded s
ended_lem b (serving (ended true) stopped n) h z = (refl, inl (refl, h.2 refl))
ended_lem b (serving (ended false) stopped n) h z = (refl, inr refl)
ended_lem b (serving (ended c) opening n) h z = absurd (omega arith)
ended_lem b (serving (ended c) listening n) h z = absurd (omega arith)
ended_lem b (serving awaiting l n) h z = absurd (omega arith)
ended_lem b (serving draining l n) h z = absurd (omega arith)

over_lem : (b : Bool) (ss : List Serving) → All (IsSound b) ss → total ss ≡ 0 → All HasEnded ss
unfolding total
over_lem b [] h z = tt
over_lem b (s ∷ ss) h z = (ended_lem b s h.0 (omega arith), over_lem b ss h.1 (omega arith))

signalled_lem :
    (b : Bool) (ss : List Serving) → All (IsSound b) ss → total ss ≡ 0 → 0 < length ss → b ≡ true
unfolding total
signalled_lem b [] h z lt = absurd (omega arith)
signalled_lem b (serving d l n ∷ ss) h z lt = h.0.1 (ground arith)

-- If at least one server was to be started, then whatever happens, Run returns only after the
-- signal, with all servers started, and of each the listener has stopped, and no connection is busy
-- or the drain has timed out.
pub run_until-drained :
    (n : ℕ) (es : List Event)
    → 0 < n
    → let p = run_until es (fresh_process n) in
      p.exit ≡ returned → (p.signalled ≡ true) × (length p.servers ≡ n) × All HasEnded p.servers
run_until-drained n es pos_n x =
    let p = run_until es (fresh_process n) in
    let h = run_until-IsSteady n es (fresh_process n) (fresh_process-IsSteady n) in
    let (wg, started) = h.over x in
    let over : total p.servers ≡ 0 = omega (arith, wg, h.counted) in
    let full : length p.servers ≡ n = omega (arith, started, h.all) in
    (
      signalled_lem p.signalled p.servers h.sound over (omega (arith, full, pos_n)),
      full,
      over_lem p.signalled p.servers h.sound over,
    )
