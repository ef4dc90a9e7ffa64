-- ===== src/Bootstrap/Shutdown/Forced.antt =====
-- internal/bootstrap/server.go: how one server ends at its deadlines.
use mathlib.Core.Path.{subst}
use golancer.Prelude.{
  ℕ, zero, suc, ◌≡◌, refl, sym, ap, ◌∙◌, ◌≢◌, true, some, List, [], ◌∷◌, map, get_elem?, length,
}
use golancer.Bootstrap.Shutdown.{
  awaiting, draining, ended, opening, listening, stopped, Serving, serving, ServerEvent, listen,
  shut_down, expire, close, Effect, goes_on, returns, fatal, server_step, at, running, Process,
  replace, take_effect, at_server, process_step, run_until,
}
use golancer.Bootstrap.Shutdown.Servers.{goroutines, get_elem?-replace, length-replace}

-- What a schedule leaves as it is.
abbrev pub Runs : Process → Process → Type 0
Runs p q = (q.exit ≡ running) × (q.signalled ≡ p.signalled) × (q.to_start ≡ p.to_start)

-- The end of a server: its two goroutines return, without waiting for a connection.
abbrev pub forced : List ServerEvent
forced = listen ∷ shut_down ∷ expire ∷ close ∷ []

-- A server after an event that does not end the process.
abbrev left : Serving → Effect → Serving
left s (goes_on s') = s'
left s (returns s') = s'
left s fatal = s

abbrev IsMild : Effect → Type 0
IsMild (goes_on s) = Unit
IsMild (returns s) = Unit
IsMild fatal = ⊥

get_elem?-replace_other :
    (ss : List Serving) (i j : ℕ) (s : Serving)
    → j ≢ i
    → get_elem? (replace i s ss) j ≡ get_elem? ss j
get_elem?-replace_other [] i j s ne = refl
get_elem?-replace_other (x ∷ xs) zero zero s ne = elim (ne refl) [ ]
get_elem?-replace_other (x ∷ xs) zero (suc j) s ne = refl
get_elem?-replace_other (x ∷ xs) (suc i) zero s ne = refl
get_elem?-replace_other (x ∷ xs) (suc i) (suc j) s ne =
    get_elem?-replace_other xs i j s (λ e. ne (ap suc e))

-- The process `q` differs from `p`, which runs, in the server at `i`, which is `s` there.
pub record Turned (i : ℕ) (s : Serving) (p q : Process) : Type 0 where
  pub runs : Runs p q
  pub here : get_elem? q.servers i ≡ some s
  pub others : (j : ℕ) → j ≢ i → get_elem? q.servers j ≡ get_elem? p.servers j
  pub size : length q.servers ≡ length p.servers

take_effect-Turned :
    (i : ℕ) (s : Serving) (w : Effect) (p : Process)
    → p.exit ≡ running
    → get_elem? p.servers i ≡ some s
    → IsMild w
    → Turned i (left s w) p (take_effect i w p)
take_effect-Turned i s (goes_on s') p r g m = record {
  runs = (r, refl, refl);
  here = get_elem?-replace s s' p.servers i g;
  others = λ j ne. get_elem?-replace_other p.servers i j s' ne;
  size = length-replace p.servers i s';
}
take_effect-Turned i s (returns s') p r g m = record {
  runs = (r, refl, refl);
  here = get_elem?-replace s s' p.servers i g;
  others = λ j ne. get_elem?-replace_other p.servers i j s' ne;
  size = length-replace p.servers i s';
}
take_effect-Turned i s fatal p r g m = elim m [ ]

step_at :
    (i : ℕ) (e : ServerEvent) (s : Serving) (p : Process)
    → p.exit ≡ running
    → get_elem? p.servers i ≡ some s
    → IsMild (server_step p.signalled e s)
    → Turned i (left s (server_step p.signalled e s)) p (process_step p.exit (at i e) p)
step_at i e s p r g m =
    subst (Turned i (left s (server_step p.signalled e s)) p)
      (sym (ap (λ x. process_step x (at i e) p) r ∙ ap (λ o. at_server i e o p) g))
      (take_effect-Turned i s (server_step p.signalled e s) p r g m)

-- A server after several events, none of which ends the process.
unfoldable pub after : List ServerEvent → Serving → Serving
after [] s = s
after (e ∷ es) s = after es (left s (server_step true e s))

unfoldable pub AllMild : List ServerEvent → Serving → Type 0
AllMild [] s = Unit
AllMild (e ∷ es) s = IsMild (server_step true e s) × AllMild es (left s (server_step true e s))

pub run_at :
    (i : ℕ) (es : List ServerEvent) (s : Serving) (p : Process)
    → p.exit ≡ running
    → p.signalled ≡ true
    → get_elem? p.servers i ≡ some s
    → AllMild es s
    → Turned i (after es s) p (run_until (map (at i) es) p)
unfolding run_until after AllMild
run_at i [] s p r b g m = record {
  runs = (r, refl, refl);
  here = g;
  others = λ j ne. refl;
  size = refl;
}
run_at i (e ∷ es) s p r b g m =
    let t = step_at i e s p r g (rw b (m.0)) in
    let q = process_step p.exit (at i e) p in
    let s' = left s (server_step true e s) in
    let (run, same, starts) = t.runs in
    let u =
      run_at i es s' q run (same ∙ b) (t.here ∙ ap (λ x. some (left s (server_step x e s))) b)
        m.1 in
    record {
      runs = (u.runs.0, u.runs.1 ∙ same, u.runs.2 ∙ starts);
      here = u.here;
      others = λ j ne. u.others j ne ∙ t.others j ne;
      size = u.size ∙ t.size;
    }

pub forced_lem : (s : Serving) → AllMild forced s × (goroutines (after forced s) ≡ 0)
unfolding after AllMild server_step
forced_lem (serving awaiting opening n) = ((tt, (tt, (tt, (tt, tt)))), refl)
forced_lem (serving awaiting listening n) = ((tt, (tt, (tt, (tt, tt)))), refl)
forced_lem (serving awaiting stopped n) = ((tt, (tt, (tt, (tt, tt)))), refl)
forced_lem (serving draining opening n) = ((tt, (tt, (tt, (tt, tt)))), refl)
forced_lem (serving draining listening n) = ((tt, (tt, (tt, (tt, tt)))), refl)
forced_lem (serving draining stopped n) = ((tt, (tt, (tt, (tt, tt)))), refl)
forced_lem (serving (ended b) opening n) = ((tt, (tt, (tt, (tt, tt)))), refl)
forced_lem (serving (ended b) listening n) = ((tt, (tt, (tt, (tt, tt)))), refl)
forced_lem (serving (ended b) stopped n) = ((tt, (tt, (tt, (tt, tt)))), refl)
