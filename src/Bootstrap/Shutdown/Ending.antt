-- ===== src/Bootstrap/Shutdown/Ending.antt =====
-- internal/bootstrap/server.go and runner.go: when Run returns.
use golancer.Prelude.{
  ℕ, zero, suc, ◌+◌, ◌*◌, ◌≤◌, ◌≡◌, refl, sym, ap, ◌∙◌, ◌≢◌, true, ◌==◌, Bool-cases, some, List, [],
  ◌∷◌, ◌++◌, All, All-append, map, get_elem?, get_elem?-lt, length, length-append, arith,
  if◌then◌else◌, inl, inr,
}
use golancer.Bootstrap.Shutdown.{
  Serving, listen, fail, accept, finish, shut_down, drained, expire, close, Event, signal, main, at,
  running, returned, Process, start_server, main_step, process_step, run_until, fresh_process,
}
use golancer.Bootstrap.Shutdown.Servers.{goroutines, total}
use golancer.Bootstrap.Shutdown.Drained.{
  IsSteady, alive_step-IsSteady, run_until-IsSteady, fresh_process-IsSteady,
}
use golancer.Bootstrap.Shutdown.Forced.{Runs, Turned, forced, after, run_at, forced_lem}

-- The events that need no client: the signal, `Run` itself, the goroutines and the deadlines.
abbrev pub IsOwn : Event → Type 0
IsOwn signal = Unit
IsOwn main = Unit
IsOwn (at i listen) = Unit
IsOwn (at i fail) = ⊥
IsOwn (at i accept) = ⊥
IsOwn (at i finish) = ⊥
IsOwn (at i shut_down) = Unit
IsOwn (at i drained) = ⊥
IsOwn (at i expire) = Unit
IsOwn (at i close) = Unit

-- The events that end the servers before position `k`, the last server first.
unfoldable force : ℕ → List Event
force zero = []
force (suc k) = map (at k) forced ++ force k

run_until-append :
    (xs ys : List Event) (p : Process) → run_until (xs ++ ys) p ≡ run_until ys (run_until xs p)
unfolding run_until
run_until-append [] ys p = refl
run_until-append (x ∷ xs) ys p = run_until-append xs ys (process_step p.exit x p)

-- The servers from position `k` on have ended.
abbrev EndedFrom : ℕ → List Serving → Type 0
EndedFrom k ss = (j : ℕ) (s : Serving) → k ≤ j → get_elem? ss j ≡ some s → goroutines s ≡ 0

ended_from :
    (k : ℕ) (s : Serving) (p q : Process)
    → Turned k s p q
    → goroutines s ≡ 0
    → EndedFrom (suc k) p.servers
    → EndedFrom k q.servers
ended_from k s p q t z h j x le e = elim (Bool-cases (j == k)) [
  | inl y ↦
      let same : get_elem? q.servers j ≡ some s =
        (let jk : j ≡ k = ground arith in rw jk (t.here)) in
      let eq : x ≡ s = cc in rw eq z
  | inr y ↦ let ne : j ≢ k = ground arith in h j x (omega (arith, ne)) (sym (t.others j ne) ∙ e)
]

none_there :
    (ss : List Serving) (j : ℕ) (s : Serving)
    → length ss ≤ j
    → get_elem? ss j ≡ some s
    → goroutines s ≡ 0
none_there [] j s le e = cc
none_there (x ∷ xs) zero s le e = absurd (omega arith)
none_there (x ∷ xs) (suc j) s le e = none_there xs j s (omega arith) e

force_lem :
    (k : ℕ) (p : Process)
    → p.exit ≡ running
    → p.signalled ≡ true
    → k ≤ length p.servers
    → EndedFrom k p.servers
    → let q = run_until (force k) p in Runs p q × EndedFrom 0 q.servers
unfolding force run_until
force_lem zero p r b le h = ((r, refl, refl), h)
force_lem (suc k) p r b le h =
    let (s, g) = get_elem?-lt p.servers k (omega arith) in
    let (mild, over) = forced_lem s in
    let t = run_at k forced s p r b g mild in
    let q = run_until (map (at k) forced) p in
    let (run, same, starts) = t.runs in
    let ((run', same', starts'), z) =
      force_lem k q run (same ∙ b) (omega (arith, t.size))
        (ended_from k (after forced s) p q t over h) in
    rw (run_until-append (map (at k) forced) (force k) p)
      ((run', same' ∙ same, starts' ∙ starts), z)

all_over : (ss : List Serving) → EndedFrom 0 ss → total ss ≡ 0
unfolding total
all_over [] h = refl
all_over (s ∷ ss) h =
    omega (arith, h 0 s (omega arith) refl, all_over ss (λ j x le e. h (suc j) x (omega arith) e))

-- `Run` starts the servers that are left.
unfoldable mains : ℕ → List Event
mains zero = []
mains (suc m) = main ∷ mains m

mains_lem :
    (m : ℕ) (p : Process)
    → p.exit ≡ running
    → p.to_start ≡ m
    → let q = run_until (mains m) p in
      (q.exit ≡ running) × (q.signalled ≡ p.signalled) × (q.to_start ≡ 0)
unfolding mains run_until
mains_lem zero p r e = (r, refl, e)
mains_lem (suc m) p r e =
    let q = start_server (record p { to_start = m }) in
    let eq : process_step p.exit main p ≡ q =
      ap (λ x. process_step x main p) r ∙ ap (λ k. main_step k p) e in
    rw (eq, run_until) (mains_lem m q r refl)

-- What is left to do at the end: the signal, the servers that are not started, the end of each
-- server, and `Run` once more.
abbrev wind_down : ℕ → ℕ → List Event
wind_down n m = signal ∷ (mains m ++ (force n ++ main ∷ []))

main_done :
    (p : Process)
    → p.exit ≡ running
    → p.to_start ≡ 0
    → p.wg ≡ 0
    → (run_until (main ∷ []) p).exit ≡ returned
unfolding run_until
main_done p r e w =
    ap (λ x. (process_step x main p).exit) r
    ∙ ap (λ k. (main_step k p).exit) e
    ∙ ap (λ k. (if k == 0 then record p { exit = returned } else p).exit) w

ends_lem :
    (n m : ℕ) (p : Process)
    → IsSteady n p
    → p.exit ≡ running
    → p.to_start ≡ m
    → (run_until (wind_down n m) p).exit ≡ returned
unfolding run_until
ends_lem n m p h r e =
    let p₁ = record p { signalled = true } in
    let eq₁ : process_step p.exit signal p ≡ p₁ = ap (λ x. process_step x signal p) r in
    let (r₂, b₂, s₂) = mains_lem m p₁ r e in
    let p₂ = run_until (mains m) p₁ in
    let h₂ = run_until-IsSteady n (mains m) p₁ (alive_step-IsSteady n signal p h r) in
    let full : length p₂.servers ≡ n = omega (arith, h₂.all, s₂) in
    let ((r₃, b₃, s₃), z) =
      force_lem n p₂ r₂ b₂ (omega (arith, full))
        (λ j s le g. none_there p₂.servers j s (omega (arith, full, le)) g) in
    let p₃ = run_until (force n) p₂ in
    let h₃ = run_until-IsSteady n (force n) p₂ h₂ in
    let wg : p₃.wg ≡ 0 = h₃.counted ∙ all_over p₃.servers z in
    ap (λ q. (run_until (mains m ++ (force n ++ main ∷ [])) q).exit) eq₁
    ∙ ap (λ q. q.exit) (run_until-append (mains m) (force n ++ main ∷ []) p₁)
    ∙ ap (λ q. q.exit) (run_until-append (force n) (main ∷ []) p₂)
    ∙ main_done p₃ r₃ (s₃ ∙ s₂) wg

mains-IsOwn : (m : ℕ) → All IsOwn (mains m) × (length (mains m) ≡ m)
unfolding mains
mains-IsOwn zero = (tt, refl)
mains-IsOwn (suc m) = let (own, size) = mains-IsOwn m in ((tt, own), omega (arith, size))

force-IsOwn : (k : ℕ) → All IsOwn (force k) × (length (force k) ≡ 4 * k)
unfolding force
force-IsOwn zero = (tt, refl)
force-IsOwn (suc k) =
    let (own, size) = force-IsOwn k in ((tt, (tt, (tt, (tt, own)))), omega (arith, size))

wind_down-IsOwn : (n m : ℕ) → All IsOwn (wind_down n m) × (length (wind_down n m) ≡ m + 4 * n + 2)
wind_down-IsOwn n m =
    let (own_m, size_m) = mains-IsOwn m in
    let (own_n, size_n) = force-IsOwn n in
    (
      (
        tt,
        All-append IsOwn (mains m) (force n ++ main ∷ []) own_m
            (All-append IsOwn (force n) (main ∷ []) own_n (tt, tt)),
      ),
      omega (
        arith,
        length-append (mains m) (force n ++ main ∷ []),
        length-append (force n) (main ∷ []),
        size_m,
        size_n,
      ),
    )

-- Whatever has happened since the start, as long as Run is still there, at most 5 n + 2 further
-- events, the signal, steps of Run itself and of the goroutines of its n servers, and the deadlines
-- of ten seconds, end Run with a return, without any answer to a request and any other connection.
pub run_until-ends :
    (n : ℕ) (es : List Event)
    → (run_until es (fresh_process n)).exit ≡ running
    → (rest : List Event) × All IsOwn rest
      × (length rest ≤ 5 * n + 2)
      × ((run_until (es ++ rest) (fresh_process n)).exit ≡ returned)
run_until-ends n es r =
    let p = run_until es (fresh_process n) in
    let h = run_until-IsSteady n es (fresh_process n) (fresh_process-IsSteady n) in
    let (own, size) = wind_down-IsOwn n p.to_start in
    (
      wind_down n p.to_start,
      own,
      omega (arith, size, h.all),
      ap (λ q. q.exit) (run_until-append es (wind_down n p.to_start) (fresh_process n))
          ∙ ends_lem n p.to_start p h r refl,
    )
