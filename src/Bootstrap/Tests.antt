-- ===== src/Bootstrap/Tests.antt =====
-- internal/bootstrap/runner.go: a start with two backends, of which one answers.
use golancer.Prelude.{
  ℕ, suc, ◌+◌, ◌-◌, ◌≡◌, refl, String, Option, none, some, List, [], In, map, str_eq, if◌then◌else◌,
  ap, arith, true, false, ◌++◌, ◌∷◌, ◌*◌, ◌≤◌, All, length,
}
use golancer.Prelude.Int.{ℤ, pos, negsuc}
use golancer.Prelude.Run.{done}
use golancer.Domain.{Ptr, empty_heap}
use golancer.Registry.{Registry, list_backends}
use golancer.Registry.Invariant.{IsValid}
use golancer.Prober.{Prober, with_defaults}
use golancer.Prober.Round.{answers}
use golancer.Config.{
  validate, check_url, check_backends, check_duration, check_nonneg, check_servers, check_server,
  check_trusted, parse_prefix,
}
use golancer.Http.{has_char}
use golancer.Config.Load.{loaded, load, domain_backends, health_config}
use golancer.Config.Sample.{plain, one_second, word, word_inj}
use golancer.Config.Startup.{IsPositive}
use golancer.Middleware.{HttpHandler}
use golancer.Bootstrap.{Endpoint, started, servers, boot}
use golancer.Bootstrap.Started.{Distinct, boot-started}
use golancer.Bootstrap.Shutdown.{
  listen, accept, finish, shut_down, drained, close, Event, signal, main, at, running, returned,
  server_step, run_until, fresh_process,
}
use golancer.Bootstrap.Shutdown.Drained.{HasEnded, run_until-drained}
use golancer.Bootstrap.Shutdown.Ending.{IsOwn, run_until-ends}
use golancer.Fixtures.{text_urls, text_net}

-- Numbers in unary: even lengths for those from 0 on, odd ones for the others.
abbrev unary : ℤ → String
unary (pos n) = word (n + n)
unary (negsuc n) = word (suc (n + n))

unary_inj : (a b : ℤ) → unary a ≡ unary b → a ≡ b
unary_inj (pos m) (pos n) e = ap pos (omega (arith, word_inj (m + m) (n + n) e))
unary_inj (negsuc m) (negsuc n) e =
    ap negsuc (omega (arith, word_inj (suc (m + m)) (suc (n + n)) e))
unary_inj (pos m) (negsuc n) e = absurd (omega (arith, word_inj (m + m) (suc (n + n)) e))
unary_inj (negsuc m) (pos n) e = absurd (omega (arith, word_inj (suc (m + m)) (n + n) e))

-- A mux that matches nothing.
abbrev mux : List (String × Endpoint String String) → HttpHandler ℕ
mux rs s ms r = record { state = s; metrics = ms; pattern = ""; writes = []; panicked = false }

abbrev get_b : String → Option ℕ
get_b s = if str_eq s "http://b" then some 204 else none

plain_loaded : load text_urls text_net one_second (λ f. some plain) (some "backends") ≡ loaded plain
unfolding load validate check_url check_backends check_duration check_nonneg check_servers
    check_server check_trusted parse_prefix has_char str_eq
plain_loaded = refl

boot-started_example :
    let (h, ps) = domain_backends text_urls word 0 empty_heap plain.backends in
    (r : Registry String) × (p : Prober) × (boot text_net text_urls one_second
        (λ n. n - 1)
        mux
        unary
        (λ f. some plain)
        word
        get_b
        (some "backends")
        ""
      ≡ done (started r p (servers text_net text_urls one_second (λ n. n - 1) mux unary "" plain)))
    × IsValid r
    × (list_backends r ≡ ps)
    × ((b : Ptr)
        → In b ps
        → (r.heap.cell b).healthy
          ≡ answers text_urls (with_defaults (health_config one_second plain)) get_b h b)
    × IsPositive p.cfg.interval
    × Distinct
        (map (λ s. s.addr) (servers text_net text_urls one_second (λ n. n - 1) mux unary "" plain))
boot-started_example =
    boot-started text_net text_urls one_second (λ n. n - 1) mux unary unary_inj (λ f. some plain)
      word word_inj get_b (some "backends") "" plain plain_loaded

-- Three servers, of which the last one has a busy connection.
abbrev busy : List Event
busy = main ∷ main ∷ at 0 listen ∷ main ∷ at 2 listen ∷ at 1 listen ∷ at 2 accept ∷ []

-- The signal comes, and the request is answered while the server drains.
abbrev drain_all : List Event
drain_all =
    busy
    ++ signal
      ∷ at 2 shut_down
      ∷ at 0 shut_down
      ∷ at 1 shut_down
      ∷ at 0 close
      ∷ at 0 drained
      ∷ at 2 drained
      ∷ at 2 close
      ∷ main
      ∷ at 1 drained
      ∷ at 1 close
      ∷ at 2 finish
      ∷ at 2 drained
      ∷ main
      ∷ []

drain_all-returned : (run_until drain_all (fresh_process 3)).exit ≡ returned
unfolding run_until server_step
drain_all-returned = refl

run_until-drained_example :
    let p = run_until drain_all (fresh_process 3) in
    (p.signalled ≡ true) × (length p.servers ≡ 3) × All HasEnded p.servers
run_until-drained_example = run_until-drained 3 drain_all (omega arith) drain_all-returned

busy-running : (run_until busy (fresh_process 3)).exit ≡ running
unfolding run_until server_step
busy-running = refl

run_until-ends_example :
    (rest : List Event) × All IsOwn rest
    × (length rest ≤ 5 * 3 + 2)
    × ((run_until (busy ++ rest) (fresh_process 3)).exit ≡ returned)
run_until-ends_example = run_until-ends 3 busy busy-running
