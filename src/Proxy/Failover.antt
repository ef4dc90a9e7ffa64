-- ===== src/Proxy/Failover.antt =====
-- internal/proxy/proxy.go: the loop of ServeHTTP fails over until a backend answers.
use golancer.Prelude.{
  ℕ, zero, suc, ◌+◌, ◌≤◌, ◌<◌, ◌≡◌, refl, ap, ◌∙◌, ◌≢◌, false, Option, none, some, List, [], ◌∷◌,
  arith, length,
}
use golancer.Prelude.Run.{Run, done}
use golancer.Domain.{Ptr}
use golancer.Http.{Body, no_body, readable, broken, Request, NetLib}
use golancer.Proxy.Handler.{
  Shared, Handler, Env, Served, Outbound, Transport, answered, failed, proxied, reply_of,
  max_retries_for, rounds, attempts, serve_http, serve_body,
}
use golancer.Proxy.Serve.{Keeps, proxy_once-total, attempts-sent}

module _ {Url Addr Prefix : Type 0} (net : NetLib Addr Prefix) (h : Handler Url Prefix)
    (env : Env Url) (Good : Shared Url → Type 0) (keeps : Keeps net h env Good)
    (found : (s : Shared Url) (r : Request) (c : ℕ) → Good s → h.balancer s r ≢ done (c, none))
    (n status : ℕ) (present : (k : ℕ) → k ≤ n → env.cancelled k ≡ false)
    (fails : (k : ℕ) (s : Shared Url) (p : Ptr) (out : Outbound Url)
      → k < n
      → (env.forward k s p out).1 ≡ failed)
    (answers : (s : Shared Url) (p : Ptr) (out : Outbound Url)
      → (env.forward n s p out).1 ≡ answered status) where
  -- A run that ends with the answer, after so many attempts.
  abbrev Answered : ℕ → Run (Served Url) → Type 0
  Answered j m = (v : Served Url) × (m ≡ done v) × (v.reply ≡ proxied status) × (length v.sent ≡ j)

  -- One round sends the request: its end is that of the environment's attempt.
  round_lem :
      (m k : ℕ) (s : Shared Url) (sent : List Ptr) (r : Request) (body : Body)
      → Good s
      → k ≤ n
      → (s' : Shared Url) × (p : Ptr) × (t : Transport) × Good s'
        × ((s'' : Shared Url) × (out : Outbound Url) × (t ≡ (env.forward k s'' p out).1))
        × (attempts net h env (suc m) k s sent r body ≡ (elim (reply_of t) [
          | none ↦ attempts net h env m (suc k) s' (p ∷ sent) r body
          | some reply ↦ done (record { shared = s'; sent = p ∷ sent; reply = reply })
        ]))
  round_lem m k s sent r body good le = selected (keeps.selects s r good)
    where
      selected :
          (c : ℕ) × (o : Option Ptr) × (h.balancer s r ≡ done (c, o))
            × Good (record s { current = c })
            × ((p : Ptr) → o ≡ some p → (s.registry.heap.cell p).url ≢ none)
          → (s' : Shared Url) × (p : Ptr) × (t : Transport) × Good s'
            × ((s'' : Shared Url) × (out : Outbound Url) × (t ≡ (env.forward k s'' p out).1))
            × (attempts net h env (suc m) k s sent r body ≡ (elim (reply_of t) [
              | none ↦ attempts net h env m (suc k) s' (p ∷ sent) r body
              | some reply ↦ done (record { shared = s'; sent = p ∷ sent; reply = reply })
            ]))
      selected (c, none, b, _, _) = absurd (found s r c good b)
      selected (c, some p, b, good', has) =
          let (s', t, once, good'', (out, e)) =
            proxy_once-total net h env Good keeps k (record s { current = c }) r body p good'
              (has p refl) in
          (
            s',
            p,
            t,
            good'',
            (_, out, e),
            attempts-sent net h env m k s sent r body (present k le) b once,
          )

  attempts-Answered :
      (left m k : ℕ) (s : Shared Url) (sent : List Ptr) (r : Request) (body : Body)
      → Good s
      → k + left ≡ n
      → left ≤ m
      → Answered (suc left + length sent) (attempts net h env (suc m) k s sent r body)
  attempts-Answered zero m k s sent r body good e le =
      let (s', p, t, good', (s'', out, at_end), step) =
        round_lem m k s sent r body good (omega arith) in
      let last : k ≡ n = omega arith in
      let ok : t ≡ answered status =
        at_end ∙ ap (λ i. (env.forward i s'' p out).1) last ∙ answers s'' p out in
      (
        record { shared = s'; sent = p ∷ sent; reply = proxied status },
        rw step (rw ok),
        refl,
        omega arith,
      )
  attempts-Answered (suc left) zero k s sent r body good e le = absurd (omega arith)
  attempts-Answered (suc left) (suc m) k s sent r body good e le =
      let (s', p, t, good', (s'', out, at_end), step) =
        round_lem (suc m) k s sent r body good (omega arith) in
      let ko : t ≡ failed = at_end ∙ fails k s'' p out (omega arith) in
      let (v, ended, reply, count) =
        attempts-Answered left m (suc k) s' (p ∷ sent) r body good' (omega arith) (omega arith) in
      (v, rw step (rw ko ended), reply, omega arith)

  attempts-from_zero :
      (m : ℕ) (s : Shared Url) (r : Request) (body : Body)
      → Good s
      → n < m
      → Answered (n + 1) (attempts net h env m 0 s [] r body)
  attempts-from_zero zero s r body good lt = absurd (omega arith)
  attempts-from_zero (suc m) s r body good lt =
      let (v, e, reply, count) =
        attempts-Answered n m 0 s [] r body good (omega arith) (omega arith) in
      (v, e, reply, omega arith)

  -- If the selector always finds a backend and the client stays, and the first n attempts reach no
  -- backend while the next is answered, then a request whose body can be read gets that answer
  -- after exactly n + 1 attempts, where so many are allowed.
  pub serve_http-failover :
      (s : Shared Url) (r : Request)
      → Good s
      → ((bytes : List ℕ) → r.body ≢ broken bytes)
      → n < rounds (max_retries_for h r)
      → (v : Served Url) × (serve_http net h env s r ≡ done v)
        × (v.reply ≡ proxied status)
        × (length v.sent ≡ n + 1)
  unfolding serve_http
  serve_http-failover s r good ok few = body_cases r.body ok
    where
      run :
          (body : Body)
          → Answered (n + 1) (attempts net h env (rounds (max_retries_for h r)) 0 s [] r body)
      run body = attempts-from_zero (rounds (max_retries_for h r)) s r body good few

      body_cases :
          (body : Body)
          → ((bytes : List ℕ) → body ≢ broken bytes)
          → Answered (n + 1) (serve_body net h env s r body)
      body_cases (broken bytes) b = absurd (b bytes refl)
      body_cases no_body b = run no_body
      body_cases (readable bytes) b = run (readable bytes)
