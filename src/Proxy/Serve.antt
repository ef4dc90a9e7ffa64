-- ===== src/Proxy/Serve.antt =====
-- internal/proxy/proxy.go: ServeHTTP ends, within its attempts, and gives every connection back.
use golancer.Prelude.{
  ℕ, zero, suc, ◌+◌, ◌-◌, ◌^◌, ◌≤◌, ◌<◌, ◌≡◌, refl, sym, ◌∙◌, ◌≢◌, true, false, Option, none, some,
  inl, inr, List, [], ◌∷◌, arith, Bool-cases, Option-cases, length,
}
use golancer.Prelude.Run.{Run, done}
use golancer.Domain.{Ptr}
use golancer.Http.{Body, no_body, readable, broken, Request, NetLib}
use golancer.Proxy.Handler.{
  Shared, Handler, Env, Served, Outbound, Transport, answered, upgraded, failed, aborted, proxied,
  switched, broken_off, error, nothing, max_retries_for, rounds, connect, proxy_once, reply_of,
  attempts, outbound, serve_body, serve_http,
}

connect-url :
    {Url : Type 0} (s : Shared Url) (p : Ptr) (d : ℕ)
    → ((connect s p d).registry.heap.cell p).url ≡ (s.registry.heap.cell p).url
connect-url s p d = ground arith

-- The number of connections of a backend, as the bit pattern of an int32.
abbrev pub count_of : {Url : Type 0} → Shared Url → Ptr → ℕ
count_of s q = (s.registry.heap.cell q).active_connections_no

module _ {Url Addr Prefix : Type 0} (net : NetLib Addr Prefix) (h : Handler Url Prefix)
    (env : Env Url) where
  -- What the environment and the selector keep: in a good state the selector does not panic, and
  -- what it picks has a URL; the state is good again after each attempt on a backend with a URL, with
  -- the count of the target raised and lowered around the round trip, and whatever other goroutines do meanwhile.
  pub record Keeps (Good : Shared Url → Type 0) : Type 0 where
    pub selects :
        (s : Shared Url) (r : Request)
        → Good s
        → (c : ℕ) × (o : Option Ptr) × (h.balancer s r ≡ done (c, o))
          × Good (record s { current = c })
          × ((p : Ptr) → o ≡ some p → (s.registry.heap.cell p).url ≢ none)
    pub cycles :
        (k : ℕ) (s : Shared Url) (p : Ptr) (out : Outbound Url)
        → Good s
        → (s.registry.heap.cell p).url ≢ none
        → Good (connect (env.forward k (connect s p 1) p out).0 p (2 ^ 32 - 1))

  -- The steps of the loop, one for each way that a round may go.
  module _ (n k : ℕ) (s : Shared Url) (sent : List Ptr) (r : Request) (body : Body) where
    pub attempts-cancelled :
        env.cancelled k ≡ true
        → attempts net h env (suc n) k s sent r body
          ≡ done (record { shared = s; sent = sent; reply = nothing })
    unfolding attempts
    attempts-cancelled e = rw e

    pub attempts-unselected :
        {c : ℕ}
        → env.cancelled k ≡ false
        → h.balancer s r ≡ done (c, none)
        → attempts net h env (suc n) k s sent r body
          ≡ done (record {
            shared = record s { current = c };
            sent = sent;
            reply = error 503 "no healthy backends registered";
          })
    unfolding attempts
    attempts-unselected e b = rw (e, b)

    module _ {c : ℕ} {p : Ptr} {s' : Shared Url} {t : Transport} (e : env.cancelled k ≡ false)
        (b : h.balancer s r ≡ done (c, some p))
        (o : proxy_once net h env k (record s { current = c }) r body p ≡ done (s', t)) where
      pub attempts-sent : attempts net h env (suc n) k s sent r body ≡ (elim (reply_of t) [
        | none ↦ attempts net h env n (suc k) s' (p ∷ sent) r body
        | some reply ↦ done (record { shared = s'; sent = p ∷ sent; reply = reply })
      ])
      unfolding attempts
      attempts-sent = rw (e, b, o)

  module _ (Good : Shared Url → Type 0) (keeps : Keeps Good) where
    pub proxy_once-total :
        (k : ℕ) (s : Shared Url) (r : Request) (body : Body) (p : Ptr)
        → Good s
        → (s.registry.heap.cell p).url ≢ none
        → (s' : Shared Url) × (t : Transport) × (proxy_once net h env k s r body p ≡ done (s', t))
          × Good s'
          × ((out : Outbound Url) × (t ≡ (env.forward k (connect s p 1) p out).1))
    unfolding proxy_once
    proxy_once-total k s r body p good has =
        elim (Option-cases ((connect s p 1).registry.heap.cell p).url) [
          | inl e ↦ absurd (has (sym (connect-url s p 1) ∙ e))
          | inr (u, e) ↦
              let (s', t) = env.forward k (connect s p 1) p (outbound net h env r body u) in
              (
                connect s' p (2 ^ 32 - 1),
                t,
                rw (e, proxy_once),
                keeps.cycles k s p (outbound net h env r body u) good has,
                (outbound net h env r body u, refl),
              )
        ]

    -- What `attempts` is shown to give.
    abbrev Ends : ℕ → Run (Served Url) → Type 0
    Ends n m = (v : Served Url) × (m ≡ done v) × Good v.shared × (length v.sent ≤ n)

    sent-Ends :
        (n k : ℕ) (s : Shared Url) (p : Ptr) (sent : List Ptr) (r : Request) (body : Body)
        (t : Transport)
        → Good s
        → Ends (n + suc (length sent)) (attempts net h env n (suc k) s (p ∷ sent) r body)
        → Ends (suc n + length sent) (elim (reply_of t) [
          | none ↦ attempts net h env n (suc k) s (p ∷ sent) r body
          | some reply ↦ done (record { shared = s; sent = p ∷ sent; reply = reply })
        ])
    sent-Ends n k s p sent r body (answered status) good rest =
        (record { shared = s; sent = p ∷ sent; reply = proxied status }, refl, good, omega arith)
    sent-Ends n k s p sent r body (upgraded status) good rest =
        (record { shared = s; sent = p ∷ sent; reply = switched status }, refl, good, omega arith)
    sent-Ends n k s p sent r body failed good (v, e, ok, le) = (v, e, ok, omega arith)
    sent-Ends n k s p sent r body (aborted status) good rest =
        (record { shared = s; sent = p ∷ sent; reply = broken_off status }, refl, good, omega arith)

    attempts-total :
        (n k : ℕ) (s : Shared Url) (sent : List Ptr) (r : Request) (body : Body)
        → Good s
        → Ends (n + length sent) (attempts net h env n k s sent r body)
    unfolding attempts
    attempts-total zero k s sent r body good = (
      record {
        shared = s;
        sent = sent;
        reply = error 503 "no healthy backend could serve the request";
      },
      refl,
      good,
      omega arith,
    )
    attempts-total (suc n) k s sent r body good = elim (Bool-cases (env.cancelled k)) [
      | inl e ↦ (
        record { shared = s; sent = sent; reply = nothing },
        attempts-cancelled n k s sent r body e,
        good,
        omega arith,
      )
      | inr e ↦
          let (c, o, b, good', has) = keeps.selects s r good in
          elim (Option-cases o) [
            | inl none_o ↦ (
              record {
                shared = record s { current = c };
                sent = sent;
                reply = error 503 "no healthy backends registered";
              },
              attempts-unselected n k s sent r body e (rw none_o at b),
              good',
              omega arith,
            )
            | inr (p, some_o) ↦
                let (s', t, once, good'', _) =
                  proxy_once-total k (record s { current = c }) r body p good' (has p some_o) in
                rw (attempts-sent n k s sent r body e (rw some_o at b) once) (
                  sent-Ends n k s' p sent r body t good''
                    (attempts-total n (suc k) s' (p ∷ sent) r body good''))
          ]
    ]

    serve_body-total :
        (s : Shared Url) (r : Request) (body : Body)
        → Good s
        → Ends (rounds (max_retries_for h r)) (serve_body net h env s r body)
    unfolding serve_body
    serve_body-total s r (broken bytes) good = (
      record { shared = s; sent = []; reply = error 400 "failed to read request body" },
      refl,
      good,
      omega arith,
    )
    serve_body-total s r no_body good =
        let (v, e, ok, le) = attempts-total (rounds (max_retries_for h r)) 0 s [] r no_body good in
        (v, e, ok, omega arith)
    serve_body-total s r (readable bytes) good =
        let (v, e, ok, le) =
          attempts-total (rounds (max_retries_for h r)) 0 s [] r (readable bytes) good in
        (v, e, ok, omega arith)

    -- If the selector does not panic and picks backends with a URL, and the state invariant is
    -- kept, ServeHTTP comes to an end with a reply, the invariant holds at the end, and the request
    -- was sent at most once more than the retries that its method and the configuration allow,
    -- whatever the answers and the other goroutines do. An answer that breaks off is the reply
    -- broken_off, for the panic that net/http catches.
    pub serve_http-total :
        (s : Shared Url) (r : Request)
        → Good s
        → (v : Served Url) × (serve_http net h env s r ≡ done v)
          × Good v.shared
          × (length v.sent ≤ rounds (max_retries_for h r))
    unfolding serve_http
    serve_http-total s r good = serve_body-total s r r.body good

  -- Round trips leave the count of `q` as it is.
  abbrev pub Quiet : Ptr → Type 0
  Quiet q =
      (k : ℕ) (s : Shared Url) (p : Ptr) (out : Outbound Url)
      → count_of (env.forward k s p out).0 q ≡ count_of s q

  -- Raising and lowering a count around a round trip that leaves `q` alone gives its count back.
  count_of-cycle :
      (q : Ptr) (k : ℕ) (s : Shared Url) (p : Ptr) (out : Outbound Url)
      → Quiet q
      → count_of s q < 2 ^ 32
      → count_of (connect (env.forward k (connect s p 1) p out).0 p (2 ^ 32 - 1)) q ≡ count_of s q
  count_of-cycle q k s p out quiet small = ground (arith, quiet k (connect s p 1) p out)

  -- If the round trips leave the connection count of a backend alone and the state invariant is
  -- kept, ServeHTTP returns with the count of that backend that it found: also when it fails over,
  -- when the client has gone, and when an answer breaks off.
  pub serve_http-balanced :
      (Good : Shared Url → Type 0)
      → Keeps Good
      → (q : Ptr) → Quiet q
      → (s : Shared Url) (r : Request) → Good s
      → count_of s q < 2 ^ 32
      → (v : Served Url) × (serve_http net h env s r ≡ done v)
        × (count_of v.shared q ≡ count_of s q)
  serve_http-balanced Good keeps q quiet s r good small =
      let (v, e, (_, same), _) =
        serve_http-total (λ t. Good t × (count_of t q ≡ count_of s q)) counted s r (good, refl) in
      (v, e, same)
    where
      counted : Keeps (λ t. Good t × (count_of t q ≡ count_of s q))
      counted = record {
        selects = λ t r g.
            let (c, o, b, good', has) = keeps.selects t r g.0 in (c, o, b, (good', g.1), has);
        cycles = λ k t p out g has.
            (keeps.cycles k t p out g.0 has, count_of-cycle q k t p out quiet (rw g.1 small) ∙ g.1);
      }
