-- ===== src/Proxy/Handler.antt =====
-- internal/proxy/proxy.go: `ServeHTTP`, its retries, and the adapters of the selectors.
use golancer.Prelude.{
  ℕ, zero, suc, ◌-◌, ◌^◌, String, Bool, Option, none, some, List, [], ◌∷◌, str_eq, ◌||◌,
  if◌then◌else◌,
}
use golancer.Prelude.Int.{ℤ, pos, negsuc}
use golancer.Prelude.Run.{Run, done, panic, nil_dereference, ◌>>=◌}
use golancer.Domain.{Ptr, add_connections}
use golancer.Registry.{Registry}
use golancer.Http.{Header, Body, no_body, readable, broken, Request, NetLib}
use golancer.Proxy.{client_ip, set_forwarded}

-- What all requests share: the registry and the counter of the round robin selector.
pub record Shared (Url : Type 0) : Type 0 where
  pub registry : Registry Url
  pub current : ℕ

-- `Balancer.Select`: the new counter, and the backend, or none for an error.
abbrev pub Balancer : Type 0 → Type 0
Balancer Url = Shared Url → Request → Run (ℕ × Option Ptr)

-- `Rotate`
abbrev pub rotate_balancer : {Url : Type 0} → (Shared Url → Run (ℕ × Option Ptr)) → Balancer Url
rotate_balancer get_server s r = get_server s

-- `ByClientIP`
abbrev pub by_client_ip :
    {Url Addr Prefix : Type 0}
    → NetLib Addr Prefix
    → (Shared Url → String → Run (ℕ × Option Ptr))
    → List Prefix
    → Balancer Url
by_client_ip net get_server t s r = get_server s (client_ip net t r)

-- `Handler`
pub record Handler (Url Prefix : Type 0) : Type 0 where
  pub balancer : Balancer Url
  pub max_retries : ℤ
  pub trusted : List Prefix

-- The request as `Rewrite` sends it to the backend's URL.
pub record Outbound (Url : Type 0) : Type 0 where
  pub target : Url
  pub header : Header
  pub body : Body

-- How the reverse proxy's round trip ends: an answer is copied, the connection is upgraded and the
-- answer written on the hijacked connection, the ErrorHandler is called, or the answer breaks off and
-- ServeHTTP panics with ErrAbortHandler.
pub data Transport : Type 0 where
  answered upgraded : ℕ → Transport
  failed : Transport
  aborted : ℕ → Transport

-- What goes to the client: nothing, an error of the balancer, an answer, a connection that is
-- switched to another protocol, or a part of an answer.
pub data Reply : Type 0 where
  nothing : Reply
  error : ℕ → String → Reply
  proxied switched : ℕ → Reply
  broken_off : ℕ → Reply

-- The environment of one request, by the number of the attempt: whether its context has ended, and
-- what the round trip gives. Meanwhile other requests, the prober and the API change what is shared.
-- `informs` has the informational statuses of the attempt, which the reverse proxy passes on as they
-- come, and `stripped` is the header without what the reverse proxy strips.
pub record Env (Url : Type 0) : Type 0 where
  pub cancelled : ℕ → Bool
  pub forward : ℕ → Shared Url → Ptr → Outbound Url → Shared Url × Transport
  pub informs : ℕ → List ℕ
  pub stripped : Header → Header

-- `sent` holds the targets of the attempts, the newest first.
pub record Served (Url : Type 0) : Type 0 where
  pub shared : Shared Url
  pub sent : List Ptr
  pub reply : Reply

-- `maxRetriesFor`
abbrev pub max_retries_for : {Url Prefix : Type 0} → Handler Url Prefix → Request → ℤ
max_retries_for h r =
    if str_eq r.method "POST" || str_eq r.method "PATCH" then pos 0 else h.max_retries

-- The rounds of `for attempt := 0; attempt <= n; attempt++`.
abbrev pub rounds : ℤ → ℕ
rounds (pos n) = suc n
rounds (negsuc n) = 0

-- `ActiveConnectionsNo.Add` on a shared backend.
abbrev pub connect : {Url : Type 0} → Shared Url → Ptr → ℕ → Shared Url
connect s p d = record s {
  registry = record (s.registry) { heap = add_connections s.registry.heap p d };
}

-- What an attempt's end means for the loop: a reply, or none to go on.
abbrev pub reply_of : Transport → Option Reply
reply_of (answered status) = some (proxied status)
reply_of (upgraded status) = some (switched status)
reply_of failed = none
reply_of (aborted status) = some (broken_off status)

module _ {Url Addr Prefix : Type 0} (net : NetLib Addr Prefix) (h : Handler Url Prefix)
    (env : Env Url) where
  -- The `Rewrite` of `proxyOnce`.
  abbrev pub outbound : Request → Body → Url → Outbound Url
  outbound r body u = record {
    target = u;
    header = set_forwarded net h.trusted r (env.stripped r.header);
    body = body;
  }

  -- `proxyOnce`. The count goes down again however the round trip ends. `2 ^ 32 - 1` is -1.
  unfoldable pub proxy_once : ℕ → Shared Url → Request → Body → Ptr → Run (Shared Url × Transport)
  proxy_once k s r body p =
      let up = connect s p 1 in
      elim (up.registry.heap.cell p).url [
        | none ↦ panic nil_dereference
        | some u ↦
            let (after, t) = env.forward k up p (outbound r body u) in
            done (connect after p (2 ^ 32 - 1), t)
      ]

  -- The loop: `n` rounds are left, `k` is the attempt, and `sent` the attempts so far, newest first.
  unfoldable pub attempts : ℕ → ℕ → Shared Url → List Ptr → Request → Body → Run (Served Url)
  attempts zero k s sent r body = done (record {
    shared = s;
    sent = sent;
    reply = error 503 "no healthy backend could serve the request";
  })
  attempts (suc n) k s sent r body =
      let rest = λ (s' : Shared Url) (p : Ptr). attempts n (suc k) s' (p ∷ sent) r body in
      if env.cancelled k
      then done (record { shared = s; sent = sent; reply = nothing })
      else h.balancer s r >>= λ (c, o).
          let s₁ = record s { current = c } in
          elim o [
            | none ↦ done (record {
              shared = s₁;
              sent = sent;
              reply = error 503 "no healthy backends registered";
            })
            | some p ↦ proxy_once k s₁ r body p >>= λ (s₂, t). elim (reply_of t) [
              | none ↦ rest s₂ p
              | some reply ↦ done (record { shared = s₂; sent = p ∷ sent; reply = reply })
            ]
          ]

  -- `ServeHTTP`. The body is read up front, and each attempt gets it anew: the closure that rewinds
  -- it never fails.
  unfoldable pub serve_body : Shared Url → Request → Body → Run (Served Url)
  serve_body s r (broken bytes) =
      done (record { shared = s; sent = []; reply = error 400 "failed to read request body" })
  serve_body s r no_body = attempts (rounds (max_retries_for h r)) 0 s [] r no_body
  serve_body s r (readable bytes) =
      attempts (rounds (max_retries_for h r)) 0 s [] r (readable bytes)

  unfoldable pub serve_http : Shared Url → Request → Run (Served Url)
  unfolding serve_body
  serve_http s r = serve_body s r r.body
