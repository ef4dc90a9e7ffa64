-- ===== src/Service/Proxied.antt =====
-- internal/proxy/proxy.go behind its middleware: what the clients of the balancer and the metrics get
-- to see.
use mathlib.Core.Path.{subst}
use golancer.Prelude.{
  ℕ, zero, suc, leb, true, arith, ap, ◌++◌, ◌-◌, ◌^◌, ◌≡◌, refl, false, Option, none, some, inl,
  inr, List, [], ◌∷◌, Bool-cases,
}
use golancer.Prelude.Run.{Run, done, panic, nil_dereference, ◌>>=◌}
use golancer.Domain.{Ptr}
use golancer.Http.{Body, no_body, readable, broken, Request, NetLib}
use golancer.Proxy.Handler.{
  Shared, Handler, Env, Outbound, Served, Reply, error, proxied, Transport, answered, upgraded,
  failed, aborted, connect, rounds, max_retries_for, reply_of, outbound, proxy_once, attempts,
  serve_body, serve_http,
}
use golancer.Middleware.Guards.{is_informational, IsPlain}
use golancer.Middleware.{Write}
use golancer.Service.{early_writes, reply_writes, is_broken_off}

-- What goes to the client at the end ends its headers, and does not break off.
abbrev pub IsFinalReply : Reply → Type 0
IsFinalReply reply = (is_broken_off reply ≡ false) × IsPlain (reply_writes reply)

abbrev pub IsFinalAnswer : Transport → Type 0
IsFinalAnswer (answered status) = leb 200 status ≡ true
IsFinalAnswer (upgraded status) = ⊥
IsFinalAnswer failed = Unit
IsFinalAnswer (aborted status) = ⊥

-- Where no attempt has an informational status, nothing is written before the reply.
early_writes_lem :
    (informs : ℕ → List ℕ) → ((k : ℕ) → informs k ≡ []) → (n : ℕ) → early_writes informs n ≡ []
unfolding early_writes
early_writes_lem informs quiet zero = refl
early_writes_lem informs quiet (suc n) =
    rw (quiet n) (ap (λ l. l ++ []) (early_writes_lem informs quiet n))

pub early_writes-reply :
    (informs : ℕ → List ℕ)
    → ((k : ℕ) → informs k ≡ [])
    → (n : ℕ) (ws : List Write) → early_writes informs n ++ ws ≡ ws
early_writes-reply informs quiet n ws = ap (λ l. l ++ ws) (early_writes_lem informs quiet n)

module _ {Url Addr Prefix : Type 0} (net : NetLib Addr Prefix) (h : Handler Url Prefix)
    (env : Env Url)
    (final : (k : ℕ) (s : Shared Url) (p : Ptr) (out : Outbound Url)
      → IsFinalAnswer (env.forward k s p out).1) where
  abbrev Finals : Run (Served Url) → Type 0
  Finals m = (v : Served Url) → m ≡ done v → IsFinalReply v.reply

  Finals-done : (v : Served Url) → IsFinalReply v.reply → Finals (done v)
  Finals-done v f w e = let same : v ≡ w = cc in subst (λ x. IsFinalReply x.reply) same f

  Finals->>= :
      {A : Type 0} (m : Run A) (f : A → Run (Served Url))
      → ((a : A) → m ≡ done a → Finals (f a))
      → Finals (m >>= f)
  Finals->>= (done a) f h v e = h a refl v e
  Finals->>= (panic x) f h v e = cc

  pair_snd :
      {A : Type 0} {a : A × Transport} {s : A} {t : Transport}
      → ◌≡◌ {A = Run (A × Transport)} (done a) (done (s, t))
      → a.1 ≡ t
  pair_snd e = cc

  forward_lem :
      (k : ℕ) (s : Shared Url) (r : Request) (body : Body) (p : Ptr) (s' : Shared Url)
      (t : Transport)
      → proxy_once net h env k s r body p ≡ done (s', t)
      → IsFinalAnswer t
  unfolding proxy_once
  forward_lem k s r body p s' t e = by_url (((connect s p 1).registry.heap.cell p).url) e
    where
      by_url :
          (o : Option Url)
          → ◌≡◌ {A = Run (Shared Url × Transport)}
              (elim o [
                | none ↦ panic nil_dereference
                | some u ↦
                    let (after, t) =
                      env.forward k (connect s p 1) p (outbound net h env r body u) in
                    done (connect after p (2 ^ 32 - 1), t)
              ])
              (done (s', t))
          → IsFinalAnswer t
      by_url none q = cc
      by_url (some u) q =
          subst IsFinalAnswer (pair_snd q) (final k (connect s p 1) p (outbound net h env r body u))

  final_status_lem : (status : ℕ) → leb 200 status ≡ true → is_informational status ≡ false
  final_status_lem status e = ground arith

  reply_final :
      (t : Transport) (reply : Reply)
      → IsFinalAnswer t
      → reply_of t ≡ some reply
      → IsFinalReply reply
  unfolding IsPlain
  reply_final (answered status) reply f e =
      let same : proxied status ≡ reply = cc in
      subst IsFinalReply same (refl, final_status_lem status f)
  reply_final (upgraded status) reply f e = elim f [ ]
  reply_final failed reply f e = cc
  reply_final (aborted status) reply f e = elim f [ ]

  -- A round, when its selection has been made and the rest of the loop is as it should be.
  module _ (n k : ℕ) (sent : List Ptr) (r : Request) (body : Body)
      (rest : (s : Shared Url) (sent' : List Ptr)
        → Finals (attempts net h env n (suc k) s sent' r body)) where
    ended-Finals :
        (s : Shared Url) (p : Ptr) (t : Transport) (o : Option Reply)
        → IsFinalAnswer t
        → reply_of t ≡ o
        → Finals (elim o [
          | none ↦ attempts net h env n (suc k) s (p ∷ sent) r body
          | some reply ↦ done (record { shared = s; sent = p ∷ sent; reply = reply })
        ])
    ended-Finals s p t none f q = rest s (p ∷ sent)
    ended-Finals s p t (some reply) f q = Finals-done _ (reply_final t reply f q)

    chosen-Finals :
        (s : Shared Url) (o : Option Ptr)
        → Finals (elim o [
          | none ↦ done (record {
            shared = s;
            sent = sent;
            reply = error 503 "no healthy backends registered";
          })
          | some p ↦ proxy_once net h env k s r body p >>= λ (s₂, t). elim (reply_of t) [
            | none ↦ attempts net h env n (suc k) s₂ (p ∷ sent) r body
            | some reply ↦ done (record { shared = s₂; sent = p ∷ sent; reply = reply })
          ]
        ])
    unfolding IsPlain
    chosen-Finals s none = Finals-done _ (refl, refl)
    chosen-Finals s (some p) =
        Finals->>= (proxy_once net h env k s r body p) _
          (λ (s₂, t) q. ended-Finals s₂ p t (reply_of t) (forward_lem k s r body p s₂ t q) refl)

  attempts-Finals :
      (n k : ℕ) (s : Shared Url) (sent : List Ptr) (r : Request) (body : Body)
      → Finals (attempts net h env n k s sent r body)
  unfolding attempts IsPlain
  attempts-Finals zero k s sent r body = Finals-done _ (refl, refl)
  attempts-Finals (suc n) k s sent r body = elim (Bool-cases (env.cancelled k)) [
    | inl e ↦ rw e (Finals-done _ (refl, tt))
    | inr e ↦
        let rest =
          λ (s' : Shared Url) (sent' : List Ptr). attempts-Finals n (suc k) s' sent' r body in
        rw e (
          Finals->>= (h.balancer s r) _
            (λ (c, o) q. chosen-Finals n k sent r body rest (record s { current = c }) o))
  ]

  serve_body-Finals :
      (s : Shared Url) (r : Request) (body : Body) → Finals (serve_body net h env s r body)
  unfolding serve_body IsPlain
  serve_body-Finals s r (broken bytes) = Finals-done _ (refl, refl)
  serve_body-Finals s r no_body = attempts-Finals (rounds (max_retries_for h r)) 0 s [] r no_body
  serve_body-Finals s r (readable bytes) =
      attempts-Finals (rounds (max_retries_for h r)) 0 s [] r (readable bytes)

  -- Whatever the proxy answers, its headers end with it, and it does not break off.
  pub serve_http-Finals : (s : Shared Url) (r : Request) → Finals (serve_http net h env s r)
  unfolding serve_http
  serve_http-Finals s r = serve_body-Finals s r r.body
