-- ===== src/Service/Early.antt =====
-- internal/proxy/proxy.go behind internal/bootstrap/middleware.go: requests for which backends send
-- informational statuses before their answers.
use mathlib.Core.List.{append_assoc}
use golancer.Prelude.{
  ℕ, zero, suc, ◌<◌, ◌≤◌, ◌≡◌, refl, ap, ◌∙◌, true, false, List, [], ◌∷◌, ◌++◌, All, map, length,
  arith, inl, inr, Bool-cases, ◌==◌,
}
use golancer.Prelude.Run.{done}
use golancer.Http.{Request, NetLib}
use golancer.Proxy.Handler.{Shared, Handler, Env, Served, proxied, serve_http}
use golancer.Middleware.{Write, write_header, write, record_writes, recorded_status}
use golancer.Middleware.Guards.{is_informational, sent_status, recorded_once}
use golancer.Service.{early_writes, reply_writes, proxy_answer}

-- Calls that leave the status of the client to what follows.
abbrev IsEarly : List Write → Type 0
IsEarly l = (ws : List Write) → sent_status (l ++ ws) ≡ sent_status ws

IsEarly-append : (a b : List Write) → IsEarly a → IsEarly b → IsEarly (a ++ b)
IsEarly-append a b first second ws =
    ap sent_status (append_assoc a b ws) ∙ first (b ++ ws) ∙ second ws

IsEarly-map :
    (cs : List ℕ) → All (λ c. is_informational c ≡ true) cs → IsEarly (map write_header cs)
unfolding sent_status
IsEarly-map [] early ws = refl
IsEarly-map (c ∷ cs) (e, early) ws = rw e (IsEarly-map cs early ws)

module _ (informs : ℕ → List ℕ)
    (early : (j : ℕ) → All (λ c. is_informational c ≡ true) (informs j)) where
  IsEarly-early_writes : (n : ℕ) → IsEarly (early_writes informs n)
  unfolding early_writes
  IsEarly-early_writes zero ws = refl
  IsEarly-early_writes (suc n) ws =
      IsEarly-append (early_writes informs n) (map write_header (informs n))
        (IsEarly-early_writes n) (IsEarly-map (informs n) (early n)) ws

module _ (informs : ℕ → List ℕ) (k code : ℕ) (codes : List ℕ)
    (quiet : (j : ℕ) → j < k → informs j ≡ []) (first : informs k ≡ code ∷ codes) where
  before_lem : (n : ℕ) → n ≤ k → early_writes informs n ≡ []
  unfolding early_writes
  before_lem zero le = refl
  before_lem (suc n) le =
      rw (quiet n (omega arith)) (ap (λ l. l ++ []) (before_lem n (omega arith)))

  -- The first status that is written is the first one of attempt `k`.
  first_lem :
      (n : ℕ) → k < n → (rest : List Write) × (early_writes informs n ≡ write_header code ∷ rest)
  unfolding early_writes
  first_lem zero lt = absurd (omega arith)
  first_lem (suc n) lt = elim (Bool-cases (n == k)) [
    | inl e ↦
        let here : n ≡ k = ground arith in
        (
          map write_header codes,
          ap (λ l. l ++ map write_header (informs n)) (before_lem n (omega arith))
              ∙ ap (λ j. map write_header (informs j)) here
              ∙ ap (map write_header) first,
        )
    | inr e ↦
        let (rest, same) = first_lem n (ground arith) in
        (rest ++ map write_header (informs n), ap (λ l. l ++ map write_header (informs n)) same)
  ]

module _ {Url Addr Prefix : Type 0} (net : NetLib Addr Prefix) (h : Handler Url Prefix)
    (env : Env Url) where
  -- Where only informational statuses are passed on while attempts are under way, and attempt k is
  -- the first with any: a request that is served with more than k attempts, the last of which has a
  -- final status, gets this status, while the recorder keeps the first informational status of
  -- attempt k, also if that attempt failed and another backend answered.
  pub proxy_answer-early :
      (k code final : ℕ) (codes : List ℕ) (s : Shared Url) (r : Request) (v : Served Url)
      → ((j : ℕ) → All (λ c. is_informational c ≡ true) (env.informs j))
      → ((j : ℕ) → j < k → env.informs j ≡ [])
      → env.informs k ≡ code ∷ codes
      → serve_http net h env s r ≡ done v
      → k < length v.sent
      → v.reply ≡ proxied final
      → is_informational final ≡ false
      → let ws = (proxy_answer env s (serve_http net h env s r)).writes in
        (recorded_status ws ≡ code) × (sent_status ws ≡ final)
  unfolding sent_status record_writes
  proxy_answer-early k code final codes s r v early quiet first e sent reply ends =
      let n = length v.sent in
      let ws = write_header final ∷ write ∷ [] in
      let (rest, same) = first_lem env.informs k code codes quiet first n sent in
      let told : (proxy_answer env s (serve_http net h env s r)).writes
          ≡ early_writes env.informs n ++ ws =
        ap (λ m. (proxy_answer env s m).writes) e
        ∙ ap (λ p. early_writes env.informs n ++ reply_writes p) reply in
      (
        ap recorded_status (told ∙ ap (λ l. l ++ ws) same) ∙ recorded_once (rest ++ ws) code,
        ap sent_status told ∙ IsEarly-early_writes env.informs early n ws ∙ rw ends refl,
      )
