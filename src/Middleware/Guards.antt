-- ===== src/Middleware/Guards.antt =====
-- internal/bootstrap/middleware.go: the order of the middlewares, and what they keep from the handlers.
use Prim.Native.String.{◌++◌ as text_append}
use mathlib.Core.List.{reverse, reverse-cons}
use golancer.Prelude.{
  ℕ, ◌<◌, ◌≡◌, refl, ap, ◌∙◌, ◌≢◌, String, Bool, true, false, not, List, [], ◌∷◌, ◌++◌, leb, lt→ltb,
  length, str_eq, str_eq_ne, str_eq_refl, ◌||◌, Bool-cases, inl, inr, if◌then◌else◌, ◌&&◌, ◌==◌,
}
use golancer.Prelude.Int.{ℤ, pos_part}
use golancer.Prelude.Run.{done}
use golancer.Http.{readable, Request, get, NetLib}
use golancer.Proxy.Handler.{Shared, Handler, Env, error, serve_http, serve_body}
use golancer.Middleware.{
  Write, set_header, write_header, write, flush, hijack, observe_request, Observed, HttpHandler,
  Middleware, record_writes, recorded_status, limited_request, wrap, chain, request_metrics,
  limit_body, bearer_auth, common_middleware, registry_middleware,
}

module _ {S : Type 0} where
  wrap-append :
      (xs ys : List (Middleware S)) (next : HttpHandler S)
      → wrap (xs ++ ys) next ≡ wrap ys (wrap xs next)
  unfolding wrap
  wrap-append [] ys next = refl
  wrap-append (x ∷ xs) ys next = wrap-append xs ys (x next)

  -- The first middleware of a chain is the outermost.
  chain-cons :
      (mw : Middleware S) (mws : List (Middleware S)) (next : HttpHandler S)
      → chain (mw ∷ mws) next ≡ mw (chain mws next)
  unfolding chain wrap
  chain-cons mw mws next =
      ap (λ l. wrap l next) (reverse-cons mw mws) ∙ wrap-append (reverse mws) (mw ∷ []) next

  chain-two : (a b : Middleware S) (next : HttpHandler S) → chain (a ∷ b ∷ []) next ≡ a (b next)
  unfolding chain wrap
  chain-two a b next = chain-cons a (b ∷ []) next ∙ ap a (chain-cons b [] next)

  pub common_middleware_lem :
      (limit : ℤ) (next : HttpHandler S)
      → common_middleware limit next ≡ request_metrics (limit_body limit next)
  unfolding common_middleware
  common_middleware_lem limit next = chain-two request_metrics (limit_body limit) next

  pub registry_middleware_lem :
      (limit : ℤ) (token : String) (next : HttpHandler S)
      → registry_middleware limit token next
        ≡ request_metrics (limit_body limit (bearer_auth token next))
  unfolding registry_middleware
  registry_middleware_lem limit token next =
      chain-two (common_middleware limit) (bearer_auth token) next
      ∙ common_middleware_lem limit (bearer_auth token next)

  -- Where a token is set and the Authorization header is another text than the token with its
  -- prefix, the state behind the registration API is left alone, whatever the handler, the client
  -- gets 401, and the metrics gain exactly one request, unmatched, with 401.
  pub registry_middleware-unauthorized :
      (limit : ℤ) (token : String) (next : HttpHandler S) (s : S) (ms : List Observed) (r : Request)
      → token ≢ ""
      → get "Authorization" r.header ≢ text_append "Bearer " token
      → registry_middleware limit token next s ms r ≡ record {
        state = s;
        metrics = ms ++ record { path = "unmatched"; method = r.method; status = 401 } ∷ [];
        pattern = "";
        writes = set_header "WWW-Authenticate" "Bearer" ∷ write_header 401 ∷ write ∷ [];
        panicked = false;
      }
  unfolding request_metrics limit_body bearer_auth record_writes
  registry_middleware-unauthorized limit token next s ms r set wrong =
      ap (λ f. f s ms r) (registry_middleware_lem limit token next)
      ∙ rw
          (
            str_eq_ne token "" set,
            str_eq_ne (get "Authorization" r.header) (text_append "Bearer " token) wrong,
            str_eq_refl "",
          )
          refl

  -- With the right token, or where none is set, the handler of the registration API runs once, on
  -- the request with its body limited, and then the request is observed.
  pub registry_middleware-authorized :
      (limit : ℤ) (token : String) (next : HttpHandler S) (s : S) (ms : List Observed) (r : Request)
      → (str_eq token "" || str_eq (get "Authorization" r.header) (text_append "Bearer " token))
        ≡ true
      → registry_middleware limit token next s ms r
        ≡ observe_request r (next s ms (limited_request limit r))
  unfolding request_metrics limit_body bearer_auth
  registry_middleware-authorized limit token next s ms r ok =
      ap (λ f. f s ms r) (registry_middleware_lem limit token next)
      ∙ elim (Bool-cases (str_eq token "")) [
        | inl e ↦ rw e refl
        | inr e ↦
            let k : str_eq (get "Authorization" r.header) (text_append "Bearer " token) ≡ true =
              rw e at ok in
            rw (e, k) refl
      ]

-- The status that the client gets: the first that is not informational, and 200 if a write or a flush
-- comes first or none is given. 101 ends the headers like a final status.
abbrev pub is_informational : ℕ → Bool
is_informational code = leb 100 code && leb code 199 && not (code == 101)

unfoldable pub sent_status : List Write → ℕ
sent_status [] = 200
sent_status (set_header k v ∷ ws) = sent_status ws
sent_status (write_header code ∷ ws) = if is_informational code then sent_status ws else code
sent_status (write ∷ ws) = 200
sent_status (flush ∷ ws) = 200
sent_status (hijack code ∷ ws) = code

-- Before an informational status, a flush or a hijack comes a final status or a write.
unfoldable pub IsPlain : List Write → Type 0
IsPlain [] = Unit
IsPlain (set_header k v ∷ ws) = IsPlain ws
IsPlain (write_header code ∷ ws) = is_informational code ≡ false
IsPlain (write ∷ ws) = Unit
IsPlain (flush ∷ ws) = ⊥
IsPlain (hijack code ∷ ws) = ⊥

pub recorded_once :
    (ws : List Write) (n : ℕ)
    → (record_writes (record { status = n; wrote_header = true }) ws).status ≡ n
unfolding record_writes
recorded_once [] n = refl
recorded_once (set_header k v ∷ ws) n = recorded_once ws n
recorded_once (write_header c ∷ ws) n = recorded_once ws n
recorded_once (write ∷ ws) n = recorded_once ws n
recorded_once (flush ∷ ws) n = recorded_once ws n
recorded_once (hijack c ∷ ws) n = recorded_once ws n

-- For every sequence of calls on the writer in which a final status or a write comes before any
-- informational status, flush and hijack, the metrics count the status that the client gets.
pub recorded_status-sent_status :
    (ws : List Write) → IsPlain ws → recorded_status ws ≡ sent_status ws
unfolding record_writes sent_status IsPlain
recorded_status-sent_status [] h = refl
recorded_status-sent_status (set_header k v ∷ ws) h = recorded_status-sent_status ws h
recorded_status-sent_status (write_header c ∷ ws) h = rw h (recorded_once ws c)
recorded_status-sent_status (write ∷ ws) h = recorded_once ws 200
recorded_status-sent_status (flush ∷ ws) h = elim h [ ]
recorded_status-sent_status (hijack c ∷ ws) h = elim h [ ]

-- An informational status that comes first is counted by the metrics in place of the final one,
-- which the client gets.
pub recorded_status-early :
    (code final : ℕ) (ws : List Write)
    → is_informational code ≡ true
    → is_informational final ≡ false
    → (recorded_status (write_header code ∷ write_header final ∷ ws) ≡ code)
      × (sent_status (write_header code ∷ write_header final ∷ ws) ≡ final)
unfolding record_writes sent_status
recorded_status-early code final ws early late = (recorded_once ws code, rw (early, late) refl)

module _ {Url Addr Prefix : Type 0} (net : NetLib Addr Prefix) (h : Handler Url Prefix)
    (env : Env Url) where
  -- A request whose body is longer than the limit is answered with 400 by the proxy behind the
  -- limit, and no backend sees it: nothing is selected, sent or counted.
  pub limited_request-serve_http :
      (limit : ℤ) (bytes : List ℕ) (s : Shared Url) (r : Request)
      → r.body ≡ readable bytes
      → pos_part limit < length bytes
      → serve_http net h env s (limited_request limit r)
        ≡ done (record { shared = s; sent = []; reply = error 400 "failed to read request body" })
  unfolding serve_http serve_body
  limited_request-serve_http limit bytes s r is_body long =
      rw (is_body, lt→ltb (pos_part limit) (length bytes) long) refl
