-- ===== src/Proxy/Tests.antt =====
-- internal/proxy/proxy.go: a handler over three backends whose first attempt reaches no backend.
use golancer.Prelude.{
  List, ℕ, zero, suc, ◌+◌, ◌-◌, ◌^◌, ◌≤◌, ◌<◌, ◌≡◌, refl, ◌≢◌, String, true, false, Option, none,
  some, [], ◌∷◌, arith, length, str_eq,
}
use golancer.Prelude.Int.{pos}
use golancer.Prelude.Run.{Run, done, ◌>>=◌}
use mathlib.Core.List.{flat_map}
use golancer.Domain.{Ptr}
use golancer.Http.{Request, readable, split, trim_space, trim_left, trim_right}
use golancer.Proxy.{client_ip, hops, trusts}
use golancer.Proxy.Handler.{
  Shared, Handler, Env, Served, Outbound, Transport, answered, failed, proxied, error, Reply,
  rotate_balancer, connect, rounds, max_retries_for, serve_http, serve_body, attempts, proxy_once,
}
use golancer.Proxy.Serve.{Keeps, count_of, serve_http-total, serve_http-balanced}
use golancer.Proxy.Failover.{serve_http-failover}
use golancer.Proxy.{set_forwarded}
use golancer.Http.{values}
use golancer.Proxy.Forwarded.{set_forwarded-direct}
use golancer.Proxy.ClientIp.{client_ip-unforgeable}
use golancer.Fixtures.{three, text_net}

abbrev shared : Shared String
shared = record { registry = three; current = 0 }

-- A selector that picks the third backend.
abbrev handler : Handler String String
handler = record {
  balancer = rotate_balancer (λ s. done (s.current, some 2));
  max_retries = pos 2;
  trusted = "10.0.0.1" ∷ "10.0.0.2" ∷ [];
}

-- The first attempt fails, and the others are answered.
abbrev outcome : ℕ → Transport
outcome zero = failed
outcome (suc k) = answered 200

abbrev env : Env String
env = record {
  cancelled = λ k. false;
  forward = λ k s p out. (s, outcome k);
  informs = λ k. [];
  stripped = λ h. h;
}

abbrev request : Request
request = record {
  method = "GET";
  host = "golancer";
  remote_addr = "10.0.0.1";
  tls = false;
  header = ("X-Forwarded-For", "1.2.3.4, 9.9.9.9 ,10.0.0.2" ∷ []) ∷ [];
  body = readable [];
}

-- The third backend has a URL.
abbrev Good : Shared String → Type 0
Good s = (s.registry.heap.cell 2).url ≡ some "http://c"

connect-url_two : (s : Shared String) (p : Ptr) (d : ℕ) → Good s → Good (connect s p d)
connect-url_two s p d good = ground (arith, good)

keeps : Keeps text_net handler env Good
keeps = record {
  selects = λ s r good. (s.current, some 2, refl, good, λ p e. picked s p e good);
  cycles = λ k s p out good has.
      connect-url_two (connect s p 1) p (2 ^ 32 - 1) (connect-url_two s p 1 good);
}
  where
    picked :
        (s : Shared String) (p : Ptr)
        → ◌≡◌ {A = Option Ptr} (some 2) (some p)
        → Good s
        → (s.registry.heap.cell p).url ≢ none
    picked s p e good absent = cc

serve_http-total_example :
    (v : Served String) × (serve_http text_net handler env shared request ≡ done v)
    × Good v.shared
    × (length v.sent ≤ rounds (max_retries_for handler request))
serve_http-total_example = serve_http-total text_net handler env Good keeps shared request refl

serve_http-balanced_example :
    (v : Served String) × (serve_http text_net handler env shared request ≡ done v)
    × (count_of v.shared 2 ≡ count_of shared 2)
serve_http-balanced_example =
    serve_http-balanced text_net handler env Good keeps 2 (λ k s p out. refl) shared request refl
      (omega arith)

serve_http-failover_example :
    (v : Served String) × (serve_http text_net handler env shared request ≡ done v)
    × (v.reply ≡ proxied 200)
    × (length v.sent ≡ 1 + 1)
unfolding str_eq
serve_http-failover_example =
    serve_http-failover text_net handler env Good keeps (λ s r c good e. cc) 1 200 (λ k le. refl)
      first_fails (λ s p out. refl) shared request refl (λ e. cc) (omega arith)
  where
    first_fails :
        (k : ℕ) (s : Shared String) (p : Ptr) (out : Outbound String) → k < 1 → outcome k ≡ failed
    first_fails zero s p out lt = refl
    first_fails (suc k) s p out lt = absurd (omega arith)

inside : trusts text_net handler.trusted (some "10.0.0.1") ≡ true
unfolding str_eq
inside = refl

inside₂ : trusts text_net handler.trusted (some "10.0.0.2") ≡ true
unfolding str_eq
inside₂ = refl

outside : trusts text_net handler.trusted (some "9.9.9.9") ≡ false
unfolding str_eq
outside = refl

split_hops : hops request ≡ "1.2.3.4" ∷ " 9.9.9.9 " ∷ "10.0.0.2" ∷ []
unfolding split str_eq flat_map
split_hops = refl

trimmed : ◌≡◌ {A = Option String} (some (trim_space " 9.9.9.9 ")) (some "9.9.9.9")
unfolding trim_space trim_left trim_right
trimmed = refl

kept : ◌≡◌ {A = Option String} (some (trim_space "10.0.0.2")) (some "10.0.0.2")
unfolding trim_space trim_left trim_right
kept = refl

-- The client claims to be 1.2.3.4; the trusted hop 10.0.0.2 saw it at 9.9.9.9.
client_ip-unforgeable_example : client_ip text_net handler.trusted request ≡ "9.9.9.9"
client_ip-unforgeable_example =
    client_ip-unforgeable text_net handler.trusted request "10.0.0.1" "9.9.9.9" ("1.2.3.4" ∷ [])
      ("10.0.0.2" ∷ []) " 9.9.9.9 " refl inside split_hops trimmed outside
      (("10.0.0.2", kept, inside₂), tt)

abbrev outcome_of : Run (Served String) → Run (List Ptr × Reply)
outcome_of m = m >>= λ v. done (v.sent, v.reply)

-- A POST is not tried again.
serve_http_post :
    outcome_of (serve_http text_net handler env shared (record request { method = "POST" }))
    ≡ done (2 ∷ [], error 503 "no healthy backend could serve the request")
unfolding serve_http serve_body attempts proxy_once str_eq
serve_http_post = refl

-- The client is no trusted proxy here, and its own header is stripped.
set_forwarded-direct_example :
    let sent = set_forwarded text_net [] request [] in
    (values "X-Forwarded-For" sent ≡ "10.0.0.1" ∷ [])
    × (values "X-Forwarded-Host" sent ≡ "golancer" ∷ [])
    × (values "X-Forwarded-Proto" sent ≡ "http" ∷ [])
set_forwarded-direct_example = set_forwarded-direct text_net [] request [] "10.0.0.1" refl refl refl
