-- ===== src/System/Tests.antt =====
-- internal/bootstrap/runner.go: a run of the parts after a start with two backends.
use golancer.Prelude.{
  inl, ◌-◌, ◌*◌, ◌%◌, ◌^◌, ◌≤◌, ◌≡◌, refl, ◌≢◌, String, true, false, Option, none, some, [], ◌∷◌,
  All, In, arith, str_eq,
}
use golancer.Prelude.Int.{pos}
use golancer.Prelude.Run.{done}
use golancer.Domain.{Ptr, new_backend}
use golancer.Registry.{list_backends, list_healthy_backends, set_healthy_in, registry_set_healthy}
use golancer.Balancer.{least_connections, weight}
use golancer.Prober.{Prober, record_result, success}
use golancer.Http.{Body, Request, no_body}
use golancer.Proxy.Handler.{Balancer, connect}
use golancer.Proxy.Serve.{count_of}
use golancer.Config.Load.{domain_backends, proxy_selector}
use golancer.Config.Selector.{IsGood, proxy_selector-Routes}
use golancer.Config.Sample.{plain, plain_valid, one_second, word, word_inj}
use golancer.Handlers.{RegisterBackendRequest}
use golancer.System.{State, occurrences, with_registry, Reach, probed, began, finished, here, next}
use golancer.System.Invariant.{Reach-IsCounted}
use golancer.System.Sticky.{proxy_selector-sticky}
use golancer.Balancer.RoundRobin.{IsRoutable}
use golancer.System.Start.{start, configured, start-IsCounted, start-Reach, start-least_connections}
use golancer.Fixtures.{text_urls, text_net}

abbrev undecodable : Body → Option RegisterBackendRequest
undecodable body = none

-- The first success of a seeding round.
abbrev seeding : Prober
seeding = record {
  cfg = record {
    interval = pos 1;
    timeout = pos 1;
    path = "";
    healthy_threshold = pos 1;
    unhealthy_threshold = pos 3;
    max_concurrent = pos 0;
  };
  streak = [];
}

abbrev s₀ : State String
s₀ = start text_urls word plain

abbrev s₁ : State String
s₁ = with_registry s₀ (record_result s₀.shared.registry seeding 0 true true).0

abbrev s₂ : State String
s₂ = with_registry s₁ (record_result s₁.shared.registry seeding 1 true true).0

abbrev s₃ : State String
s₃ = record { shared = connect s₂.shared 0 1; in_flight = 0 ∷ [] }

-- Both backends are admitted, and a request is under way on the first.
has_url : (s₂.shared.registry.heap.cell 0).url ≢ none
unfolding domain_backends new_backend record_result success registry_set_healthy set_healthy_in
    str_eq
has_url e = cc

both_healthy : list_healthy_backends s₃.shared.registry ≡ 0 ∷ 1 ∷ []
unfolding domain_backends new_backend record_result success registry_set_healthy set_healthy_in
    str_eq
both_healthy = refl

reached : Reach text_urls undecodable (configured text_net (λ n. n - 1) plain) s₀ s₃
reached =
    next (next (next here (probed s₀ seeding 0 true true)) (probed s₁ seeding 1 true true))
      (began s₂ 0 has_url)

start-Reach_example :
    IsGood s₃.shared × ((q : Ptr) → count_of s₃.shared q ≡ occurrences q (0 ∷ []) % 2 ^ 32)
start-Reach_example =
    start-Reach text_net text_urls one_second undecodable word word_inj (λ n. n - 1)
      (λ n p. omega arith) plain plain_valid (omega arith) reached

start-least_connections_example :
    (q : Ptr) × (least_connections s₃.shared.registry ≡ some q)
    × In q (0 ∷ 1 ∷ [])
    × All
        (λ x.
          occurrences q (0 ∷ []) * weight s₃.shared.registry.heap x
          ≤ occurrences x (0 ∷ []) * weight s₃.shared.registry.heap q)
        (0 ∷ 1 ∷ [])
start-least_connections_example =
    start-least_connections text_net text_urls one_second undecodable word word_inj (λ n. n - 1)
      (λ n p. omega arith) plain plain_valid (omega arith) reached (omega arith) both_healthy

abbrev request : Request
request = record {
  method = "GET";
  host = "golancer";
  remote_addr = "10.0.0.1";
  tls = false;
  header = [];
  body = no_body;
}

-- A request of the client 10.0.0.1 begins and ends between two others.
abbrev sticky : Balancer String
sticky = proxy_selector text_net (λ n. n - 1) [] "ip-hash"

abbrev s₄ : State String
s₄ = record { shared = connect s₂.shared 1 1; in_flight = 1 ∷ [] }

abbrev s₅ : State String
s₅ = record { shared = connect s₄.shared 1 (2 ^ 32 - 1); in_flight = [] }

has_url_one : (s₂.shared.registry.heap.cell 1).url ≢ none
unfolding domain_backends new_backend record_result success registry_set_healthy set_healthy_in
    str_eq
has_url_one e = cc

abbrev between : Reach text_urls undecodable sticky s₂ s₅
between = next (next here (began s₂ 1 has_url_one)) (finished s₄ 1 (inl refl))

admitted_lem : IsGood s₂.shared
admitted_lem =
    (Reach-IsCounted text_urls undecodable sticky
      (λ s q good.
        proxy_selector-Routes text_net (λ n. n - 1) [] "ip-hash" s q (λ n p. omega arith) good)
      (start-IsCounted text_urls word text_net one_second plain plain_valid (omega arith) word_inj)
      (next (next here (probed s₀ seeding 0 true true)) (probed s₁ seeding 1 true true))).good

proxy_selector-sticky_example :
    (o : Option Ptr) × (proxy_selector text_net (λ n. n - 1) [] "ip-hash" s₂.shared request
      ≡ done (s₂.shared.current, o))
    × (proxy_selector text_net (λ n. n - 1) [] "ip-hash" s₅.shared request
        ≡ done (s₅.shared.current, o))
    × IsRoutable s₂.shared.registry.heap (list_backends s₂.shared.registry) o
proxy_selector-sticky_example =
    proxy_selector-sticky text_net text_urls undecodable (λ n. n - 1) [] (λ n p. omega arith)
      between ((tt, tt), tt) admitted_lem request request refl
