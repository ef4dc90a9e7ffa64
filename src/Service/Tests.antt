-- ===== src/Service/Tests.antt =====
-- internal/bootstrap/server.go: requests at the servers of a configuration with two backends.
use golancer.Registry.{list_backends}
use golancer.Prelude.{
  ◌^◌, ◌<◌, length, ◌-◌, ◌≡◌, refl, ◌≢◌, String, true, false, Option, none, some, List, [], ◌∷◌,
  ◌++◌, All, arith, map, str_eq, if◌then◌else◌,
}
use golancer.Prelude.Int.{pos}
use text.Mathlib.TextEquality.{eq_iff}
use golancer.Domain.{new_backend}
use golancer.Registry.Invariant.{entries}
use golancer.Config.Load.{domain_backends, proxy_body_limit}
use golancer.Http.{Body, Request, readable, broken, no_body}
use golancer.Prelude.{ℕ, zero, suc}
use golancer.Prelude.Run.{done}
use golancer.Proxy.Handler.{
  Shared, Env, Handler, Served, Transport, answered, failed, proxied, rotate_balancer, connect,
  serve_http, serve_body, attempts, proxy_once,
}
use golancer.Handlers.{RegisterBackendRequest}
use golancer.Config.Selector.{IsGood}
use golancer.Config.Sample.{plain, plain_valid, one_second, word, word_inj}
use golancer.Middleware.{
  write_header, write, recorded_status, Observed, route_label, common_middleware,
  registry_middleware,
}
use golancer.Middleware.Guards.{IsPlain, sent_status, is_informational}
use golancer.Bootstrap.{servers, start_registry_server, start_balancer_server}
use golancer.System.{State, Reach, here}
use golancer.System.Start.{start, configured}
use golancer.Service.{World, serve_mux, http_error, proxy_answer}
use golancer.Service.Mounted.{IsCountedOnce}
use golancer.Service.Servers.{servers-Reach}
use golancer.Service.Registered.{registry_server-counted}
use golancer.Service.Balanced.{balancer_server-counted}
use golancer.Service.Early.{proxy_answer-early}
use golancer.Service.Limited.{balancer_server-limited}
use golancer.Config.{Config}
use golancer.Fixtures.{text_urls, text_net, three, three-IsValid}

abbrev decode : Body → Option RegisterBackendRequest
decode no_body = none
decode (readable bs) = some (record { url = "http://d"; weight = 0 })
decode (broken bs) = none

-- The mux finds a route by the method alone, and every backend answers.
abbrev world : World String
world = record {
  env = record {
    cancelled = λ k. false;
    forward = λ k s p out. (s, answered 204);
    informs = λ k. [];
    stripped = λ h. h;
  };
  id = "d";
  matches = λ ps r.
      if str_eq r.method "POST"
      then some ("POST /backends", "")
      else if str_eq r.method "GET"
      then some ("/", "")
      else none;
  refuse = λ r. ("", write_header 405 ∷ write ∷ []);
  expose = λ ms. write ∷ [];
}

abbrev asking : String → Request
asking method = record {
  method = method;
  host = "golancer";
  remote_addr = "10.0.0.1";
  tls = false;
  header = ("Authorization", "Bearer secret" ∷ []) ∷ [];
  body = readable (1 ∷ 2 ∷ []);
}

refuse_plain : (r : Request) → IsPlain (world.refuse r).1
unfolding IsPlain
refuse_plain r = refl

no_word : ◌≢◌ {A = String} "" "d"
no_word = ground (arith, eq_iff "" "d")

x_not_d : ◌≢◌ {A = String} "x" "d"
x_not_d = ground (arith, eq_iff "x" "d")

y_not_d : ◌≢◌ {A = String} "y" "d"
y_not_d = ground (arith, eq_iff "y" "d")

z_not_d : ◌≢◌ {A = String} "z" "d"
z_not_d = ground (arith, eq_iff "z" "d")

start_unused :
    All (λ b. b.instance_id ≢ world.id) (entries (start text_urls word plain).shared.registry)
unfolding domain_backends new_backend
start_unused = (no_word, (x_not_d, tt))

start_few : length (list_backends (start text_urls word plain).shared.registry) < 2 ^ 31
unfolding domain_backends
start_few = omega arith

servers-Reach_example :
    All
      (λ v.
        (ms : List Observed) (r : Request)
        → let o = v.handler (start text_urls word plain).shared ms r in
          ((t : State String) × Reach text_urls decode
              (configured text_net (λ n. n - 1) plain)
              (start text_urls word plain)
              t
            × (t.shared ≡ o.state))
          × IsGood o.state
          × IsCountedOnce ms r o)
      (servers text_net text_urls one_second
        (λ n. n - 1)
        (serve_mux text_net text_urls decode world)
        (λ i. "")
        "secret"
        plain)
servers-Reach_example =
    servers-Reach text_net text_urls one_second decode word word_inj (λ n. n - 1)
      (λ n p. omega arith) (λ i. "") world plain plain_valid (omega arith) "secret"
      (start text_urls word plain) here (λ k s p out i. (s, here, refl, i)) start_unused start_few

abbrev three_shared : Shared String
three_shared = record { registry = three; current = 2 }

-- The IDs x, y and z are not the one that is drawn.
id_unused : All (λ b. b.instance_id ≢ "d") (map three.heap.cell (0 ∷ 1 ∷ 2 ∷ []))
id_unused = (x_not_d, (y_not_d, (z_not_d, tt)))

registry_server-counted_example :
    let v =
      start_registry_server text_net text_urls one_second
        (λ n. n - 1)
        (serve_mux text_net text_urls decode world)
        (λ i. "")
        (registry_middleware (pos 10) "secret")
        plain in
    let o = v.handler three_shared [] (asking "POST") in
    (o.panicked ≡ false)
    × (o.metrics
        ≡ []
          ++ record { path = route_label o.pattern; method = "POST"; status = sent_status o.writes }
            ∷ [])
registry_server-counted_example =
    registry_server-counted text_net text_urls one_second decode (λ n. n - 1) (λ i. "") world plain
      (pos 10) "secret" three_shared [] (asking "POST") three-IsValid
      ((omega arith, omega arith), ((omega arith, omega arith), ((omega arith, omega arith), tt)))
      id_unused refuse_plain

balancer_server-counted_example :
    let v =
      start_balancer_server text_net text_urls one_second
        (λ n. n - 1)
        (serve_mux text_net text_urls decode world)
        (λ i. "")
        (common_middleware (pos 10))
        plain in
    let o = v.handler three_shared [] (asking "GET") in
    (o.panicked ≡ false)
    × (o.metrics
        ≡ []
          ++ record { path = route_label o.pattern; method = "GET"; status = sent_status o.writes }
            ∷ [])
balancer_server-counted_example =
    balancer_server-counted text_net text_urls one_second decode (λ n. n - 1) (λ i. "") world plain
      three_shared (λ n p. omega arith) (λ k s p out good. good) (λ k s p out. refl) (λ k. refl)
      refuse_plain
      (record {
        valid = three-IsValid;
        weights = (
          (omega arith, omega arith),
          ((omega arith, omega arith), ((omega arith, omega arith), tt)),
        );
        few = omega arith;
        counter = omega arith;
      })
      (pos 10) [] (asking "GET")

-- A limit of one byte, and a request with two.
abbrev strict : Config
strict = record plain { proxy = record { body_limit = pos 1; trusted_proxies = [] } }

balancer_server-limited_example :
    let v =
      start_balancer_server text_net text_urls one_second
        (λ n. n - 1)
        (serve_mux text_net text_urls decode world)
        (λ i. "")
        (common_middleware (proxy_body_limit strict))
        strict in
    v.handler three_shared [] (asking "GET") ≡ record {
      state = three_shared;
      metrics = [] ++ record { path = "/"; method = "GET"; status = 400 } ∷ [];
      pattern = "/";
      writes = http_error 400;
      panicked = false;
    }
unfolding proxy_body_limit str_eq
balancer_server-limited_example =
    balancer_server-limited text_net text_urls one_second decode (λ n. n - 1) (λ i. "") world strict
      (1 ∷ 2 ∷ []) "" three_shared [] (asking "GET") refl (omega arith) refl

-- The first attempt fails after Early Hints, and the second is answered.
abbrev third_backend : Handler String String
third_backend = record {
  balancer = rotate_balancer (λ s. done (s.current, some 2));
  max_retries = pos 2;
  trusted = [];
}

abbrev transport : ℕ → Transport
transport zero = failed
transport (suc k) = answered 200

abbrev hints : ℕ → List ℕ
hints zero = 103 ∷ []
hints (suc k) = []

abbrev hinting : Env String
hinting = record {
  cancelled = λ k. false;
  forward = λ k s p out. (three_shared, transport k);
  informs = hints;
  stripped = λ h. h;
}

abbrev hinted : Served String
hinted = record {
  shared = connect three_shared 2 (2 ^ 32 - 1);
  sent = 2 ∷ 2 ∷ [];
  reply = proxied 200;
}

hinted_lem : serve_http text_net third_backend hinting three_shared (asking "GET") ≡ done hinted
unfolding serve_http serve_body attempts proxy_once str_eq
hinted_lem = refl

hints_early : (j : ℕ) → All (λ c. is_informational c ≡ true) (hints j)
hints_early zero = (refl, tt)
hints_early (suc j) = tt

proxy_answer-early_example :
    let ws =
      (proxy_answer hinting three_shared
        (serve_http text_net third_backend hinting three_shared (asking "GET"))).writes in
    (recorded_status ws ≡ 103) × (sent_status ws ≡ 200)
proxy_answer-early_example =
    proxy_answer-early text_net third_backend hinting 0 103 200 [] three_shared (asking "GET")
      hinted hints_early (λ j lt. absurd (omega arith)) refl hinted_lem (omega arith) refl refl
