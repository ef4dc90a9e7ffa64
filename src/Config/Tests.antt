-- ===== src/Config/Tests.antt =====
-- internal/config: a configuration with defaults only, and two that are refused.
use golancer.Prelude.{
  arith, length, ◌-◌, ◌%◌, ◌^◌, ◌≤◌, false, if◌then◌else◌, ◌==◌, ◌≡◌, refl, ◌≢◌, String, [], ◌∷◌,
  str_eq,
}
use golancer.Prelude.Int.{pos}
use golancer.Prober.{with_defaults}
use golancer.Http.{has_char}
use golancer.Config.{
  port_in_use, validate, check_url, check_backends, check_duration, check_nonneg, check_server,
  check_servers, check_trusted, parse_prefix, port_or, default_balancer_port, default_registry_port,
  default_metrics_port,
}
use golancer.Config.Load.{health_config}
use golancer.Config.Ports.{IsPort, validate-ports}
use golancer.Config.Startup.{IsPositive, health_config-IsPositive}
use golancer.Prelude.Run.{done}
use golancer.Http.{Request, no_body}
use golancer.Proxy.Handler.{
  Shared, Env, Served, answered, failed, serve_http, rounds, max_retries_for,
}
use golancer.Config.Selector.{IsGood}
use golancer.Config.Serving.{configured_handler, serve_http-IsGood}
use golancer.Config.Sample.{no_server, one_second, plain, plain_valid}
use golancer.Fixtures.{text_urls, text_net, three, three-IsValid}

validate-ports_example :
    IsPort (port_or no_server default_balancer_port)
    × IsPort (port_or no_server default_registry_port)
    × IsPort (port_or no_server default_metrics_port)
    × (port_or no_server default_balancer_port ≢ port_or no_server default_registry_port)
    × (port_or no_server default_balancer_port ≢ port_or no_server default_metrics_port)
    × (port_or no_server default_registry_port ≢ port_or no_server default_metrics_port)
validate-ports_example = validate-ports text_net text_urls one_second plain plain_valid

health_config-IsPositive_example :
    let cfg = with_defaults (health_config one_second plain) in
    IsPositive cfg.interval
    × IsPositive cfg.timeout
    × IsPositive cfg.healthy_threshold
    × IsPositive cfg.unhealthy_threshold
health_config-IsPositive_example =
    health_config-IsPositive text_net text_urls one_second plain plain_valid

-- Explicit ports that collide with a default are refused.
validate_collision :
    validate text_net text_urls one_second
      (record plain { metrics_server = record no_server { port = pos 8081 } })
    ≡ port_in_use "observability.metrics.server" (pos 8081) "discovery.registry.server" ∷ []
unfolding validate check_url check_backends check_duration check_nonneg check_servers check_server
    check_trusted parse_prefix has_char str_eq
validate_collision = refl

abbrev three_shared : Shared String
three_shared = record { registry = three; current = 2 ^ 32 - 1 }

three-IsGood : IsGood three_shared
three-IsGood = record {
  valid = three-IsValid;
  weights =
      ((omega arith, omega arith), ((omega arith, omega arith), ((omega arith, omega arith), tt)));
  few = omega arith;
  counter = omega arith;
}

abbrev request : Request
request = record {
  method = "GET";
  host = "golancer";
  remote_addr = "10.0.0.1";
  tls = false;
  header = [];
  body = no_body;
}

-- Every second attempt is answered.
abbrev env : Env String
env = record {
  cancelled = λ k. false;
  forward = λ k s p out. (s, if k % 2 == 0 then failed else answered 200);
  informs = λ k. [];
  stripped = λ h. h;
}

serve_http-IsGood_example :
    let h = configured_handler text_net (λ n. n - 1) [] "least-connections" (pos 2) env in
    (v : Served String) × (serve_http text_net h env three_shared request ≡ done v)
    × IsGood v.shared
    × (length v.sent ≤ rounds (max_retries_for h request))
serve_http-IsGood_example =
    serve_http-IsGood text_net (λ n. n - 1) [] "least-connections" (pos 2) env
      (λ n pos. omega arith) (λ k s p out good. good) three_shared request three-IsGood
