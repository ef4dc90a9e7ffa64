-- ===== src/Config/Sample.antt =====
-- internal/config: a configuration with defaults only, and instance IDs for its backends.
use golancer.Prelude.{ℕ, zero, suc, ◌≡◌, refl, String, Option, some, [], ◌∷◌, str_eq, ap}
use golancer.Prelude.Int.{ℤ, pos}
use golancer.Http.{has_char}
use golancer.Config.{
  Config, ServerSettings, validate, check_url, check_backends, check_duration, check_nonneg,
  check_server, check_servers, check_trusted, parse_prefix,
}
use golancer.Fixtures.{text_urls, text_net}

abbrev pub no_server : ServerSettings
no_server = record { port = pos 0; read_timeout = ""; write_timeout = "" }

-- Every duration is one second.
abbrev pub one_second : String → Option ℤ
one_second s = some (pos 1_000_000_000)

-- Two backends, a trusted proxy, and nothing else that is set.
abbrev pub plain : Config
plain = record {
  backends = record { url = "http://a"; weight = 0 } ∷ record { url = "http://b"; weight = 7 } ∷ [];
  balancer = record { strategy = ""; max_retries = pos 2; server = no_server };
  health = record {
    interval = "1s";
    healthy_threshold = pos 0;
    unhealthy_threshold = pos 0;
    max_concurrent = pos 0;
    client = record { timeout = ""; path = "" };
  };
  discovery = record { mode = ""; registry_server = no_server };
  metrics_server = no_server;
  proxy = record { body_limit = pos 0; trusted_proxies = "10.0.0.1" ∷ [] };
}

pub plain_valid : validate text_net text_urls one_second plain ≡ []
unfolding validate check_url check_backends check_duration check_nonneg check_servers check_server
    check_trusted parse_prefix has_char str_eq
plain_valid = refl

-- An endless supply of different IDs: words of one letter of each length.
abbrev pub word : ℕ → String
word zero = ""
word (suc n) = String.◌∷◌ "x" (word n)

abbrev tail_of : String → String
tail_of String.[] = String.[]
tail_of (String.◌∷◌ c s) = s

pub word_inj : (i j : ℕ) → word i ≡ word j → i ≡ j
word_inj zero zero e = refl
word_inj zero (suc j) e = cc
word_inj (suc i) zero e = cc
word_inj (suc i) (suc j) e = ap suc (word_inj i j (ap tail_of e))
