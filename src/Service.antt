-- ===== src/Service.antt =====
-- internal/handlers, internal/proxy/proxy.go and internal/server/server.go together: a request at one
-- of the servers, from its middleware to what is written and to the state that is left.
pub mod Requests
pub mod Mounted
pub mod Servers
pub mod Answers
pub mod Registered
pub mod Proxied
pub mod Balanced
pub mod Limited
pub mod Early
mod Tests
use golancer.Prelude.{
  ℕ, zero, suc, length, String, Bool, true, false, Option, none, some, List, [], ◌∷◌, ◌++◌, map,
  str_eq, if◌then◌else◌,
}
use golancer.Prelude.Run.{Run, done, panic}
use golancer.Domain.{UrlLib}
use golancer.Registry.{Registry}
use golancer.Http.{Body, Request, NetLib}
use golancer.Proxy.Handler.{
  Shared, Env, Reply, nothing, error, proxied, switched, broken_off, Served, serve_http,
}
use golancer.Handlers.{
  RegisterBackendRequest, ApiReply, listed, created, removed, bad_request, missing_id, conflict,
  not_found, status_of, list, register, deregister, readyz,
}
use golancer.Middleware.{
  Write, set_header, write_header, write, hijack, Observed, Outcome, HttpHandler,
}
use golancer.Bootstrap.{
  Endpoint, prometheus, backends_list, backends_register, backends_deregister, health_live,
  health_ready, proxy_all,
}

-- `http.Error`; the headers that it sets are left out.
abbrev pub http_error : ℕ → List Write
http_error code = write_header code ∷ write ∷ []

-- `writeJSON`
abbrev pub write_json : ℕ → List Write
write_json status = set_header "Content-Type" "application/json" ∷ write_header status ∷ write ∷ []

-- `healthz`, and `readyz` on a registry.
abbrev pub healthz : List Write
healthz = write_json 200

abbrev pub readyz_writes : {Url : Type 0} → Registry Url → List Write
readyz_writes r = write_json (readyz r).0

-- What `list`, `register` and `deregister` write.
abbrev pub api_writes : ApiReply → List Write
api_writes (listed bs) = write_json (status_of (listed bs))
api_writes (created id) = write_json (status_of (created id))
api_writes removed = write_header (status_of removed) ∷ []
api_writes (bad_request e) = http_error (status_of (bad_request e))
api_writes missing_id = http_error (status_of missing_id)
api_writes conflict = http_error (status_of conflict)
api_writes (not_found id) = http_error (status_of (not_found id))

-- What the reverse proxy passes on while `n` attempts are under way, from the first to the last: it
-- writes each informational status of a backend, also where the attempt fails later.
unfoldable pub early_writes : (ℕ → List ℕ) → ℕ → List Write
early_writes informs zero = []
early_writes informs (suc n) = early_writes informs n ++ map write_header (informs n)

-- What `ServeHTTP` writes at its end. Of an answer that the reverse proxy passes on, the headers are
-- left out. For an upgrade it hijacks the connection and answers on it.
abbrev pub reply_writes : Reply → List Write
reply_writes nothing = []
reply_writes (error code text) = http_error code
reply_writes (proxied status) = write_header status ∷ write ∷ []
reply_writes (switched status) = hijack status ∷ []
reply_writes (broken_off status) = write_header status ∷ write ∷ []

abbrev pub is_broken_off : Reply → Bool
is_broken_off nothing = false
is_broken_off (error code text) = false
is_broken_off (proxied status) = false
is_broken_off (switched status) = false
is_broken_off (broken_off status) = true

-- What a handler leaves.
pub record Answer (Url : Type 0) : Type 0 where
  pub shared : Shared Url
  pub writes : List Write
  pub panicked : Bool

-- Where one request finds itself: what `env` says for the proxy, the instance ID that is drawn if it
-- registers a backend, the pattern that net/http chooses and the value of `{instanceID}`, the pattern
-- that it sets and what it writes where it answers by itself (for a path or a method without a route,
-- or to redirect to a cleaned path), and what promhttp writes.
pub record World (Url : Type 0) : Type 0 where
  pub env : Env Url
  pub id : String
  pub matches : List String → Request → Option (String × String)
  pub refuse : Request → String × List Write
  pub expose : List Observed → List Write

module _ {Url : Type 0} where
  abbrev pub answer : Shared Url → List Write → Answer Url
  answer s ws = record { shared = s; writes = ws; panicked = false }

  -- net/http recovers from a panic of a handler. What the handler had done till then is left out.
  abbrev pub api_answer : Shared Url → Run (Registry Url × ApiReply) → Answer Url
  api_answer s (done (r, reply)) = answer (record s { registry = r }) (api_writes reply)
  api_answer s (panic e) = record { shared = s; writes = []; panicked = true }

  abbrev pub proxy_answer : Env Url → Shared Url → Run (Served Url) → Answer Url
  proxy_answer env s (done v) = record {
    shared = v.shared;
    writes = early_writes env.informs (length v.sent) ++ reply_writes v.reply;
    panicked = is_broken_off v.reply;
  }
  proxy_answer env s (panic e) = record { shared = s; writes = []; panicked = true }

  abbrev pub outcome_of : List Observed → String → Answer Url → Outcome (Shared Url)
  outcome_of ms pattern a = record {
    state = a.shared;
    metrics = ms;
    pattern = pattern;
    writes = a.writes;
    panicked = a.panicked;
  }

module _ {Url Addr Prefix : Type 0} (net : NetLib Addr Prefix) (urls : UrlLib Url)
    (decode : Body → Option RegisterBackendRequest) (world : World Url) where
  -- The handlers behind the routes, with the value of `{instanceID}`.
  abbrev pub serve_endpoint :
      Endpoint Url Prefix → String → Shared Url → List Observed → Request → Answer Url
  serve_endpoint (prometheus timeout) value s ms r = answer s (world.expose ms)
  serve_endpoint backends_list value s ms r = answer s (api_writes (list urls s.registry))
  serve_endpoint backends_register value s ms r =
      api_answer s (register urls decode s.registry world.id r.body)
  serve_endpoint backends_deregister value s ms r = api_answer s (deregister s.registry value)
  serve_endpoint health_live value s ms r = answer s healthz
  serve_endpoint health_ready value s ms r = answer s (readyz_writes s.registry)
  serve_endpoint (proxy_all h) value s ms r =
      proxy_answer world.env s (serve_http net h world.env s r)

  -- The handler that is mounted at a pattern; none answers for a pattern that nobody mounted.
  abbrev pub serve_pattern :
      List (String × Endpoint Url Prefix) → String → String → HttpHandler (Shared Url)
  serve_pattern [] pattern value s ms r =
      outcome_of ms (world.refuse r).0 (answer s (world.refuse r).1)
  serve_pattern ((p, e) ∷ rest) pattern value s ms r =
      if str_eq p pattern
      then outcome_of ms pattern (serve_endpoint e value s ms r)
      else serve_pattern rest pattern value s ms r

  -- `ServeHTTP` of an `http.ServeMux` with the given routes.
  unfoldable pub serve_mux : List (String × Endpoint Url Prefix) → HttpHandler (Shared Url)
  serve_mux routes s ms r = elim (world.matches (map (λ x. x.0) routes) r) [
    | none ↦ outcome_of ms (world.refuse r).0 (answer s (world.refuse r).1)
    | some (pattern, value) ↦ serve_pattern routes pattern value s ms r
  ]
