-- ===== src/Middleware.antt =====
-- internal/bootstrap/middleware.go: what stands between a listener and its handlers.
pub mod Guards
mod Tests
use Prim.Native.String.{◌++◌ as text_append}
use mathlib.Core.List.{reverse}
use golancer.Prelude.{
  ℕ, String, Bool, true, false, List, [], ◌∷◌, ◌++◌, ltb, length, str_eq, not, take, if◌then◌else◌,
}
use golancer.Prelude.Int.{ℤ, pos_part}
use golancer.Http.{Body, no_body, readable, broken, Request, get}

-- The calls on a ResponseWriter, in order; the bytes that are written are left out. After `hijack`
-- the connection is the caller's, who answers on it with a status of its own.
pub data Write : Type 0 where
  set_header : String → String → Write
  write_header : ℕ → Write
  write flush : Write
  hijack : ℕ → Write

-- A request as `ObserveRequest` counts it: path, method and status.
pub record Observed : Type 0 where
  pub path : String
  pub method : String
  pub status : ℕ

-- What a handler leaves: the state behind it, the metrics, the pattern that the mux matched, which
-- is empty where no mux was reached, what it wrote, and whether it ended by a panic, as the reverse
-- proxy does with `http.ErrAbortHandler`.
pub record Outcome (S : Type 0) : Type 0 where
  pub state : S
  pub metrics : List Observed
  pub pattern : String
  pub writes : List Write
  pub panicked : Bool

abbrev pub HttpHandler : Type 0 → Type 0
HttpHandler S = S → List Observed → Request → Outcome S

abbrev pub Middleware : Type 0 → Type 0
Middleware S = HttpHandler S → HttpHandler S

-- `statusRecorder`, with `WriteHeader` and `Write`; `Flush` and `Hijack` only pass the call on.
pub record StatusRecorder : Type 0 where
  pub status : ℕ
  pub wrote_header : Bool

abbrev pub record_write : StatusRecorder → Write → StatusRecorder
record_write r (set_header k v) = r
record_write r (write_header code) =
    if not r.wrote_header then record { status = code; wrote_header = true } else r
record_write r write = record r { wrote_header = true }
record_write r flush = r
record_write r (hijack code) = r

unfoldable pub record_writes : StatusRecorder → List Write → StatusRecorder
record_writes r [] = r
record_writes r (w ∷ ws) = record_writes (record_write r w) ws

abbrev pub recorded_status : List Write → ℕ
recorded_status ws = (record_writes (record { status = 200; wrote_header = false }) ws).status

-- `routeLabel`
abbrev pub route_label : String → String
route_label pattern = if str_eq pattern "" then "unmatched" else pattern

-- `http.MaxBytesReader`: reading fails beyond the limit.
abbrev pub limited : ℕ → Body → Body
limited limit no_body = no_body
limited limit (broken bytes) = broken (take limit bytes)
limited limit (readable bytes) =
    if ltb limit (length bytes) then broken (take limit bytes) else readable bytes

abbrev pub limited_request : ℤ → Request → Request
limited_request limit r = record r { body = limited (pos_part limit) r.body }

module _ {S : Type 0} where
  -- The loop of `chain`, over the middlewares from the last to the first.
  unfoldable pub wrap : List (Middleware S) → HttpHandler S → HttpHandler S
  wrap [] next = next
  wrap (mw ∷ mws) next = wrap mws (mw next)

  unfoldable pub chain : List (Middleware S) → Middleware S
  chain mws next = wrap (reverse mws) next

  -- The call of `ObserveRequest` in `requestMetrics`, which a panic of the handler skips.
  abbrev pub observe_request : Request → Outcome S → Outcome S
  observe_request r o = record o {
    metrics =
        if o.panicked
        then o.metrics
        else o.metrics
          ++ record {
            path = route_label o.pattern;
            method = r.method;
            status = recorded_status o.writes;
          }
            ∷ [];
  }

  -- `requestMetrics`
  unfoldable pub request_metrics : Middleware S
  request_metrics next s ms r = observe_request r (next s ms r)

  -- `limitBody`
  unfoldable pub limit_body : ℤ → Middleware S
  limit_body limit next s ms r = next s ms (limited_request limit r)

  -- `bearerAuth`. The comparison in constant time is equality.
  unfoldable pub bearer_auth : String → Middleware S
  bearer_auth token next s ms r =
      if str_eq token ""
      then next s ms r
      else if not (str_eq (get "Authorization" r.header) (text_append "Bearer " token))
      then record {
        state = s;
        metrics = ms;
        pattern = "";
        writes = set_header "WWW-Authenticate" "Bearer" ∷ write_header 401 ∷ write ∷ [];
        panicked = false;
      }
      else next s ms r

  -- `commonMiddleware`
  unfoldable pub common_middleware : ℤ → Middleware S
  common_middleware limit = chain (request_metrics ∷ limit_body limit ∷ [])

  -- The middleware that `Run` gives to the registration API.
  unfoldable pub registry_middleware : ℤ → String → Middleware S
  registry_middleware limit token = chain (common_middleware limit ∷ bearer_auth token ∷ [])
