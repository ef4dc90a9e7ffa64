-- ===== src/Middleware/Tests.antt =====
-- internal/bootstrap/middleware.go: a handler that counts its calls, behind the middleware.
use Prim.Native.String.{◌++◌ as text_append}
use text.Mathlib.TextEquality.{eq_iff}
use golancer.Prelude.{ℕ, suc, ◌≡◌, refl, ◌≢◌, String, false, [], ◌∷◌, ◌++◌, arith, str_eq}
use golancer.Prelude.Int.{pos}
use golancer.Http.{Request, readable, get}
use golancer.Middleware.{
  set_header, write_header, write, HttpHandler, recorded_status, registry_middleware,
}
use golancer.Middleware.Guards.{
  sent_status, registry_middleware-unauthorized, recorded_status-early,
}

abbrev counting : HttpHandler ℕ
counting s ms r = record {
  state = suc s;
  metrics = ms;
  pattern = "GET /backends";
  writes = set_header "Content-Type" "application/json" ∷ write_header 200 ∷ write ∷ [];
  panicked = false;
}

abbrev asking : String → Request
asking authorization = record {
  method = "GET";
  host = "golancer";
  remote_addr = "10.0.0.1";
  tls = false;
  header = ("Authorization", authorization ∷ []) ∷ [];
  body = readable (1 ∷ 2 ∷ 3 ∷ []);
}

token_set : ◌≢◌ {A = String} "secret" ""
token_set = ground (arith, eq_iff "secret" "")

other_token : get "Authorization" (asking "Bearer guess").header ≢ text_append "Bearer " "secret"
unfolding str_eq
other_token = ground (arith, eq_iff "Bearer guess" "Bearer secret")

registry_middleware-unauthorized_example :
    registry_middleware (pos 16384) "secret" counting 7 [] (asking "Bearer guess") ≡ record {
      state = 7;
      metrics = [] ++ record { path = "unmatched"; method = "GET"; status = 401 } ∷ [];
      pattern = "";
      writes = set_header "WWW-Authenticate" "Bearer" ∷ write_header 401 ∷ write ∷ [];
      panicked = false;
    }
registry_middleware-unauthorized_example =
    registry_middleware-unauthorized (pos 16384) "secret" counting 7 [] (asking "Bearer guess")
      token_set other_token

recorded_status-early_example :
    (recorded_status (write_header 103 ∷ write_header 200 ∷ write ∷ []) ≡ 103)
    × (sent_status (write_header 103 ∷ write_header 200 ∷ write ∷ []) ≡ 200)
recorded_status-early_example = recorded_status-early 103 200 (write ∷ []) refl refl
