-- ===== src/Handlers/Tests.antt =====
-- internal/handlers: the registration API and readiness on three backends.
use golancer.Prelude.{
  ◌-◌, ◌<◌, ◌≡◌, refl, ◌≢◌, ◌↔◌, ◌⊎◌, inr, String, Option, some, none, [], ◌∷◌, All, arith, false,
  str_eq,
}
use text.Mathlib.TextEquality.{eq_iff}
use golancer.Prelude.Run.{done}
use golancer.Domain.{store}
use golancer.Registry.{Registry, add_new_backend, contains_url}
use golancer.Registry.Invariant.{entries}
use golancer.Http.{Body, readable, broken, no_body}
use golancer.Handlers.{
  RegisterBackendRequest, created, removed, readyz, register, register_parsed, deregister,
  parse_register_backend_req, checked_request, checked_weight,
}
use golancer.Handlers.Admission.{parse_register-check_backends}
use golancer.Handlers.Calls.{register-deregister}
use golancer.Handlers.Ready.{FindsNone, FindsOne, readyz-selectors}
use golancer.Config.{check_backends}
use golancer.Config.Load.{weight_or_one}
use golancer.Fixtures.{text_urls, three, three-IsValid}

-- Every body that can be read asks for the same backend, with the weight left out.
abbrev decode : Body → Option RegisterBackendRequest
decode no_body = none
decode (readable bs) = some (record { url = "http://d"; weight = 0 })
decode (broken bs) = none

parse_register-check_backends_example :
    (parse_register_backend_req text_urls decode (readable []) ≡ inr ("http://d", 1)) ↔ (
      (check_backends text_urls 0 (record { url = "http://d"; weight = 0 } ∷ []) ≡ [])
      × (text_urls.parse "http://d" ≡ some "http://d")
      × (1 ≡ weight_or_one 0))
parse_register-check_backends_example =
    parse_register-check_backends text_urls decode (readable [])
      (record { url = "http://d"; weight = 0 }) 0 "http://d" 1 refl

w_fresh : All (λ b. b.instance_id ≢ "w") (entries three)
w_fresh = (x_not_w, (y_not_w, (z_not_w, tt)))
  where
    x_not_w : ◌≢◌ {A = String} "x" "w"
    x_not_w = ground (arith, eq_iff "x" "w")

    y_not_w : ◌≢◌ {A = String} "y" "w"
    y_not_w = ground (arith, eq_iff "y" "w")

    z_not_w : ◌≢◌ {A = String} "z" "w"
    z_not_w = ground (arith, eq_iff "z" "w")

-- The registry after the fourth backend is registered.
abbrev four : Registry String
four = record {
  heap =
      record (store three.heap 3 (record {
        instance_id = "w";
        url = some "http://d";
        healthy = false;
        active_connections_no = 0;
        weight = 1;
      })) { next = 4 };
  backends = some (0 ∷ 1 ∷ 2 ∷ 3 ∷ []);
}

four_registered : register text_urls decode three "w" (readable []) ≡ done (four, created "w")
unfolding register register_parsed parse_register_backend_req checked_request checked_weight
    add_new_backend contains_url str_eq
four_registered = refl

w_named : ◌≢◌ {A = String} "w" ""
w_named = ground (arith, eq_iff "w" "")

register-deregister_example :
    (r : Registry String) × (deregister four "w" ≡ done (r, removed)) × (entries r ≡ entries three)
register-deregister_example =
    register-deregister text_urls decode three four "w" (readable []) three-IsValid w_fresh w_named
      four_registered

readyz-selectors_example :
    ((readyz three ≡ (503, 0)) × FindsNone three (λ n. n - 1) "10.0.0.1")
    ⊎ (((readyz three).0 ≡ 200) × (0 < (readyz three).1) × FindsOne three (λ n. n - 1) "10.0.0.1")
readyz-selectors_example =
    readyz-selectors three (λ n. n - 1) "10.0.0.1" (λ n pos. omega arith)
      ((omega arith, omega arith), ((omega arith, omega arith), ((omega arith, omega arith), tt)))
      (omega arith)
