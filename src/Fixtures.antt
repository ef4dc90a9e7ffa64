-- ===== src/Fixtures.antt =====
-- Concrete instances that the tests of the components share.
use golancer.Prelude.{ℕ, zero, suc, refl, ◌≢◌, String, true, false, some, [], ◌∷◌, arith, str_eq}
use text.Mathlib.TextEquality.{eq_iff}
use golancer.Domain.{UrlLib, Backend}
use golancer.Registry.{Registry, new_registry}
use golancer.Registry.Invariant.{IsValid}
use golancer.Http.{NetLib}

-- URLs that are their texts.
abbrev pub text_urls : UrlLib String
text_urls = record {
  parse = λ s. some s;
  scheme = λ s. "http";
  host = λ s. "host";
  to_string = λ s. s;
  join_path = λ u s. u;
}

-- Addresses that are their texts; a prefix holds one address.
abbrev pub text_net : NetLib String String
text_net = record {
  split_host = λ s. some s;
  parse_addr = λ s. some s;
  unmap = λ a. a;
  addr_string = λ a. a;
  bit_len = λ a. 32;
  parse_prefix = λ s. some s;
  masked = λ p. p;
  prefix_from = λ a n. a;
  prefix_contains = λ p a. str_eq p a;
}

-- Three backends, of which the second is not healthy.
abbrev pub cells : ℕ → Backend String
cells zero = record {
  instance_id = "x";
  url = some "http://a";
  healthy = true;
  active_connections_no = 4;
  weight = 1;
}
cells (suc zero) = record {
  instance_id = "y";
  url = some "http://b";
  healthy = false;
  active_connections_no = 0;
  weight = 2;
}
cells (suc (suc n)) = record {
  instance_id = "z";
  url = some "http://c";
  healthy = true;
  active_connections_no = 6;
  weight = 3;
}

abbrev pub three : Registry String
three = new_registry (record { cell = cells; next = 3 }) (0 ∷ 1 ∷ 2 ∷ [])

pub y_not_x : ◌≢◌ {A = String} "y" "x"
y_not_x = ground (arith, eq_iff "y" "x")

pub z_not_x : ◌≢◌ {A = String} "z" "x"
z_not_x = ground (arith, eq_iff "z" "x")

pub z_not_y : ◌≢◌ {A = String} "z" "y"
z_not_y = ground (arith, eq_iff "z" "y")

pub three-IsValid : IsValid three
three-IsValid = record {
  ptrs = 0 ∷ 1 ∷ 2 ∷ [];
  stored = refl;
  allocated = (omega arith, (omega arith, (omega arith, tt)));
  has_url = ((λ e. cc), ((λ e. cc), ((λ e. cc), tt)));
  distinct = ((y_not_x, (z_not_x, tt)), ((z_not_y, tt), (tt, tt)));
}
