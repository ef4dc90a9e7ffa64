-- ===== src/Simulator.antt =====
-- scripts/simulate_server/main.go: the simulated backends, and how they claim their ports.
pub mod Decimal
pub mod Ports
pub mod Pids
pub mod Servers
mod Tests
use Prim.Native.Char.{Char, code}
use Prim.Native.String.{◌++◌ as text_append}
use golancer.Prelude.{
  ℕ, zero, suc, ◌+◌, ◌-◌, ◌*◌, ◌^◌, ◌%◌, String, Bool, true, false, not, Option, none, some, ◌⊎◌,
  inl, inr, List, [], ◌∷◌, str_eq, ltb, leb, ◌==◌, ◌||◌, ◌&&◌, if◌then◌else◌, any, keep, length,
  get_elem?,
}
use golancer.Prelude.Int.{ℤ, pos, negsuc, neg, ltb_ℤ, eqb_ℤ}
use golancer.Http.{split, is_space, trim_space}

-- `server`
pub record Server : Type 0 where
  pub instance_id : ℤ
  pub port : ℤ
  pub count : ℕ
  pub healthy : Bool

-- What the handlers answer.
pub data Answer : Type 0 where
  not_found : Answer
  visited : ℤ → ℤ → ℕ → Answer
  health_ok unhealthy : Answer
  toggled : Bool → Answer

-- The handlers that `routes` mounts, by their pattern.
abbrev pub server_routes : List (String × (Server → Server × Answer))
server_routes =
    ("/bad_route", λ s. (s, not_found))
    ∷ (
      "/",
      λ s.
          let s' : Server = record s { count = suc s.count } in
          (s', visited s.instance_id s.port s'.count),
    )
    ∷ ("/healthz", λ s. (s, if s.healthy then health_ok else unhealthy))
    ∷ ("/toggle-health", λ s. let now = not s.healthy in (record s { healthy = now }, toggled now))
    ∷ []

-- `strconv.Atoi`, for an int of 64 bits.
unfoldable pub digits_value : ℕ → String → Option ℕ
digits_value n String.[] = some n
digits_value n (String.◌∷◌ c s) =
    if leb 48 (code c) && leb (code c) 57 then digits_value (n * 10 + (code c - 48)) s else none

unfoldable pub unsigned : String → Option ℕ
unfolding digits_value
unsigned String.[] = none
unsigned (String.◌∷◌ c s) = digits_value 0 (String.◌∷◌ c s)

abbrev pub in_range : Bool → Option ℕ → Option ℤ
in_range minus none = none
in_range true (some n) = if leb n (2 ^ 63) then some (neg n) else none
in_range false (some n) = if ltb n (2 ^ 63) then some (pos n) else none

unfoldable pub atoi : String → Option ℤ
unfolding unsigned
atoi String.[] = none
atoi (String.◌∷◌ c s) =
    if code c == 45
    then in_range true (unsigned s)
    else if code c == 43
    then in_range false (unsigned s)
    else in_range false (unsigned (String.◌∷◌ c s))

-- The loop of `parsePorts` over the fields. The error is the field that is no port.
unfoldable pub parse_fields : List String → String ⊎ List ℤ
parse_fields [] = inr []
parse_fields (f ∷ fs) =
    let field = trim_space f in
    let rest = parse_fields fs in
    if str_eq field "" then rest else elim (atoi field) [
      | none ↦ inl field
      | some p ↦
          if ltb_ℤ p (pos 1) || ltb_ℤ (pos 65535) p
          then inl field
          else elim rest [ inl e ↦ inl e | inr ps ↦ inr (p ∷ ps) ]
    ]

unfoldable pub parse_ports : String → String ⊎ List ℤ
unfolding parse_fields
parse_ports s = parse_fields (split b',' s)

-- An int64 as its 64 bits, and back: the two's complement.
abbrev pub int64_bits : ℤ → ℕ
int64_bits (pos n) = n % 2 ^ 64
int64_bits (negsuc n) = 2 ^ 64 - 1 - n % 2 ^ 64

abbrev pub int64_of : ℕ → ℤ
int64_of b = if ltb b (2 ^ 63) then pos b else neg (2 ^ 64 - b)

-- `int(2115 + 100*(id-1))`, each step of which wraps around. `2 ^ 64 - 1` is -1.
abbrev pub derived_port : ℤ → ℤ
derived_port id =
    let before = (int64_bits id + (2 ^ 64 - 1)) % 2 ^ 64 in
    int64_of ((2115 + (100 * before) % 2 ^ 64) % 2 ^ 64)

-- The ports of `main`, by its flags `-id` and `-ports`; an error of `parsePorts` ends the process.
abbrev pub ports_or_derived : ℤ → List ℤ → List ℤ
ports_or_derived id [] = derived_port id ∷ []
ports_or_derived id (p ∷ ps) = p ∷ ps

unfoldable pub chosen_ports : ℤ → String → String ⊎ List ℤ
chosen_ports id ports =
    if str_eq ports ""
    then inr (ports_or_derived id [])
    else elim (parse_ports ports) [ inl e ↦ inl e | inr ps ↦ inr (ports_or_derived id ps) ]

-- `id + int64(i)`, which wraps around.
abbrev pub instance_id_at : ℤ → ℕ → ℤ
instance_id_at id i = int64_of ((int64_bits id + i) % 2 ^ 64)

-- The loop of `main` that makes one server for each port, from the index `i` on.
abbrev pub spawn_from : ℤ → Bool → ℕ → List ℤ → List Server
spawn_from id start_healthy i [] = []
spawn_from id start_healthy i (port ∷ ports) =
    record { instance_id = instance_id_at id i; port = port; count = 0; healthy = start_healthy }
    ∷ spawn_from id start_healthy (suc i) ports

abbrev pub spawn : ℤ → Bool → List ℤ → List Server
spawn id start_healthy ports = spawn_from id start_healthy 0 ports

-- `strings.Fields`
abbrev pub cons_char : Char → List String → List String
cons_char c [] = String.◌∷◌ c String.[] ∷ []
cons_char c (w ∷ ws) = String.◌∷◌ c w ∷ ws

unfoldable pub split_spaces : String → List String
split_spaces String.[] = String.[] ∷ []
split_spaces (String.◌∷◌ c s) =
    let rest = split_spaces s in if is_space (code c) then String.[] ∷ rest else cons_char c rest

unfoldable pub fields : String → List String
unfolding split_spaces
fields s = keep (λ w. not (str_eq w "")) (split_spaces s)

-- `strings.HasSuffix`
unfoldable pub has_suffix : String → String → Bool
has_suffix String.[] suffix = str_eq String.[] suffix
has_suffix (String.◌∷◌ c s) suffix =
    let later = has_suffix s suffix in str_eq (String.◌∷◌ c s) suffix || later

-- The PIDs of `lsof`, one for each field that is a number.
abbrev pub numbers : List String → List ℤ
numbers [] = []
numbers (w ∷ ws) = elim (atoi w) [ none ↦ numbers ws | some pid ↦ pid ∷ numbers ws ]

-- The PID of a line of `netstat`, whose second field ends in the port.
abbrev pub line_pid : String → List String → Option ℤ
line_pid suffix fs = if ltb (length fs) 5 then none else elim (get_elem? fs 1) [
  | none ↦ none
  | some local ↦
      if not (has_suffix local suffix)
      then none
      else elim (get_elem? fs (length fs - 1)) [ none ↦ none | some last ↦ atoi last ]
]

-- A key is put into the map `seen` once.
abbrev pub see : Option ℤ → List ℤ → List ℤ
see none seen = seen
see (some pid) seen = if any (eqb_ℤ pid) seen then seen else pid ∷ seen

abbrev pub seen_pids : String → List ℤ → List String → List ℤ
seen_pids suffix seen [] = seen
seen_pids suffix seen (line ∷ lines) =
    seen_pids suffix (see (line_pid suffix (fields line)) seen) lines

-- `portPIDs`: `output` is what the lookup tool printed, none for an error, `itoa` is the format %d,
-- and `order` is the order in which a map is walked.
unfoldable pub port_pids : Bool → (ℤ → String) → (List ℤ → List ℤ) → Option String → ℤ → List ℤ
port_pids windows itoa order none port = []
port_pids windows itoa order (some out) port =
    if windows
    then order (seen_pids (text_append ":" (itoa port)) [] (split 10 out))
    else numbers (fields out)

-- `freePort`: the processes on which it calls `Kill`, in order, each with whether the call gave no
-- error; an error is logged, and the loop goes on. `finds` says whether `os.FindProcess` gives no
-- error, and `kills` whether `Kill` gives none.
unfoldable pub free_port : ℤ → (ℤ → Bool) → (ℤ → Bool) → List ℤ → List (ℤ × Bool)
free_port self finds kills [] = []
free_port self finds kills (pid ∷ pids) =
    let rest = free_port self finds kills pids in
    if eqb_ℤ pid self then rest else if not (finds pid) then rest else (pid, kills pid) ∷ rest

-- The loop of `listenWhenFree`: `n` attempts are left and `i` is the next; none for the exit.
unfoldable pub listen_loop : {L : Type 0} → (ℕ → Option L) → ℕ → ℕ → Option L
listen_loop listen zero i = none
listen_loop listen (suc n) i = elim (listen i) [
  | some ln ↦ some ln
  | none ↦ listen_loop listen n (suc i)
]

unfoldable pub listen_when_free : {L : Type 0} → (ℕ → Option L) → Option L
unfolding listen_loop
listen_when_free listen = listen_loop listen 50 0

-- `serve` up to `http.Serve`: what `freePort` tried to kill, and the listener.
unfoldable pub serve :
    {L : Type 0}
    → ℤ
    → (ℤ → Bool)
    → (ℤ → Bool)
    → (ℤ → List ℤ)
    → (ℕ → Option L)
    → Server
    → List (ℤ × Bool) × Option L
serve self finds kills pids listen s =
    (free_port self finds kills (pids s.port), listen_when_free listen)
