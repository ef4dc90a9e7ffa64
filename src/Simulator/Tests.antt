-- ===== src/Simulator/Tests.antt =====
-- scripts/simulate_server/main.go: flags and tool outputs.
use golancer.Prelude.{
  ℕ, ◌-◌, ◌^◌, ◌≡◌, refl, String, true, false, not, Option, none, some, ◌⊎◌, inl, inr, [], ◌∷◌, map,
  All, arith, str_eq, ◌==◌, if◌then◌else◌,
}
use golancer.Prelude.Int.{pos, negsuc, eqb_ℤ}
use golancer.Http.{split, trim_space, trim_left, trim_right}
use golancer.Simulator.{
  atoi, unsigned, digits_value, parse_fields, parse_ports, chosen_ports, derived_port, spawn,
  fields, split_spaces, has_suffix, port_pids, free_port, listen_loop, listen_when_free, serve,
}
use golancer.Simulator.Ports.{print_ports, IsListed, parse_ports-print_ports}
use golancer.Simulator.Servers.{DistinctInts, spawn-chosen_ports}

parse_ports-print_ports_example :
    parse_ports (print_ports (2115 ∷ 80 ∷ 65535 ∷ [])) ≡ inr (map pos (2115 ∷ 80 ∷ 65535 ∷ []))
parse_ports-print_ports_example =
    parse_ports-print_ports (2115 ∷ 80 ∷ 65535 ∷ [])
      ((omega arith, omega arith), ((omega arith, omega arith), ((omega arith, omega arith), tt)))

-- Blanks and empty fields are skipped.
flag_lem : chosen_ports (pos 1) " 2115,, +80 " ≡ inr (pos 2115 ∷ pos 80 ∷ [])
unfolding chosen_ports parse_ports parse_fields split trim_space trim_left trim_right atoi unsigned
    digits_value str_eq
flag_lem = refl

out_of_range : parse_ports "80,70000" ≡ inl "70000"
unfolding parse_ports parse_fields split trim_space trim_left trim_right atoi unsigned digits_value
    str_eq
out_of_range = refl

spawn-chosen_ports_example :
    let servers = spawn (pos 1) true (pos 2115 ∷ pos 80 ∷ []) in
    DistinctInts (map (λ s. s.instance_id) servers)
    × All (λ s. IsListed s.port ⊎ (s.port ≡ derived_port (pos 1))) servers
spawn-chosen_ports_example =
    spawn-chosen_ports (pos 1) " 2115,, +80 " true (pos 2115 ∷ pos 80 ∷ []) flag_lem (omega arith)

-- At the ends of the range of an int64, the port and the ID wrap around.
wrapped_lem :
    (derived_port (negsuc (2 ^ 63 - 1)) ≡ pos 2015)
    × (map (λ s. s.instance_id) (spawn (pos (2 ^ 63 - 1)) true (pos 80 ∷ pos 81 ∷ []))
        ≡ pos (2 ^ 63 - 1) ∷ negsuc (2 ^ 63 - 1) ∷ [])
wrapped_lem = (refl, refl)

-- Each process of netstat's output is listed once, and only for the port itself.
abbrev netstat : String
netstat =
    "TCP 0.0.0.0:80 0.0.0.0:0 LISTENING 41\nTCP 0.0.0.0:8080 0.0.0.0:0 LISTENING 42\nTCP [::]:80 [::]:0 LISTENING 41\n"

netstat_lem : port_pids true (λ p. "80") (λ pids. pids) (some netstat) (pos 80) ≡ pos 41 ∷ []
unfolding port_pids fields split_spaces split has_suffix atoi unsigned digits_value str_eq
netstat_lem = refl

lsof_lem :
    port_pids false (λ p. "80") (λ pids. pids) (some "41\n57\n") (pos 80) ≡ pos 41 ∷ pos 57 ∷ []
unfolding port_pids fields split_spaces atoi unsigned digits_value str_eq
lsof_lem = refl

-- The third attempt binds; one process is killed, and another resists.
abbrev third : ℕ → Option ℕ
third i = if i == 2 then some i else none

serve_lem :
    serve
      (pos 57)
      (λ pid. true)
      (λ pid. not (eqb_ℤ pid (pos 42)))
      (λ p. pos 42 ∷ pos 41 ∷ pos 57 ∷ [])
      third
      (record { instance_id = pos 1; port = pos 80; count = 0; healthy = true })
    ≡ ((pos 42, false) ∷ (pos 41, true) ∷ [], some 2)
unfolding serve free_port listen_when_free listen_loop
serve_lem = refl
