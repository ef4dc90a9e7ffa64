-- ===== src/Simulator/Pids.antt =====
-- scripts/simulate_server/main.go, portPIDs and freePort: process IDs as `lsof -t` prints them.
use golancer.Prelude.{
  ℕ, ◌^◌, ◌<◌, ◌≡◌, refl, ap, ◌∙◌, String, Bool, false, not, some, inl, inr, List, [], ◌∷◌, All,
  map, keep, arith, str_eq, ◌&&◌, Bool-cases,
}
use golancer.Prelude.Int.{ℤ, pos, eqb_ℤ}
use golancer.Simulator.{atoi, split_spaces, fields, numbers, port_pids, free_port}
use golancer.Simulator.Decimal.{digit, print, is_space-digit, cut_print_lem, print-field}

-- One process ID of up to ten digits to a line.
unfoldable pub print_pids : List ℕ → String
unfolding print
print_pids [] = ""
print_pids (p ∷ ps) = print 10 p (String.◌∷◌ "\n" (print_pids ps))

abbrev pub IsPid : ℕ → Type 0
IsPid p = p < 2 ^ 31

split_spaces-digit :
    (k : ℕ) (rest w : String) (ws : List String)
    → k < 10
    → split_spaces rest ≡ w ∷ ws
    → split_spaces (String.◌∷◌ (digit k) rest) ≡ String.◌∷◌ (digit k) w ∷ ws
unfolding split_spaces
split_spaces-digit k rest w ws lt e = rw (is_space-digit k lt, e) refl

split_spaces-print_pids :
    (p : ℕ) (ps : List ℕ)
    → IsPid p
    → split_spaces (print_pids (p ∷ ps)) ≡ print 10 p "" ∷ split_spaces (print_pids ps)
unfolding print_pids split_spaces
split_spaces-print_pids p ps lt =
    cut_print_lem split_spaces split_spaces-digit 9 p (String.◌∷◌ "\n" (print_pids ps))
      (omega arith) "" (split_spaces (print_pids ps)) refl

-- What `portPIDs` reads from the pieces of the output.
abbrev read_pieces : List String → List ℤ
read_pieces ws = numbers (keep (λ w. not (str_eq w "")) ws)

read_number_lem :
    (w : String) (n : ℤ) (ws : List String)
    → str_eq w "" ≡ false
    → atoi w ≡ some n
    → read_pieces (w ∷ ws) ≡ n ∷ read_pieces ws
read_number_lem w n ws filled read =
    let kept : keep (λ x. not (str_eq x "")) (w ∷ ws) ≡ w ∷ keep (λ x. not (str_eq x "")) ws =
      rw filled refl in
    ap numbers kept ∙ rw (read, numbers) refl

read_pieces-print :
    (p : ℕ) (ws : List String) → IsPid p → read_pieces (print 10 p "" ∷ ws) ≡ pos p ∷ read_pieces ws
read_pieces-print p ws lt =
    let (_, filled, read) = print-field 9 p (omega arith) (omega arith) in
    read_number_lem (print 10 p "") (pos p) ws filled read

read_pieces-print_pids :
    (ps : List ℕ) → All IsPid ps → read_pieces (split_spaces (print_pids ps)) ≡ map pos ps
unfolding print_pids split_spaces str_eq
read_pieces-print_pids [] ok = refl
read_pieces-print_pids (p ∷ ps) (lt, ok) =
    ap read_pieces (split_spaces-print_pids p ps lt)
    ∙ read_pieces-print p (split_spaces (print_pids ps)) lt
    ∙ ap (◌∷◌ (pos p)) (read_pieces-print_pids ps ok)

pub port_pids-print_pids :
    (itoa : ℤ → String) (order : List ℤ → List ℤ) (port : ℤ) (ps : List ℕ)
    → All IsPid ps
    → port_pids false itoa order (some (print_pids ps)) port ≡ map pos ps
unfolding port_pids fields
port_pids-print_pids itoa order port ps ok = read_pieces-print_pids ps ok

-- The loop of `freePort` skips the process itself and what `FindProcess` does not find.
pub free_port-map :
    (self : ℤ) (finds kills : ℤ → Bool) (pids : List ℤ)
    → free_port self finds kills pids
      ≡ map (λ pid. (pid, kills pid)) (keep (λ pid. not (eqb_ℤ pid self) && finds pid) pids)
unfolding free_port
free_port-map self finds kills [] = refl
free_port-map self finds kills (p ∷ pids) =
    let later = free_port-map self finds kills pids in
    elim (Bool-cases (eqb_ℤ p self)) [
      | inl e ↦ rw e later
      | inr e ↦ elim (Bool-cases (finds p)) [
        | inl f ↦ rw (e, f) (ap (◌∷◌ (p, kills p)) later)
        | inr f ↦ rw (e, f) later
      ]
    ]
