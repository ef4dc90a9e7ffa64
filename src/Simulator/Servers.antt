-- ===== src/Simulator/Servers.antt =====
-- scripts/simulate_server/main.go: the servers that `main` starts.
use golancer.Prelude.{
  ℕ, suc, ◌+◌, ◌-◌, ◌%◌, ◌^◌, ◌<◌, ◌≤◌, sym, ◌∙◌, length, ltb, ◌≡◌, refl, ap, ◌≢◌, String, Bool,
  ◌⊎◌, inl, inr, List, [], ◌∷◌, map, All, All-map, All-of_map, arith, str_eq, Bool-cases,
}
use mathlib.Core.Path.{subst}
use golancer.Prelude.Int.{ℤ}
use golancer.Simulator.{
  Server, parse_ports, int64_bits, int64_of, derived_port, ports_or_derived, chosen_ports,
  instance_id_at, spawn_from, spawn,
}
use golancer.Simulator.Ports.{IsListed, parse_ports-IsListed}

-- The bits of an int64 determine it.
int64_bits-int64_of : (x : ℕ) → x < 2 ^ 64 → int64_bits (int64_of x) ≡ x
int64_bits-int64_of x lt = elim (Bool-cases (ltb x (2 ^ 63))) [
  | inl e ↦ let small : x < 2 ^ 63 = ground arith in rw e (omega arith)
  | inr e ↦
      let large : 2 ^ 63 ≤ x = ground arith in
      let back : 2 ^ 64 - x ≡ suc (2 ^ 64 - x - 1) = omega arith in rw (e, back) (omega arith)
]

-- Additions of two indices less than 2 ^ 64 apart wrap around to different IDs.
instance_id_at_ne :
    (id : ℤ) (i j : ℕ) → i < j → j < 2 ^ 64 → instance_id_at id j ≢ instance_id_at id i
instance_id_at_ne id i j lt few same =
    let b = int64_bits id in
    let bits : (b + j) % 2 ^ 64 ≡ (b + i) % 2 ^ 64 =
      sym (int64_bits-int64_of ((b + j) % 2 ^ 64) (omega arith))
      ∙ ap int64_bits same
      ∙ int64_bits-int64_of ((b + i) % 2 ^ 64) (omega arith) in
    omega arith

-- No ID of the list stands in it twice.
abbrev pub DistinctInts : List ℤ → Type 0
DistinctInts [] = Unit
DistinctInts (a ∷ rest) = All (λ b. b ≢ a) rest × DistinctInts rest

later_ids :
    (id : ℤ) (h : Bool) (i j : ℕ) (ports : List ℤ)
    → i < j
    → j + length ports ≤ 2 ^ 64
    → All
        (λ b. b ≢ instance_id_at id i)
        (map (λ (s : Server). s.instance_id) (spawn_from id h j ports))
later_ids id h i j [] lt few = tt
later_ids id h i j (p ∷ ports) lt few = (
  instance_id_at_ne id i j lt (omega arith),
  later_ids id h i (suc j) ports (omega arith) (omega arith),
)

spawn_from-DistinctInts :
    (id : ℤ) (h : Bool) (i : ℕ) (ports : List ℤ)
    → i + length ports ≤ 2 ^ 64
    → DistinctInts (map (λ (s : Server). s.instance_id) (spawn_from id h i ports))
spawn_from-DistinctInts id h i [] few = tt
spawn_from-DistinctInts id h i (p ∷ ports) few = (
  later_ids id h i (suc i) ports (omega arith) (omega arith),
  spawn_from-DistinctInts id h (suc i) ports (omega arith),
)

spawn_from-ports :
    (id : ℤ) (h : Bool) (i : ℕ) (ports : List ℤ)
    → map (λ (s : Server). s.port) (spawn_from id h i ports) ≡ ports
spawn_from-ports id h i [] = refl
spawn_from-ports id h i (p ∷ ports) = ap (◌∷◌ p) (spawn_from-ports id h (suc i) ports)

ports_lem :
    (id : ℤ) (qs : List ℤ)
    → All IsListed qs
    → All (λ p. IsListed p ⊎ (p ≡ derived_port id)) (ports_or_derived id qs)
ports_lem id [] ok = (inr refl, tt)
ports_lem id (q ∷ qs) ok = All-map IsListed _ (λ p l. inl l) (q ∷ qs) ok

chosen_ports-IsListed :
    (id : ℤ) (flag : String) (ports : List ℤ)
    → chosen_ports id flag ≡ inr ports
    → All (λ p. IsListed p ⊎ (p ≡ derived_port id)) ports
unfolding chosen_ports
chosen_ports-IsListed id flag ports e = elim (Bool-cases (str_eq flag "")) [
  | inl empty ↦ by_result (inr []) (λ qs q. none_listed qs q) (rw empty at e)
  | inr given ↦
      by_result (parse_ports flag) (λ qs q. parse_ports-IsListed flag qs q) (rw given at e)
]
  where
    none_listed : (qs : List ℤ) → ◌≡◌ {A = String ⊎ List ℤ} (inr []) (inr qs) → All IsListed qs
    none_listed [] q = tt
    none_listed (p ∷ qs) q = cc

    by_result :
        (m : String ⊎ List ℤ)
        → ((qs : List ℤ) → m ≡ inr qs → All IsListed qs)
        → (elim m [ inl x ↦ inl x | inr qs ↦ inr (ports_or_derived id qs) ]) ≡ inr ports
        → All (λ p. IsListed p ⊎ (p ≡ derived_port id)) ports
    by_result (inl x) ok h = cc
    by_result (inr qs) ok h =
        let same : ports_or_derived id qs ≡ ports = cc in
        subst (All (λ p. IsListed p ⊎ (p ≡ derived_port id))) same (ports_lem id qs (ok qs refl))

-- If the flags of the simulated server are accepted and give fewer than 2 ^ 63 ports, then the
-- servers that it starts have instance IDs that are all different, whatever the flag -id, also
-- where the int64 wraps around, and the port of each is from 1 to 65535 or the one that is derived
-- from the flag -id.
pub spawn-chosen_ports :
    (id : ℤ) (flag : String) (start_healthy : Bool) (ports : List ℤ)
    → chosen_ports id flag ≡ inr ports
    → length ports < 2 ^ 63
    → let servers = spawn id start_healthy ports in
      DistinctInts (map (λ s. s.instance_id) servers)
      × All (λ s. IsListed s.port ⊎ (s.port ≡ derived_port id)) servers
spawn-chosen_ports id flag start_healthy ports e few = (
  spawn_from-DistinctInts id start_healthy 0 ports (omega arith),
  All-of_map (λ (s : Server). s.port) (λ p. IsListed p ⊎ (p ≡ derived_port id))
      (spawn id start_healthy ports)
      (rw (spawn_from-ports id start_healthy 0 ports) (chosen_ports-IsListed id flag ports e)),
)
