-- ===== src/Simulator/Ports.antt =====
-- scripts/simulate_server/main.go: `parsePorts` on lists of ports that are printed in decimal, and what
-- it lets pass.
use mathlib.Core.Path.{subst}
use golancer.Prelude.{
  ℕ, ◌≤◌, ◌<◌, ◌≡◌, refl, ap, ◌∙◌, String, false, Option, none, some, ◌⊎◌, inl, inr, List, [], ◌∷◌,
  All, map, arith, str_eq, ◌||◌, if◌then◌else◌, Bool-cases,
}
use golancer.Prelude.Int.{ℤ, pos, negsuc, ltb_ℤ}
use golancer.Http.{split, trim_left, trim_right, trim_space}
use golancer.Simulator.{atoi, parse_fields, parse_ports}
use golancer.Simulator.Decimal.{print, split-print, print-field}

-- A list of ports, with commas between them.
unfoldable pub print_ports : List ℕ → String
unfolding print
print_ports [] = ""
print_ports (p ∷ []) = print 5 p ""
print_ports (p ∷ q ∷ ps) = print 5 p (String.◌∷◌ "," (print_ports (q ∷ ps)))

-- A TCP port that can be listened on.
abbrev pub IsTcpPort : ℕ → Type 0
IsTcpPort p = (1 ≤ p) × (p ≤ 65535)

parse_fields-port :
    (p : ℕ) (fs : List String) (ps : List ℤ)
    → IsTcpPort p
    → parse_fields fs ≡ inr ps
    → parse_fields (print 5 p "" ∷ fs) ≡ inr (pos p ∷ ps)
unfolding parse_fields
parse_fields-port p fs ps (lo, hi) e =
    let (trimmed, filled, read) = print-field 4 p (omega arith) (omega arith) in
    rw (trimmed, filled, read, e) (ground arith)

split-print_ports :
    (p q : ℕ) (ps : List ℕ)
    → p < 100000
    → split b',' (print_ports (p ∷ q ∷ ps)) ≡ print 5 p "" ∷ split b',' (print_ports (q ∷ ps))
unfolding print_ports split
split-print_ports p q ps lt =
    split-print 4 p (String.◌∷◌ "," (print_ports (q ∷ ps))) (omega arith) ""
      (split b',' (print_ports (q ∷ ps))) refl

split-one : (p : ℕ) → p < 100000 → split b',' (print_ports (p ∷ [])) ≡ print 5 p "" ∷ []
unfolding print_ports split
split-one p lt = split-print 4 p "" (omega arith) "" [] refl

parse_fields-nil : parse_fields [] ≡ inr []
unfolding parse_fields
parse_fields-nil = refl

no_ports_lem : parse_fields (split b',' (print_ports [])) ≡ inr []
unfolding parse_fields print_ports split trim_space trim_left trim_right str_eq
no_ports_lem = refl

parse_fields-print_ports :
    (ports : List ℕ)
    → All IsTcpPort ports
    → parse_fields (split b',' (print_ports ports)) ≡ inr (map pos ports)
parse_fields-print_ports [] ok = no_ports_lem
parse_fields-print_ports (p ∷ []) (port, ok) =
    ap parse_fields (split-one p (omega arith)) ∙ parse_fields-port p [] [] port parse_fields-nil
parse_fields-print_ports (p ∷ q ∷ ps) ((lo, hi), ok) =
    ap parse_fields (split-print_ports p q ps (omega arith))
    ∙ parse_fields-port p (split b',' (print_ports (q ∷ ps))) (map pos (q ∷ ps)) (lo, hi)
        (parse_fields-print_ports (q ∷ ps) ok)

-- A list of ports from 1 to 65535, printed in decimal with commas between them, is read by
-- parsePorts as the same ports in the same order.
pub parse_ports-print_ports :
    (ports : List ℕ) → All IsTcpPort ports → parse_ports (print_ports ports) ≡ inr (map pos ports)
unfolding parse_ports
parse_ports-print_ports ports ok = parse_fields-print_ports ports ok

abbrev pub IsListed : ℤ → Type 0
IsListed z = (p : ℕ) × (z ≡ pos p) × IsTcpPort p

IsListed-checked : (z : ℤ) → (ltb_ℤ z (pos 1) || ltb_ℤ (pos 65535) z) ≡ false → IsListed z
IsListed-checked (pos n) e = (n, refl, (ground arith, ground arith))
IsListed-checked (negsuc n) e = absurd (ground arith)

put_front :
    (p : ℤ) (m : String ⊎ List ℤ) (ps : List ℤ)
    → IsListed p
    → ((qs : List ℤ) → m ≡ inr qs → All IsListed qs)
    → (elim m [ inl e ↦ inl e | inr qs ↦ inr (p ∷ qs) ]) ≡ inr ps
    → All IsListed ps
put_front p (inl x) ps ok rest e = cc
put_front p (inr qs) ps ok rest e =
    let same : p ∷ qs ≡ ps = cc in subst (All IsListed) same (ok, rest qs refl)

parse_fields-IsListed :
    (fs : List String) (ps : List ℤ) → parse_fields fs ≡ inr ps → All IsListed ps
unfolding parse_fields
parse_fields-IsListed [] ps e = let same : [] ≡ ps = cc in subst (All IsListed) same tt
parse_fields-IsListed (f ∷ fs) ps e = elim (Bool-cases (str_eq (trim_space f) "")) [
  | inl blank ↦ parse_fields-IsListed fs ps (rw blank at e)
  | inr filled ↦
      by_number (atoi (trim_space f)) (parse_fields fs) (parse_fields-IsListed fs) (rw filled at e)
]
  where
    by_number :
        (o : Option ℤ) (m : String ⊎ List ℤ)
        → ((qs : List ℤ) → m ≡ inr qs → All IsListed qs)
        → (elim o [
          | none ↦ inl (trim_space f)
          | some p ↦
              if ltb_ℤ p (pos 1) || ltb_ℤ (pos 65535) p
              then inl (trim_space f)
              else elim m [ inl x ↦ inl x | inr qs ↦ inr (p ∷ qs) ]
        ])
          ≡ inr ps
        → All IsListed ps
    by_number none m rest h = cc
    by_number (some p) m rest h = elim (Bool-cases (ltb_ℤ p (pos 1) || ltb_ℤ (pos 65535) p)) [
      | inl out ↦
          let no : ◌≡◌ {A = String ⊎ List ℤ} (inl (trim_space f)) (inr ps) = rw out at h in cc
      | inr inside ↦ put_front p m ps (IsListed-checked p inside) rest (rw inside at h)
    ]

pub parse_ports-IsListed :
    (s : String) (ports : List ℤ) → parse_ports s ≡ inr ports → All IsListed ports
unfolding parse_ports
parse_ports-IsListed s ports e = parse_fields-IsListed (split b',' s) ports e
