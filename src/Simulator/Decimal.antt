-- ===== src/Simulator/Decimal.antt =====
-- scripts/simulate_server/main.go: numbers in decimal, as `parsePorts` cuts, trims and reads them.
use Prim.Native.Char.{Char, code}
use mathlib.Core.Path.{subst}
use golancer.Prelude.{
  ℕ, zero, suc, ◌+◌, ◌*◌, ◌/◌, ◌%◌, ◌^◌, ◌≤◌, ◌<◌, ◌≡◌, refl, sym, ap, ◌∙◌, String, true, false,
  some, inl, inr, List, ◌∷◌, arith, str_eq, str_eq_ne, ltb, lt→ltb, ◌==◌, if◌then◌else◌, Bool-cases,
}
use golancer.Prelude.Int.{pos}
use golancer.Http.{split, is_space, trim_left, trim_right, trim_space}
use golancer.Simulator.{digits_value, unsigned, atoi}

-- The digits from 0 to 9.
abbrev pub digit : ℕ → Char
digit zero = "0"
digit (suc zero) = "1"
digit (suc (suc zero)) = "2"
digit (suc (suc (suc zero))) = "3"
digit (suc (suc (suc (suc zero)))) = "4"
digit (suc (suc (suc (suc (suc zero))))) = "5"
digit (suc (suc (suc (suc (suc (suc zero)))))) = "6"
digit (suc (suc (suc (suc (suc (suc (suc zero))))))) = "7"
digit (suc (suc (suc (suc (suc (suc (suc (suc zero)))))))) = "8"
digit (suc (suc (suc (suc (suc (suc (suc (suc (suc k))))))))) = "9"

-- A number below 10 ^ f in decimal, in front of a text.
unfoldable pub print : ℕ → ℕ → String → String
print zero n rest = rest
print (suc f) n rest =
    let rest' = String.◌∷◌ (digit (n % 10)) rest in
    let more = print f (n / 10) rest' in if n / 10 == 0 then rest' else more

code-digit : (k : ℕ) → k < 10 → code (digit k) ≡ 48 + k
code-digit zero lt = refl
code-digit (suc zero) lt = refl
code-digit (suc (suc zero)) lt = refl
code-digit (suc (suc (suc zero))) lt = refl
code-digit (suc (suc (suc (suc zero)))) lt = refl
code-digit (suc (suc (suc (suc (suc zero))))) lt = refl
code-digit (suc (suc (suc (suc (suc (suc zero)))))) lt = refl
code-digit (suc (suc (suc (suc (suc (suc (suc zero))))))) lt = refl
code-digit (suc (suc (suc (suc (suc (suc (suc (suc zero)))))))) lt = refl
code-digit (suc (suc (suc (suc (suc (suc (suc (suc (suc zero))))))))) lt = refl
code-digit (suc (suc (suc (suc (suc (suc (suc (suc (suc (suc k)))))))))) lt = absurd (omega arith)

abbrev pub limit : ℕ → ℕ
limit zero = 1
limit (suc f) = 10 * limit f

pub is_space-digit : (k : ℕ) → k < 10 → is_space (code (digit k)) ≡ false
is_space-digit k lt = rw (code-digit k lt) (ground arith)

digits_value-digit :
    (a k : ℕ) (rest : String)
    → k < 10
    → digits_value a (String.◌∷◌ (digit k) rest) ≡ digits_value (a * 10 + k) rest
unfolding digits_value
digits_value-digit a k rest lt = rw (code-digit k lt) (ground arith)

print-last :
    (f n : ℕ) (rest : String) → n < 10 → print (suc f) n rest ≡ String.◌∷◌ (digit (n % 10)) rest
unfolding print
print-last f n rest lt = let e : (n / 10 == 0) ≡ true = ground arith in rw e

print-more :
    (f n : ℕ) (rest : String)
    → 10 ≤ n
    → print (suc f) n rest ≡ print f (n / 10) (String.◌∷◌ (digit (n % 10)) rest)
unfolding print
print-more f n rest le = let e : (n / 10 == 0) ≡ false = ground arith in rw e

-- What holds of the last digit, and is kept when a digit is put in front, holds of a printed number.
print-rule :
    (R : ℕ → String → String → Type 0)
    → ((n : ℕ) (rest : String) → n < 10 → R n rest (String.◌∷◌ (digit n) rest))
    → ((n : ℕ) (rest out : String)
        → 10 ≤ n
        → R (n / 10) (String.◌∷◌ (digit (n % 10)) rest) out
        → R n rest out)
    → (f n : ℕ) (rest : String) → n < limit (suc f)
    → R n rest (print (suc f) n rest)
print-rule R base step zero n rest lt =
    let same : n % 10 ≡ n = omega arith in rw (print-last zero n rest lt, same) (base n rest lt)
print-rule R base step (suc f) n rest lt = elim (Bool-cases (ltb n 10)) [
  | inl e ↦
      let small : n < 10 = ground arith in
      let same : n % 10 ≡ n = omega arith in
      rw (print-last (suc f) n rest small, same) (base n rest small)
  | inr e ↦
      let le : 10 ≤ n = ground arith in
      rw (print-more (suc f) n rest le) (
        step n rest _ le
          (print-rule R base step f (n / 10) (String.◌∷◌ (digit (n % 10)) rest) (omega arith)))
]

-- A printed number begins with a digit.
print-head :
    (f n : ℕ) (rest : String)
    → n < limit (suc f)
    → (k : ℕ) × (t : String) × (k < 10) × (print (suc f) n rest ≡ String.◌∷◌ (digit k) t)
print-head =
    print-rule (λ n rest out. (k : ℕ) × (t : String) × (k < 10) × (out ≡ String.◌∷◌ (digit k) t))
      (λ n rest lt. (n, rest, lt, refl)) (λ n rest out le h. h)

digits_value-print :
    (f n : ℕ) (rest : String)
    → n < limit (suc f)
    → digits_value 0 (print (suc f) n rest) ≡ digits_value n rest
digits_value-print =
    print-rule (λ n rest out. digits_value 0 out ≡ digits_value n rest)
      (λ n rest lt. digits_value-digit 0 n rest lt ∙ ap (λ m. digits_value m rest) (omega arith))
      (λ n rest out le h.
        h
        ∙ digits_value-digit (n / 10) (n % 10) rest (omega arith)
        ∙ ap (λ m. digits_value m rest) (omega arith))

-- Splitting at commas leaves a printed number in one piece.
split-digit :
    (k : ℕ) (rest w : String) (ws : List String)
    → k < 10
    → split b',' rest ≡ w ∷ ws
    → split b',' (String.◌∷◌ (digit k) rest) ≡ String.◌∷◌ (digit k) w ∷ ws
unfolding split
split-digit k rest w ws lt e =
    let no_comma : (code (digit k) == b',') ≡ false = rw (code-digit k lt) (ground arith) in
    rw (no_comma, e) refl

-- A function that keeps a digit in the piece behind it keeps a printed number in one piece.
pub cut_print_lem :
    (cut : String → List String)
    → ((k : ℕ) (rest w : String) (ws : List String)
        → k < 10
        → cut rest ≡ w ∷ ws
        → cut (String.◌∷◌ (digit k) rest) ≡ String.◌∷◌ (digit k) w ∷ ws)
    → (f n : ℕ) (rest : String) → n < limit (suc f)
    → (w : String) (ws : List String) → cut rest ≡ w ∷ ws
    → cut (print (suc f) n rest) ≡ print (suc f) n w ∷ ws
cut_print_lem cut keeps zero n rest lt w ws e =
    rw (print-last zero n rest lt, print-last zero n w lt)
      (keeps (n % 10) rest w ws (omega arith) e)
cut_print_lem cut keeps (suc f) n rest lt w ws e = elim (Bool-cases (ltb n 10)) [
  | inl t ↦
      let small : n < 10 = ground arith in
      rw (print-last (suc f) n rest small, print-last (suc f) n w small)
        (keeps (n % 10) rest w ws (omega arith) e)
  | inr t ↦
      let le : 10 ≤ n = ground arith in
      rw (print-more (suc f) n rest le, print-more (suc f) n w le)
        (cut_print_lem cut keeps f (n / 10) (String.◌∷◌ (digit (n % 10)) rest) (omega arith)
          (String.◌∷◌ (digit (n % 10)) w) ws (keeps (n % 10) rest w ws (omega arith) e))
]

pub split-print :
    (f n : ℕ) (rest : String)
    → n < limit (suc f)
    → (w : String) (ws : List String) → split b',' rest ≡ w ∷ ws
    → split b',' (print (suc f) n rest) ≡ print (suc f) n w ∷ ws
split-print = cut_print_lem (split b',') split-digit

trim_right-digit :
    (k : ℕ) (rest : String)
    → k < 10
    → trim_right rest ≡ rest
    → trim_right (String.◌∷◌ (digit k) rest) ≡ String.◌∷◌ (digit k) rest
unfolding trim_right
trim_right-digit k String.[] lt e = rw (is_space-digit k lt) refl
trim_right-digit k (String.◌∷◌ c rest) lt e = rw e refl

trim_right-print :
    (f n : ℕ) (rest : String)
    → n < limit (suc f)
    → trim_right rest ≡ rest
    → trim_right (print (suc f) n rest) ≡ print (suc f) n rest
trim_right-print =
    print-rule (λ n rest out. trim_right rest ≡ rest → trim_right out ≡ out)
      (λ n rest lt e. trim_right-digit n rest lt e)
      (λ n rest out le h e. h (trim_right-digit (n % 10) rest (omega arith) e))

trim_left-digit :
    (k : ℕ) (t : String) → k < 10 → trim_left (String.◌∷◌ (digit k) t) ≡ String.◌∷◌ (digit k) t
unfolding trim_left
trim_left-digit k t lt = rw (is_space-digit k lt) refl

trim_space-digit :
    (k : ℕ) (t : String)
    → k < 10
    → trim_right (String.◌∷◌ (digit k) t) ≡ String.◌∷◌ (digit k) t
    → trim_space (String.◌∷◌ (digit k) t) ≡ String.◌∷◌ (digit k) t
unfolding trim_space
trim_space-digit k t lt e = ap trim_right (trim_left-digit k t lt) ∙ e

atoi-digit :
    (k n : ℕ) (t : String)
    → k < 10
    → digits_value 0 (String.◌∷◌ (digit k) t) ≡ some n
    → n < 2 ^ 63
    → atoi (String.◌∷◌ (digit k) t) ≡ some (pos n)
unfolding atoi unsigned
atoi-digit k n t lt e small =
    let no_minus : (code (digit k) == 45) ≡ false = rw (code-digit k lt) (ground arith) in
    let no_plus : (code (digit k) == 43) ≡ false = rw (code-digit k lt) (ground arith) in
    let fits : ltb n (2 ^ 63) ≡ true = lt→ltb n (2 ^ 63) small in
    rw (no_minus, no_plus, e, fits) refl

-- A printed number is a field that is not blank, has no blanks around it, and reads as the number.
pub print-field :
    (f p : ℕ)
    → p < limit (suc f)
    → p < 2 ^ 63
    → (trim_space (print (suc f) p "") ≡ print (suc f) p "")
      × (str_eq (print (suc f) p "") "" ≡ false)
      × (atoi (print (suc f) p "") ≡ some (pos p))
unfolding digits_value trim_right
print-field f p lt fits =
    let (k, t, small, e) = print-head f p "" lt in
    (
      subst (λ x. trim_space x ≡ x) (sym e)
          (trim_space-digit k t small
            (subst (λ x. trim_right x ≡ x) e (trim_right-print f p "" lt refl))),
      str_eq_ne (print (suc f) p "") ""
          (λ empty. let no : String.◌∷◌ (digit k) t ≡ "" = sym e ∙ empty in cc),
      subst (λ x. atoi x ≡ some (pos p)) (sym e)
          (atoi-digit k p t small
            (subst (λ x. digits_value 0 x ≡ some p) e (digits_value-print f p "" lt)) fits),
    )
