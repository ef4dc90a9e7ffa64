-- ===== src/Runner/Outcome.antt =====
-- scripts/run/main.go: what the runner reports of its processes, and whom it kills.
use mathlib.Core.Path.{subst}
use golancer.Prelude.{
  All, ◌≡◌, refl, Bool, true, false, not, ◌&&◌, Option, none, some, inl, inr, List, [], ◌∷◌, ◌++◌,
  arith, In, Bool-cases,
}
use golancer.Runner.{
  Process, server, proxy, Event, interrupt, exits, Group, fresh_group, go, go_all, is_running,
  run_process, first_error, return_from, happen, happen_all, End, early, waiting, waited, wait,
  run_main, traffics,
}

-- The error of the group is that of a process that failed in one of the events.
abbrev Caused : List Event → Group → Type 0
Caused all g = (p : Process) → g.error ≡ some p → In (exits p true) all

first_error-In :
    (all : List Event) (o : Option Process) (p : Process)
    → ((q : Process) → o ≡ some q → In (exits q true) all)
    → In (exits p true) all
    → (q : Process) → first_error o p ≡ some q
    → In (exits q true) all
first_error-In all none p old new q e =
    let same : p ≡ q = cc in subst (λ x. In (exits x true) all) same new
first_error-In all (some r) p old new q e = old q e

return_from-Caused :
    (all : List Event) (p : Process) (failed cancelled : Bool) (g : Group)
    → Caused all g
    → In (exits p failed) all
    → Caused all (return_from p (run_process failed cancelled) g)
return_from-Caused all p false cancelled g old i = old
return_from-Caused all p true true g old i = old
return_from-Caused all p true false g old i = first_error-In all g.error p old i

happen-Caused :
    (all : List Event) (e : Event) (g : Group) → Caused all g → In e all → Caused all (happen e g)
happen-Caused all interrupt g old i = old
happen-Caused all (exits p failed) g old i = elim (Bool-cases (is_running p g.running)) [
  | inl t ↦ rw t (return_from-Caused all p failed g.cancelled g old i)
  | inr f ↦ rw f old
]

happen_all-Caused :
    (all es : List Event) (g : Group)
    → Caused all g
    → All (λ e. In e all) es
    → Caused all (happen_all es g)
unfolding happen_all
happen_all-Caused all [] g old i = old
happen_all-Caused all (e ∷ es) g old i =
    happen_all-Caused all es (happen e g) (happen-Caused all e g old i.0) i.1

go_all-Caused :
    (all : List Event) (ps : List Process) (g : Group) → Caused all g → Caused all (go_all ps g)
go_all-Caused all [] g old = old
go_all-Caused all (p ∷ ps) g old = go_all-Caused all ps (go p g) old

In-left :
    (xs ys zs : List Event)
    → All (λ e. In e (xs ++ ys)) zs
    → (a : Event) → All (λ e. In e (a ∷ xs ++ ys)) zs
In-left xs ys [] h a = tt
In-left xs ys (z ∷ zs) h a = (inr h.0, In-left xs ys zs h.1 a)

first_part : (xs ys : List Event) → All (λ e. In e (xs ++ ys)) xs
first_part [] ys = tt
first_part (x ∷ xs) ys = (inl refl, In-left xs ys xs (first_part xs ys) x)

last_part : (xs ys : List Event) → All (λ e. In e (xs ++ ys)) ys
last_part [] [] = tt
last_part [] (y ∷ ys) = (inl refl, In-left [] ys ys (last_part [] ys) y)
last_part (x ∷ xs) ys = In-left xs ys ys (last_part xs ys) x

-- What the end of `main` says of its errors.
abbrev pub IsSilent : List Event → End → Type 0
IsSilent all (early ps) = Unit
IsSilent all (waiting g) = Unit
IsSilent all (waited o logged) =
    (logged ≡ false) × ((p : Process) → o ≡ some p → In (exits p true) all)

wait-IsSilent :
    (all : List Event) (ps : List Process) (g : Group) → Caused all g → IsSilent all (wait ps g)
wait-IsSilent all [] g c = (ground arith, c)
wait-IsSilent all (p ∷ ps) g c = tt

-- However the processes end and whenever an interrupt comes: when the runner has waited for all of
-- them, it logs no error, also where the group has one, and the error that the group has is that of
-- a process that failed.
pub run_main-IsSilent :
    (before : List Event) (timer : Bool) (later : List Event)
    → IsSilent (before ++ later) (run_main before timer later)
unfolding run_main
run_main-IsSilent before timer later =
    let all = before ++ later in
    let g = happen_all before (go_all (server 1 ∷ server 2 ∷ server 3 ∷ proxy ∷ []) fresh_group) in
    let caused =
      happen_all-Caused all before
        (go_all (server 1 ∷ server 2 ∷ server 3 ∷ proxy ∷ []) fresh_group) (λ p e. cc)
        (first_part before later) in
    let g' = happen_all later (go_all (traffics 10) g) in
    let caused' =
      happen_all-Caused all later (go_all (traffics 10) g)
        (go_all-Caused all (traffics 10) g caused) (last_part before later) in
    elim (Bool-cases (g.cancelled && not timer)) [
      | inl e ↦ rw e tt
      | inr e ↦ rw e (wait-IsSilent all g'.running g' caused')
    ]
