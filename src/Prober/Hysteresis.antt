-- ===== src/Prober/Hysteresis.antt =====
-- internal/health/prober.go: the health flag as a function of the history of probe results.
use golancer.Prelude.{
  ℕ, suc, ◌≤◌, ◌<◌, ◌≡◌, refl, Bool, true, false, Option, none, some, List, [], ◌∷◌, arith,
  if◌then◌else◌, leb, ltb, ◌&&◌, ◌||◌, ◌==◌, inl, inr, ◌⊎◌,
}
use golancer.Prelude.Int.{ℤ, pos, neg}
use golancer.Prober.{ProbeConfig, fold_result, success, failure}

-- The streak and the flag of one backend, and what one recorded result makes of them.
pub record Watch : Type 0 where
  pub streak : ℤ
  pub flag : Bool

abbrev pub reported_or : Bool → Option Bool → Bool
reported_or flag none = flag
reported_or flag (some v) = v

unfoldable pub observe : ProbeConfig → Bool → Watch → Bool → Watch
unfolding success failure
observe cfg initial w ok =
    let (s, reported) = fold_result cfg w.streak ok initial in
    record { streak = s; flag = reported_or w.flag reported }

-- A backend's state after its results, the newest first. The oldest is that of the seeding round
-- if `seeded`.
unfoldable pub watch : ProbeConfig → Bool → List Bool → Watch
watch cfg seeded [] = record { streak = pos 0; flag = false }
watch cfg seeded (x ∷ []) = observe cfg seeded (record { streak = pos 0; flag = false }) x
watch cfg seeded (x ∷ y ∷ h) = observe cfg false (watch cfg seeded (y ∷ h)) x

-- How many of the newest results are `b`, without a break.
abbrev pub newest : Bool → List Bool → ℕ
newest b [] = 0
newest true (true ∷ h) = suc (newest true h)
newest true (false ∷ h) = 0
newest false (false ∷ h) = suc (newest false h)
newest false (true ∷ h) = 0

-- The documented rule: `up` consecutive successes admit a backend, `down` consecutive failures evict
-- it, and otherwise it stays as it was. A success in the seeding round admits it at once.
unfoldable pub verdict : ℕ → ℕ → Bool → List Bool → Bool
verdict up down seeded [] = false
verdict up down seeded (x ∷ []) =
    if leb up (newest true (x ∷ [])) || seeded && x then true else false
verdict up down seeded (x ∷ y ∷ h) =
    if leb up (newest true (x ∷ y ∷ h))
    then true
    else if leb down (newest false (x ∷ y ∷ h))
    then false
    else verdict up down seeded (y ∷ h)

-- The streak is the length of the newest run, clamped at its threshold; a run of successes counts
-- up, one of failures down.
abbrev streak_at : ℕ → ℕ → ℕ → ℕ → ℤ
streak_at up down t f =
    if ltb 0 t then pos (if leb up t then up else t) else neg (if leb down f then down else f)

one_run : (h : List Bool) → (newest true h ≡ 0) ⊎ (newest false h ≡ 0)
one_run [] = inl refl
one_run (true ∷ h) = inr refl
one_run (false ∷ h) = inl refl

module _ (up down : ℕ) (seeded : Bool) (up_pos : 0 < up) (down_pos : 0 < down) where
  -- A run that reaches its threshold decides the flag.
  verdict-up : (h : List Bool) → up ≤ newest true h → verdict up down seeded h ≡ true
  unfolding verdict
  verdict-up [] le = absurd (omega arith)
  verdict-up (x ∷ []) le = ground arith
  verdict-up (x ∷ y ∷ h) le = ground arith

  verdict-down : (h : List Bool) → down ≤ newest false h → verdict up down seeded h ≡ false
  unfolding verdict
  verdict-down [] le = absurd (omega arith)
  verdict-down (true ∷ []) le = absurd (omega arith)
  verdict-down (false ∷ []) le = ground arith
  verdict-down (true ∷ y ∷ h) le = absurd (omega arith)
  verdict-down (false ∷ y ∷ h) le = ground arith

  verdict-true :
      (y : Bool) (h : List Bool)
      → verdict up down seeded (true ∷ y ∷ h)
        ≡ (if leb up (suc (newest true (y ∷ h))) then true else verdict up down seeded (y ∷ h))
  unfolding verdict
  verdict-true y h = ground arith

  verdict-false :
      (y : Bool) (h : List Bool)
      → verdict up down seeded (false ∷ y ∷ h)
        ≡ (if leb down (suc (newest false (y ∷ h))) then false else verdict up down seeded (y ∷ h))
  unfolding verdict
  verdict-false y h = ground arith

-- Of the newest results, enough of one kind decide.
pub verdict-newest :
    (up down : ℕ) (seeded x : Bool) (h : List Bool)
    → 0 < up
    → 0 < down
    → (if x then up else down) ≤ newest x h
    → verdict up down seeded h ≡ x
verdict-newest up down seeded true h u d le = verdict-up up down seeded u d h le
verdict-newest up down seeded false h u d le = verdict-down up down seeded u d h le

module _ (cfg : ProbeConfig) (up down : ℕ) (has_up : cfg.healthy_threshold ≡ pos up)
    (has_down : cfg.unhealthy_threshold ≡ pos down) (up_pos : 0 < up) (down_pos : 0 < down) where
  success_lem :
      (t f : ℕ) (initial : Bool)
      → success cfg (streak_at up down t f) initial ≡ (
        streak_at up down (suc t) 0,
        if ltb t up && ((suc t == up) || initial) then some true else none,
      )
  unfolding success
  success_lem t f initial = rw has_up (ground arith)

  failure_lem :
      (t f : ℕ)
      → ((t ≡ 0) ⊎ (f ≡ 0))
      → failure cfg (streak_at up down t f)
        ≡ (streak_at up down 0 (suc f), if suc f == down then some false else none)
  unfolding failure
  failure_lem t f one = rw has_down (ground arith)

  abbrev WatchIs : List Bool → Watch → Bool → Type 0
  WatchIs h w seeded =
      (w.streak ≡ streak_at up down (newest true h) (newest false h))
      × (w.flag ≡ verdict up down seeded h)

  observe-true :
      (seeded y : Bool) (h : List Bool) (w : Watch)
      → WatchIs (y ∷ h) w seeded
      → WatchIs (true ∷ y ∷ h) (observe cfg false w true) seeded
  unfolding observe
  observe-true seeded y h w (s, flag) =
      rw (s, success_lem (newest true (y ∷ h)) (newest false (y ∷ h)) false)
        (
          refl,
          ground (
            arith,
            verdict-true up down seeded up_pos down_pos y h,
            verdict-up up down seeded up_pos down_pos (y ∷ h),
          ),
        )

  observe-false :
      (seeded y : Bool) (h : List Bool) (w : Watch)
      → WatchIs (y ∷ h) w seeded
      → WatchIs (false ∷ y ∷ h) (observe cfg false w false) seeded
  unfolding observe
  observe-false seeded y h w (s, flag) =
      rw (s, failure_lem (newest true (y ∷ h)) (newest false (y ∷ h)) (one_run (y ∷ h)))
        (
          refl,
          ground (
            arith,
            verdict-false up down seeded up_pos down_pos y h,
            verdict-down up down seeded up_pos down_pos (y ∷ h),
          ),
        )

  watch-WatchIs : (seeded : Bool) (h : List Bool) → WatchIs h (watch cfg seeded h) seeded
  unfolding watch observe verdict
  watch-WatchIs seeded [] = ground arith
  watch-WatchIs seeded (true ∷ []) = rw has_up (ground arith)
  watch-WatchIs seeded (false ∷ []) = rw has_down (ground arith)
  watch-WatchIs seeded (true ∷ y ∷ h) =
      observe-true seeded y h (watch cfg seeded (y ∷ h)) (watch-WatchIs seeded (y ∷ h))
  watch-WatchIs seeded (false ∷ y ∷ h) =
      observe-false seeded y h (watch cfg seeded (y ∷ h)) (watch-WatchIs seeded (y ∷ h))

  -- With positive thresholds the health flag after any history of recorded results is that of the
  -- documented rule: as many consecutive successes as the healthy threshold admit the backend, as
  -- many consecutive failures as the unhealthy threshold evict it, a success in the seeding round
  -- admits it at once, and no other result changes the flag.
  pub watch-verdict :
      (seeded : Bool) (h : List Bool) → (watch cfg seeded h).flag ≡ verdict up down seeded h
  watch-verdict seeded h = (watch-WatchIs seeded h).1
