-- ===== src/Prober/Lifetime.antt =====
-- internal/health/prober.go: a backend from the seeding round on, through any number of rounds.
use mathlib.Core.Path.{ap₂}
use golancer.Prelude.{
  ℕ, suc, ◌+◌, ◌≤◌, ◌<◌, ◌≡◌, refl, ap, ◌∙◌, String, Bool, true, false, Option, List, [], ◌∷◌, ◌++◌,
  arith, In, length, if◌then◌else◌,
}
use golancer.Prelude.Int.{pos, ltb_ℤ}
use golancer.Prelude.Run.{done}
use golancer.Domain.{UrlLib, Heap, Ptr}
use golancer.Registry.{Registry, list_backends}
use golancer.Registry.Invariant.{IsValid}
use golancer.Prober.{
  streak_of, ProbeConfig, Prober, RunEvent, cancelled, tick, with_defaults, new_prober, probe_once,
  run_loop, run, run_prober,
}
use golancer.Prober.Hysteresis.{observe, watch, verdict, newest, watch-verdict, verdict-newest}
use golancer.Prober.Record.{watch_of}
use golancer.Prober.Round.{answers, Undisturbed, probe_round-observe}

newest-same : (x y : Bool) (h : List Bool) → y ≡ x → newest x (y ∷ h) ≡ suc (newest x h)
newest-same true true h e = refl
newest-same false false h e = refl
newest-same true false h e = cc
newest-same false true h e = cc

module _ {Url : Type 0} (urls : UrlLib Url) (b : Ptr) where
  -- Changes by other goroutines that leave the backend alone, whenever they happen.
  abbrev pub LeavesAlone : (Registry Url → Registry Url) → Type 0
  LeavesAlone f = (r : Registry Url) → IsValid r → In b (list_backends r) → Undisturbed b r (f r)

  abbrev pub AllLeaveAlone : List (RunEvent Url) → Type 0
  AllLeaveAlone [] = Unit
  AllLeaveAlone (cancelled ∷ es) = AllLeaveAlone es
  AllLeaveAlone (tick before get meanwhile ∷ es) =
      LeavesAlone before × LeavesAlone meanwhile × AllLeaveAlone es

  -- The results of the backend after the events, the newest first. `h` gives its URL.
  abbrev pub history : ProbeConfig → Heap Url → List Bool → List (RunEvent Url) → List Bool
  history cfg h past [] = past
  history cfg h past (cancelled ∷ es) = past
  history cfg h past (tick before get meanwhile ∷ es) =
      history cfg h (answers urls cfg get h b ∷ past) es

  -- The rounds are not ended, and in each of them the probe of the backend has the result `x`.
  abbrev pub AllTicks : List (RunEvent Url) → Type 0
  AllTicks [] = Unit
  AllTicks (cancelled ∷ es) = ⊥
  AllTicks (tick before get meanwhile ∷ es) = AllTicks es

  abbrev pub AllAnswer : Bool → ProbeConfig → Heap Url → List (RunEvent Url) → Type 0
  AllAnswer x cfg h [] = Unit
  AllAnswer x cfg h (cancelled ∷ es) = ⊥
  AllAnswer x cfg h (tick before get meanwhile ∷ es) =
      (answers urls cfg get h b ≡ x) × AllAnswer x cfg h es

  history-append :
      (cfg : ProbeConfig) (h : Heap Url) (past : List Bool) (es fs : List (RunEvent Url))
      → AllTicks es
      → history cfg h past (es ++ fs) ≡ history cfg h (history cfg h past es) fs
  history-append cfg h past [] fs t = refl
  history-append cfg h past (cancelled ∷ es) fs t = elim t [ ]
  history-append cfg h past (tick before get meanwhile ∷ es) fs t =
      history-append cfg h (answers urls cfg get h b ∷ past) es fs t

  newest-history :
      (x : Bool) (cfg : ProbeConfig) (h : Heap Url) (past : List Bool) (es : List (RunEvent Url))
      → AllAnswer x cfg h es
      → length es + newest x past ≤ newest x (history cfg h past es)
  newest-history x cfg h past [] a = omega arith
  newest-history x cfg h past (cancelled ∷ es) a = elim a [ ]
  newest-history x cfg h past (tick before get meanwhile ∷ es) (a, rest) = omega (
    arith,
    newest-history x cfg h (answers urls cfg get h b ∷ past) es rest,
    newest-same x (answers urls cfg get h b) past a,
  )

  answers-url :
      (cfg : ProbeConfig) (get : String → Option ℕ) (h h' : Heap Url)
      → (h'.cell b).url ≡ (h.cell b).url
      → answers urls cfg get h' b ≡ answers urls cfg get h b
  answers-url cfg get h h' e = rw (e, answers)

  -- The watch of the backend, after changes that leave it alone.
  watch_of-left_alone :
      (r r' : Registry Url) (p : Prober)
      → In b (list_backends r)
      → Undisturbed b r r'
      → watch_of r' p b ≡ watch_of r p b
  watch_of-left_alone r r' p i und =
      ap₂ (λ k (f : Bool). record { streak = streak_of k p.streak; flag = f }) (und.ids b i)
        und.flag

  run_loop-watch :
      (cfg : ProbeConfig) (h : Heap Url) (seeded x : Bool) (past : List Bool)
      (es : List (RunEvent Url)) (r : Registry Url) (p : Prober)
      → p.cfg ≡ cfg
      → IsValid r
      → In b (list_backends r)
      → (r.heap.cell b).url ≡ (h.cell b).url
      → AllLeaveAlone es
      → watch_of r p b ≡ watch cfg seeded (x ∷ past)
      → (r' : Registry Url) × (p' : Prober) × (run_loop urls r p es ≡ done (r', p'))
        × (watch_of r' p' b ≡ watch cfg seeded (history cfg h (x ∷ past) es))
  unfolding run_loop watch
  run_loop-watch cfg h seeded x past [] r p c v i u alone w = (r, p, refl, w)
  run_loop-watch cfg h seeded x past (cancelled ∷ es) r p c v i u alone w = (r, p, refl, w)
  run_loop-watch cfg h seeded x past (tick before get meanwhile ∷ es) r p c v i u alone w =
      let und = alone.0 r v i in
      let (r₁, p₁, e, w₁, v₁, i₁, u₁, c₁) =
        probe_round-observe urls get meanwhile (before r) p false b und.valid und.listed
          (alone.1 (before r) und.valid und.listed) in
      let seen : watch_of r₁ p₁ b
          ≡ observe cfg false (watch cfg seeded (x ∷ past)) (answers urls cfg get h b) =
        w₁
        ∙ ap (λ g. observe g false (watch_of (before r) p b) (answers urls g get (before r).heap b))
            c
        ∙ ap₂ (observe cfg false) (watch_of-left_alone r (before r) p i und ∙ w)
            (answers-url cfg get h (before r).heap (und.url ∙ u)) in
      let (r₂, p₂, e₂, w₂) =
        run_loop-watch cfg h seeded (answers urls cfg get h b) (x ∷ past) es r₁ p₁ (c₁ ∙ c) v₁ i₁
          (u₁ ∙ und.url ∙ u) alone.2 seen in
      (r₂, p₂, rw e e₂, w₂)

module _ {Url : Type 0} (urls : UrlLib Url) (b : Ptr) (cfg : ProbeConfig) (interval up down : ℕ)
    (ticks : (with_defaults cfg).interval ≡ pos interval) (not_zero : 0 < interval)
    (has_up : (with_defaults cfg).healthy_threshold ≡ pos up)
    (has_down : (with_defaults cfg).unhealthy_threshold ≡ pos down) (up_pos : 0 < up)
    (down_pos : 0 < down) where
  -- With a positive interval and positive thresholds, for a backend that is listed and not healthy
  -- before the seeding round, if the other goroutines keep the registry valid, the IDs of the
  -- listed backends, and the backend listed with its URL and its flag, whenever they change the
  -- registry, the prober seeds and runs any number of rounds without a panic, and its flag is the
  -- verdict of the documented rule on the results of all its probes.
  pub run_prober-verdict :
      (get : String → Option ℕ) (meanwhile : Registry Url → Registry Url) (r : Registry Url)
      (es : List (RunEvent Url))
      → IsValid r
      → In b (list_backends r)
      → (r.heap.cell b).healthy ≡ false
      → LeavesAlone urls b meanwhile
      → AllLeaveAlone urls b es
      → let first = answers urls (with_defaults cfg) get r.heap b in
        (r' : Registry Url) × (p' : Prober) × (run_prober urls cfg get meanwhile r es
          ≡ done (r', p'))
        × ((r'.heap.cell b).healthy
            ≡ verdict up down true (history urls b (with_defaults cfg) r.heap (first ∷ []) es))
  unfolding run_prober probe_once run new_prober watch
  run_prober-verdict get meanwhile r es v i down_first alone all =
      let p : Prober = record { cfg = with_defaults cfg; streak = [] } in
      let first = answers urls (with_defaults cfg) get r.heap b in
      let (r₁, p₁, e, w₁, v₁, i₁, u₁, c₁) =
        probe_round-observe urls get meanwhile r p true b v i (alone r v i) in
      let seen : watch_of r₁ p₁ b ≡ watch (with_defaults cfg) true (first ∷ []) =
        w₁
        ∙ ap
            (λ (f : Bool).
              observe (with_defaults cfg) true (record { streak = pos 0; flag = f }) first)
            down_first in
      let (r₂, p₂, e₂, w₂) =
        run_loop-watch urls b (with_defaults cfg) r.heap true first [] es r₁ p₁ c₁ v₁ i₁ u₁ all
          seen in
      let positive : ltb_ℤ (pos 0) p₁.cfg.interval ≡ true =
        rw (ap (λ g. g.interval) c₁ ∙ ticks) (ground arith) in
      (
        r₂,
        p₂,
        rw (e, positive) e₂,
        ap (λ w. w.flag) w₂
            ∙ watch-verdict (with_defaults cfg) up down has_up has_down up_pos down_pos true
                (history urls b (with_defaults cfg) r.heap (first ∷ []) es),
      )

  -- With a positive interval and positive thresholds, for a backend that is listed and not healthy
  -- before the seeding round if the other goroutines keep the registry valid, the IDs of the listed
  -- backends, and the backend listed with its URL and its flag, after any number of rounds followed
  -- by as many rounds in a row in which its probe succeeds as the healthy threshold says, or fails
  -- as the unhealthy threshold says, its flag says healthy, or unhealthy.
  pub run_prober-settles :
      (get : String → Option ℕ) (meanwhile : Registry Url → Registry Url) (r : Registry Url)
      (es fs : List (RunEvent Url)) (x : Bool)
      → IsValid r
      → In b (list_backends r)
      → (r.heap.cell b).healthy ≡ false
      → LeavesAlone urls b meanwhile
      → AllLeaveAlone urls b (es ++ fs)
      → AllTicks urls b es
      → AllAnswer urls b x (with_defaults cfg) r.heap fs
      → (if x then up else down) ≤ length fs
      → (r' : Registry Url) × (p' : Prober) × (run_prober urls cfg get meanwhile r (es ++ fs)
          ≡ done (r', p'))
        × ((r'.heap.cell b).healthy ≡ x)
  run_prober-settles get meanwhile r es fs x v i out alone all ticking answering enough =
      let first = answers urls (with_defaults cfg) get r.heap b in
      let past = history urls b (with_defaults cfg) r.heap (first ∷ []) es in
      let (r', p', e, flag) = run_prober-verdict get meanwhile r (es ++ fs) v i out alone all in
      let long = newest-history urls b x (with_defaults cfg) r.heap past fs answering in
      (
        r',
        p',
        e,
        flag
            ∙ ap (verdict up down true)
                (history-append urls b (with_defaults cfg) r.heap (first ∷ []) es fs ticking)
            ∙ verdict-newest up down true x (history urls b (with_defaults cfg) r.heap past fs)
                up_pos down_pos (omega arith),
      )
