-- ===== src/Prober.antt =====
-- internal/health/prober.go: active probing with thresholds on consecutive results.
pub mod Hysteresis
pub mod Record
pub mod Recorded
pub mod Round
pub mod Lifetime
mod Tests
use golancer.Prelude.{
  ℕ, ◌+◌, ◌*◌, String, Bool, true, false, Option, none, some, List, [], ◌∷◌, str_eq, if◌then◌else◌,
  leb, ltb, any, keep, length, ◌&&◌, ◌||◌, ◌==◌,
}
use golancer.Prelude.Int.{ℤ, pos, negsuc, suc_ℤ, pred_ℤ, neg_ℤ, ltb_ℤ, eqb_ℤ}
use golancer.Prelude.Run.{Run, done, panic, nil_dereference, invalid_argument, ◌>>=◌}
use golancer.Domain.{UrlLib, Heap, Ptr}
use golancer.Registry.{Registry, list_backends, registry_set_healthy}

-- `Config`. A duration is a number of nanoseconds.
pub record ProbeConfig : Type 0 where
  pub interval : ℤ
  pub timeout : ℤ
  pub path : String
  pub healthy_threshold : ℤ
  pub unhealthy_threshold : ℤ
  pub max_concurrent : ℤ

abbrev pub seconds : ℕ → ℤ
seconds n = pos (n * 1_000_000_000)

abbrev pub or_default : ℤ → ℤ → ℤ
or_default v d = if eqb_ℤ v (pos 0) then d else v

unfoldable pub with_defaults : ProbeConfig → ProbeConfig
with_defaults c = record c {
  interval = or_default c.interval (seconds 5);
  timeout = or_default c.timeout (seconds 2);
  path = if str_eq c.path "" then "/healthz" else c.path;
  healthy_threshold = or_default c.healthy_threshold (pos 1);
  unhealthy_threshold = or_default c.unhealthy_threshold (pos 3);
}

-- The map from instance IDs to signed streaks: successes above 0, failures below.
abbrev pub Streaks : Type 0
Streaks = List (String × ℤ)

-- A missing key reads as 0.
abbrev pub streak_of : String → Streaks → ℤ
streak_of id [] = pos 0
streak_of id ((k, s) ∷ m) = if str_eq k id then s else streak_of id m

abbrev pub put : String → ℤ → Streaks → Streaks
put id v [] = (id, v) ∷ []
put id v ((k, s) ∷ m) = if str_eq k id then (k, v) ∷ m else (k, s) ∷ put id v m

pub record Prober : Type 0 where
  pub cfg : ProbeConfig
  pub streak : Streaks

unfoldable pub new_prober : ProbeConfig → Prober
unfolding with_defaults
new_prober cfg = record { cfg = with_defaults cfg; streak = [] }

-- The two branches of `record`: the new streak, and what is reported to the registry.
unfoldable pub success : ProbeConfig → ℤ → Bool → ℤ × Option Bool
success cfg s initial =
    let s₀ = if ltb_ℤ s (pos 0) then pos 0 else s in
    if ltb_ℤ s₀ cfg.healthy_threshold
    then (suc_ℤ s₀, if eqb_ℤ (suc_ℤ s₀) cfg.healthy_threshold || initial then some true else none)
    else (s₀, none)

unfoldable pub failure : ProbeConfig → ℤ → ℤ × Option Bool
failure cfg s =
    let s₀ = if ltb_ℤ (pos 0) s then pos 0 else s in
    if ltb_ℤ (neg_ℤ cfg.unhealthy_threshold) s₀
    then (pred_ℤ s₀, if eqb_ℤ (pred_ℤ s₀) (neg_ℤ cfg.unhealthy_threshold) then some false else none)
    else (s₀, none)

abbrev pub fold_result : ProbeConfig → ℤ → Bool → Bool → ℤ × Option Bool
fold_result cfg s ok initial = if ok then success cfg s initial else failure cfg s

module _ {Url : Type 0} where
  abbrev pub report : Registry Url → String → Option Bool → Registry Url
  report r id none = r
  report r id (some v) = (registry_set_healthy r id v).0

  -- `record`, of the backend at `b`.
  unfoldable pub record_result : Registry Url → Prober → Ptr → Bool → Bool → Registry Url × Prober
  record_result r p b ok initial =
      let id = (r.heap.cell b).instance_id in
      let (s, reported) = fold_result p.cfg (streak_of id p.streak) ok initial in
      (report r id reported, record p { streak = put id s p.streak })

  -- `probe`: `get` performs the request, and gives the status of the answer, or none for an error.
  unfoldable pub probe : UrlLib Url → ProbeConfig → (String → Option ℕ) → Heap Url → Ptr → Run Bool
  probe urls cfg get h b = elim (h.cell b).url [
    | none ↦ panic nil_dereference
    | some u ↦ elim (get (urls.to_string (urls.join_path u cfg.path))) [
      | none ↦ done false
      | some status ↦ done (leb 200 status && ltb status 300)
    ]
  ]

  unfoldable pub probe_all :
      UrlLib Url → ProbeConfig → (String → Option ℕ) → Heap Url → List Ptr → Run (List Bool)
  probe_all urls cfg get h [] = done []
  probe_all urls cfg get h (b ∷ bs) =
      let rest = probe_all urls cfg get h bs in
      probe urls cfg get h b >>= λ ok. rest >>= λ oks. done (ok ∷ oks)

  -- The loop over the results. It ends with the shorter list; both have the same length.
  unfoldable pub record_all :
      Registry Url → Prober → List Ptr → List Bool → Bool → Registry Url × Prober
  record_all r p [] oks initial = (r, p)
  record_all r p (b ∷ bs) [] initial = (r, p)
  record_all r p (b ∷ bs) (ok ∷ oks) initial =
      let (r', p') = record_result r p b ok initial in record_all r' p' bs oks initial

  -- The streaks of the backends that are still listed.
  unfoldable pub drop_stale : Heap Url → List Ptr → Streaks → Streaks
  drop_stale h bs m = keep (λ (k, s). any (λ b. str_eq (h.cell b).instance_id k) bs) m

  -- `probeRound`. While the probes run, other goroutines change the registry: `meanwhile`.
  unfoldable pub probe_round :
      UrlLib Url
      → (String → Option ℕ)
      → (Registry Url → Registry Url)
      → Registry Url
      → Prober
      → Bool
      → Run (Registry Url × Prober)
  probe_round urls get meanwhile r p initial =
      let backends = list_backends r in
      let p' = record p { streak = drop_stale r.heap backends p.streak } in
      if length backends == 0
      then done (r, p')
      else probe_all urls p.cfg get r.heap backends >>= λ oks.
          done (record_all (meanwhile r) p' backends oks initial)

-- What the loop of `Run` receives: the end of its context, or a tick. Before the tick and while its
-- probes run, other goroutines change the registry.
pub data RunEvent (Url : Type 0) : Type 0 where
  cancelled : RunEvent Url
  tick :
      (Registry Url → Registry Url)
      → (String → Option ℕ)
      → (Registry Url → Registry Url)
      → RunEvent Url

module _ {Url : Type 0} where
  -- The loop of `Run`, over the events so far.
  unfoldable pub run_loop :
      UrlLib Url → Registry Url → Prober → List (RunEvent Url) → Run (Registry Url × Prober)
  run_loop urls r p [] = done (r, p)
  run_loop urls r p (cancelled ∷ es) = done (r, p)
  run_loop urls r p (tick before get meanwhile ∷ es) =
      probe_round urls get meanwhile (before r) p false >>= λ (r', p'). run_loop urls r' p' es

  -- `Run`: `time.NewTicker` panics on an interval that is not positive.
  unfoldable pub run :
      UrlLib Url → Registry Url → Prober → List (RunEvent Url) → Run (Registry Url × Prober)
  run urls r p es =
      if ltb_ℤ (pos 0) p.cfg.interval then run_loop urls r p es else panic invalid_argument

  -- `ProbeOnce`
  unfoldable pub probe_once :
      UrlLib Url
      → (String → Option ℕ)
      → (Registry Url → Registry Url)
      → Registry Url
      → Prober
      → Run (Registry Url × Prober)
  probe_once urls get meanwhile r p = probe_round urls get meanwhile r p true

  -- `runProber` of the start-up: the prober is made, seeds the health flags, and runs.
  unfoldable pub run_prober :
      UrlLib Url
      → ProbeConfig
      → (String → Option ℕ)
      → (Registry Url → Registry Url)
      → Registry Url
      → List (RunEvent Url)
      → Run (Registry Url × Prober)
  run_prober urls cfg get meanwhile r es =
      probe_once urls get meanwhile r (new_prober cfg) >>= λ (r', p'). run urls r' p' es
