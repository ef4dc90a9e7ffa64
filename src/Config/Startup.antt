-- ===== src/Config/Startup.antt =====
-- internal/config/load.go: a validated configuration starts the program in a good state.
use mathlib.Core.Path.{ap₂}
use golancer.Prelude.{
  ℕ, zero, suc, ◌*◌, ◌≤◌, ◌<◌, ◌≡◌, refl, ◌∙◌, ◌≢◌, String, false, Option, none, List, [], ◌∷◌, map,
  arith, All, All-of_map, ltb,
}
use golancer.Prelude.Int.{ℤ, pos, negsuc, ltb_ℤ}
use golancer.Domain.{UrlLib, Heap, Ptr, Backend, new_backend, empty_heap, max_weight}
use golancer.Registry.{new_registry}
use golancer.Registry.Invariant.{IsValid, DistinctIds, HasUrl}
use golancer.Balancer.Weighted.{HasWeight}
use golancer.Prober.{with_defaults, or_default}
use golancer.Http.{NetLib}
use golancer.Config.{
  BackendSettings, Config, too_heavy, complain, check_url, check_backends, check_duration,
  check_nonneg, validate,
}
use golancer.Config.Load.{domain_backends, weight_or_one, health_config, duration_or}
use golancer.Config.Ports.{append-eq-nil, validate-Parts}

weight_fits :
    (i w : ℕ)
    → complain (ltb max_weight w) (too_heavy i w) ≡ []
    → (0 < weight_or_one w) × (weight_or_one w ≤ max_weight)
weight_fits i w e = ground arith

module _ {Url : Type 0} (urls : UrlLib Url) (id : ℕ → String) where
  -- The configured backends by value.
  abbrev configured : ℕ → List BackendSettings → List (Backend Url)
  configured i [] = []
  configured i (b ∷ bs) =
      record {
        instance_id = id i;
        url = urls.parse b.url;
        healthy = false;
        active_connections_no = 0;
        weight = weight_or_one b.weight;
      }
      ∷ configured (suc i) bs

  next-domain_backends :
      (i : ℕ) (h : Heap Url) (bs : List BackendSettings)
      → h.next ≤ (domain_backends urls id i h bs).0.next
  unfolding domain_backends new_backend
  next-domain_backends i h [] = omega arith
  next-domain_backends i h (b ∷ bs) = omega (
    arith,
    next-domain_backends (suc i)
        (new_backend h (id i) (urls.parse b.url) (weight_or_one b.weight)).0 bs,
  )

  domain_backends-below :
      (i : ℕ) (h : Heap Url) (bs : List BackendSettings) (p : Ptr)
      → p < h.next
      → (domain_backends urls id i h bs).0.cell p ≡ h.cell p
  unfolding domain_backends new_backend
  domain_backends-below i h [] p lt = refl
  domain_backends-below i h (b ∷ bs) p lt =
      domain_backends-below (suc i)
        (new_backend h (id i) (urls.parse b.url) (weight_or_one b.weight)).0 bs p (omega arith)
      ∙ ground arith

  domain_backends-entries :
      (i : ℕ) (h : Heap Url) (bs : List BackendSettings)
      → let (h', ps) = domain_backends urls id i h bs in map h'.cell ps ≡ configured i bs
  unfolding domain_backends new_backend
  domain_backends-entries i h [] = refl
  domain_backends-entries i h (b ∷ bs) =
      let h₁ = (new_backend h (id i) (urls.parse b.url) (weight_or_one b.weight)).0 in
      ap₂ ◌∷◌ (domain_backends-below (suc i) h₁ bs h.next (omega arith) ∙ ground arith)
        (domain_backends-entries (suc i) h₁ bs)

  domain_backends-allocated :
      (i : ℕ) (h : Heap Url) (bs : List BackendSettings)
      → let (h', ps) = domain_backends urls id i h bs in All (λ p. p < h'.next) ps
  unfolding domain_backends new_backend
  domain_backends-allocated i h [] = tt
  domain_backends-allocated i h (b ∷ bs) =
      let h₁ = (new_backend h (id i) (urls.parse b.url) (weight_or_one b.weight)).0 in
      (omega (arith, next-domain_backends (suc i) h₁ bs), domain_backends-allocated (suc i) h₁ bs)

  check_url-HasUrl : (i : ℕ) (s : String) → check_url urls i s ≡ [] → urls.parse s ≢ none
  unfolding check_url
  check_url-HasUrl i s e = ground arith

  check_backends-parts :
      (i : ℕ) (b : BackendSettings) (bs : List BackendSettings)
      → check_backends urls i (b ∷ bs) ≡ []
      → (check_url urls i b.url ≡ [])
        × (complain (ltb max_weight b.weight) (too_heavy i b.weight) ≡ [])
        × (check_backends urls (suc i) bs ≡ [])
  unfolding check_backends
  check_backends-parts i b bs e =
      let (e₁, rest) = append-eq-nil _ _ e in let (e₂, e₃) = append-eq-nil _ _ rest in (e₁, e₂, e₃)

  configured-HasUrl :
      (i : ℕ) (bs : List BackendSettings)
      → check_backends urls i bs ≡ []
      → All HasUrl (configured i bs)
  configured-HasUrl i [] e = tt
  configured-HasUrl i (b ∷ bs) e =
      let (e₁, e₂, e₃) = check_backends-parts i b bs e in
      (check_url-HasUrl i b.url e₁, configured-HasUrl (suc i) bs e₃)

  configured-weight :
      (i : ℕ) (bs : List BackendSettings)
      → check_backends urls i bs ≡ []
      → All (λ b. (0 < b.weight) × (b.weight ≤ max_weight)) (configured i bs)
  configured-weight i [] e = tt
  configured-weight i (b ∷ bs) e =
      let (e₁, e₂, e₃) = check_backends-parts i b bs e in
      (weight_fits i b.weight e₂, configured-weight (suc i) bs e₃)

  module _ (id_inj : (i j : ℕ) → id i ≡ id j → i ≡ j) where
    configured-later :
        (i j : ℕ) (bs : List BackendSettings)
        → i < j
        → All (λ b. b.instance_id ≢ id i) (configured j bs)
    configured-later i j [] lt = tt
    configured-later i j (b ∷ bs) lt =
        ((λ e. absurd (omega (arith, id_inj j i e))), configured-later i (suc j) bs (omega arith))

    configured-DistinctIds : (i : ℕ) (bs : List BackendSettings) → DistinctIds (configured i bs)
    configured-DistinctIds i [] = tt
    configured-DistinctIds i (b ∷ bs) =
        (configured-later i (suc i) bs (omega arith), configured-DistinctIds (suc i) bs)

abbrev pub IsPositive : ℤ → Type 0
IsPositive z = (n : ℕ) × (z ≡ pos n) × (0 < n)

nonneg-IsPositive :
    (z : ℤ) (d : ℕ) → ltb_ℤ z (pos 0) ≡ false → 0 < d → IsPositive (or_default z (pos d))
nonneg-IsPositive (pos zero) d e lt = (d, refl, lt)
nonneg-IsPositive (pos (suc n)) d e lt = (suc n, ground arith, omega arith)
nonneg-IsPositive (negsuc n) d e lt = absurd (ground arith)

module _ {Url Addr Prefix : Type 0} (net : NetLib Addr Prefix) (urls : UrlLib Url)
    (parse : String → Option ℤ) (c : Config) (ok : validate net urls parse c ≡ []) where
  -- A configuration without errors, with instance IDs that are all different, starts the program
  -- with a valid registry, in which every backend has a weight from 1 to the maximum.
  pub startup-IsValid :
      (id : ℕ → String)
      → ((i j : ℕ) → id i ≡ id j → i ≡ j)
      → let (h, ps) = domain_backends urls id 0 empty_heap c.backends in
        IsValid (new_registry h ps) × All (HasWeight h) ps
  startup-IsValid id id_inj =
      let checked = (validate-Parts net urls parse c ok).backends in
      let (h, ps) = domain_backends urls id 0 empty_heap c.backends in
      let values = domain_backends-entries urls id 0 empty_heap c.backends in
      (
        record {
          ptrs = ps;
          stored = refl;
          allocated = domain_backends-allocated urls id 0 empty_heap c.backends;
          has_url = rw values (configured-HasUrl urls id 0 c.backends checked);
          distinct = rw values (configured-DistinctIds urls id id_inj 0 c.backends);
        },
        All-of_map h.cell (λ b. (0 < b.weight) × (b.weight ≤ max_weight)) ps
            (rw values (configured-weight urls id 0 c.backends checked)),
      )

  duration-nonneg :
      (field s : String)
      → check_duration parse field s ≡ []
      → ltb_ℤ (duration_or parse s (pos 0)) (pos 0) ≡ false
  unfolding check_duration
  duration-nonneg field s e = ground arith

  value-nonneg : (field : String) (z : ℤ) → check_nonneg field z ≡ [] → ltb_ℤ z (pos 0) ≡ false
  unfolding check_nonneg
  value-nonneg field z e = ground arith

  -- A configuration without errors gives the prober, after the defaults are put in, an interval, a
  -- timeout and two thresholds that are positive.
  pub health_config-IsPositive :
      let cfg = with_defaults (health_config parse c) in
      IsPositive cfg.interval
      × IsPositive cfg.timeout
      × IsPositive cfg.healthy_threshold
      × IsPositive cfg.unhealthy_threshold
  unfolding with_defaults health_config
  health_config-IsPositive =
      let checked = validate-Parts net urls parse c ok in
      (
        nonneg-IsPositive (duration_or parse c.health.interval (pos 0)) (5 * 1_000_000_000)
            (duration-nonneg "health.interval" c.health.interval checked.interval) (omega arith),
        nonneg-IsPositive (duration_or parse c.health.client.timeout (pos 0)) (2 * 1_000_000_000)
            (duration-nonneg "health.client.timeout" c.health.client.timeout checked.timeout)
            (omega arith),
        nonneg-IsPositive c.health.healthy_threshold 1
            (value-nonneg "health.healthy-threshold" c.health.healthy_threshold checked.healthy)
            (omega arith),
        nonneg-IsPositive c.health.unhealthy_threshold 3
            (value-nonneg "health.unhealthy-threshold" c.health.unhealthy_threshold
              checked.unhealthy)
            (omega arith),
      )
