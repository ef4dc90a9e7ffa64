-- ===== src/Bootstrap/Started.antt =====
-- internal/bootstrap/runner.go: in which state the servers begin to listen.
use Prim.Native.String.{◌++◌ as text_append}
use text.Mathlib.TextLemmas.{append_cancel_left}
use mathlib.Core.Path.{subst}
use golancer.Prelude.{
  ℕ, suc, ◌≡◌, refl, sym, ap, ◌∙◌, ◌≢◌, String, Bool, true, false, Option, none, some, List, [],
  ◌∷◌, map, arith, All, In, length, if◌then◌else◌, ◌==◌,
}
use golancer.Prelude.Int.{ℤ, pos}
use golancer.Prelude.Run.{done, ◌>>=◌}
use golancer.Domain.{UrlLib, Heap, Ptr, new_backend, empty_heap}
use golancer.Registry.{Registry, new_registry, list_backends}
use golancer.Registry.Invariant.{IsValid, HasUrl}
use golancer.Prober.{
  ProbeConfig, Prober, with_defaults, new_prober, probe_all, record_all, drop_stale, probe_round,
  probe_once, success, failure,
}
use golancer.Prober.Hysteresis.{observe}
use golancer.Prober.Round.{answers, probe_all-answers}
use golancer.Prober.Recorded.{Recorded, record_all-Recorded}
use golancer.Http.{NetLib}
use golancer.Config.{BackendSettings, Config, Invalid, validate}
use golancer.Config.Load.{
  Loaded, loaded, unparsable, invalid, load, domain_backends, weight_or_one, health_config,
  server_config,
}
use golancer.Config.Ports.{validate-ports}
use golancer.Config.Startup.{IsPositive, startup-IsValid, health_config-IsPositive}
use golancer.Middleware.{HttpHandler}
use golancer.Bootstrap.{Endpoint, started, servers, new_server, boot}

-- The seeding round takes the first result as it is.
observe_seeding :
    (cfg : ProbeConfig) (ok : Bool)
    → IsPositive cfg.healthy_threshold
    → (observe cfg true (record { streak = pos 0; flag = false }) ok).flag ≡ ok
unfolding observe success failure
observe_seeding cfg true (n, e, positive) = rw e (ground arith)
observe_seeding cfg false (n, e, positive) = ground arith

module _ {Url : Type 0} (urls : UrlLib Url) (get : String → Option ℕ) where
  round_lem :
      (r : Registry Url) (p : Prober) (cfg : ProbeConfig) (qs : List Ptr)
      → All HasUrl (map r.heap.cell qs)
      → (if length qs == 0
          then done (r, p)
          else probe_all urls cfg get r.heap qs >>= λ oks. done (record_all r p qs oks true))
        ≡ done (record_all r p qs (map (answers urls cfg get r.heap) qs) true)
  unfolding record_all
  round_lem r p cfg [] has = refl
  round_lem r p cfg (q ∷ qs) has =
      rw (probe_all-answers urls cfg get r.heap (q ∷ qs) has, record_all) (ground arith)

  -- What the seeding round makes of a registry on which nothing else works yet.
  pub probe_once-Recorded :
      (r : Registry Url) (p : Prober)
      → IsValid r
      → let p₀ : Prober = record p { streak = drop_stale r.heap (list_backends r) p.streak } in
        (r' : Registry Url) × (p' : Prober) × (probe_once urls get (λ x. x) r p ≡ done (r', p'))
        × Recorded (answers urls p.cfg get r.heap) true (list_backends r) r p₀ r' p'
  unfolding probe_once probe_round
  probe_once-Recorded r p v =
      let p₀ : Prober = record p { streak = drop_stale r.heap (list_backends r) p.streak } in
      let ok = answers urls p.cfg get r.heap in
      (
        (record_all r p₀ (list_backends r) (map ok (list_backends r)) true).0,
        (record_all r p₀ (list_backends r) (map ok (list_backends r)) true).1,
        round_lem r p₀ p.cfg (list_backends r) (rw v.stored v.has_url),
        record_all-Recorded ok true r p₀ (list_backends r) v (rw v.stored v.distinct),
      )

  domain_backends-unhealthy :
      (id : ℕ → String) (i : ℕ) (h : Heap Url) (bs : List BackendSettings)
      → ((q : Ptr) → (h.cell q).healthy ≡ false)
      → (q : Ptr) → ((domain_backends urls id i h bs).0.cell q).healthy ≡ false
  unfolding domain_backends new_backend
  domain_backends-unhealthy id i h [] down = down
  domain_backends-unhealthy id i h (b ∷ bs) down =
      domain_backends-unhealthy id (suc i)
        (new_backend h (id i) (urls.parse b.url) (weight_or_one b.weight)).0 bs
        (λ q. ground (arith, down q))

module _ {Url Addr Prefix : Type 0} (net : NetLib Addr Prefix) (urls : UrlLib Url)
    (parse : String → Option ℤ) where
  checked_lem :
      (c cfg : Config) (es : List Invalid)
      → validate net urls parse cfg ≡ es
      → ◌≡◌ {A = Loaded} (elim es [ [] ↦ loaded cfg | e ∷ es' ↦ invalid (e ∷ es') ]) (loaded c)
      → validate net urls parse c ≡ []
  checked_lem c cfg [] v e =
      let same : cfg ≡ c = cc in subst (λ x. validate net urls parse x ≡ []) same v
  checked_lem c cfg (x ∷ es) v e = cc

  -- What Load returns has passed Validate.
  load-validate :
      (unmarshal : String → Option Config) (file : Option String) (c : Config)
      → load urls net parse unmarshal file ≡ loaded c
      → validate net urls parse c ≡ []
  unfolding load
  load-validate unmarshal none c e = cc
  load-validate unmarshal (some file) c e = by_config (unmarshal file) e
    where
      by_config :
          (o : Option Config)
          → ◌≡◌ {A = Loaded}
              (elim o [
                | none ↦ unparsable
                | some cfg ↦ elim (validate net urls parse cfg) [
                  | [] ↦ loaded cfg
                  | x ∷ es ↦ invalid (x ∷ es)
                ]
              ])
              (loaded c)
          → validate net urls parse c ≡ []
      by_config none h = cc
      by_config (some cfg) h = checked_lem c cfg (validate net urls parse cfg) refl h

-- No text of the list stands in it twice.
abbrev pub Distinct : List String → Type 0
Distinct [] = Unit
Distinct (a ∷ rest) = All (λ b. a ≢ b) rest × Distinct rest

module _ {Url Addr Prefix S : Type 0} (net : NetLib Addr Prefix) (urls : UrlLib Url)
    (parse : String → Option ℤ) (draw : ℕ → ℕ)
    (mux : List (String × Endpoint Url Prefix) → HttpHandler S) (itoa : ℤ → String)
    (itoa_inj : (a b : ℤ) → itoa a ≡ itoa b → a ≡ b) where
  addr_ne : (a b : ℤ) → a ≢ b → text_append ":" (itoa a) ≢ text_append ":" (itoa b)
  addr_ne a b ne e = ne (itoa_inj a b (append_cancel_left ":" (itoa a) (itoa b) e))

  servers-Distinct :
      (token : String) (c : Config)
      → validate net urls parse c ≡ []
      → Distinct (map (λ s. s.addr) (servers net urls parse draw mux itoa token c))
  unfolding servers new_server server_config
  servers-Distinct token c ok =
      let (_, _, _, ne₁₂, ne₁₃, ne₂₃) = validate-ports net urls parse c ok in
      (
        (addr_ne _ _ (λ e. ne₂₃ (sym e)), (addr_ne _ _ (λ e. ne₁₃ (sym e)), tt)),
        ((addr_ne _ _ (λ e. ne₁₂ (sym e)), tt), (tt, tt)),
      )

module _ {Url Addr Prefix S : Type 0} (net : NetLib Addr Prefix) (urls : UrlLib Url)
    (parse : String → Option ℤ) (draw : ℕ → ℕ)
    (mux : List (String × Endpoint Url Prefix) → HttpHandler S) (itoa : ℤ → String)
    (itoa_inj : (a b : ℤ) → itoa a ≡ itoa b → a ≡ b) (unmarshal : String → Option Config)
    (id : ℕ → String) (id_inj : (i j : ℕ) → id i ≡ id j → i ≡ j) (get : String → Option ℕ)
    (file : Option String) (token : String) where
  -- If Load returns a configuration, the instance IDs are all different and Itoa gives different
  -- texts for different numbers, then the start does not panic, and when it starts the three
  -- servers, on three different addresses, the registry is valid and lists the configured backends,
  -- each of them is healthy exactly if its probe of the seeding round was answered with a status
  -- from 200 to 299, and the interval of the prober is positive.
  pub boot-started :
      (c : Config)
      → load urls net parse unmarshal file ≡ loaded c
      → let (h, ps) = domain_backends urls id 0 empty_heap c.backends in
        (r : Registry Url) × (p : Prober) × (boot net urls parse draw mux itoa unmarshal id get file
            token
          ≡ done (started r p (servers net urls parse draw mux itoa token c)))
        × IsValid r
        × (list_backends r ≡ ps)
        × ((b : Ptr)
            → In b ps
            → (r.heap.cell b).healthy
              ≡ answers urls (with_defaults (health_config parse c)) get h b)
        × IsPositive p.cfg.interval
        × Distinct (map (λ s. s.addr) (servers net urls parse draw mux itoa token c))
  unfolding boot new_prober drop_stale
  boot-started c e =
      let ok = load-validate net urls parse unmarshal file c e in
      let (interval, _, up, _) = health_config-IsPositive net urls parse c ok in
      let (h, ps) = domain_backends urls id 0 empty_heap c.backends in
      let cfg = with_defaults (health_config parse c) in
      let r₀ : Registry Url = new_registry h ps in
      let p₀ : Prober = record { cfg = cfg; streak = [] } in
      let (r, p, once, recorded) =
        probe_once-Recorded urls get r₀ p₀ (startup-IsValid net urls parse c ok id id_inj).0 in
      (
        r,
        p,
        rw (e, boot, once) refl,
        recorded.valid,
        ap (λ o. elim o [ none ↦ [] | some qs ↦ qs ]) recorded.backends,
        (λ b i.
            ap (λ w. w.flag) (recorded.selves b i i)
            ∙ ap
                (λ (f : Bool).
                  (observe cfg true (record { streak = pos 0; flag = f })
                    (answers urls cfg get h b)).flag)
                (domain_backends-unhealthy urls get id 0 empty_heap c.backends (λ q. refl) b)
            ∙ observe_seeding cfg (answers urls cfg get h b) up),
        subst (λ g. IsPositive g.interval) (sym recorded.cfg) interval,
        servers-Distinct net urls parse draw mux itoa itoa_inj token c ok,
      )
