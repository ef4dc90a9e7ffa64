-- ===== src/Prober/Round.antt =====
-- internal/health/prober.go: `probeRound`, with what other goroutines do while the probes run.
use mathlib.Core.Path.{ap₂}
use golancer.Prelude.{
  ℕ, ◌≡◌, refl, ap, ◌∙◌, String, Bool, true, false, Option, none, some, inl, inr, List, [], ◌∷◌,
  map, arith, All, In, any, str_eq, str_eq_iff, str_eq_refl, length, leb, ltb, ◌&&◌, ◌==◌,
  Bool-cases,
}
use golancer.Prelude.Run.{done}
use golancer.Domain.{UrlLib, Heap, Ptr}
use golancer.Registry.{Registry, list_backends}
use golancer.Registry.Invariant.{IsValid, HasUrl}
use golancer.Registry.Fields.{DistinctIds-field}
use golancer.Prober.{
  ProbeConfig, Prober, Streaks, streak_of, record_all, probe, probe_all, drop_stale, probe_round,
}
use golancer.Prober.Recorded.{listed_still, record_all-Recorded}
use golancer.Prober.Hysteresis.{observe}
use golancer.Prober.Record.{id_of, watch_of}

module _ {Url : Type 0} where
  -- Whether the probe of a backend counts as a success: an answer with a status from 200 to 299.
  abbrev pub answers : UrlLib Url → ProbeConfig → (String → Option ℕ) → Heap Url → Ptr → Bool
  answers urls cfg get h b = elim (h.cell b).url [
    | none ↦ false
    | some u ↦ elim (get (urls.to_string (urls.join_path u cfg.path))) [
      | none ↦ false
      | some status ↦ leb 200 status && ltb status 300
    ]
  ]

  probe-answers :
      (urls : UrlLib Url) (cfg : ProbeConfig) (get : String → Option ℕ) (h : Heap Url) (b : Ptr)
      → HasUrl (h.cell b)
      → probe urls cfg get h b ≡ done (answers urls cfg get h b)
  unfolding probe
  probe-answers urls cfg get h b has = ground arith

  pub probe_all-answers :
      (urls : UrlLib Url) (cfg : ProbeConfig) (get : String → Option ℕ) (h : Heap Url)
      (bs : List Ptr)
      → All HasUrl (map h.cell bs)
      → probe_all urls cfg get h bs ≡ done (map (answers urls cfg get h) bs)
  unfolding probe_all
  probe_all-answers urls cfg get h [] has = refl
  probe_all-answers urls cfg get h (b ∷ bs) has =
      rw (probe-answers urls cfg get h b has.0, probe_all-answers urls cfg get h bs has.1)

  streak_of-drop_stale :
      (h : Heap Url) (bs : List Ptr) (k : String) (m : Streaks)
      → any (λ b. str_eq (h.cell b).instance_id k) bs ≡ true
      → streak_of k (drop_stale h bs m) ≡ streak_of k m
  unfolding drop_stale
  streak_of-drop_stale h bs k [] live = refl
  streak_of-drop_stale h bs k ((j, s) ∷ m) live = elim (Bool-cases (str_eq j k)) [
    | inl e ↦ let same : j ≡ k = (str_eq_iff j k).0 e in rw (same, live, str_eq_refl k) refl
    | inr e ↦ rw e (ground (arith, streak_of-drop_stale h bs k m live))
  ]

  any-In :
      (h : Heap Url) (bs : List Ptr) (b : Ptr)
      → In b bs
      → any (λ c. str_eq (h.cell c).instance_id (h.cell b).instance_id) bs ≡ true
  any-In h [] b i = elim i [ ]
  any-In h (c ∷ bs) b (inl e) = rw (e, str_eq_refl (h.cell c).instance_id) refl
  any-In h (c ∷ bs) b (inr i) = ground (arith, any-In h bs b i)

  -- What other goroutines leave of the registry, as far as the backend `b` is concerned: it is valid,
  -- still lists `b` with its URL and its flag, and the listed backends keep their IDs.
  pub record Undisturbed (b : Ptr) (r r' : Registry Url) : Type 0 where
    pub valid : IsValid r'
    pub listed : In b (list_backends r')
    pub ids : (q : Ptr) → In q (list_backends r) → id_of r' q ≡ id_of r q
    pub url : (r'.heap.cell b).url ≡ (r.heap.cell b).url
    pub flag : (r'.heap.cell b).healthy ≡ (r.heap.cell b).healthy

  -- One round on a valid registry does not panic, and for a listed backend, if the other goroutines
  -- keep the registry valid, the IDs of the listed backends, and the backend listed with its URL
  -- and its flag while the probes run, the streak and the flag become what one recorded result of
  -- its own probe makes of them, and the registry stays valid.
  pub probe_round-observe :
      (urls : UrlLib Url) (get : String → Option ℕ) (meanwhile : Registry Url → Registry Url)
      (r : Registry Url) (p : Prober) (initial : Bool) (b : Ptr)
      → IsValid r
      → In b (list_backends r)
      → Undisturbed b r (meanwhile r)
      → (r' : Registry Url) × (p' : Prober) × (probe_round urls get meanwhile r p initial
          ≡ done (r', p'))
        × (watch_of r' p' b
            ≡ observe p.cfg initial (watch_of r p b) (answers urls p.cfg get r.heap b))
        × IsValid r'
        × In b (list_backends r')
        × ((r'.heap.cell b).url ≡ (r.heap.cell b).url)
        × (p'.cfg ≡ p.cfg)
  unfolding probe_round
  probe_round-observe urls get meanwhile r p initial b v i und =
      let bs = list_backends r in
      let ok = answers urls p.cfg get r.heap in
      let p₀ : Prober = record p { streak = drop_stale r.heap bs p.streak } in
      let apart =
        DistinctIds-field r.heap.cell (meanwhile r).heap.cell bs und.ids (rw v.stored v.distinct) in
      let recorded = record_all-Recorded ok initial (meanwhile r) p₀ bs und.valid apart in
      let streak : streak_of (id_of (meanwhile r) b) p₀.streak ≡ streak_of (id_of r b) p.streak =
        ap (λ k. streak_of k p₀.streak) (und.ids b i)
        ∙ streak_of-drop_stale r.heap bs (id_of r b) p.streak (any-In r.heap bs b i) in
      (
        (record_all (meanwhile r) p₀ bs (map ok bs) initial).0,
        (record_all (meanwhile r) p₀ bs (map ok bs) initial).1,
        rw (nonempty_lem bs i, probe_all-answers urls p.cfg get r.heap bs (rw v.stored v.has_url))
            refl,
        recorded.selves b i und.listed
            ∙ ap₂ (λ s (f : Bool). observe p.cfg initial (record { streak = s; flag = f }) (ok b))
                streak und.flag,
        recorded.valid,
        listed_still (meanwhile r) (record_all (meanwhile r) p₀ bs (map ok bs) initial).0 b
            recorded.backends und.listed,
        recorded.urls b ∙ und.url,
        recorded.cfg,
      )
    where
      nonempty_lem : (qs : List Ptr) → In b qs → (length qs == 0) ≡ false
      nonempty_lem [] j = elim j [ ]
      nonempty_lem (q ∷ qs) j = ground arith
