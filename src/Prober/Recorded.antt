-- ===== src/Prober/Recorded.antt =====
-- internal/health/prober.go: what the loop over the results of a round leaves.
use mathlib.Core.Path.{subst, ap₂}
use golancer.Prelude.{◌≡◌, refl, sym, ◌∙◌, ◌≢◌, Bool, inl, inr, List, [], ◌∷◌, map, All, In}
use golancer.Domain.{Ptr}
use golancer.Registry.{Registry, list_backends}
use golancer.Registry.Invariant.{IsValid, DistinctIds}
use golancer.Registry.Fields.{All-In_map, All-field, DistinctIds-field}
use golancer.Prober.{Prober, record_result, record_all}
use golancer.Prober.Hysteresis.{observe}
use golancer.Prober.Record.{id_of, watch_of, record_result-observe, record_result_other}

module _ {Url : Type 0} where
  -- What recording the results `ok` of the backends `bs` makes of a registry and a prober.
  pub record Recorded (ok : Ptr → Bool) (initial : Bool) (bs : List Ptr) (r : Registry Url)
      (p : Prober) (r' : Registry Url) (p' : Prober) : Type 0 where
    pub selves :
        (c : Ptr)
        → In c bs
        → In c (list_backends r)
        → watch_of r' p' c ≡ observe p.cfg initial (watch_of r p c) (ok c)
    pub others :
        (q : Ptr)
        → All (λ c. c.instance_id ≢ id_of r q) (map r.heap.cell bs)
        → (r'.heap.cell q ≡ r.heap.cell q) × (watch_of r' p' q ≡ watch_of r p q)
    pub ids : (q : Ptr) → id_of r' q ≡ id_of r q
    pub urls : (q : Ptr) → (r'.heap.cell q).url ≡ (r.heap.cell q).url
    pub valid : IsValid r'
    pub backends : r'.backends ≡ r.backends
    pub cfg : p'.cfg ≡ p.cfg

  pub listed_still :
      (r r' : Registry Url) (c : Ptr)
      → r'.backends ≡ r.backends
      → In c (list_backends r)
      → In c (list_backends r')
  listed_still r r' c e i = rw e i

  -- IDs that are apart stay so, where the cells keep their IDs.
  apart-ids :
      (r r₁ : Registry Url) (q : Ptr) (bs : List Ptr)
      → ((x : Ptr) → id_of r₁ x ≡ id_of r x)
      → All (λ c. c.instance_id ≢ id_of r q) (map r.heap.cell bs)
      → All (λ c. c.instance_id ≢ id_of r₁ q) (map r₁.heap.cell bs)
  apart-ids r r₁ q bs ids a =
      All-field r.heap.cell r₁.heap.cell (λ c. c.instance_id) (λ i. i ≢ id_of r₁ q) bs
        (λ x i. ids x)
        (subst (λ i. All (λ c. c.instance_id ≢ i) (map r.heap.cell bs)) (sym (ids q)) a)

  Recorded-cons :
      (ok : Ptr → Bool) (initial : Bool) (r : Registry Url) (p : Prober) (b : Ptr) (bs : List Ptr)
      (r' : Registry Url) (p' : Prober)
      → IsValid r
      → DistinctIds (map r.heap.cell (b ∷ bs))
      → let (r₁, p₁) = record_result r p b (ok b) initial in
        Recorded ok initial bs r₁ p₁ r' p' → Recorded ok initial (b ∷ bs) r p r' p'
  Recorded-cons ok initial r p b bs r' p' v d rest =
      let (others, ids, urls, valid, backends, cfg) = record_result_other r p b (ok b) initial in
      let r₁ = (record_result r p b (ok b) initial).0 in
      let p₁ = (record_result r p b (ok b) initial).1 in
      let here : In b (list_backends r)
          → watch_of r' p' b ≡ observe p.cfg initial (watch_of r p b) (ok b) =
        λ j.
          (rest.others b (apart-ids r r₁ b bs ids d.0)).1
          ∙ (record_result-observe r p b (ok b) initial v j).0 in
      record {
        selves = λ c i j. elim i [
          | inl e ↦
              subst (λ x. watch_of r' p' x ≡ observe p.cfg initial (watch_of r p x) (ok x)) (sym e)
                (here (subst (λ x. In x (list_backends r)) e j))
          | inr k ↦
              rest.selves c k (listed_still r r₁ c backends j)
              ∙ ap₂ (λ g w. observe g initial w (ok c)) cfg
                  (others c (All-In_map (λ x. x.instance_id ≢ id_of r b) r.heap.cell bs d.0 k)).1
        ];
        others = λ q a.
            let (cell₁, watch₁) = others q (λ e. a.0 (sym e)) in
            let (cell', watch') = rest.others q (apart-ids r r₁ q bs ids a.1) in
            (cell' ∙ cell₁, watch' ∙ watch₁);
        ids = λ q. rest.ids q ∙ ids q;
        urls = λ q. rest.urls q ∙ urls q;
        valid = rest.valid;
        backends = rest.backends ∙ backends;
        cfg = rest.cfg ∙ cfg;
      }

  pub record_all-Recorded :
      (ok : Ptr → Bool) (initial : Bool) (r : Registry Url) (p : Prober) (bs : List Ptr)
      → IsValid r
      → DistinctIds (map r.heap.cell bs)
      → let (r', p') = record_all r p bs (map ok bs) initial in Recorded ok initial bs r p r' p'
  unfolding record_all
  record_all-Recorded ok initial r p [] v d = record {
    selves = λ c i j. elim i [ ];
    others = λ q a. (refl, refl);
    ids = λ q. refl;
    urls = λ q. refl;
    valid = v;
    backends = refl;
    cfg = refl;
  }
  record_all-Recorded ok initial r p (b ∷ bs) v d =
      let r₁ = (record_result r p b (ok b) initial).0 in
      let p₁ = (record_result r p b (ok b) initial).1 in
      let (others, ids, _, valid, _, _) = record_result_other r p b (ok b) initial in
      Recorded-cons ok initial r p b bs _ _ v d (
        record_all-Recorded ok initial r₁ p₁ bs (valid v)
          (DistinctIds-field r.heap.cell r₁.heap.cell bs (λ q i. ids q) d.1))
