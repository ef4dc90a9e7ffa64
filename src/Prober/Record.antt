-- ===== src/Prober/Record.antt =====
-- internal/health/prober.go: one call of `record` on a backend of a valid registry.
use mathlib.Core.Path.{ap₂}
use golancer.Prelude.{
  ◌≡◌, refl, sym, ap, ◌∙◌, ◌≢◌, String, Bool, Option, none, some, inl, inr, List, [], ◌∷◌, map,
  arith, In, str_eq, str_eq_iff, str_eq_refl, str_eq_ne, if◌then◌else◌,
}
use golancer.Prelude.Int.{ℤ}
use golancer.Domain.{Heap, Ptr, Backend}
use golancer.Registry.{Registry, list_backends, set_healthy_in, registry_set_healthy}
use golancer.Registry.Invariant.{IsValid, DistinctIds}
use golancer.Registry.Fields.{All-In_map}
use golancer.Registry.Health.{set_healthy_in_other, next-set_healthy_in, set_healthy-IsValid}
use golancer.Prober.{Prober, Streaks, streak_of, put, fold_result, report, record_result}
use golancer.Prober.Hysteresis.{Watch, observe, reported_or}

pub streak_of-put :
    (k id : String) (v : ℤ) (m : Streaks)
    → streak_of k (put id v m) ≡ (if str_eq id k then v else streak_of k m)
streak_of-put k id v [] = refl
streak_of-put k id v ((j, s) ∷ m) =
    ground (arith, str_eq_iff j id, str_eq_iff j k, str_eq_iff id k, streak_of-put k id v m)

module _ {Url : Type 0} where
  abbrev pub id_of : Registry Url → Ptr → String
  id_of r b = (r.heap.cell b).instance_id

  -- The streak and the flag that a backend has now.
  abbrev pub watch_of : Registry Url → Prober → Ptr → Watch
  watch_of r p b = record {
    streak = streak_of (id_of r b) p.streak;
    flag = (r.heap.cell b).healthy;
  }

  set_healthy_in_self :
      (h : Heap Url) (v : Bool) (ps : List Ptr) (b : Ptr)
      → DistinctIds (map h.cell ps)
      → In b ps
      → (set_healthy_in h (h.cell b).instance_id v ps).0.cell b ≡ record (h.cell b) { healthy = v }
  unfolding set_healthy_in
  set_healthy_in_self h v [] b d i = elim i [ ]
  set_healthy_in_self h v (p ∷ ps) b d (inl e) =
      rw (e, str_eq_refl (h.cell p).instance_id) (ground arith)
  set_healthy_in_self h v (p ∷ ps) b d (inr i) =
      rw
        (str_eq_ne (h.cell p).instance_id (h.cell b).instance_id
          (λ e. All-In_map _ h.cell ps d.0 i (sym e)))
        (set_healthy_in_self h v ps b d.1 i)

  -- A report sets the flag of the backend with the ID and changes nothing else.
  report_self :
      (r : Registry Url) (b : Ptr) (o : Option Bool)
      → IsValid r
      → In b (list_backends r)
      → (report r (id_of r b) o).heap.cell b
        ≡ record (r.heap.cell b) { healthy = reported_or (r.heap.cell b).healthy o }
  unfolding registry_set_healthy
  report_self r b none v i = refl
  report_self r b (some x) v i =
      set_healthy_in_self r.heap x (list_backends r) b (rw v.stored v.distinct) i

  report_other :
      (r : Registry Url) (b q : Ptr) (o : Option Bool)
      → id_of r q ≢ id_of r b
      → (report r (id_of r b) o).heap.cell q ≡ r.heap.cell q
  unfolding registry_set_healthy
  report_other r b q none ne = refl
  report_other r b q (some x) ne =
      set_healthy_in_other r.heap (id_of r b) x (list_backends r) q (str_eq_ne _ _ ne)

  -- A field that is not the flag is as it was after a report.
  field-set_healthy_in :
      {B : Type 0} (f : Backend Url → B)
      → ((c : Backend Url) (v : Bool) → f (record c { healthy = v }) ≡ f c)
      → (h : Heap Url) (id : String) (v : Bool) (ps : List Ptr) (q : Ptr)
      → f ((set_healthy_in h id v ps).0.cell q) ≡ f (h.cell q)
  unfolding set_healthy_in
  field-set_healthy_in f same h id v [] q = refl
  field-set_healthy_in f same h id v (p ∷ ps) q =
      ground (arith, same (h.cell p) v, field-set_healthy_in f same h id v ps q)

  field-report :
      {B : Type 0} (f : Backend Url → B)
      → ((c : Backend Url) (v : Bool) → f (record c { healthy = v }) ≡ f c)
      → (r : Registry Url) (id : String) (o : Option Bool) (q : Ptr)
      → f ((report r id o).heap.cell q) ≡ f (r.heap.cell q)
  unfolding registry_set_healthy
  field-report f same r id none q = refl
  field-report f same r id (some v) q = field-set_healthy_in f same r.heap id v (list_backends r) q

  report-IsValid :
      (r : Registry Url) (id : String) (o : Option Bool) → IsValid r → IsValid (report r id o)
  report-IsValid r id none v = v
  report-IsValid r id (some x) v = set_healthy-IsValid r id x v

  backends-report :
      (r : Registry Url) (id : String) (o : Option Bool) → (report r id o).backends ≡ r.backends
  unfolding registry_set_healthy
  backends-report r id none = refl
  backends-report r id (some x) = refl

  abbrev recorded : Registry Url → Prober → Ptr → ℤ → Option Bool → Registry Url × Prober
  recorded r p b s o = (report r (id_of r b) o, record p { streak = put (id_of r b) s p.streak })

  recorded_self :
      (r : Registry Url) (p : Prober) (b : Ptr) (s : ℤ) (o : Option Bool)
      → IsValid r
      → In b (list_backends r)
      → let (r', p') = recorded r p b s o in
        watch_of r' p' b ≡ record { streak = s; flag = reported_or (r.heap.cell b).healthy o }
  recorded_self r p b s o v i =
      let self = report_self r b o v i in
      let same : id_of (report r (id_of r b) o) b ≡ id_of r b = ap (λ c. c.instance_id) self in
      ap₂ (λ k (f : Bool). record { streak = streak_of k (put (id_of r b) s p.streak); flag = f })
        same (ap (λ c. c.healthy) self)
      ∙ rw (streak_of-put (id_of r b) (id_of r b) s p.streak, str_eq_refl (id_of r b))

  recorded_other :
      (r : Registry Url) (p : Prober) (b q : Ptr) (s : ℤ) (o : Option Bool)
      → id_of r q ≢ id_of r b
      → let (r', p') = recorded r p b s o in
        (r'.heap.cell q ≡ r.heap.cell q) × (watch_of r' p' q ≡ watch_of r p q)
  recorded_other r p b q s o ne =
      let other = report_other r b q o ne in
      let same : id_of (report r (id_of r b) o) q ≡ id_of r q = ap (λ c. c.instance_id) other in
      (
        other,
        ap₂ (λ k (f : Bool). record { streak = streak_of k (put (id_of r b) s p.streak); flag = f })
              same (ap (λ c. c.healthy) other)
            ∙ rw (
              streak_of-put (id_of r q) (id_of r b) s p.streak,
              str_eq_ne (id_of r b) (id_of r q) (λ e. ne (sym e)),
            ),
      )

  -- A recorded result leaves backends with other IDs alone, and every ID and URL, also where the
  -- backend is no longer listed.
  pub record_result_other :
      (r : Registry Url) (p : Prober) (b : Ptr) (ok initial : Bool)
      → let (r', p') = record_result r p b ok initial in
        ((q : Ptr)
          → id_of r q ≢ id_of r b
          → (r'.heap.cell q ≡ r.heap.cell q) × (watch_of r' p' q ≡ watch_of r p q))
        × ((q : Ptr) → id_of r' q ≡ id_of r q)
        × ((q : Ptr) → (r'.heap.cell q).url ≡ (r.heap.cell q).url)
        × (IsValid r → IsValid r')
        × (r'.backends ≡ r.backends)
        × (p'.cfg ≡ p.cfg)
  unfolding record_result
  record_result_other r p b ok initial =
      let (s, o) = fold_result p.cfg (streak_of (id_of r b) p.streak) ok initial in
      (
        (λ q ne. recorded_other r p b q s o ne),
        field-report (λ c. c.instance_id) (λ c v. refl) r (id_of r b) o,
        field-report (λ c. c.url) (λ c v. refl) r (id_of r b) o,
        report-IsValid r (id_of r b) o,
        backends-report r (id_of r b) o,
        refl,
      )

  -- A recorded result changes no field of a cell but the flag.
  pub field-record_result :
      {B : Type 0} (f : Backend Url → B)
      → ((c : Backend Url) (v : Bool) → f (record c { healthy = v }) ≡ f c)
      → (r : Registry Url) (p : Prober) (b : Ptr) (ok initial : Bool) (q : Ptr)
      → f ((record_result r p b ok initial).0.heap.cell q) ≡ f (r.heap.cell q)
  unfolding record_result
  field-record_result f same r p b ok initial q =
      let (s, o) = fold_result p.cfg (streak_of (id_of r b) p.streak) ok initial in
      field-report f same r (id_of r b) o q

  next-report :
      (r : Registry Url) (id : String) (o : Option Bool) → (report r id o).heap.next ≡ r.heap.next
  unfolding registry_set_healthy
  next-report r id none = refl
  next-report r id (some v) = next-set_healthy_in r.heap id v (list_backends r)

  pub next-record_result :
      (r : Registry Url) (p : Prober) (b : Ptr) (ok initial : Bool)
      → (record_result r p b ok initial).0.heap.next ≡ r.heap.next
  unfolding record_result
  next-record_result r p b ok initial =
      let (s, o) = fold_result p.cfg (streak_of (id_of r b) p.streak) ok initial in
      next-report r (id_of r b) o

  -- One recorded result, on a valid registry that lists the backend, makes of the streak and the
  -- flag of the backend what the thresholds say, leaves the streak and the whole state of every
  -- backend with another ID as they are, and leaves a valid registry with the same list.
  pub record_result-observe :
      (r : Registry Url) (p : Prober) (b : Ptr) (ok initial : Bool)
      → IsValid r
      → In b (list_backends r)
      → let (r', p') = record_result r p b ok initial in
        (watch_of r' p' b ≡ observe p.cfg initial (watch_of r p b) ok)
        × ((q : Ptr)
            → id_of r q ≢ id_of r b
            → (r'.heap.cell q ≡ r.heap.cell q) × (watch_of r' p' q ≡ watch_of r p q))
        × IsValid r'
        × (r'.backends ≡ r.backends)
  unfolding record_result observe
  record_result-observe r p b ok initial v i =
      let (s, o) = fold_result p.cfg (streak_of (id_of r b) p.streak) ok initial in
      (
        recorded_self r p b s o v i,
        (λ q ne. recorded_other r p b q s o ne),
        report-IsValid r (id_of r b) o v,
        backends-report r (id_of r b) o,
      )
