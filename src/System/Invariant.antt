-- ===== src/System/Invariant.antt =====
-- internal/bootstrap/runner.go: what every order of steps keeps, the connection counts above all.
use mathlib.Core.Path.{subst}
use golancer.Prelude.{
  ℕ, suc, ◌-◌, ◌%◌, ◌^◌, ◌≤◌, ◌<◌, ◌≡◌, refl, sym, ap, ◌∙◌, ◌≢◌, Bool, String, Option, none, inl,
  inr, List, [], ◌∷◌, arith, All, All-map, All-of_map, All-to_map, In, length, ◌==◌, ltb, ltb→lt,
  ltb→le, Bool-cases, if◌then◌else◌,
}
use golancer.Prelude.Run.{done, done-pair_inj}
use golancer.Domain.{UrlLib, Ptr}
use golancer.Registry.{Registry, list_backends}
use golancer.Registry.Invariant.{IsValid, entries}
use golancer.Registry.Fields.{All-field}
use golancer.Balancer.Weighted.{HasWeight}
use golancer.Prober.{Prober, record_result}
use golancer.Prober.Record.{record_result_other, field-record_result, next-record_result}
use golancer.Http.{Body, Request}
use golancer.Proxy.Handler.{Shared, Balancer, connect}
use golancer.Proxy.Serve.{count_of}
use golancer.Config.Selector.{IsGood, Routes}
use golancer.Config.Serving.{connect-IsGood}
use golancer.Handlers.{RegisterBackendRequest, ApiReply, register, deregister}
use golancer.Handlers.Calls.{IsAdmitted, register-IsValid}
use golancer.System.{
  State, occurrences, remove_first, with_registry, Step, Reach, selected, began, finished, probed,
  registered, deregistered, here, next,
}
use golancer.System.Effects.{Grown, register-Grown, deregister-Shrunk}

occurrences-remove_first :
    (p q : Ptr) (ps : List Ptr)
    → In p ps
    → occurrences q ps ≡ (
        if p == q
        then suc (occurrences q (remove_first p ps))
        else occurrences q (remove_first p ps))
occurrences-remove_first p q [] i = elim i [ ]
occurrences-remove_first p q (x ∷ ps) (inl e) = ground arith
occurrences-remove_first p q (x ∷ ps) (inr i) = ground (arith, occurrences-remove_first p q ps i)

occurrences-above : (q n : ℕ) (ps : List Ptr) → All (λ p. p < n) ps → n ≤ q → occurrences q ps ≡ 0
occurrences-above q n [] a le = refl
occurrences-above q n (p ∷ ps) a le = ground (arith, occurrences-above q n ps a.1 le)

All-remove_first :
    (P : Ptr → Type 0) (p : Ptr) (ps : List Ptr) → All P ps → All P (remove_first p ps)
All-remove_first P p [] a = tt
All-remove_first P p (x ∷ ps) a = ground (arith, All-remove_first P p ps a.1)

module _ {Url : Type 0} where
  -- The shared state is good, the connection count of every backend is the number of the attempts on
  -- it that are under way, as an int32, and those attempts are on allocated backends. Only allocated
  -- backends have a URL.
  pub record IsCounted (s : State Url) : Type 0 where
    pub good : IsGood s.shared
    pub counts : (q : Ptr) → count_of s.shared q ≡ occurrences q s.in_flight % 2 ^ 32
    pub allocated : All (λ p. p < s.shared.registry.heap.next) s.in_flight
    pub blank :
        (q : Ptr) → s.shared.registry.heap.next ≤ q → (s.shared.registry.heap.cell q).url ≡ none

  IsGood-weights :
      (s : Shared Url) (r' : Registry Url)
      → IsGood s
      → IsValid r'
      → r'.backends ≡ s.registry.backends
      → ((q : Ptr) → (r'.heap.cell q).weight ≡ (s.registry.heap.cell q).weight)
      → IsGood (record s { registry = r' })
  IsGood-weights s r' good v same weights = record {
    valid = v;
    weights = rw same (
        All-of_map r'.heap.cell IsAdmitted (list_backends s.registry) (
          All-field s.registry.heap.cell r'.heap.cell (λ b. b.weight) (λ w. (0 < w) × (w ≤ 1000000))
            (list_backends s.registry) (λ q i. weights q)
            (All-to_map s.registry.heap.cell IsAdmitted (list_backends s.registry) good.weights)));
    few = rw same good.few;
    counter = good.counter;
  }

  probed-IsCounted :
      (s : State Url) (pr : Prober) (b : Ptr) (ok initial : Bool)
      → IsCounted s
      → IsCounted (with_registry s (record_result s.shared.registry pr b ok initial).0)
  probed-IsCounted s pr b ok initial inv =
      let r = s.shared.registry in
      let r' = (record_result r pr b ok initial).0 in
      let (_, _, url, valid, same, _) = record_result_other r pr b ok initial in
      let bound = next-record_result r pr b ok initial in
      record {
        good =
            IsGood-weights s.shared r' inv.good (valid inv.good.valid) same
              (field-record_result (λ c. c.weight) (λ c v. refl) r pr b ok initial);
        counts = λ q.
            field-record_result (λ c. c.active_connections_no) (λ c v. refl) r pr b ok initial q
            ∙ inv.counts q;
        allocated = rw bound inv.allocated;
        blank = λ q le. url q ∙ inv.blank q (rw bound at le);
      }

  began-IsCounted :
      (s : State Url) (p : Ptr)
      → IsCounted s
      → (s.shared.registry.heap.cell p).url ≢ none
      → IsCounted (record { shared = connect s.shared p 1; in_flight = p ∷ s.in_flight })
  began-IsCounted s p inv has = record {
    good = connect-IsGood s.shared p 1 inv.good;
    counts = λ q. ground (arith, inv.counts q);
    allocated = (
      elim (Bool-cases (ltb p s.shared.registry.heap.next)) [
        | inl t ↦ ltb→lt p s.shared.registry.heap.next t
        | inr f ↦ absurd (has (inv.blank p (ltb→le p s.shared.registry.heap.next f)))
      ],
      inv.allocated,
    );
    blank = λ q le. ground (arith, inv.blank q le);
  }

  finished-IsCounted :
      (s : State Url) (p : Ptr)
      → IsCounted s
      → In p s.in_flight
      → IsCounted (record {
        shared = connect s.shared p (2 ^ 32 - 1);
        in_flight = remove_first p s.in_flight;
      })
  finished-IsCounted s p inv i = record {
    good = connect-IsGood s.shared p (2 ^ 32 - 1) inv.good;
    counts = λ q. ground (arith, inv.counts q, occurrences-remove_first p q s.in_flight i);
    allocated = All-remove_first (λ x. x < s.shared.registry.heap.next) p s.in_flight inv.allocated;
    blank = λ q le. ground (arith, inv.blank q le);
  }

  counts_kept :
      (s : State Url) (r' : Registry Url)
      → IsCounted s
      → Grown s.shared.registry r'
      → (q : Ptr) → count_of (with_registry s r').shared q ≡ occurrences q s.in_flight % 2 ^ 32
  counts_kept s r' inv grown q = elim (Bool-cases (ltb q s.shared.registry.heap.next)) [
    | inl t ↦
        ap (λ c. c.active_connections_no) (grown.old q (ltb→lt q s.shared.registry.heap.next t))
        ∙ inv.counts q
    | inr f ↦
        let none_yet =
          occurrences-above q s.shared.registry.heap.next s.in_flight inv.allocated
            (ltb→le q s.shared.registry.heap.next f) in
        let idle : occurrences q s.in_flight % 2 ^ 32 ≡ 0 = rw none_yet refl in
        grown.counts q (inv.counts q ∙ idle) ∙ sym idle
  ]

  registered-IsCounted :
      (urls : UrlLib Url) (decode : Body → Option RegisterBackendRequest) (s : State Url)
      (id : String) (body : Body) (r' : Registry Url) (reply : ApiReply)
      → IsCounted s
      → All (λ b. b.instance_id ≢ id) (entries s.shared.registry)
      → length (list_backends s.shared.registry) < 2 ^ 31
      → register urls decode s.shared.registry id body ≡ done (r', reply)
      → IsCounted (with_registry s r')
  registered-IsCounted urls decode s id body r' reply inv unused fits e =
      let r = s.shared.registry in
      let grown = register-Grown urls decode r r' id body reply e in
      let (_, _, e₁, v₁, a₁) =
        register-IsValid urls decode r id body inv.good.valid
          (All-to_map r.heap.cell IsAdmitted (list_backends r) inv.good.weights) unused in
      let same = (done-pair_inj (sym e₁ ∙ e)).0 in
      record {
        good = record {
          valid = subst IsValid same v₁;
          weights =
              All-of_map r'.heap.cell IsAdmitted (list_backends r')
                (subst (λ x. All IsAdmitted (entries x)) same a₁);
          few = omega (arith, grown.few);
          counter = inv.good.counter;
        };
        counts = counts_kept s r' inv grown;
        allocated =
            All-map (λ p. p < r.heap.next) (λ p. p < r'.heap.next)
              (λ p lt. omega (arith, grown.more)) s.in_flight inv.allocated;
        blank =
            λ q le. ap (λ c. c.url) (grown.unused q le) ∙ inv.blank q (omega (arith, grown.more));
      }

  deregistered-IsCounted :
      (s : State Url) (target : String) (r' : Registry Url) (reply : ApiReply)
      → IsCounted s
      → deregister s.shared.registry target ≡ done (r', reply)
      → IsCounted (with_registry s r')
  deregistered-IsCounted s target r' reply inv e =
      let r = s.shared.registry in
      let shrunk = deregister-Shrunk r r' target reply inv.good.valid e in
      let heap = shrunk.heap in
      record {
        good = record {
          valid = shrunk.valid;
          weights = rw heap (shrunk.part (HasWeight r.heap) inv.good.weights);
          few = omega (arith, shrunk.few, inv.good.few);
          counter = inv.good.counter;
        };
        counts = rw heap inv.counts;
        allocated = rw heap inv.allocated;
        blank = rw heap inv.blank;
      }

module _ {Url : Type 0} (urls : UrlLib Url) (decode : Body → Option RegisterBackendRequest)
    (balancer : Balancer Url)
    (routes : (s : Shared Url) (q : Request) → IsGood s → Routes s (balancer s q)) where
  pub Step-IsCounted : {s t : State Url} → Step urls decode balancer s t → IsCounted s → IsCounted t
  Step-IsCounted (selected s q c o e) inv =
      let (_, _, e₁, lt, _) = routes s.shared q inv.good in
      record {
        good = record {
          valid = inv.good.valid;
          weights = inv.good.weights;
          few = inv.good.few;
          counter = subst (λ x. x < 2 ^ 32) (done-pair_inj (sym e₁ ∙ e)).0 lt;
        };
        counts = inv.counts;
        allocated = inv.allocated;
        blank = inv.blank;
      }
  Step-IsCounted (began s p has) inv = began-IsCounted s p inv has
  Step-IsCounted (finished s p i) inv = finished-IsCounted s p inv i
  Step-IsCounted (probed s pr b ok initial) inv = probed-IsCounted s pr b ok initial inv
  Step-IsCounted (registered s id body r' reply unused fits e) inv =
      registered-IsCounted urls decode s id body r' reply inv unused fits e
  Step-IsCounted (deregistered s target r' reply e) inv =
      deregistered-IsCounted s target r' reply inv e

  pub Reach-IsCounted :
      {s t : State Url} → IsCounted s → Reach urls decode balancer s t → IsCounted t
  Reach-IsCounted inv here = inv
  Reach-IsCounted inv (next r st) = Step-IsCounted st (Reach-IsCounted inv r)
