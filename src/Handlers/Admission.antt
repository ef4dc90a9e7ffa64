-- ===== src/Handlers/Admission.antt =====
-- internal/handlers/backends.go: the registration API admits what the configuration file admits.
use golancer.Prelude.{
  ℕ, ◌≡◌, refl, sym, ap, ◌∙◌, ◌≢◌, ◌↔◌, ◌⊎◌, inl, inr, Bool, true, false, not, Option, none, some,
  List, [], ◌∷◌, arith, str_eq, ltb, Option-cases, if◌then◌else◌, ◌≤◌, ◌<◌, ◌||◌, ◌&&◌,
}
use golancer.Domain.{max_weight, UrlLib}
use golancer.Http.{Body}
use golancer.Handlers.{
  Rejection, unparsable_url, RegisterBackendRequest, parse_register_backend_req, checked_weight,
  checked_request,
}
use golancer.Config.{BackendSettings, check_url, check_backends}
use golancer.Config.Load.{weight_or_one}

-- The three tests of a request, in their order.
abbrev decided :
    {Url : Type 0}
    → Bool
    → Bool
    → Bool
    → Rejection
    → Rejection
    → Rejection
    → Url × ℕ
    → Rejection ⊎ (Url × ℕ)
decided a b c d e f admitted =
    if a then inl d else if b then inl e else if c then inl f else inr admitted

decide :
    {Url : Type 0} (a b c : Bool) (d e f : Rejection) (v u : Url) (x w : ℕ)
    → (decided a b c d e f (v, x) ≡ inr (u, w))
      ↔ ((a ≡ false) × (b ≡ false) × (c ≡ false) × (v ≡ u) × (w ≡ x))
decide true b c d e f v u x w = ((λ h. cc), λ h. cc)
decide false true c d e f v u x w = ((λ h. cc), λ h. cc)
decide false false true d e f v u x w = ((λ h. cc), λ h. cc)
decide false false false d e f v u x w =
    ((λ h. (refl, refl, refl, cc, cc)), λ (_, _, _, p, q). rw (p, q))

inl_ne_inr : {A B : Type 0} {a : A} {b : B} → ◌≡◌ {A = A ⊎ B} (inl a) (inr b) → ⊥
inl_ne_inr e = cc

nonempty : {A : Type 0} {x : A} {xs : List A} → x ∷ xs ≡ [] → ⊥
nonempty e = cc

module _ {Url : Type 0} (urls : UrlLib Url) where
  abbrev settings : RegisterBackendRequest → BackendSettings
  settings req = record { url = req.url; weight = req.weight }

  -- What both sides check of a URL that parses.
  abbrev lacks_origin : Url → Bool
  lacks_origin u = str_eq (urls.scheme u) "" || str_eq (urls.host u) ""

  abbrev other_scheme : Url → Bool
  other_scheme u = not (str_eq (urls.scheme u) "http") && not (str_eq (urls.scheme u) "https")

  checked_request-ok :
      (req : RegisterBackendRequest) (v u : Url) (w : ℕ)
      → urls.parse req.url ≡ some v
      → (checked_request urls req ≡ inr (u, w)) ↔ (
          (lacks_origin v ≡ false)
          × (other_scheme v ≡ false)
          × (ltb max_weight (weight_or_one req.weight) ≡ false)
          × (v ≡ u)
          × (w ≡ weight_or_one req.weight))
  unfolding checked_request checked_weight
  checked_request-ok req v u w e =
      rw (e, checked_request)
        (decide (lacks_origin v) (other_scheme v) (ltb max_weight (weight_or_one req.weight)) _ _ _
          v u (weight_or_one req.weight) w)

  check_backends-ok :
      (req : RegisterBackendRequest) (i : ℕ) (v : Url)
      → urls.parse req.url ≡ some v
      → (check_backends urls i (settings req ∷ []) ≡ []) ↔ (
          (lacks_origin v ≡ false)
          × (other_scheme v ≡ false)
          × (ltb max_weight (weight_or_one req.weight) ≡ false))
  unfolding check_backends check_url
  check_backends-ok req i v e = rw (e, check_url) (ground arith)

  check_backends-unparsed :
      (req : RegisterBackendRequest) (i : ℕ)
      → urls.parse req.url ≡ none
      → check_backends urls i (settings req ∷ []) ≢ []
  unfolding check_backends check_url
  check_backends-unparsed req i e h = nonempty (rw (e, check_url) at h)

  checked_request-unparsed :
      (req : RegisterBackendRequest)
      → urls.parse req.url ≡ none
      → checked_request urls req ≡ inl (unparsable_url req.url)
  unfolding checked_request
  checked_request-unparsed req e = rw (e, checked_request)

  -- The registration API and the configuration file admit the same backends: a request that is
  -- decoded is accepted, with a URL and a weight, exactly if Validate has nothing to say of a
  -- configured backend with the same text and weight, the text parses to that URL, and the weight
  -- is the one that the configured backend would start with.
  pub parse_register-check_backends :
      (decode : Body → Option RegisterBackendRequest) (body : Body) (req : RegisterBackendRequest)
      (i : ℕ) (u : Url) (w : ℕ)
      → decode body ≡ some req
      → (parse_register_backend_req urls decode body ≡ inr (u, w)) ↔ (
          (check_backends urls i (settings req ∷ []) ≡ [])
          × (urls.parse req.url ≡ some u)
          × (w ≡ weight_or_one req.weight))
  unfolding parse_register_backend_req
  parse_register-check_backends decode body req i u w decoded =
      rw (decoded, parse_register_backend_req)
        (elim (Option-cases (urls.parse req.url)) [
          | inl e ↦ (
            (λ p. refused (checked_request-unparsed req e) p),
            λ (clean, _, _). absurd (check_backends-unparsed req i e clean),
          )
          | inr (v, e) ↦
              let (ok, back) = checked_request-ok req v u w e in
              let (clean, admits) = check_backends-ok req i v e in
              (
                (λ p. let (a, b, c, same, x) = ok p in (admits (a, b, c), e ∙ ap some same, x)),
                λ (k, found, x).
                    let (a, b, c) = clean k in back (a, b, c, some_inj (sym e ∙ found), x),
              )
        ])
    where
      some_inj : {a b : Url} → ◌≡◌ {A = Option Url} (some a) (some b) → a ≡ b
      some_inj e = cc

      refused :
          {m : Rejection ⊎ (Url × ℕ)}
          → m ≡ inl (unparsable_url req.url)
          → m ≡ inr (u, w)
          → (check_backends urls i (settings req ∷ []) ≡ [])
            × (urls.parse req.url ≡ some u)
            × (w ≡ weight_or_one req.weight)
      refused e p = absurd (inl_ne_inr (sym e ∙ p))

  weight_or_one-IsAdmitted :
      (w : ℕ)
      → ltb max_weight (weight_or_one w) ≡ false
      → (0 < weight_or_one w) × (weight_or_one w ≤ max_weight)
  weight_or_one-IsAdmitted w e = ground arith

  -- A request that is accepted has a weight from 1 to the maximum.
  pub parse_register-IsAdmitted :
      (decode : Body → Option RegisterBackendRequest) (body : Body) (u : Url) (w : ℕ)
      → parse_register_backend_req urls decode body ≡ inr (u, w)
      → (0 < w) × (w ≤ max_weight)
  unfolding parse_register_backend_req
  parse_register-IsAdmitted decode body u w p = elim (Option-cases (decode body)) [
    | inl e ↦ absurd (inl_ne_inr (rw (e, parse_register_backend_req) at p))
    | inr (req, e) ↦
        let q : checked_request urls req ≡ inr (u, w) = rw (e, parse_register_backend_req) at p in
        elim (Option-cases (urls.parse req.url)) [
          | inl f ↦ absurd (inl_ne_inr (sym (checked_request-unparsed req f) ∙ q))
          | inr (v, f) ↦
              let (a, b, c, same, x) = (checked_request-ok req v u w f).0 q in
              rw x (weight_or_one-IsAdmitted req.weight c)
        ]
  ]
