-- ===== src/Handlers/Calls.antt =====
-- internal/handlers/backends.go and health.go: the calls of the registration API on a valid registry.
use golancer.Prelude.{
  ℕ, ◌≡◌, refl, ap, ◌∙◌, ◌≢◌, String, true, false, Option, inl, inr, ◌⊎◌, List, [], ◌∷◌, ◌++◌, ◌≤◌,
  ◌<◌, arith, All, All-append, any, str_eq, str_eq_iff, str_eq_refl, if◌then◌else◌, sym, Bool-cases,
}
use golancer.Prelude.Run.{Run, done}
use mathlib.Core.Path.{subst}
use golancer.Domain.{UrlLib, Backend, max_weight}
use golancer.Registry.{Registry, Added, registered, already_registered}
use golancer.Registry.Invariant.{IsValid, entries}
use golancer.Registry.Laws.{
  add_entry, remove_entry, fresh_backend, seen, url_is, add_new_backend-refines,
  add_new_backend-IsValid, remove_instance_by_id-refines, remove_instance_by_id-IsValid,
}
use golancer.Http.{Body}
use golancer.Handlers.{
  RegisterBackendRequest, ApiReply, created, removed, conflict, Rejection,
  parse_register_backend_req, register_parsed, register, deregister, reply_of_added, bad_request,
  missing_id, not_found,
}
use golancer.Handlers.Admission.{parse_register-IsAdmitted}

conflict_ne : {id : String} → conflict ≡ created id → ⊥
conflict_ne e = cc

module _ {Url : Type 0} where
  abbrev pub IsAdmitted : Backend Url → Type 0
  IsAdmitted b = (0 < b.weight) × (b.weight ≤ max_weight)

  done_inj :
      {A : Type 0} {x y : List (Backend Url) × A}
      → ◌≡◌ {A = Run (List (Backend Url) × A)} (done x) (done y)
      → x ≡ y
  done_inj e = cc

  seen_inj :
      {A : Type 0} {r : Registry Url} {a : A} {m : Run (Registry Url × A)}
      {e : List (Backend Url) × A}
      → m ≡ done (r, a)
      → seen m ≡ done e
      → (entries r, a) ≡ e
  seen_inj p q = done_inj (sym (ap seen p) ∙ q)

  result_inj :
      {r r' : Registry Url} {a b : ApiReply}
      → ◌≡◌ {A = Run (Registry Url × ApiReply)} (done (r, a)) (done (r', b))
      → (r ≡ r') × (a ≡ b)
  result_inj e = (cc, cc)

  refusal_ne :
      {r r' : Registry Url} {x : Rejection} {id : String}
      → ◌≡◌ {A = Run (Registry Url × ApiReply)} (done (r, bad_request x)) (done (r', created id))
      → ⊥
  refusal_ne e = cc

  add_entry-All :
      (P : Backend Url → Type 0) (urls : UrlLib Url) (es : List (Backend Url)) (id : String)
      (u : Url) (w : ℕ)
      → All P es
      → P (fresh_backend id u w)
      → All P (add_entry urls es id u w).0
  add_entry-All P urls es id u w h new =
      elim (Bool-cases (any (url_is urls (urls.to_string u)) es)) [
        | inl e ↦ rw e h
        | inr e ↦ rw e (All-append P es (fresh_backend id u w ∷ []) h (new, tt))
      ]

  -- On a valid registry of backends with admitted weights, and with an instance ID that no
  -- registered backend has, register returns without a panic and leaves a registry that is valid
  -- and whose weights are admitted, whatever the body of the request is.
  pub register-IsValid :
      (urls : UrlLib Url) (decode : Body → Option RegisterBackendRequest) (r : Registry Url)
      (id : String) (body : Body)
      → IsValid r
      → All IsAdmitted (entries r)
      → All (λ b. b.instance_id ≢ id) (entries r)
      → (r' : Registry Url) × (reply : ApiReply) × (register urls decode r id body
          ≡ done (r', reply))
        × IsValid r'
        × All IsAdmitted (entries r')
  unfolding register register_parsed
  register-IsValid urls decode r id body v admitted new =
      by_request (parse_register_backend_req urls decode body) refl
    where
      by_request :
          (o : Rejection ⊎ (Url × ℕ))
          → parse_register_backend_req urls decode body ≡ o
          → (r' : Registry Url) × (reply : ApiReply) × (register_parsed urls r id o
              ≡ done (r', reply))
            × IsValid r'
            × All IsAdmitted (entries r')
      by_request (inl e) p = (r, bad_request e, refl, v, admitted)
      by_request (inr (u, w)) p =
          let (r', a, q, v') = add_new_backend-IsValid urls r id u w v new in
          let known = seen_inj q (add_new_backend-refines urls r id u w v) in
          (
            r',
            reply_of_added a,
            rw q refl,
            v',
            subst (All IsAdmitted) (sym (ap (λ x. x.0) known)) (
                add_entry-All IsAdmitted urls (entries r) id u w admitted
                  (parse_register-IsAdmitted urls decode body u w p)),
          )

  remove_entry-append :
      (es : List (Backend Url)) (b : Backend Url)
      → All (λ c. c.instance_id ≢ b.instance_id) es
      → remove_entry (es ++ b ∷ []) b.instance_id ≡ (es, true)
  remove_entry-append [] b new = rw (str_eq_refl b.instance_id)
  remove_entry-append (c ∷ es) b new =
      ground (arith, str_eq_iff c.instance_id b.instance_id, remove_entry-append es b new.1)

  deregister-removed :
      (r : Registry Url) (id : String) (es : List (Backend Url))
      → IsValid r
      → id ≢ ""
      → remove_entry (entries r) id ≡ (es, true)
      → (r' : Registry Url) × (deregister r id ≡ done (r', removed)) × (entries r' ≡ es)
  unfolding deregister
  deregister-removed r id es v named e =
      let (r', found, q, _) = remove_instance_by_id-IsValid r id v in
      let known = seen_inj q (remove_instance_by_id-refines r id v) ∙ e in
      let yes : found ≡ true = ap (λ x. x.1) known in
      let nonempty : str_eq id "" ≡ false = ground (arith, str_eq_iff id "") in
      (r', rw (nonempty, q, yes) refl, ap (λ x. x.0) known)

  pub deregister-done :
      (r : Registry Url) (target : String)
      → IsValid r
      → (r' : Registry Url) × (reply : ApiReply) × (deregister r target ≡ done (r', reply))
  unfolding deregister
  deregister-done r target v = elim (Bool-cases (str_eq target "")) [
    | inl e ↦ (r, missing_id, rw e refl)
    | inr e ↦
        let (r', found, q, _) = remove_instance_by_id-IsValid r target v in
        (r', (if found then removed else not_found target), rw (e, q) refl)
  ]

  registered-entries :
      (urls : UrlLib Url) (es es' : List (Backend Url)) (a : Added) (id : String) (u : Url) (w : ℕ)
      → (es', a) ≡ add_entry urls es id u w
      → reply_of_added a ≡ created id
      → es' ≡ es ++ fresh_backend id u w ∷ []
  registered-entries urls es es' a id u w known ok =
      elim (Bool-cases (any (url_is urls (urls.to_string u)) es)) [
        | inl e ↦
            let twice : (es', a) ≡ (es, already_registered) = rw e at known in
            absurd (conflict_ne (sym (ap (λ x. reply_of_added (x.1)) twice) ∙ ok))
        | inr e ↦
            let once : (es', a) ≡ (es ++ fresh_backend id u w ∷ [], registered id) =
              rw e at known in
            ap (λ x. x.0) once
      ]

  -- After a registration on a valid registry that was answered with an instance ID, which no
  -- registered backend had and which is not empty, deregistering that ID succeeds, and the
  -- registered backends are what they were before, in the same order.
  pub register-deregister :
      (urls : UrlLib Url) (decode : Body → Option RegisterBackendRequest) (r r' : Registry Url)
      (id : String) (body : Body)
      → IsValid r
      → All (λ b. b.instance_id ≢ id) (entries r)
      → id ≢ ""
      → register urls decode r id body ≡ done (r', created id)
      → (r'' : Registry Url) × (deregister r' id ≡ done (r'', removed)) × (entries r'' ≡ entries r)
  unfolding register register_parsed
  register-deregister urls decode r r' id body v new named e =
      by_request (parse_register_backend_req urls decode body) e
    where
      by_request :
          (o : Rejection ⊎ (Url × ℕ))
          → register_parsed urls r id o ≡ done (r', created id)
          → (r'' : Registry Url) × (deregister r' id ≡ done (r'', removed))
            × (entries r'' ≡ entries r)
      by_request (inl x) h = absurd (refusal_ne h)
      by_request (inr (u, w)) h =
          let (r₁, a, q, v₁) = add_new_backend-IsValid urls r id u w v new in
          let (same, ok) = result_inj (rw q at h) in
          let known =
            registered-entries urls (entries r) (entries r₁) a id u w
              (seen_inj q (add_new_backend-refines urls r id u w v)) ok in
          let (r₂, gone, back) =
            deregister-removed r₁ id (entries r) v₁ named
              (rw known (remove_entry-append (entries r) (fresh_backend id u w) new)) in
          (r₂, subst (λ x. deregister x id ≡ done (r₂, removed)) same gone, back)
