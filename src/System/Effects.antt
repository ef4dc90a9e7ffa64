-- ===== src/System/Effects.antt =====
-- internal/handlers/backends.go on the memory cells: what one call of the registration API leaves of
-- them, for the requests that still hold a pointer.
use golancer.Prelude.{
  ℕ, suc, ◌≤◌, ◌<◌, ◌≡◌, refl, sym, ◌∙◌, ◌⊎◌, inl, inr, String, Bool, Option, [], ◌∷◌, arith, All,
  All-keep, length, length-append, length-keep, Bool-cases, any, str_eq, not,
}
use golancer.Prelude.Run.{done, >>=-eq-done, done-pair_inj}
use golancer.Domain.{UrlLib, Ptr}
use golancer.Registry.{
  Registry, Added, list_backends, has_id, contains_url, add_new_backend, remove_instance_by_id,
}
use golancer.Registry.Invariant.{IsValid}
use golancer.Registry.Laws.{remove_instance_by_id-IsValid}
use mathlib.Core.Path.{subst}
use golancer.Http.{Body}
use golancer.Handlers.{
  RegisterBackendRequest, ApiReply, Rejection, parse_register_backend_req, register_parsed,
  register, deregister,
}

-- What a registration makes of the cells: those in use stay as they are, a new one has no connection,
-- and the list grows by at most one backend.
pub record Grown {Url : Type 0} (r r' : Registry Url) : Type 0 where
  pub more : r.heap.next ≤ r'.heap.next
  pub old : (q : Ptr) → q < r.heap.next → r'.heap.cell q ≡ r.heap.cell q
  pub unused : (q : Ptr) → r'.heap.next ≤ q → r'.heap.cell q ≡ r.heap.cell q
  pub counts :
      (q : Ptr)
      → (r.heap.cell q).active_connections_no ≡ 0
      → (r'.heap.cell q).active_connections_no ≡ 0
  pub few : length (list_backends r') ≤ suc (length (list_backends r))

-- What a deregistration does: the cells stay, and the list is the same or a part of it.
pub record Shrunk {Url : Type 0} (r r' : Registry Url) : Type 1 where
  pub valid : IsValid r'
  pub heap : r'.heap ≡ r.heap
  pub part : (P : Ptr → Type 0) → All P (list_backends r) → All P (list_backends r')
  pub few : length (list_backends r') ≤ length (list_backends r)

module _ {Url : Type 0} where
  Grown-refl : (r : Registry Url) → Grown r r
  Grown-refl r = record {
    more = omega arith;
    old = λ q lt. refl;
    unused = λ q le. refl;
    counts = λ q e. e;
    few = omega arith;
  }

  add_new_backend-Grown :
      (urls : UrlLib Url) (r r' : Registry Url) (id : String) (u : Url) (w : ℕ) (a : Added)
      → add_new_backend urls r id u w ≡ done (r', a)
      → Grown r r'
  unfolding add_new_backend
  add_new_backend-Grown urls r r' id u w a e =
      let (found, _, e') =
        >>=-eq-done (contains_url urls r.heap (urls.to_string u) (list_backends r)) _ e in
      elim (Bool-cases found) [
        | inl t ↦ rw (← (done-pair_inj (rw t at e')).0) (Grown-refl r)
        | inr f ↦ rw (← (done-pair_inj (rw f at e')).0) (record {
          more = omega arith;
          old = λ q lt. ground arith;
          unused = λ q le. ground arith;
          counts = λ q z. ground arith;
          few = omega (arith, length-append (list_backends r) (r.heap.next ∷ []));
        })
      ]

  pub register-Grown :
      (urls : UrlLib Url) (decode : Body → Option RegisterBackendRequest) (r r' : Registry Url)
      (id : String) (body : Body) (reply : ApiReply)
      → register urls decode r id body ≡ done (r', reply)
      → Grown r r'
  unfolding register register_parsed
  register-Grown urls decode r r' id body reply e =
      by_request (parse_register_backend_req urls decode body) e
    where
      by_request :
          (o : Rejection ⊎ (Url × ℕ)) → register_parsed urls r id o ≡ done (r', reply) → Grown r r'
      by_request (inl x) h = rw (← (done-pair_inj h).0) (Grown-refl r)
      by_request (inr (u, w)) h =
          let ((r₁, a), added, h') = >>=-eq-done (add_new_backend urls r id u w) _ h in
          rw (← (done-pair_inj h').0) (add_new_backend-Grown urls r r₁ id u w a added)

  Shrunk-refl : (r : Registry Url) → IsValid r → Shrunk r r
  Shrunk-refl r v = record { valid = v; heap = refl; part = λ P h. h; few = omega arith }

  remove_instance_by_id-Shrunk :
      (r r' : Registry Url) (id : String) (found : Bool)
      → IsValid r
      → remove_instance_by_id r id ≡ done (r', found)
      → Shrunk r r'
  unfolding remove_instance_by_id
  remove_instance_by_id-Shrunk r r' id found v e =
      let (_, _, e₂, v₂) = remove_instance_by_id-IsValid r id v in
      let valid : IsValid r' = subst IsValid (done-pair_inj (sym e₂ ∙ e)).0 v₂ in
      elim (Bool-cases (any (has_id r.heap id) v.ptrs)) [
        | inl t ↦
            let same = (done-pair_inj (rw (v.stored, t) at e)).0 in
            rw (← same) (record {
              valid = rw same valid;
              heap = refl;
              part = λ P h. All-keep P (λ p. not (has_id r.heap id p)) v.ptrs (rw v.stored at h);
              few = rw v.stored (length-keep (λ p. not (has_id r.heap id p)) v.ptrs);
            })
        | inr f ↦
            let same = (done-pair_inj (rw (v.stored, f) at e)).0 in
            rw (← same) (record {
              valid = rw same valid;
              heap = refl;
              part = λ P h. (rw v.stored at h);
              few = rw v.stored (omega arith);
            })
      ]

  pub deregister-Shrunk :
      (r r' : Registry Url) (target : String) (reply : ApiReply)
      → IsValid r
      → deregister r target ≡ done (r', reply)
      → Shrunk r r'
  unfolding deregister
  deregister-Shrunk r r' target reply v e = elim (Bool-cases (str_eq target "")) [
    | inl t ↦ rw (← (done-pair_inj (rw t at e)).0) (Shrunk-refl r v)
    | inr f ↦
        let ((r₁, found), removed, e') =
          >>=-eq-done (remove_instance_by_id r target) _ (rw f at e) in
        rw (← (done-pair_inj e').0) (remove_instance_by_id-Shrunk r r₁ target found v removed)
  ]
