-- ===== src/Handlers.antt =====
-- internal/handlers/backends.go and health.go: the registration API and the health endpoints.
pub mod Admission
pub mod Calls
pub mod Ready
mod Tests
use golancer.Prelude.{
  ℕ, String, Bool, true, false, not, Option, none, some, ◌⊎◌, inl, inr, List, [], ◌∷◌, map, str_eq,
  ltb, ◌==◌, ◌||◌, ◌&&◌, if◌then◌else◌, length,
}
use golancer.Prelude.Run.{Run, done, ◌>>=◌}
use golancer.Domain.{UrlLib, BackendJson, marshal_json, max_weight}
use golancer.Registry.{
  Registry, Added, registered, already_registered, list_backends, list_healthy_backends,
  add_new_backend, remove_instance_by_id,
}
use golancer.Http.{Body}

pub record RegisterBackendRequest : Type 0 where
  pub url : String
  pub weight : ℕ

-- The errors of `parseRegisterBackendReq`, with their arguments.
pub data Rejection : Type 0 where
  undecodable : Rejection
  unparsable_url : String → Rejection
  relative_url : String → Rejection
  unsupported_scheme : String → Rejection
  excessive_weight : ℕ → Rejection

-- The answers of the registration API. `conflict` is an error of `AddNewBackend`.
pub data ApiReply : Type 0 where
  listed : List BackendJson → ApiReply
  created : String → ApiReply
  removed : ApiReply
  bad_request : Rejection → ApiReply
  missing_id : ApiReply
  conflict : ApiReply
  not_found : String → ApiReply

abbrev pub status_of : ApiReply → ℕ
status_of (listed bs) = 200
status_of (created id) = 201
status_of removed = 200
status_of (bad_request e) = 400
status_of missing_id = 400
status_of conflict = 409
status_of (not_found id) = 404

-- A missing weight is 1; then the maximum is checked.
unfoldable pub checked_weight : {Url : Type 0} → Url → ℕ → Rejection ⊎ (Url × ℕ)
checked_weight u w =
    let weight = if w == 0 then 1 else w in
    if ltb max_weight weight then inl (excessive_weight weight) else inr (u, weight)

-- The checks of a decoded request.
unfoldable pub checked_request :
    {Url : Type 0} → UrlLib Url → RegisterBackendRequest → Rejection ⊎ (Url × ℕ)
checked_request urls req = elim (urls.parse req.url) [
  | none ↦ inl (unparsable_url req.url)
  | some u ↦
      if str_eq (urls.scheme u) "" || str_eq (urls.host u) ""
      then inl (relative_url req.url)
      else if not (str_eq (urls.scheme u) "http") && not (str_eq (urls.scheme u) "https")
      then inl (unsupported_scheme req.url)
      else checked_weight u req.weight
]

-- `parseRegisterBackendReq`. `decode` is the JSON decoder on the body; none for an error.
unfoldable pub parse_register_backend_req :
    {Url : Type 0}
    → UrlLib Url
    → (Body → Option RegisterBackendRequest)
    → Body
    → Rejection ⊎ (Url × ℕ)
parse_register_backend_req urls decode body = elim (decode body) [
  | none ↦ inl undecodable
  | some req ↦ checked_request urls req
]

abbrev pub reply_of_added : Added → ApiReply
reply_of_added (registered id) = created id
reply_of_added already_registered = conflict

module _ {Url : Type 0} where
  -- `list`
  abbrev pub list : UrlLib Url → Registry Url → ApiReply
  list urls r = listed (map (λ p. marshal_json urls (r.heap.cell p)) (list_backends r))

  -- `register`, by the parsed request, and given the instance ID that is drawn for the backend.
  unfoldable pub register_parsed :
      UrlLib Url → Registry Url → String → Rejection ⊎ (Url × ℕ) → Run (Registry Url × ApiReply)
  register_parsed urls r id (inl e) = done (r, bad_request e)
  register_parsed urls r id (inr (u, weight)) =
      add_new_backend urls r id u weight >>= λ (r', a). done (r', reply_of_added a)

  unfoldable pub register :
      UrlLib Url
      → (Body → Option RegisterBackendRequest)
      → Registry Url
      → String
      → Body
      → Run (Registry Url × ApiReply)
  unfolding register_parsed
  register urls decode r id body =
      register_parsed urls r id (parse_register_backend_req urls decode body)

  -- `deregister`
  unfoldable pub deregister : Registry Url → String → Run (Registry Url × ApiReply)
  deregister r target =
      if str_eq target ""
      then done (r, missing_id)
      else remove_instance_by_id r target >>= λ (r', ok).
          done (r', if ok then removed else not_found target)

  -- `readyz`: the status, and the number of healthy backends in the answer.
  abbrev pub readyz : Registry Url → ℕ × ℕ
  readyz r =
      let healthy = length (list_healthy_backends r) in (if healthy == 0 then 503 else 200, healthy)
