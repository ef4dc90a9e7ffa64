-- ===== src/System.antt =====
-- The parts together, as internal/bootstrap/runner.go runs them: the requests of the proxy, the
-- registration API and the prober on one registry, in any order of their atomic operations.
pub mod Effects
pub mod Invariant
pub mod Requests
pub mod Start
pub mod Sticky
mod Tests
use golancer.Prelude.{
  ℕ, zero, suc, ◌-◌, ◌^◌, ◌<◌, ◌≡◌, ◌≢◌, String, Bool, Option, none, List, [], ◌∷◌, All, In, length,
  ◌==◌, if◌then◌else◌,
}
use golancer.Prelude.Run.{done}
use golancer.Domain.{UrlLib, Ptr}
use golancer.Registry.{Registry, list_backends}
use golancer.Registry.Invariant.{entries}
use golancer.Prober.{Prober, record_result}
use golancer.Http.{Body, Request}
use golancer.Proxy.Handler.{Shared, Balancer, connect}
use golancer.Handlers.{RegisterBackendRequest, ApiReply, register, deregister}

-- What is shared, and the targets of the attempts that are under way: between the two calls of
-- `ActiveConnectionsNo.Add` in `proxyOnce`.
pub record State (Url : Type 0) : Type 0 where
  pub shared : Shared Url
  pub in_flight : List Ptr

-- How often a backend is a target.
abbrev pub occurrences : Ptr → List Ptr → ℕ
occurrences q [] = 0
occurrences q (p ∷ ps) = if p == q then suc (occurrences q ps) else occurrences q ps

abbrev pub remove_first : Ptr → List Ptr → List Ptr
remove_first q [] = []
remove_first q (p ∷ ps) = if p == q then ps else p ∷ remove_first q ps

abbrev pub with_registry : {Url : Type 0} → State Url → Registry Url → State Url
with_registry s r = record s { shared = record (s.shared) { registry = r } }

-- One atomic operation of some goroutine. A request may begin an attempt on a backend that it
-- selected long ago, and the prober may record a result for one that is gone: `began` and `probed`
-- ask for nothing that the registry lists.
pub data Step {Url : Type 0} (urls : UrlLib Url) (decode : Body → Option RegisterBackendRequest)
    (balancer : Balancer Url) : State Url → State Url → Type 0 where
  selected :
      (s : State Url) (q : Request) (c : ℕ) (o : Option Ptr)
      → balancer s.shared q ≡ done (c, o)
      → Step urls decode balancer s (record s { shared = record (s.shared) { current = c } })
  began :
      (s : State Url) (p : Ptr)
      → (s.shared.registry.heap.cell p).url ≢ none
      → Step urls decode balancer s
          (record { shared = connect s.shared p 1; in_flight = p ∷ s.in_flight })
  finished :
      (s : State Url) (p : Ptr)
      → In p s.in_flight
      → Step urls decode balancer s (record {
        shared = connect s.shared p (2 ^ 32 - 1);
        in_flight = remove_first p s.in_flight;
      })
  probed :
      (s : State Url) (pr : Prober) (b : Ptr) (ok initial : Bool)
      → Step urls decode balancer s
          (with_registry s (record_result s.shared.registry pr b ok initial).0)
  registered :
      (s : State Url) (id : String) (body : Body) (r' : Registry Url) (reply : ApiReply)
      → All (λ b. b.instance_id ≢ id) (entries s.shared.registry)
      → length (list_backends s.shared.registry) < 2 ^ 31
      → register urls decode s.shared.registry id body ≡ done (r', reply)
      → Step urls decode balancer s (with_registry s r')
  deregistered :
      (s : State Url) (target : String) (r' : Registry Url) (reply : ApiReply)
      → deregister s.shared.registry target ≡ done (r', reply)
      → Step urls decode balancer s (with_registry s r')

-- Any number of steps.
pub data Reach {Url : Type 0} (urls : UrlLib Url) (decode : Body → Option RegisterBackendRequest)
    (balancer : Balancer Url) (s : State Url) : State Url → Type 0 where
  here : Reach urls decode balancer s s
  next :
      {t u : State Url}
      → Reach urls decode balancer s t
      → Step urls decode balancer t u
      → Reach urls decode balancer s u
