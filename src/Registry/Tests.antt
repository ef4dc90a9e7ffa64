-- ===== src/Registry/Tests.antt =====
-- internal/backend/registry.go: the operations on a registry of three backends.
use golancer.Prelude.{
  some, In, ◌≢◌, arith, map, ℕ, zero, suc, List, ◌≡◌, refl, String, true, [], ◌∷◌, str_eq,
}
use golancer.Prelude.Run.{done}
use golancer.Domain.{new_backend}
use golancer.Registry.{
  registered, already_registered, new_registry, add_new_backend, list_healthy_backends,
  remove_instance_by_id, registry_set_healthy, set_healthy_in, contains_url,
}
use golancer.Registry.Invariant.{entries}
use golancer.Registry.Laws.{
  seen, add_entry, remove_entry, add_new_backend-refines, remove_instance_by_id-refines,
}
use golancer.Registry.Health.{mark_entries, set_healthy-refines}
use golancer.Registry.Writers.{
  Call, add, remove, added, removed, finished, Event, turn, flag, count, interleave, happen,
  advance, fresh_writers,
}
use golancer.Registry.Writers.Moves.{Explains, commits, given, IsInside}
use golancer.Registry.Writers.Linearizable.{interleave-atomic}
use golancer.Registry.Writers.Log.{labels, replay}
use golancer.Registry.Writers.History.{interleave-registered}
use golancer.Fixtures.{text_urls, three, three-IsValid}

add_new_backend-refines_example :
    seen (add_new_backend text_urls three "w" "http://d" 3)
    ≡ done (add_entry text_urls (entries three) "w" "http://d" 3)
add_new_backend-refines_example =
    add_new_backend-refines text_urls three "w" "http://d" 3 three-IsValid

remove_instance_by_id-refines_example :
    seen (remove_instance_by_id three "x") ≡ done (remove_entry (entries three) "x")
remove_instance_by_id-refines_example = remove_instance_by_id-refines three "x" three-IsValid

set_healthy-refines_example :
    (entries (registry_set_healthy three "y" true).0, (registry_set_healthy three "y" true).1)
    ≡ mark_entries (entries three) "y" true
set_healthy-refines_example = set_healthy-refines three "y" true three-IsValid

-- A URL that is registered already is refused.
add_new_backend_twice :
    add_new_backend text_urls three "w" "http://b" 3 ≡ done (three, already_registered)
unfolding add_new_backend contains_url str_eq
add_new_backend_twice = refl

remove_instance_by_id_found :
    remove_instance_by_id three "x" ≡ done (new_registry three.heap (1 ∷ 2 ∷ []), true)
unfolding remove_instance_by_id str_eq
remove_instance_by_id_found = refl

list_healthy-set_healthy :
    list_healthy_backends (registry_set_healthy three "y" true).0 ≡ 0 ∷ 1 ∷ 2 ∷ []
unfolding registry_set_healthy set_healthy_in str_eq
list_healthy-set_healthy = refl

-- Two registrations of the same URL, and a deregistration.
abbrev calls : ℕ → Call String
calls zero = add "v" "http://d" 1
calls (suc zero) = add "w" "http://d" 2
calls (suc (suc n)) = remove "x"

-- The second registration and the deregistration come while the first has the mutex.
abbrev schedule : List Event
schedule =
    turn 0
    ∷ turn 1
    ∷ turn 2
    ∷ turn 0
    ∷ flag 1 true
    ∷ turn 2
    ∷ turn 0
    ∷ count 0 1
    ∷ turn 0
    ∷ turn 2
    ∷ turn 2
    ∷ turn 1
    ∷ turn 2
    ∷ turn 2
    ∷ turn 2
    ∷ turn 1
    ∷ turn 1
    ∷ turn 1
    ∷ turn 1
    ∷ []

interleave-atomic_example :
    let s = interleave text_urls calls schedule (fresh_writers three) in
    Explains text_urls calls three s.history s.registry
    × ((t : ℕ) → commits t s.history ≡ given (s.pc t))
    × ((t q : ℕ) → IsInside (s.pc t) → IsInside (s.pc q) → t ≡ q)
interleave-atomic_example = interleave-atomic text_urls calls three schedule

interleave-registered_example :
    let s = interleave text_urls calls schedule (fresh_writers three) in
    (labels s.registry ≡ replay calls (labels three) s.history)
    × ((t : ℕ) (id : String) (u : String) (w : ℕ)
        → calls t ≡ add id u w
        → s.pc t ≡ finished (added (registered id))
        → ((q : ℕ) (i : String) → calls q ≡ remove i → id ≢ i)
        → In (id, some u) (labels s.registry))
interleave-registered_example =
    interleave-registered text_urls calls three (omega arith, (omega arith, (omega arith, tt)))
      schedule

all_finished :
    let s = interleave text_urls calls schedule (fresh_writers three) in
    map s.pc (0 ∷ 1 ∷ 2 ∷ [])
    ≡ finished (added (registered "v"))
      ∷ finished (added already_registered)
      ∷ finished (removed true)
      ∷ []
unfolding interleave happen advance contains_url new_backend str_eq
all_finished = refl
