-- ===== src/Registry/Writers.antt =====
-- internal/backend/registry.go: writers that run at the same time, in the steps between which other
-- goroutines may run: taking the mutex, loading the slice, storing the new one, giving the mutex back.
pub mod Moves
pub mod Stores
pub mod Linearizable
pub mod Log
pub mod History
use golancer.Prelude.{
  ℕ, String, Bool, true, false, not, Option, none, some, List, [], ◌∷◌, ◌++◌, ◌==◌, if◌then◌else◌,
  keep, any,
}
use golancer.Prelude.Run.{Run, done, panic, ◌>>=◌}
use golancer.Domain.{UrlLib, Heap, Ptr, new_backend, set_healthy, add_connections}
use golancer.Registry.{
  Registry, Added, registered, already_registered, list_backends, has_id, contains_url,
  add_new_backend, remove_instance_by_id,
}

-- The calls that write, with the instance ID that is drawn for a new backend.
pub data Call (Url : Type 0) : Type 0 where
  add : String → Url → ℕ → Call Url
  remove : String → Call Url

pub data Result : Type 0 where
  added : Added → Result
  removed : Bool → Result

-- Where a call stands: before the mutex; behind it; behind the test of `RemoveInstanceByID`, which
-- loads the slice once more; with the slice that it loaded; done but for the deferred `Unlock`;
-- returned; or ended by a panic.
pub data Pc : Type 0 where
  waiting locked confirmed : Pc
  loaded : List Ptr → Pc
  stored finished : Result → Pc
  crashed : Pc

-- What happened, the newest first: a call took effect, or the prober or a request wrote to a cell.
pub data Entry : Type 0 where
  committed : ℕ → Result → Entry
  flagged : Ptr → Bool → Entry
  counted : Ptr → ℕ → Entry

-- `holder` is the goroutine that has the mutex. Goroutine `t` makes one call and stands at `pc t`.
pub record Writers (Url : Type 0) : Type 0 where
  pub registry : Registry Url
  pub holder : Option ℕ
  pub pc : ℕ → Pc
  pub history : List Entry

-- Who runs next.
pub data Event : Type 0 where
  turn : ℕ → Event
  flag : Ptr → Bool → Event
  count : Ptr → ℕ → Event

abbrev pub set_pc : (ℕ → Pc) → ℕ → Pc → ℕ → Pc
set_pc pc t v q = if t == q then v else pc q

module _ {Url : Type 0} where
  abbrev pub with_heap : Registry Url → Heap Url → Registry Url
  with_heap r h = record r { heap = h }

  -- `mu.Lock`: it blocks while another goroutine has the mutex.
  abbrev pub lock : ℕ → Writers Url → Writers Url
  lock t s = elim s.holder [
    | none ↦ record s { holder = some t; pc = set_pc s.pc t locked }
    | some q ↦ s
  ]

  -- The deferred `mu.Unlock`, on return and on a panic.
  abbrev pub unlock : ℕ → Pc → Writers Url → Writers Url
  unlock t v s = record s { holder = none; pc = set_pc s.pc t v }

  abbrev pub move : ℕ → Pc → Writers Url → Writers Url
  move t v s = record s { pc = set_pc s.pc t v }

  abbrev pub commit : ℕ → Result → Registry Url → Writers Url → Writers Url
  commit t x r s = record s {
    registry = r;
    pc = set_pc s.pc t (stored x);
    history = committed t x ∷ s.history;
  }

  -- The first load of `RemoveInstanceByID` and its test.
  abbrev pub confirm_in : Option (List Ptr) → String → ℕ → Writers Url → Writers Url
  confirm_in none id t s = unlock t crashed s
  confirm_in (some ps) id t s =
      if any (has_id s.registry.heap id) ps
      then move t confirmed s
      else commit t (removed false) s.registry s

  -- `AddNewBackend` on the slice that it loaded.
  abbrev pub store_added : UrlLib Url → String → Url → ℕ → List Ptr → ℕ → Writers Url → Writers Url
  store_added urls id u weight cur t s =
      elim (contains_url urls s.registry.heap (urls.to_string u) cur) [
        | panic e ↦ unlock t crashed s
        | done found ↦
            if found
            then commit t (added already_registered) s.registry s
            else let (h, p) = new_backend s.registry.heap id (some u) weight in
              commit t (added (registered id))
                (record { heap = h; backends = some (cur ++ p ∷ []) }) s
      ]

  -- `RemoveInstanceByID` on the slice that it loaded.
  abbrev pub store_removed : String → List Ptr → ℕ → Writers Url → Writers Url
  store_removed id cur t s =
      commit t (removed true)
        (record (s.registry) {
          backends = some (keep (λ p. not (has_id s.registry.heap id p)) cur);
        })
        s

  -- The next step of a call.
  unfoldable pub advance : UrlLib Url → Call Url → Pc → ℕ → Writers Url → Writers Url
  advance urls c waiting t s = lock t s
  advance urls (add id u weight) locked t s = move t (loaded (list_backends s.registry)) s
  advance urls (remove id) locked t s = confirm_in s.registry.backends id t s
  advance urls c confirmed t s = move t (loaded (list_backends s.registry)) s
  advance urls (add id u weight) (loaded cur) t s = store_added urls id u weight cur t s
  advance urls (remove id) (loaded cur) t s = store_removed id cur t s
  advance urls c (stored x) t s = unlock t (finished x) s
  advance urls c (finished x) t s = s
  advance urls c crashed t s = s

  unfoldable pub happen : UrlLib Url → (ℕ → Call Url) → Event → Writers Url → Writers Url
  unfolding advance
  happen urls calls (turn t) s = advance urls (calls t) (s.pc t) t s
  happen urls calls (flag p v) s = record s {
    registry = with_heap s.registry (set_healthy s.registry.heap p v);
    history = flagged p v ∷ s.history;
  }
  happen urls calls (count p d) s = record s {
    registry = with_heap s.registry (add_connections s.registry.heap p d);
    history = counted p d ∷ s.history;
  }

  -- A schedule, the first event first.
  unfoldable pub interleave : UrlLib Url → (ℕ → Call Url) → List Event → Writers Url → Writers Url
  interleave urls calls [] s = s
  interleave urls calls (e ∷ es) s = interleave urls calls es (happen urls calls e s)

  -- All calls are still to come.
  abbrev pub fresh_writers : Registry Url → Writers Url
  fresh_writers r = record { registry = r; holder = none; pc = λ t. waiting; history = [] }

  -- A call as one step.
  abbrev pub atomic : UrlLib Url → Call Url → Registry Url → Run (Registry Url × Result)
  atomic urls (add id u weight) r =
      add_new_backend urls r id u weight >>= λ (r', a). done (r', added a)
  atomic urls (remove id) r = remove_instance_by_id r id >>= λ (r', found). done (r', removed found)
