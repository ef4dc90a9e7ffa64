-- ===== src/Domain.antt =====
-- internal/domain/backend.go: a backend, and the memory cells that hold the backends.
use golancer.Prelude.{
  ℕ, suc, ◌+◌, ◌%◌, ◌^◌, String, Bool, false, Option, none, some, ◌==◌, if◌then◌else◌,
}

-- `MaxWeight`
abbrev pub max_weight : ℕ
max_weight = 1_000_000

-- What the code uses of `net/url`. `to_string` is the method `String`.
pub record UrlLib (Url : Type 0) : Type 0 where
  pub parse : String → Option Url
  pub scheme : Url → String
  pub host : Url → String
  pub to_string : Url → String
  pub join_path : Url → String → Url

-- `url` is none for a nil pointer. The connection count is the bit pattern of the int32.
pub record Backend (Url : Type 0) : Type 0 where
  pub instance_id : String
  pub url : Option Url
  pub healthy : Bool
  pub active_connections_no : ℕ
  pub weight : ℕ

-- A `*Backend`.
abbrev pub Ptr : Type 0
Ptr = ℕ

-- The backends in memory: `cell` below `next` are allocated, and none is ever freed while in use.
pub record Heap (Url : Type 0) : Type 0 where
  pub cell : Ptr → Backend Url
  pub next : Ptr

module _ {Url : Type 0} where
  -- The struct's zero value stands in cells that are not allocated.
  abbrev pub empty_heap : Heap Url
  empty_heap = record {
    cell = λ _. record {
      instance_id = "";
      url = none;
      healthy = false;
      active_connections_no = 0;
      weight = 0;
    };
    next = 0;
  }

  abbrev pub store : Heap Url → Ptr → Backend Url → Heap Url
  store h p b = record h { cell = λ q. if p == q then b else h.cell q }

  -- `NewBackend`, given the instance ID that `uuid.New` draws.
  unfoldable pub new_backend : Heap Url → String → Option Url → ℕ → Heap Url × Ptr
  new_backend h id u w = (
    record (store h h.next (record {
      instance_id = id;
      url = u;
      healthy = false;
      active_connections_no = 0;
      weight = w;
    })) { next = suc h.next },
    h.next,
  )

  -- `(*Backend).Healthy` and `(*Backend).SetHealthy`
  abbrev pub healthy : Heap Url → Ptr → Bool
  healthy h p = (h.cell p).healthy

  abbrev pub set_healthy : Heap Url → Ptr → Bool → Heap Url
  set_healthy h p v = store h p (record (h.cell p) { healthy = v })

  -- `ActiveConnectionsNo.Add`, with the summand as an int32 bit pattern.
  abbrev pub add_connections : Heap Url → Ptr → ℕ → Heap Url
  add_connections h p d =
      let b = h.cell p in
      store h p (record b { active_connections_no = (b.active_connections_no + d) % 2 ^ 32 })

-- What `MarshalJSON` encodes.
pub record BackendJson : Type 0 where
  pub instance_id : String
  pub url : String
  pub healthy : Bool

unfoldable pub marshal_json : {Url : Type 0} → UrlLib Url → Backend Url → BackendJson
marshal_json urls b = record {
  instance_id = b.instance_id;
  url = elim b.url [ none ↦ "" | some u ↦ urls.to_string u ];
  healthy = b.healthy;
}
