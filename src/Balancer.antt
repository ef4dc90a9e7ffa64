-- ===== src/Balancer.antt =====
-- internal/balancer: the four selectors. An error `ErrNoBackends` is `none`.
pub mod RoundRobin
pub mod Fairness
pub mod LeastConnections
pub mod Bands
pub mod Weighted
mod Tests
use Prim.Native.Char.{code}
use Prim.Native.Nat.{bit_xor}
use golancer.Prelude.{
  ℕ, zero, suc, ◌+◌, ◌-◌, ◌*◌, ◌/◌, ◌%◌, ◌^◌, String, Bool, Option, none, some, List, [], ◌∷◌, ltb,
  ◌++◌, ◌==◌, if◌then◌else◌, length, get_elem?,
}
use golancer.Prelude.Run.{
  Run, done, panic, index_out_of_range, divide_by_zero, invalid_argument, ◌>>=◌,
}
use golancer.Domain.{Heap, Ptr, healthy}
use golancer.Registry.{Registry, list_backends, list_healthy_backends}

-- `slices.MinFunc`: the first of the least.
unfoldable pub min_func : {A : Type 0} → (A → A → Bool) → A → List A → A
min_func less m [] = m
min_func less m (x ∷ xs) = min_func less (if less x m then x else m) xs

module _ {Url : Type 0} where
  -- The loop of `RoundRobinSelector.GetServer`: `k` rounds are left, and `i` is the next. The index
  -- is computed in uint32.
  unfoldable pub scan : Heap Url → List Ptr → ℕ → ℕ → ℕ → ℕ → Run (Option Ptr)
  scan h ps start n zero i = done none
  scan h ps start n (suc k) i =
      let rest = scan h ps start n k (i + 1) in
      elim (get_elem? ps ((start + i) % 2 ^ 32 % n)) [
        | none ↦ panic index_out_of_range
        | some p ↦ if healthy h p then done (some p) else rest
      ]

  -- `RoundRobinSelector.GetServer`: `current` is the atomic counter, and the new one is returned.
  unfoldable pub round_robin : Registry Url → ℕ → Run (ℕ × Option Ptr)
  round_robin r current =
      let backends = list_backends r in
      let n = length backends % 2 ^ 32 in
      if n == 0
      then done (current, none)
      else let current' = (current + 1) % 2 ^ 32 in
        let start = (current' + 2 ^ 32 - 1) % 2 ^ 32 in
        scan r.heap backends start n n 0 >>= λ o. done (current', o)

  -- `uint64(b.ActiveConnectionsNo.Load())`: the int32 is extended by its sign.
  abbrev pub connections : Heap Url → Ptr → ℕ
  connections h p =
      let w = (h.cell p).active_connections_no in
      if ltb w (2 ^ 31) then w else w + (2 ^ 64 - 2 ^ 32)

  abbrev pub weight : Heap Url → Ptr → ℕ
  weight h p = (h.cell p).weight

  -- The comparison of `LeastConnectionsSelector.GetServer` is negative.
  abbrev pub less_loaded : Heap Url → Ptr → Ptr → Bool
  less_loaded h a b =
      ltb (connections h a * weight h b % 2 ^ 64) (connections h b * weight h a % 2 ^ 64)

  -- `LeastConnectionsSelector.GetServer`
  unfoldable pub least_connections : Registry Url → Option Ptr
  least_connections r = elim (list_healthy_backends r) [
    | [] ↦ none
    | p ∷ ps ↦ some (min_func (less_loaded r.heap) p ps)
  ]

  -- The sum of the weights, in uint64.
  unfoldable pub add_weights : Heap Url → ℕ → List Ptr → ℕ
  add_weights h total [] = total
  add_weights h total (p ∷ ps) = add_weights h ((total + weight h p) % 2 ^ 64) ps

  -- The loop that walks the weight bands; it falls through with `none`.
  unfoldable pub in_band : Heap Url → ℕ → List Ptr → Option Ptr
  in_band h pick [] = none
  in_band h pick (p ∷ ps) =
      if ltb pick (weight h p) then some p else in_band h (pick - weight h p) ps

  -- The loop and the line behind it, which returns the last backend.
  unfoldable pub walk : Heap Url → ℕ → List Ptr → Run (Option Ptr)
  unfolding in_band
  walk h pick ps = elim (in_band h pick ps) [
    | some p ↦ done (some p)
    | none ↦ elim (get_elem? ps (length ps - 1)) [
      | none ↦ panic index_out_of_range
      | some p ↦ done (some p)
    ]
  ]

  -- `RandomSelector.GetServer`. `draw` is `rand.Uint64N`, which panics at 0.
  unfoldable pub random : (ℕ → ℕ) → Registry Url → Run (Option Ptr)
  random draw r =
      let backends = list_healthy_backends r in
      if length backends == 0
      then done none
      else let total = add_weights r.heap 0 backends in
        if total == 0 then panic invalid_argument else walk r.heap (draw total) backends

-- The bytes of a text, in UTF-8.
abbrev pub utf8_char : ℕ → List ℕ
utf8_char c =
    if ltb c 128
    then c ∷ []
    else if ltb c 2048
    then (192 + c / 64) ∷ (128 + c % 64) ∷ []
    else if ltb c 65536
    then (224 + c / 4096) ∷ (128 + c / 64 % 64) ∷ (128 + c % 64) ∷ []
    else (240 + c / 262144) ∷ (128 + c / 4096 % 64) ∷ (128 + c / 64 % 64) ∷ (128 + c % 64) ∷ []

unfoldable pub utf8 : String → List ℕ
utf8 String.[] = []
utf8 (String.◌∷◌ c s) = utf8_char (code c) ++ utf8 s

-- FNV-1a in 32 bits: `fnv.New32a`, `Write` and `Sum32`.
unfoldable pub fnv_write : ℕ → List ℕ → ℕ
fnv_write hash [] = hash
fnv_write hash (b ∷ bs) = fnv_write (bit_xor hash b * 16777619 % 2 ^ 32) bs

unfoldable pub fnv_32a : String → ℕ
unfolding utf8 fnv_write
fnv_32a key = fnv_write 2166136261 (utf8 key)

-- `HashSelector.GetServerForKey`; `%` by zero panics.
unfoldable pub server_for_key : {Url : Type 0} → Registry Url → String → Run (Option Ptr)
server_for_key r key =
    let backends = list_healthy_backends r in
    if length backends == 0
    then done none
    else let total = add_weights r.heap 0 backends in
      if total == 0 then panic divide_by_zero else walk r.heap (fnv_32a key % total) backends
