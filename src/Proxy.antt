-- ===== src/Proxy.antt =====
-- internal/proxy/proxy.go: choosing a backend, forwarding, failing over, and the forwarding headers.
pub mod ClientIp
pub mod Handler
pub mod Serve
pub mod Failover
pub mod Forwarded
mod Tests
use Prim.Native.String.{◌++◌ as text_append}
use mathlib.Core.List.{flat_map, reverse}
use golancer.Prelude.{
  ℕ, zero, suc, ◌+◌, ◌-◌, ◌^◌, String, Bool, true, false, not, Option, none, some, List, [], ◌∷◌,
  str_eq, ◌||◌, if◌then◌else◌, any, ◌&&◌,
}
use golancer.Prelude.Int.{ℤ, pos, negsuc}
use golancer.Prelude.Run.{Run, done, panic, nil_dereference, ◌>>=◌}
use golancer.Domain.{Heap, Ptr, add_connections}
use golancer.Registry.{Registry}
use golancer.Http.{
  Header, values, get, put_values, delete, Body, no_body, readable, broken, Request, NetLib, split,
  trim_space,
}

-- The hops of all X-Forwarded-For headers, in order.
abbrev pub hops : Request → List String
hops r = flat_map (split b',') (values "X-Forwarded-For" r.header)

abbrev pub join_comma : List String → String
join_comma [] = ""
join_comma (s ∷ []) = s
join_comma (s ∷ t ∷ ss) = text_append s (text_append ", " (join_comma (t ∷ ss)))

-- X-Forwarded-For with the peer appended to what the outbound header has.
abbrev pub append_peer : Option String → List String → Header → Header
append_peer none prior out = delete "X-Forwarded-For" out
append_peer (some host) [] out = put_values "X-Forwarded-For" (host ∷ []) out
append_peer (some host) (v ∷ vs) out =
    put_values "X-Forwarded-For" (text_append (join_comma (v ∷ vs)) (text_append ", " host) ∷ [])
      out

-- `(*httputil.ProxyRequest).SetXForwarded` on the outbound header, for the host of the peer.
abbrev pub set_x_forwarded : Option String → Request → Header → Header
set_x_forwarded peer r out =
    put_values "X-Forwarded-Proto" ((if r.tls then "https" else "http") ∷ []) (
      put_values "X-Forwarded-Host" (r.host ∷ [])
        (append_peer peer (values "X-Forwarded-For" out) out))

abbrev pub keep_chain : List String → Header → Header
keep_chain [] out = out
keep_chain (v ∷ vs) out = put_values "X-Forwarded-For" (v ∷ vs) out

-- `setForwarded`, by whether the peer is a trusted proxy, and its host.
abbrev pub forwarded : Bool → Option String → Request → Header → Header
forwarded from_trusted peer r out =
    let kept : Header =
      if from_trusted then keep_chain (values "X-Forwarded-For" r.header) out else out in
    let set = set_x_forwarded peer r kept in
    let proto = get "X-Forwarded-Proto" r.header in
    if from_trusted && not (str_eq proto "")
    then put_values "X-Forwarded-Proto" (proto ∷ []) set
    else set

module _ {Addr Prefix : Type 0} (net : NetLib Addr Prefix) where
  -- `hostOnly`
  abbrev pub host_only : String → String
  host_only hostport = elim (net.split_host hostport) [ none ↦ hostport | some host ↦ host ]

  -- `peerIP`
  abbrev pub peer_ip : Request → Option Addr
  peer_ip r = elim (net.parse_addr (host_only r.remote_addr)) [
    | none ↦ none
    | some a ↦ some (net.unmap a)
  ]

  -- `TrustedProxies.contains`
  abbrev pub trusts : List Prefix → Option Addr → Bool
  trusts t none = false
  trusts t (some a) = any (λ p. net.prefix_contains p a) t

  -- The loop of `ClientIP`, over the hops from right to left.
  unfoldable pub walk_hops : List Prefix → Addr → List String → Addr
  walk_hops t client [] = client
  walk_hops t client (hop ∷ left) = elim (net.parse_addr (trim_space hop)) [
    | none ↦ client
    | some a ↦
        if not (trusts t (some (net.unmap a))) then net.unmap a else walk_hops t (net.unmap a) left
  ]

  -- `TrustedProxies.ClientIP`, by the peer.
  unfoldable pub client_from : List Prefix → Option Addr → String → List String → String
  client_from t none host hs = host
  client_from t (some peer) host hs =
      if not (trusts t (some peer)) then host else net.addr_string (walk_hops t peer (reverse hs))

  unfoldable pub client_ip : List Prefix → Request → String
  unfolding client_from
  client_ip t r = client_from t (peer_ip r) (host_only r.remote_addr) (hops r)

  -- `setForwarded`: the inbound request, and the outbound header that it starts from.
  unfoldable pub set_forwarded : List Prefix → Request → Header → Header
  set_forwarded t r out = forwarded (trusts t (peer_ip r)) (net.split_host r.remote_addr) r out
