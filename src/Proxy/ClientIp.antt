-- ===== src/Proxy/ClientIp.antt =====
-- internal/proxy/proxy.go: whose word `ClientIP` takes.
use mathlib.Core.List.{reverse, reverse-append, append_assoc, reverse-cons}
use mathlib.Core.Path.{ap₂}
use golancer.Prelude.{◌≡◌, ap, ◌∙◌, String, true, false, some, List, [], ◌∷◌, ◌++◌, All, All-append}
use golancer.Http.{Request, NetLib, trim_space}
use golancer.Proxy.{host_only, peer_ip, trusts, hops, walk_hops, client_ip, client_from}

reverse_middle :
    (xs ys : List String) (y : String) → reverse (xs ++ y ∷ ys) ≡ reverse ys ++ y ∷ reverse xs
reverse_middle xs ys y =
    reverse-append xs (y ∷ ys)
    ∙ ap (λ zs. zs ++ reverse xs) (reverse-cons y ys)
    ∙ append_assoc (reverse ys) (y ∷ []) (reverse xs)

module _ {Addr Prefix : Type 0} (net : NetLib Addr Prefix) (t : List Prefix) where
  -- A hop that names an address inside the trusted networks.
  abbrev pub IsTrustedHop : String → Type 0
  IsTrustedHop hop =
      (a : Addr) × (net.parse_addr (trim_space hop) ≡ some a)
      × (trusts net t (some (net.unmap a)) ≡ true)

  -- Trusted hops are passed over: the walk goes on to their left.
  walk_hops-client :
      (peer : Addr) (chain : List String) (hop : String) (left : List String) (a : Addr)
      → All IsTrustedHop chain
      → net.parse_addr (trim_space hop) ≡ some a
      → trusts net t (some (net.unmap a)) ≡ false
      → walk_hops net t peer (chain ++ hop ∷ left) ≡ net.unmap a
  unfolding walk_hops
  walk_hops-client peer [] hop left a h e u = rw e (rw u)
  walk_hops-client peer (c ∷ chain) hop left a ((b, parsed, inside), h) e u =
      rw parsed (rw inside (walk_hops-client (net.unmap b) chain hop left a h e u))

  All-reverse : (P : String → Type 0) (xs : List String) → All P xs → All P (reverse xs)
  All-reverse P [] h = tt
  All-reverse P (x ∷ xs) h =
      rw (reverse-cons x xs) (All-append P (reverse xs) (x ∷ []) (All-reverse P xs h.1) (h.0, tt))

  -- If the peer is trusted and the rightmost hops of X-Forwarded-For are trusted up to one that
  -- names an address outside the trusted networks, then ClientIP is that address, whatever stands
  -- to the left of it.
  pub client_ip-unforgeable :
      (r : Request) (peer a : Addr) (forged chain : List String) (hop : String)
      → peer_ip net r ≡ some peer
      → trusts net t (some peer) ≡ true
      → hops r ≡ forged ++ hop ∷ chain
      → net.parse_addr (trim_space hop) ≡ some a
      → trusts net t (some (net.unmap a)) ≡ false
      → All IsTrustedHop chain
      → client_ip net t r ≡ net.addr_string (net.unmap a)
  unfolding client_ip
  client_ip-unforgeable r peer a forged chain hop p inside e parsed outside h =
      ap₂ (λ o hs. client_from net t o (host_only net r.remote_addr) hs) p e
      ∙ rw (inside, reverse_middle forged chain hop)
          (ap net.addr_string (
            walk_hops-client peer (reverse chain) hop (reverse forged) a
              (All-reverse IsTrustedHop chain h) parsed outside))
