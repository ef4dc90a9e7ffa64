-- ===== src/Proxy/Forwarded.antt =====
-- internal/proxy/proxy.go: the forwarding headers that `setForwarded` gives to a backend.
use mathlib.Core.Path.{ap₂}
use golancer.Prelude.{
  ◌≡◌, refl, ap, ◌∙◌, String, false, some, List, [], ◌∷◌, arith, str_eq, str_eq_iff, str_eq_refl,
  if◌then◌else◌,
}
use golancer.Http.{Header, Request, NetLib, values, put_values}
use golancer.Proxy.{trusts, peer_ip, set_forwarded, forwarded, append_peer}

values-put_values : (k : String) (vs : List String) (h : Header) → values k (put_values k vs h) ≡ vs
values-put_values k vs [] = rw (str_eq_refl k)
values-put_values k vs ((j, ws) ∷ h) = ground (arith, str_eq_refl k, values-put_values k vs h)

values-put_values_other :
    (k j : String) (vs : List String) (h : Header)
    → str_eq j k ≡ false
    → values k (put_values j vs h) ≡ values k h
values-put_values_other k j vs [] e = rw e
values-put_values_other k j vs ((i, ws) ∷ h) e =
    ground
      (arith, str_eq_iff i j, str_eq_iff i k, str_eq_iff j k, values-put_values_other k j vs h e)

proto_not_for : str_eq "X-Forwarded-Proto" "X-Forwarded-For" ≡ false
unfolding str_eq
proto_not_for = refl

host_not_for : str_eq "X-Forwarded-Host" "X-Forwarded-For" ≡ false
unfolding str_eq
host_not_for = refl

proto_not_host : str_eq "X-Forwarded-Proto" "X-Forwarded-Host" ≡ false
unfolding str_eq
proto_not_host = refl

module _ {Addr Prefix : Type 0} (net : NetLib Addr Prefix) where
  -- If the peer is outside the trusted networks, its address splits into a host and a port, and the
  -- outbound header starts without X-Forwarded-For, then the backend gets the host of the peer as
  -- the only X-Forwarded-For, the host of the request as X-Forwarded-Host, and the scheme of the
  -- connection as X-Forwarded-Proto, whatever the client sent.
  pub set_forwarded-direct :
      (t : List Prefix) (r : Request) (out : Header) (host : String)
      → trusts net t (peer_ip net r) ≡ false
      → net.split_host r.remote_addr ≡ some host
      → values "X-Forwarded-For" out ≡ []
      → let sent = set_forwarded net t r out in
        (values "X-Forwarded-For" sent ≡ host ∷ [])
        × (values "X-Forwarded-Host" sent ≡ r.host ∷ [])
        × (values "X-Forwarded-Proto" sent ≡ (if r.tls then "https" else "http") ∷ [])
  unfolding set_forwarded
  set_forwarded-direct t r out host outside split clean =
      let with_for = put_values "X-Forwarded-For" (host ∷ []) out in
      let with_host = put_values "X-Forwarded-Host" (r.host ∷ []) with_for in
      let proto : List String = (if r.tls then "https" else "http") ∷ [] in
      let headers : set_forwarded net t r out ≡ put_values "X-Forwarded-Proto" proto with_host =
        ap₂ (λ b p. forwarded b p r out) outside split
        ∙ ap
            (λ prior.
              put_values "X-Forwarded-Proto" proto
                (put_values "X-Forwarded-Host" (r.host ∷ []) (append_peer (some host) prior out)))
            clean in
      (
        ap (values "X-Forwarded-For") headers
            ∙ values-put_values_other "X-Forwarded-For" "X-Forwarded-Proto" proto with_host
                proto_not_for
            ∙ values-put_values_other "X-Forwarded-For" "X-Forwarded-Host" (r.host ∷ []) with_for
                host_not_for
            ∙ values-put_values "X-Forwarded-For" (host ∷ []) out,
        ap (values "X-Forwarded-Host") headers
            ∙ values-put_values_other "X-Forwarded-Host" "X-Forwarded-Proto" proto with_host
                proto_not_host
            ∙ values-put_values "X-Forwarded-Host" (r.host ∷ []) with_for,
        ap (values "X-Forwarded-Proto") headers
            ∙ values-put_values "X-Forwarded-Proto" proto with_host,
      )
