-- ===== src/Wiring/Limited.antt =====
-- From the configuration to the calls: how many of them an upstream sees at once
-- (cmd/gateway/main.go, internal/gateway/gateway.go, internal/gateway/limits.go).
use rusty_gateway.Common.{
  ℕ, suc, ◌≡◌, ◌≤◌, refl, ◌∙◌, true, List, [], ◌∷◌, any, In, inl, inr, arith, map,
}
use rusty_gateway.Common.Int.{pos}
use rusty_gateway.Common.Text.{Text, text_eq, text_eq_refl}
use rusty_gateway.Gateway.Limits.{override}
use rusty_gateway.Gateway.Dispatch.{of_server, Gate, Reach}
use rusty_gateway.Gateway.Dispatch.Progress.{inside}
use rusty_gateway.Gateway.Names.{upstream_id}
use rusty_gateway.Gateway.Server.{includes, new_gateway, gate_of}
use rusty_gateway.Gateway.Server.Built.{new_gateway-inside-le}
use rusty_gateway.Config.{NamespaceConfig, Config}
use rusty_gateway.Config.Validate.{Host, validate}
use rusty_gateway.Wiring.{server_of, limits_of, namespaces_of, namespace_of, breaker_config}
use rusty_gateway.Wiring.Found.{upstream_table_found}

any-In :
    (ns s : Text) (servers : List Text)
    → In s servers
    → any (λ srv. text_eq (upstream_id ns srv) (upstream_id ns s)) servers ≡ true
any-In ns s [] i = absurd i
any-In ns s (x ∷ servers) (inl e) = rw e (rw (text_eq_refl (upstream_id ns s)) refl)
any-In ns s (x ∷ servers) (inr i) = ground (arith, any-In ns s servers i)

includes-namespaces_of :
    (n : NamespaceConfig) (s : Text) (nss : List NamespaceConfig)
    → In n nss
    → In s n.servers
    → any (includes (upstream_id n.name s)) (map namespace_of nss) ≡ true
unfolding namespace_of
includes-namespaces_of n s [] i j = absurd i
includes-namespaces_of n s (m ∷ nss) (inl e) j = rw e (ground (arith, any-In n.name s n.servers j))
includes-namespaces_of n s (m ∷ nss) (inr i) j = ground (arith, includes-namespaces_of n s nss i j)

-- For a server of a namespace of a configuration that `validate` accepts, and as it leaves it: if
-- the server's max_concurrent is n > 0, then at most n calls are inside this upstream at any time,
-- however the calls of the gateway interleave.
pub accepted-inside-le :
    (host : Host) (c out : Config) (n : NamespaceConfig) (s : Text) (k : ℕ) {h : Gate}
    → validate host c ≡ (out, [])
    → In n out.namespaces
    → In s n.servers
    → (server_of out s).max_concurrent ≡ pos (suc k)
    → Reach
        (gate_of
          (breaker_config out)
          (new_gateway (limits_of out) (breaker_config out) (namespaces_of out)))
        h
    → inside (of_server (upstream_id n.name s)) h.flights ≤ suc k
unfolding namespaces_of
accepted-inside-le host c out n s k accepted i j limit r =
    new_gateway-inside-le (limits_of out) (breaker_config out) (namespaces_of out)
      (upstream_id n.name s) k (includes-namespaces_of n s out.namespaces i j)
      ((upstream_table_found host c out n s accepted i j).1
        ∙ rw limit (unfold override in ground arith))
      r
