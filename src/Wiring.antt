-- ===== src/Wiring.antt =====
-- What cmd/gateway/main.go makes of the configuration: the specs and the limits of the upstreams,
-- and the table that supervisor.New builds of the specs (internal/supervisor/supervisor.go).
pub mod Found
pub mod Limited
pub mod Managed
pub mod Start
mod Tests
use rusty_gateway.Common.{
  ℕ, Bool, true, false, not, Option, none, some, List, [], ◌∷◌, ◌++◌, Assoc, lookup, insert, map,
  ◌||◌, if◌then◌else◌, is_nil,
}
use rusty_gateway.Common.Int.{ℤ, pos}
use rusty_gateway.Common.Text.{Text, codes, text_eq, is_empty}
use rusty_gateway.Gateway.Breaker.{BreakerConfig}
use rusty_gateway.Gateway.Discovery.{
  Discovery, full, connector, search_mode, hybrid, unknown_mode, Namespace,
}
use rusty_gateway.Gateway.Limits.{Limits}
use rusty_gateway.Gateway.Names.{upstream_id}
use rusty_gateway.Supervisor.{Spec}
use rusty_gateway.UpstreamAuth.{Entry}
use rusty_gateway.UpstreamAuth.Manager.{Client, Upstream, Loaded, new_manager}
use rusty_gateway.Config.{NamespaceConfig, UpstreamConfig, Config, ping_enabled}

-- the zero Server_
abbrev no_server : UpstreamConfig
no_server = record {
  command = [];
  args = [];
  env = [];
  url = [];
  headers = [];
  oauth = false;
  oauth_client_id = [];
  oauth_client_secret_env = [];
  oauth_client_secret = [];
  max_concurrent = pos 0;
  call_timeout = pos 0;
  stderr_level = [];
  ping = none;
}

or_no_server : Option UpstreamConfig → UpstreamConfig
or_no_server none = no_server
or_no_server (some srv) = srv

-- cfg.Servers[name]
unfoldable pub server_of : Config → Text → UpstreamConfig
unfolding or_no_server
server_of c name = or_no_server (lookup name c.servers)

-- the spec of one server of one namespace; the rest of the spec is only passed on
unfoldable pub spec_of : Config → Text → Text → Spec
unfolding server_of
spec_of c ns name = record {
  id = upstream_id ns name;
  url = (server_of c name).url;
  oauth = (server_of c name).oauth;
  no_ping = not (ping_enabled (server_of c name).ping);
}

module _ {V : Type 0} (f : Text → Text → V) where
  -- the inner loop: what it adds under each ID
  unfoldable pub keyed_servers : Text → List Text → List (Text × V)
  keyed_servers ns [] = []
  keyed_servers ns (name ∷ names) = (upstream_id ns name, f ns name) ∷ keyed_servers ns names

  -- both loops
  unfoldable pub keyed : List NamespaceConfig → List (Text × V)
  unfolding keyed_servers
  keyed [] = []
  keyed (ns ∷ nss) = keyed_servers ns.name ns.servers ++ keyed nss

-- m[k] = v for one entry after the other
unfoldable pub put_all : {V : Type 0} → List (Text × V) → Assoc V → Assoc V
put_all [] m = m
put_all ((k, v) ∷ entries) m = put_all entries (insert k v m)

-- the map of supervisor.New, with the spec of each upstream
unfoldable pub upstream_table : Config → Assoc Spec
unfolding keyed put_all
upstream_table c = put_all (keyed (spec_of c) c.namespaces) []

namespace_limits : List NamespaceConfig → List (Text × ℤ)
namespace_limits [] = []
namespace_limits (ns ∷ nss) = (ns.name, ns.max_concurrent) ∷ namespace_limits nss

unfoldable pub limits_of : Config → Limits
unfolding keyed put_all server_of namespace_limits
limits_of c = record {
  call_timeout = c.limits.call_timeout;
  max_concurrent = c.limits.max_concurrent;
  per_namespace = c.limits.per_namespace;
  per_server = c.limits.per_server;
  namespace_concurrency = put_all (namespace_limits c.namespaces) [];
  server_concurrency =
      put_all (keyed (λ ns name. (server_of c name).max_concurrent) c.namespaces) [];
  server_timeout = put_all (keyed (λ ns name. (server_of c name).call_timeout) c.namespaces) [];
}

-- gateway.Discovery(ns.Discovery), as syncLocked and registerMetaTools tell the texts apart
unfoldable pub discovery_of : Text → Discovery
discovery_of t =
    if is_empty t || text_eq t (codes "full")
    then full
    else if text_eq t (codes "connector")
    then connector
    else if text_eq t (codes "search")
    then search_mode
    else if text_eq t (codes "hybrid")
    then hybrid
    else unknown_mode

-- the namespaces of the gateway
unfoldable pub namespace_of : NamespaceConfig → Namespace
unfolding discovery_of
namespace_of n = record {
  name = n.name;
  servers = n.servers;
  discovery = discovery_of n.discovery;
  pinned_tools = n.pinned_tools;
}

unfoldable pub namespaces_of : Config → List Namespace
unfolding namespace_of
namespaces_of c = map namespace_of c.namespaces

-- gateway.BreakerConfig
unfoldable pub breaker_config : Config → BreakerConfig
breaker_config c = record { failures = c.breaker.failures; cooldown = c.breaker.cooldown }

-- the client of the configuration, if it names one
client_of : UpstreamConfig → Option Client
client_of srv =
    if is_empty srv.oauth_client_id
    then none
    else some (record {
      id = srv.oauth_client_id;
      secret = if is_empty srv.oauth_client_secret then none else some srv.oauth_client_secret;
    })

-- the inner loop: the upstreams of a namespace that need a login
unfoldable pub oauth_servers : Config → Text → List Text → List Upstream
unfolding client_of server_of
oauth_servers c ns [] = []
oauth_servers c ns (name ∷ names) =
    let rest = oauth_servers c ns names in
    if (server_of c name).oauth
    then record {
      id = upstream_id ns name;
      url = (server_of c name).url;
      preregistered = client_of (server_of c name);
      headers = (server_of c name).headers;
    }
      ∷ rest
    else rest

-- both loops
unfoldable pub oauth_upstreams : Config → List NamespaceConfig → List Upstream
unfolding oauth_servers
oauth_upstreams c [] = []
oauth_upstreams c (ns ∷ nss) = oauth_servers c ns.name ns.servers ++ oauth_upstreams c nss

-- `ua` after upstreamauth.New, where the state database can be opened: `some none` is nil, which
-- stands where no upstream needs a login, and `none` is an error
unfoldable pub manager_of : (Text → Loaded) → Config → Option (Option (Assoc Entry))
unfolding oauth_upstreams
manager_of load c =
    if is_nil (oauth_upstreams c c.namespaces)
    then some none
    else elim (new_manager load (oauth_upstreams c c.namespaces)) [
      | none ↦ none
      | some entries ↦ some (some entries)
    ]
