-- ===== src/Gateway/Server.antt =====
-- The gateway as `New` builds it, and how it follows its upstreams (internal/gateway/gateway.go:
-- `New`, `Breakers`, `Refresh`, `RefreshAll`, `Handler`, `Namespaces`).
pub mod Built
pub mod Refreshing
mod Tests
use rusty_gateway.Common.{
  ℕ, Bool, true, false, Option, none, some, List, [], ◌∷◌, ◌++◌, map, any, Assoc, lookup, insert,
  if◌then◌else◌,
}
use rusty_gateway.Common.Int.{ℤ}
use rusty_gateway.Common.Text.{Text, text_eq}
use rusty_gateway.Gateway.Limits.{Limits, namespace_limit, server_limit, new_semaphore}
use rusty_gateway.Gateway.Breaker.{BreakerConfig, Breaker, new_breaker, BreakerState, state}
use rusty_gateway.Gateway.Dispatch.{Semaphore, global, of_namespace, of_server, Gate}
use rusty_gateway.Gateway.Names.{upstream_id}
use rusty_gateway.Gateway.Discovery.{Namespace, Tool}
use rusty_gateway.Gateway.Discovery.Ranking.{text_ltb}
use rusty_gateway.Gateway.Discovery.MetaTools.{meta_tool_names}
use rusty_gateway.Gateway.Discovery.Sync.{NsServer, sync_locked}

-- nsServer: `native` is what syncLocked works on, and `meta` are the tools of registerMetaTools.
pub record Server : Type 0 where
  pub ns : Namespace
  pub native : NsServer
  pub meta : List Text
  pub sem : Option ℕ

-- A semaphore is the capacity that newSemaphore gave it.
pub record Gateway : Type 0 where
  pub limits : Limits
  pub global_sem : Option ℕ
  pub servers : Assoc Server
  pub per_srv : Assoc (Option ℕ)
  pub breakers : Assoc Breaker

unfoldable pub new_server : Limits → Namespace → Server
new_server limits ns = record {
  ns = ns;
  native = record { offered = []; registered = [] };
  meta = meta_tool_names ns.discovery ns.servers;
  sem = new_semaphore (namespace_limit limits ns.name);
}

-- the loop over ns.Servers for one of the maps: what it puts under an ID depends on the ID alone
unfoldable pub add_ids : {V : Type 0} → (Text → V) → Text → List Text → Assoc V → Assoc V
add_ids f ns [] m = m
add_ids f ns (srv ∷ servers) m =
    add_ids f ns servers (insert (upstream_id ns srv) (f (upstream_id ns srv)) m)

module _ (limits : Limits) (cfg : BreakerConfig) where
  -- the loop over the namespaces
  unfoldable pub add_namespaces : List Namespace → Gateway → Gateway
  unfolding new_server add_ids
  add_namespaces [] g = g
  add_namespaces (ns ∷ nss) g = add_namespaces nss (record g {
    servers = insert ns.name (new_server limits ns) g.servers;
    per_srv = add_ids (λ id. new_semaphore (server_limit limits id)) ns.name ns.servers g.per_srv;
    breakers = add_ids (λ id. new_breaker cfg) ns.name ns.servers g.breakers;
  })

  -- `New`
  unfoldable pub new_gateway : List Namespace → Gateway
  unfolding add_namespaces
  new_gateway nss = add_namespaces nss (record {
    limits = limits;
    global_sem = new_semaphore limits.max_concurrent;
    servers = [];
    per_srv = [];
    breakers = [];
  })

-- `Breakers`
unfoldable pub breaker_states : Gateway → Assoc BreakerState
breaker_states g = map (λ e. (e.0, state e.1)) g.breakers

-- `Handler`: the server that answers, or `none` for 404
unfoldable pub handler : Text → Gateway → Option Server
handler name g = lookup name g.servers

place_name : Text → List Text → List Text
place_name n [] = n ∷ []
place_name n (m ∷ ms) = let rest = place_name n ms in if text_ltb m n then m ∷ rest else n ∷ m ∷ ms

sort_names : List Text → List Text
unfolding place_name
sort_names [] = []
sort_names (n ∷ ns) = place_name n (sort_names ns)

-- `Namespaces`
unfoldable pub namespaces : Gateway → List Text
unfolding sort_names
namespaces g = sort_names (map (λ e. e.0) g.servers)

abbrev pub includes : Text → Namespace → Bool
includes id ns = any (λ srv. text_eq (upstream_id ns.name srv) id) ns.servers

module _ (marshal : Tool → Text) (catalog : Text → Option (List Tool)) where
  unfoldable pub synced : Server → Server
  synced s = record s { native = sync_locked marshal catalog s.ns s.native }

  refresh_servers : Text → Assoc Server → Assoc Server
  unfolding synced
  refresh_servers id [] = []
  refresh_servers id ((name, s) ∷ servers) =
      (name, if includes id s.ns then synced s else s) ∷ refresh_servers id servers

  -- `Refresh`
  unfoldable pub refresh : Text → Gateway → Gateway
  unfolding refresh_servers
  refresh id g = record g { servers = refresh_servers id g.servers }

  -- `RefreshAll`
  unfoldable pub refresh_all : Gateway → Gateway
  unfolding synced
  refresh_all g = record g { servers = map (λ e. (e.0, synced e.1)) g.servers }

capacity : Option (Option ℕ) → Option ℕ
capacity none = none
capacity (some c) = c

server_sem : Option Server → Option ℕ
server_sem none = none
server_sem (some s) = s.sem

breaker_of : Option Breaker → BreakerConfig → Breaker
breaker_of none cfg = new_breaker cfg
breaker_of (some b) cfg = b

-- What `dispatch` works on before the first call: `g.global`, `ns.sem`, `g.perSrv[id]` and
-- `g.breakers[id]`. Calls are made only for the namespaces and upstreams that have these.
unfoldable pub gate_of : BreakerConfig → Gateway → Gate
unfolding capacity server_sem breaker_of
gate_of cfg g = record {
  limit = λ s. elim s [
    | global ↦ g.global_sem
    | of_namespace ns ↦ server_sem (lookup ns g.servers)
    | of_server id ↦ capacity (lookup id g.per_srv)
  ];
  used = λ s. 0;
  breakers = λ id. breaker_of (lookup id g.breakers) cfg;
  flights = [];
}
