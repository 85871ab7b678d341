-- ===== src/Wiring/Tests.antt =====
-- The theorems about the wiring at a concrete configuration.
use rusty_gateway.Common.Mux.{found, route, segments_of}
use rusty_gateway.Routes.{resource_metadata, new_mux}
use rusty_gateway.Routes.Metadata.{metadata_url, Metadata, serve_metadata}
use rusty_gateway.Routes.Metadata.Discovered.{mcp_resource}
use rusty_gateway.Wiring.Start.Discovered.{names_of, accepted-metadata}
use rusty_gateway.Auth.{
  new_authenticator, Authenticator, authenticator, new_error, discovery_failed,
}
use rusty_gateway.Wiring.Start.{resources_of, auth_settings, start_auth, start_dash, failed}
use rusty_gateway.Wiring.Start.Accepted.{validate-starts}
use rusty_gateway.Common.{
  ◌++◌, ◌≢◌, if◌then◌else◌, Option, ◌⊎◌, In, Assoc, ◌≡◌, ◌≤◌, refl, true, false, none, some, [],
  ◌∷◌, lookup, inl,
}
use rusty_gateway.Common.Int.{pos}
use rusty_gateway.Common.Text.{Text, codes, text_eq, is_empty}
use rusty_gateway.Gateway.Names.{upstream_id}
use rusty_gateway.Config.{CloudflareAccess, NamespaceConfig, UpstreamConfig, Config}
use rusty_gateway.Config.Validate.{Host, validate, is_cloudflare}
use rusty_gateway.Gateway.Dispatch.{of_server, Gate, here, next, arrive, enter}
use rusty_gateway.Gateway.Dispatch.Progress.{inside}
use rusty_gateway.Gateway.Server.{new_gateway, gate_of}
use rusty_gateway.UpstreamAuth.{Entry}
use rusty_gateway.UpstreamAuth.Manager.{Upstream, Loaded, loaded, no_row, load_failed}
use rusty_gateway.UpstreamAuth.Manager.Entries.{handler_of, is_loaded}
use rusty_gateway.Wiring.Managed.{entry_at, manager_of-handlers}
use rusty_gateway.Wiring.{
  spec_of, oauth_upstreams, manager_of, no_server, server_of, limits_of, namespaces_of,
  breaker_config,
}
use rusty_gateway.Wiring.Limited.{accepted-inside-le}

abbrev no_access : CloudflareAccess
no_access = record { team_domain = []; audience = [] }

abbrev me : NamespaceConfig
me = record {
  name = codes "me";
  servers = codes "a" ∷ codes "b" ∷ [];
  max_concurrent = pos 0;
  discovery = [];
  pinned_tools = [];
}

abbrev local : Text → UpstreamConfig
local command = record no_server { command = command; max_concurrent = pos 2 }

-- the configuration with these commands for its two servers
abbrev config : Text → Text → Config
config first second = record {
  server = record { listen = []; public_url = codes "https://gw"; data_dir = [] };
  auth = record {
    issuer = [];
    audience = [];
    required_scope = [];
    scopes = [];
    static_token_env = codes "TOK";
    cloudflare = no_access;
    static_token = codes "t";
  };
  audit = record { path = []; retention_days = pos 0; max_payload_kb = pos 0 };
  ui_cloudflare = no_access;
  limits = record {
    call_timeout = pos 60;
    max_concurrent = pos 0;
    per_namespace = pos 0;
    per_server = pos 4;
  };
  breaker = record { failures = pos 0; cooldown = pos 0 };
  namespaces = me ∷ [];
  servers = (codes "a", local first) ∷ (codes "b", local second) ∷ [];
}

-- every command is a bare name that the PATH has in /bin
abbrev host : Host
host = record {
  parse_url = λ s. none;
  is_abs = λ s. false;
  look_path = λ s. some (codes "/bin/x");
  is_executable = λ s. true;
}

config-pinned :
    validate host (config (codes "x") (codes "y")) ≡ (config (codes "/bin/x") (codes "/bin/x"), [])
unfolding validate text_eq
config-pinned = refl

abbrev pinned : Config
pinned = config (codes "/bin/x") (codes "/bin/x")

abbrev idle : Gate
idle =
    gate_of (breaker_config pinned)
      (new_gateway (limits_of pinned) (breaker_config pinned) (namespaces_of pinned))

accepted-inside-le_example :
    inside
      (of_server (upstream_id me.name (codes "a")))
      (enter me.name (upstream_id me.name (codes "a")) 5 idle).0.flights
    ≤ 2
unfolding server_of lookup text_eq
accepted-inside-le_example =
    accepted-inside-le host (config (codes "x") (codes "y")) pinned me (codes "a") 1 config-pinned
      (inl refl) (inl refl) refl (next here (arrive me.name (upstream_id me.name (codes "a")) 5))

-- server b is remote and needs a login
abbrev with_login : Text → Config
with_login command = record (config command []) {
  servers =
      (codes "a", local command)
      ∷ (codes "b", record no_server { url = codes "https://x/mcp"; oauth = true })
      ∷ [];
}

abbrev web : Host
web = record host {
  parse_url = λ s. some (record {
    scheme = codes "https";
    host = codes "x";
    hostname = codes "x";
    has_user = false;
    path = codes "/mcp";
    raw_query = [];
    force_query = false;
    fragment = [];
  });
}

with_login-pinned : validate web (with_login (codes "x")) ≡ (with_login (codes "/bin/x"), [])
unfolding validate text_eq
with_login-pinned = refl

abbrev store : Text → Loaded
store id =
    if text_eq id (codes "me/b")
    then loaded (record {
      client = codes "c";
      token = record { access_token = codes "t"; refresh_token = codes "r" };
    })
    else no_row

manager_of-handlers_example :
    ((manager_of store (with_login (codes "/bin/x")) ≡ none)
      × ((up : Upstream) × In up (oauth_upstreams (with_login (codes "/bin/x")) (me ∷ []))
          × ((err : Text) × (store up.id ≡ load_failed err))))
    ⊎ ((ua : Option (Assoc Entry)) × (manager_of store (with_login (codes "/bin/x")) ≡ some ua)
        × ((n : NamespaceConfig) (s : Text)
            → In n (me ∷ [])
            → In s n.servers
            → handler_of (entry_at ua (upstream_id n.name s)) ≡ (
                if (spec_of (with_login (codes "/bin/x")) n.name s).oauth
                then some (is_loaded (store (upstream_id n.name s)))
                else none)))
manager_of-handlers_example =
    manager_of-handlers web (with_login (codes "x")) (with_login (codes "/bin/x")) store
      with_login-pinned

validate-starts_example :
    (((start_auth host false pinned ≡ new_error discovery_failed)
        × (false ≡ false)
        × (is_empty pinned.auth.issuer ≡ false))
      ⊎ ((a : Authenticator) × (start_auth host false pinned ≡ authenticator a)))
    × (start_dash host true pinned ≢ failed)
validate-starts_example =
    validate-starts host (config (codes "x") (codes "y")) pinned false true config-pinned
      (λ e. absurd (cc))

abbrev own : Authenticator
own = record {
  settings = auth_settings pinned;
  has_issuer = false;
  audience = codes "https://gw" ∷ codes "https://gw/mcp/me" ∷ [];
  has_access = false;
}

own-made : start_auth host false pinned ≡ authenticator own
unfolding start_auth auth_settings new_authenticator resources_of is_cloudflare
own-made = refl

accepted-metadata_example :
    (path : Text) × (metadata_url own (mcp_resource me.name) ≡ codes "https://gw" ++ path)
    × (route (new_mux false false true (names_of (me ∷ []))) (codes "GET") (segments_of path)
        ≡ found resource_metadata)
    × ((document : Metadata) × (serve_metadata own (codes "GET") (segments_of path)
          ≡ found document)
        × (document.resource ≡ codes "https://gw" ++ (codes "/mcp/" ++ me.name)))
accepted-metadata_example =
    accepted-metadata host (config (codes "x") (codes "y")) pinned false false false true own me
      (codes "GET") config-pinned own-made refl (inl refl)
