-- ===== src/Config/Tests.antt =====
-- A small configuration, and the theorems about configurations at it.
use rusty_gateway.Common.{
  ◌≡◌, refl, true, false, Option, none, some, List, [], ◌∷◌, map, is_nil, if◌then◌else◌,
}
use rusty_gateway.Common.Int.{pos}
use rusty_gateway.Common.Text.{Text, codes, text_eq, is_empty}
use rusty_gateway.Common.Text.Search.{cut, trim_left}
use rusty_gateway.Config.{CloudflareAccess, NamespaceConfig, UpstreamConfig, Config}
use rusty_gateway.Config.Expand.{is_first, expand_one}
use rusty_gateway.Config.Expand.Segments.{
  Segment, byte, variable, source_of, values_of, unset_names, expand_one-segments,
}
use rusty_gateway.Config.Validate.{Host, validate, limits_ok}
use rusty_gateway.Config.Validate.Accepted.{AllAccepted, validate-Accepted}

abbrev no_access : CloudflareAccess
no_access = record { team_domain = []; audience = [] }

abbrev hevy : UpstreamConfig
hevy = record {
  command = codes "/bin/hevy";
  args = [];
  env = [];
  url = [];
  headers = [];
  oauth = false;
  oauth_client_id = [];
  oauth_client_secret_env = [];
  oauth_client_secret = [];
  max_concurrent = pos 0;
  call_timeout = pos 0;
  stderr_level = [];
  ping = none;
}

abbrev me : NamespaceConfig
me = record {
  name = codes "me";
  servers = codes "hevy" ∷ [];
  max_concurrent = pos 0;
  discovery = codes "hybrid";
  pinned_tools = codes "hevy__t" ∷ [];
}

abbrev config : Config
config = record {
  server = record { listen = []; public_url = codes "https://gw"; data_dir = [] };
  auth = record {
    issuer = [];
    audience = [];
    required_scope = [];
    scopes = [];
    static_token_env = codes "TOK";
    cloudflare = no_access;
    static_token = codes "t";
  };
  audit = record { path = []; retention_days = pos 0; max_payload_kb = pos 0 };
  ui_cloudflare = no_access;
  limits = record {
    call_timeout = pos 0;
    max_concurrent = pos 0;
    per_namespace = pos 0;
    per_server = pos 0;
  };
  breaker = record { failures = pos 0; cooldown = pos 0 };
  namespaces = me ∷ [];
  servers = (codes "hevy", hevy) ∷ [];
}

abbrev host : Host
host = record {
  parse_url = λ s. none;
  is_abs = λ s. true;
  look_path = λ s. none;
  is_executable = λ s. true;
}

config-valid : (validate host config).1 ≡ []
unfolding validate text_eq cut trim_left
config-valid = refl

validate-Accepted_example :
    (is_empty config.server.public_url ≡ false)
    × (is_nil config.namespaces ≡ false)
    × (limits_ok host config.limits ≡ true)
    × AllAccepted (map (λ e. e.0) config.servers) [] config.namespaces
validate-Accepted_example = validate-Accepted host config config-valid

-- A namespace may name a server twice; both entries have one upstream ID.
abbrev twice : Config
twice = record config { namespaces = record me { servers = codes "hevy" ∷ codes "hevy" ∷ [] } ∷ [] }

twice-valid : (validate host twice).1 ≡ []
unfolding validate text_eq cut trim_left
twice-valid = refl

abbrev env : Text → Option Text
env name = if text_eq name (codes "A") then some (codes "one") else none

-- x${A}${B}
abbrev pieces : List Segment
pieces = byte b'x' ∷ variable b'A' [] ∷ variable b'B' [] ∷ []

expand_one-segments_example :
    expand_one env (source_of pieces) ≡ (values_of env pieces, unset_names env pieces)
unfolding is_first
expand_one-segments_example =
    expand_one-segments env pieces (refl, ((refl, refl), ((refl, refl), tt)))
