-- ===== src/Config.antt =====
-- The configuration (internal/config/config.go). Decoding of TOML is left out: these are the
-- decoded records. A duration is a number of nanoseconds.
pub mod Expand
pub mod Defaults
pub mod Validate
mod Tests
use rusty_gateway.Common.{
  ℕ, ◌*◌, Bool, true, false, Option, none, some, List, [], ◌∷◌, ◌++◌, is_nil, ◌==◌, ◌&&◌, not, ltb,
  if◌then◌else◌,
}
use rusty_gateway.Common.Int.{ℤ, pos, int_ltb, int_eq}
use rusty_gateway.Common.Text.{Text, codes, is_empty}

pub record CloudflareAccess : Type 0 where
  pub team_domain : Text
  pub audience : Text

pub record ServerConfig : Type 0 where
  pub listen : Text
  pub public_url : Text
  pub data_dir : Text

pub record AuthConfig : Type 0 where
  pub issuer : Text
  pub audience : Text
  pub required_scope : Text
  pub scopes : List Text
  pub static_token_env : Text
  pub cloudflare : CloudflareAccess
  pub static_token : Text

pub record AuditConfig : Type 0 where
  pub path : Text
  pub retention_days : ℤ
  pub max_payload_kb : ℤ

pub record LimitsConfig : Type 0 where
  pub call_timeout : ℤ
  pub max_concurrent : ℤ
  pub per_namespace : ℤ
  pub per_server : ℤ

pub record BreakerSettings : Type 0 where
  pub failures : ℤ
  pub cooldown : ℤ

pub record NamespaceConfig : Type 0 where
  pub name : Text
  pub servers : List Text
  pub max_concurrent : ℤ
  pub discovery : Text
  pub pinned_tools : List Text

-- Server_; a map is the list of its entries
pub record UpstreamConfig : Type 0 where
  pub command : Text
  pub args : List Text
  pub env : List (Text × Text)
  pub url : Text
  pub headers : List (Text × Text)
  pub oauth : Bool
  pub oauth_client_id : Text
  pub oauth_client_secret_env : Text
  pub oauth_client_secret : Text
  pub max_concurrent : ℤ
  pub call_timeout : ℤ
  pub stderr_level : Text
  pub ping : Option Bool

pub record Config : Type 0 where
  pub server : ServerConfig
  pub auth : AuthConfig
  pub audit : AuditConfig
  pub ui_cloudflare : CloudflareAccess
  pub limits : LimitsConfig
  pub breaker : BreakerSettings
  pub namespaces : List NamespaceConfig
  pub servers : List (Text × UpstreamConfig)

-- PingEnabled
unfoldable pub ping_enabled : Option Bool → Bool
ping_enabled none = true
ping_enabled (some b) = b

unfoldable pub is_remote : UpstreamConfig → Bool
is_remote s = not (is_empty s.url)

abbrev pub or_text : Text → Text → Text
or_text s default = if is_empty s then default else s

abbrev pub or_int : ℤ → ℤ → ℤ
or_int n default = if int_eq n (pos 0) then default else n

unfoldable pub default_scopes : AuthConfig → List Text
default_scopes a =
    if is_nil a.scopes
    then (if is_empty a.required_scope then [] else a.required_scope ∷ [])
      ++ (if is_empty a.issuer then [] else codes "offline_access" ∷ [])
    else a.scopes

-- filepath.Dir is the parameter `dir`.
unfoldable pub apply_defaults : (Text → Text) → Config → Config
unfolding default_scopes
apply_defaults dir c = record c {
  server = record c.server {
    listen = or_text c.server.listen (codes ":8080");
    data_dir =
        or_text c.server.data_dir (if is_empty c.audit.path then codes "." else dir c.audit.path);
  };
  auth = record c.auth { scopes = default_scopes c.auth };
  audit = record c.audit {
    retention_days = or_int c.audit.retention_days (pos 90);
    max_payload_kb = or_int c.audit.max_payload_kb (pos 8);
  };
  limits = record c.limits { call_timeout = or_int c.limits.call_timeout (pos (60 * 1000000000)) };
  breaker = record c.breaker {
    cooldown =
        if int_ltb (pos 0) c.breaker.failures && int_eq c.breaker.cooldown (pos 0)
        then pos (30 * 1000000000)
        else c.breaker.cooldown;
  };
}
