-- ===== src/Config/Validate.antt =====
-- `validate` (internal/config/config.go). An error is a constructor with what its message names.
pub mod Sound
pub mod Accepted
use rusty_gateway.Common.{
  ℕ, Bool, true, false, Option, none, some, List, [], ◌∷◌, ◌++◌, is_nil, any, map, all, leb, ◌==◌,
  ◌&&◌, ◌||◌, not, if◌then◌else◌, Assoc, lookup,
}
use rusty_gateway.Common.Int.{ℤ, pos, int_ltb}
use rusty_gateway.Common.Text.{Text, codes, text_eq, is_empty}
use rusty_gateway.Common.Text.Search.{cut, trim_left}
use rusty_gateway.Config.{
  CloudflareAccess, AuthConfig, LimitsConfig, BreakerSettings, NamespaceConfig, UpstreamConfig,
  Config, is_remote,
}

-- What url.Parse makes of a text, as far as the checks look.
pub record Url : Type 0 where
  pub scheme : Text
  pub host : Text
  pub hostname : Text
  pub has_user : Bool
  pub path : Text
  pub raw_query : Text
  pub force_query : Bool
  pub fragment : Text

pub data NamespaceError : Type 0 where
  bad_name duplicate negative_max bad_discovery pins_need_hybrid no_servers : NamespaceError
  bad_pin pin_outside pin_twice unknown_server : Text → NamespaceError

pub data UpstreamError : Type 0 where
  bad_server_name negative_limit bad_stderr_level both_kinds bad_url client_needs_oauth
        secret_needs_client oauth_needs_url headers_need_url no_command not_in_path not_executable :
      UpstreamError

pub data ConfigError : Type 0 where
  no_public_url no_auth static_token_unset auth_cloudflare auth_exclusive ui_cloudflare
        limits_negative breaker_negative no_namespace :
      ConfigError
  in_namespace : Text → NamespaceError → ConfigError
  in_server : Text → UpstreamError → ConfigError

-- errs = append(errs, e) under a condition
unfoldable pub check {ℓ} : {E : Type ℓ} → Bool → E → List E
check true e = e ∷ []
check false e = []

unfoldable pub is_negative : ℤ → Bool
is_negative n = int_ltb n (pos 0)

unfoldable pub name_first : ℕ → Bool
name_first c = (leb b'a' c && leb c b'z') || (leb b'0' c && leb c b'9')

unfoldable pub name_byte : ℕ → Bool
unfolding name_first
name_byte c = name_first c || c == b'_' || c == b'-'

-- nameRule
unfoldable pub is_name : Text → Bool
unfolding name_first name_byte
is_name [] = false
is_name (c ∷ s) = name_first c && all name_byte s

unfoldable pub is_discovery : Text → Bool
is_discovery d =
    is_empty d
    || text_eq d (codes "full")
    || text_eq d (codes "connector")
    || text_eq d (codes "search")
    || text_eq d (codes "hybrid")

unfoldable pub is_stderr_level : Text → Bool
is_stderr_level l =
    is_empty l
    || text_eq l (codes "debug")
    || text_eq l (codes "info")
    || text_eq l (codes "warn")
    || text_eq l (codes "error")
    || text_eq l (codes "discard")

unfoldable pub member : Text → List Text → Bool
member t ts = any (λ u. text_eq u t) ts

-- one pinned tool, after the names in `pins`
unfoldable pub pin_parts : List Text → Text → Option (Text × Text) → List NamespaceError
pin_parts servers name none = bad_pin name ∷ []
pin_parts servers name (some (server, tool)) =
    if is_empty tool
    then bad_pin name ∷ []
    else check (not (member server servers)) (pin_outside name)

unfoldable pub check_pins : List Text → List Text → List Text → List NamespaceError
unfolding pin_parts member check
check_pins servers pins [] = []
check_pins servers pins (name ∷ names) =
    pin_parts servers name (cut (codes "__") name)
    ++ check (member name pins) (pin_twice name)
    ++ check_pins servers (name ∷ pins) names

unfoldable pub check_servers : List Text → List Text → List NamespaceError
unfolding member check
check_servers known [] = []
check_servers known (s ∷ servers) =
    check (not (member s known)) (unknown_server s) ++ check_servers known servers

-- the body of the loop over the namespaces; `seen` are the names before
unfoldable pub check_namespace : List Text → List Text → NamespaceConfig → List NamespaceError
unfolding check_pins check_servers check member is_discovery is_negative is_name
check_namespace known seen ns =
    check (not (is_name ns.name)) bad_name
    ++ check (member ns.name seen) duplicate
    ++ check (is_negative ns.max_concurrent) negative_max
    ++ check (not (is_discovery ns.discovery)) bad_discovery
    ++ check (not (is_nil ns.pinned_tools) && not (text_eq ns.discovery (codes "hybrid")))
        pins_need_hybrid
    ++ check_pins ns.servers [] ns.pinned_tools
    ++ check (is_nil ns.servers) no_servers
    ++ check_servers known ns.servers

unfoldable pub tag_namespace : Text → List NamespaceError → List ConfigError
tag_namespace name [] = []
tag_namespace name (e ∷ es) = in_namespace name e ∷ tag_namespace name es

unfoldable pub check_namespaces : List Text → List Text → List NamespaceConfig → List ConfigError
unfolding check_namespace tag_namespace
check_namespaces known seen [] = []
check_namespaces known seen (ns ∷ nss) =
    tag_namespace ns.name (check_namespace known seen ns)
    ++ check_namespaces known (ns.name ∷ seen) nss

-- What the checks ask of url.Parse, of the PATH (exec.LookPath), and of a file (checkExecutable;
-- filepath.IsAbs).
pub record Host : Type 0 where
  pub parse_url : Text → Option Url
  pub is_abs : Text → Bool
  pub look_path : Text → Option Text
  pub is_executable : Text → Bool

module _ (host : Host) where
  team_origin : Option Url → Bool
  team_origin none = false
  team_origin (some u) =
      text_eq u.scheme (codes "https")
      && not (is_empty u.hostname)
      && not u.has_user
      && (is_empty u.path || text_eq u.path (codes "/"))
      && is_empty u.raw_query
      && not u.force_query
      && is_empty u.fragment

  -- CloudflareAccess.Validate, `true` for no error
  unfoldable pub is_cloudflare : CloudflareAccess → Bool
  unfolding team_origin
  is_cloudflare c =
      if is_empty c.team_domain && is_empty c.audience
      then true
      else not (is_empty c.team_domain || is_nil (trim_left c.audience))
        && team_origin (host.parse_url c.team_domain)

  is_server_url : Option Url → Bool
  is_server_url none = false
  is_server_url (some u) =
      (text_eq u.scheme (codes "http") || text_eq u.scheme (codes "https")) && not (is_empty u.host)

  unfoldable pub check_remote : UpstreamConfig → List UpstreamError
  unfolding is_server_url check
  check_remote srv =
      check (not (is_empty srv.command) || not (is_nil srv.args) || not (is_nil srv.env)) both_kinds
      ++ check (not (is_server_url (host.parse_url srv.url))) bad_url
      ++ check
          (not srv.oauth
            && (not (is_empty srv.oauth_client_id) || not (is_empty srv.oauth_client_secret_env)))
          client_needs_oauth
      ++ check
          (srv.oauth && not (is_empty srv.oauth_client_secret_env) && is_empty srv.oauth_client_id)
          secret_needs_client

  -- The command with its errors: a bare name is pinned to where the PATH has it.
  unfoldable pub pin_command : Text → Text × List UpstreamError
  unfolding check
  pin_command command =
      if is_empty command
      then (command, no_command ∷ [])
      else if host.is_abs command
      then (command, check (not (host.is_executable command)) not_executable)
      else elim (host.look_path command) [
        | none ↦ (command, not_in_path ∷ [])
        | some resolved ↦ (resolved, check (not (host.is_executable resolved)) not_executable)
      ]

  -- the body of the loop over the servers
  unfoldable pub check_upstream : Text → UpstreamConfig → UpstreamConfig × List UpstreamError
  unfolding is_name is_negative is_stderr_level check check_remote pin_command is_remote
  check_upstream name srv =
      let first =
        check (not (is_name name)) bad_server_name
        ++ check (is_negative srv.max_concurrent || is_negative srv.call_timeout) negative_limit
        ++ check (not (is_stderr_level srv.stderr_level)) bad_stderr_level in
      if is_remote srv then (srv, first ++ check_remote srv) else (
        record srv { command = (pin_command srv.command).0 },
        first
            ++ check srv.oauth oauth_needs_url
            ++ check (not (is_nil srv.headers)) headers_need_url
            ++ (pin_command srv.command).1,
      )

  tag_server : Text → List UpstreamError → List ConfigError
  tag_server name [] = []
  tag_server name (e ∷ es) = in_server name e ∷ tag_server name es

  unfoldable pub check_upstreams :
      List (Text × UpstreamConfig) → List (Text × UpstreamConfig) × List ConfigError
  unfolding check_upstream tag_server
  check_upstreams [] = ([], [])
  check_upstreams ((name, srv) ∷ servers) =
      let (out, errs) = check_upstream name srv in
      let (rest, more) = check_upstreams servers in
      ((name, out) ∷ rest, tag_server name errs ++ more)

  unfoldable pub check_auth : AuthConfig → List ConfigError
  unfolding check is_cloudflare
  check_auth a =
      check (is_empty a.issuer && is_empty a.static_token_env && is_empty a.cloudflare.team_domain)
        no_auth
      ++ check (not (is_empty a.static_token_env) && is_empty a.static_token) static_token_unset
      ++ check (not (is_cloudflare a.cloudflare)) auth_cloudflare
      ++ check
          (not (is_empty a.cloudflare.team_domain)
            && (not (is_empty a.issuer)
                || not (is_empty a.audience)
                || not (is_empty a.required_scope)
                || not (is_nil a.scopes)
                || not (is_empty a.static_token_env)))
          auth_exclusive

  unfoldable pub limits_ok : LimitsConfig → Bool
  unfolding is_negative
  limits_ok l = not (
      is_negative l.max_concurrent
      || is_negative l.per_namespace
      || is_negative l.per_server
      || is_negative l.call_timeout)

  -- `validate`: the configuration with its commands pinned, and the errors, none for success
  unfoldable pub validate : Config → Config × List ConfigError
  unfolding check_auth check_upstreams check_namespaces check limits_ok is_negative is_cloudflare
  validate c =
      let (servers, errs) = check_upstreams c.servers in
      (
        record c { servers = servers },
        check (is_empty c.server.public_url) no_public_url
            ++ check_auth c.auth
            ++ check (not (is_cloudflare c.ui_cloudflare)) ui_cloudflare
            ++ check (not (limits_ok c.limits)) limits_negative
            ++ check (is_negative c.breaker.failures || is_negative c.breaker.cooldown)
                breaker_negative
            ++ check (is_nil c.namespaces) no_namespace
            ++ check_namespaces (map (λ e. e.0) c.servers) [] c.namespaces
            ++ errs,
      )
