-- ===== src/Wiring/Start.antt =====
-- What cmd/gateway/main.go makes of the configuration for authentication and the dashboard
-- (internal/auth/auth.go, internal/auth/cloudflare.go, internal/ui/ui.go).
pub mod Accepted
pub mod Discovered
use rusty_gateway.Common.{
  Bool, true, false, not, Option, none, some, List, [], ◌∷◌, ◌++◌, ◌&&◌, map, if◌then◌else◌,
}
use rusty_gateway.Common.Text.{Text, codes, is_empty}
use rusty_gateway.Config.{CloudflareAccess, NamespaceConfig, Config}
use rusty_gateway.Config.Validate.{Host, is_cloudflare}
use rusty_gateway.Auth.{AuthSettings, NewReply, new_authenticator}
use rusty_gateway.Dashboard.Pages.{Desk, new_desk}

unfoldable pub resources_of : List NamespaceConfig → List Text
resources_of nss = map (λ ns. codes "/mcp/" ++ ns.name) nss

-- the Config of auth.New
unfoldable pub auth_settings : Config → AuthSettings
unfolding resources_of
auth_settings c = record {
  public_url = c.server.public_url;
  issuer = c.auth.issuer;
  audience = c.auth.audience;
  required_scope = c.auth.required_scope;
  scopes = c.auth.scopes;
  static_token = c.auth.static_token;
  resources = resources_of c.namespaces;
  cloudflare = c.auth.cloudflare;
}

-- the call of auth.New; `discovers` tells whether the issuer is found
unfoldable pub start_auth : Host → Bool → Config → NewReply
unfolding auth_settings
start_auth host discovers c =
    new_authenticator (is_cloudflare host c.auth.cloudflare) discovers (auth_settings c)

-- NewCloudflareVerifier: `none` for an error, and else whether there is a verifier
unfoldable pub access_verifier : Host → CloudflareAccess → Option Bool
access_verifier host access =
    if is_cloudflare host access then some (not (is_empty access.team_domain)) else none

pub data Dash : Type 0 where
  -- switched off, nobody could sign in, and an error of ui.New
  off no_sign_in failed : Dash
  serving : Desk → Dash

dash_of : Option Desk → Dash
dash_of none = failed
dash_of (some desk) = serving desk

-- the switch for the dashboard; `on` is cfg.UI.On()
unfoldable pub start_dash : Host → Bool → Config → Dash
unfolding access_verifier dash_of
start_dash host on c =
    if not on
    then off
    else if is_empty c.auth.static_token && is_empty c.ui_cloudflare.team_domain
    then no_sign_in
    else dash_of (new_desk c.auth.static_token (access_verifier host c.ui_cloudflare))
