-- ===== src/Routes.antt =====
-- The HTTP routes of the gateway (cmd/gateway/routes.go, `newMux`; cmd/gateway/healthcheck.go), with
-- the middleware of internal/auth/auth.go and internal/auth/cloudflare.go in front of them.
pub mod Guarded
pub mod Reached
pub mod Metadata
pub mod Health
mod Tests
use rusty_gateway.Common.{
  ℕ, ◌≡◌, Bool, true, false, Option, none, some, List, [], ◌∷◌, ◌++◌, map, ◌==◌, if◌then◌else◌, All,
  In,
}
use rusty_gateway.Common.Text.{Text, codes, text_eq, is_empty}
use rusty_gateway.Common.Text.Search.{fields}
use rusty_gateway.Common.Mux.{
  Segment, lit, wild, Pattern, Routes, Routed, found, add_slash, method_not_allowed, not_found,
  route,
}
use rusty_gateway.Supervisor.{Status}
use rusty_gateway.Auth.{IdToken, TokenInfo, Authenticator, verify, required_scopes, verify_access}

pub data Endpoint : Type 0 where
  dashboard oauth_callback client_metadata start_login resource_metadata audit_log healthz :
      Endpoint
  -- the server of a namespace
  mcp : Text → Endpoint

abbrev pub of_segments : Text → List Segment → Bool → Pattern
of_segments method segments subtree = record {
  method = method;
  segments = segments;
  subtree = subtree;
}

unfoldable pub mcp_route : Text → Pattern × Endpoint
mcp_route ns = (of_segments [] (lit (codes "mcp") ∷ lit ns ∷ []) false, mcp ns)

-- the routes before the loop over the namespaces: `ui` and `oauth` tell what there is
unfoldable pub first_routes : Bool → Bool → Routes Endpoint
first_routes ui oauth =
    (if ui then (of_segments [] (lit (codes "ui") ∷ []) true, dashboard) ∷ [] else [])
    ++ (if oauth
        then (
          of_segments (codes "GET") (lit (codes "oauth") ∷ lit (codes "callback") ∷ []) false,
          oauth_callback,
        )
          ∷ (
            of_segments (codes "GET") (lit (codes "oauth") ∷ lit (codes "client.json") ∷ []) false,
            client_metadata,
          )
          ∷ (
            of_segments (codes "GET")
                (lit (codes "oauth")
                  ∷ lit (codes "upstream")
                  ∷ wild
                  ∷ wild
                  ∷ lit (codes "login")
                  ∷ [])
                false,
            start_login,
          )
          ∷ []
        else [])

abbrev pub well_known : List Segment
well_known = lit (codes ".well-known") ∷ lit (codes "oauth-protected-resource") ∷ []

-- and those after it
unfoldable pub last_routes : Bool → Routes Endpoint
last_routes log =
    (of_segments [] well_known false, resource_metadata)
    ∷ (of_segments [] well_known true, resource_metadata)
    ∷ (of_segments (codes "GET") (lit (codes "healthz") ∷ []) false, healthz)
    ∷ (if log
        then (of_segments (codes "GET") (lit (codes "audit") ∷ []) false, audit_log) ∷ []
        else [])

-- `newMux`
unfoldable pub new_mux : Bool → Bool → Bool → List Text → Routes Endpoint
unfolding first_routes mcp_route last_routes
new_mux ui oauth log namespaces =
    first_routes ui oauth ++ map mcp_route namespaces ++ last_routes log

-- the endpoints that stand behind authn.Middleware
unfoldable pub is_guarded : Endpoint → Bool
is_guarded dashboard = false
is_guarded oauth_callback = false
is_guarded client_metadata = false
is_guarded start_login = true
is_guarded resource_metadata = false
is_guarded audit_log = true
is_guarded healthz = false
is_guarded (mcp ns) = true

-- sdkauth.RequireBearerToken: what its handler makes of the Authorization header, with a verifier
-- and the scopes that it asks for; `none` for 401 or 403. It only lets in a request whose header is
-- a scheme and a token, when the verifier takes this very token and its scopes are all there.
pub record BearerCheck : Type 0 where
  pub require : (Text → Option TokenInfo) → List Text → Text → Option TokenInfo
  pub asks_verifier :
      (verifier : Text → Option TokenInfo) (scopes : List Text) (header : Text) (info : TokenInfo)
      → require verifier scopes header ≡ some info
      → (scheme : Text) × (token : Text) × (fields header ≡ scheme ∷ token ∷ [])
        × (verifier token ≡ some info)
        × All (λ s. In s info.scopes) scopes

pub record Request : Type 0 where
  pub method : Text
  pub path : List Text
  pub authorization : Text
  pub assertion : Text

pub data Reply : Type 0 where
  -- the handler runs, for this caller if it asks who calls
  handled : Endpoint → Option TokenInfo → Reply
  denied moved no_method no_route : Reply

module _ (check : BearerCheck) (a : Authenticator) (now : ℕ)
    (oidc access : Text → Option IdToken) where
  -- `Middleware`, and `cloudflareMiddleware` where there is an access verifier
  unfoldable pub middleware : Request → Option TokenInfo
  middleware r =
      if a.has_access
      then (if is_empty r.assertion
          then none
          else check.require (verify_access access) [] (codes "Bearer " ++ r.assertion))
      else check.require (λ token. verify a now (oidc token) token) (required_scopes a)
          r.authorization

  admit : Endpoint → Option TokenInfo → Reply
  admit e none = denied
  admit e (some info) = handled e (some info)

  unfoldable pub serve_endpoint : Routed Endpoint → Request → Reply
  unfolding admit
  serve_endpoint (found e) r = if is_guarded e then admit e (middleware r) else handled e none
  serve_endpoint add_slash r = moved
  serve_endpoint method_not_allowed r = no_method
  serve_endpoint not_found r = no_route

  unfoldable pub serve : Routes Endpoint → Request → Reply
  unfolding serve_endpoint
  serve routes r = serve_endpoint (route routes r.method r.path) r

-- the handler of GET /healthz: the loop over the statuses sets its code
unfoldable pub health_code : List Status → ℕ
health_code [] = 200
health_code (s ∷ statuses) =
    let rest = health_code statuses in if text_eq s.state (codes "failed") then 503 else rest

-- runHealthcheck: `none` is an error of the request; `true` is the exit without an error
unfoldable pub healthcheck : Option ℕ → Bool
healthcheck none = false
healthcheck (some code) = code == 200
