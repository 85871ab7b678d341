-- ===== src/Routes/Metadata.antt =====
-- The documents that tell a client how to get a token (internal/auth/auth.go, `MetadataHandler`).
pub mod Discovered
use rusty_gateway.Common.{Bool, true, false, List, [], ◌∷◌, ◌++◌, map, if◌then◌else◌}
use rusty_gateway.Common.Text.{Text, codes, is_empty}
use rusty_gateway.Common.Mux.{lit, Pattern, Routes, Routed, not_found, route, segments_of}
use rusty_gateway.Auth.{AuthSettings, Authenticator}

abbrev pub metadata_path : Text
metadata_path = codes "/.well-known/oauth-protected-resource"

-- ResourceMetadataURL of Middleware, which a caller who is refused is told
unfoldable pub metadata_url : Authenticator → Text → Text
metadata_url a resource = a.settings.public_url ++ metadata_path ++ resource

pub record Metadata : Type 0 where
  pub resource : Text
  pub bearer_methods : List Text
  pub resource_name : Text
  pub authorization_servers : List Text
  pub scopes_supported : List Text

-- the method `metadata`
unfoldable pub metadata : AuthSettings → Text → Metadata
metadata s resource = record {
  resource = s.public_url ++ resource;
  bearer_methods = codes "header" ∷ [];
  resource_name = codes "rusty-gateway" ++ resource;
  authorization_servers = if is_empty s.issuer then [] else s.issuer ∷ [];
  scopes_supported = s.scopes;
}

exact : Text → Pattern
exact path = record { method = []; segments = map lit (segments_of path); subtree = false }

unfoldable pub metadata_route : AuthSettings → Text → Pattern × Metadata
unfolding exact metadata
metadata_route s resource = (exact (metadata_path ++ resource), metadata s resource)

-- the mux of `MetadataHandler`
unfoldable pub metadata_routes : AuthSettings → Routes Metadata
unfolding metadata_route
metadata_routes s = metadata_route s [] ∷ map (metadata_route s) s.resources

unfoldable pub serve_metadata : Authenticator → Text → List Text → Routed Metadata
unfolding metadata_routes
serve_metadata a method path =
    if a.has_access then not_found else route (metadata_routes a.settings) method path
