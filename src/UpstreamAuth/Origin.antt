-- ===== src/UpstreamAuth/Origin.antt =====
-- The headers for the upstream's own origin, and the documents that the manager serves
-- (internal/upstreamauth/manager.go: `upstreamClient`, `RoundTrip`, `clientMetadata`,
-- `ClientMetadataHandler`, `LoginPath`). url.Parse and the canonical form of a header's name are
-- parameters.
pub mod Kept
mod Tests
use rusty_gateway.Common.{
  Bool, true, false, Option, none, some, List, [], ◌∷◌, ◌++◌, ◌&&◌, ◌||◌, is_nil, Assoc, insert,
  if◌then◌else◌,
}
use rusty_gateway.Common.Text.{Text, codes, text_eq}

-- the scheme and the host of a URL
pub record Origin : Type 0 where
  pub scheme : Text
  pub host : Text

pub record HttpRequest : Type 0 where
  pub origin : Origin
  -- the rest of the request
  pub rest : Text
  -- a value for each canonical name
  pub headers : Assoc Text

-- `upstreamClient`: with no headers, or a URL that does not parse, the base client is taken
unfoldable pub header_origin : Option Origin → List (Text × Text) → Option Origin
header_origin none headers = none
header_origin (some o) headers = if is_nil headers then none else some o

same_origin : Origin → Origin → Bool
same_origin a b = text_eq a.scheme b.scheme && text_eq a.host b.host

module _ (canonical : Text → Text) where
  -- r.Header.Set(k, v) for one entry of the map after the other
  unfoldable pub set_headers : List (Text × Text) → Assoc Text → Assoc Text
  set_headers [] headers = headers
  set_headers ((k, v) ∷ more) headers = set_headers more (insert (canonical k) v headers)

  -- the request that `RoundTrip` passes on
  unfoldable pub round_trip : Origin → List (Text × Text) → HttpRequest → HttpRequest
  unfolding same_origin set_headers
  round_trip o headers r =
      if same_origin r.origin o then record r { headers = set_headers headers r.headers } else r

  -- what the client of an upstream passes on
  unfoldable pub send : Option Origin → List (Text × Text) → HttpRequest → HttpRequest
  unfolding round_trip
  send none headers r = r
  send (some o) headers r = round_trip o headers r

abbrev callback_path : Text
callback_path = codes "/oauth/callback"

abbrev client_metadata_path : Text
client_metadata_path = codes "/oauth/client.json"

unfoldable pub login_path : Text → Text
login_path id = codes "/oauth/upstream/" ++ id ++ codes "/login"

-- the document of ClientMetadataHandler
pub record ClientMetadata : Type 0 where
  pub client_id : Text
  pub client_name : Text
  pub client_uri : Text
  pub redirect_uris : List Text
  pub grant_types : List Text
  pub response_types : List Text
  pub token_endpoint_auth_method : Text

unfoldable pub client_metadata : Text → ClientMetadata
client_metadata public_url = record {
  client_id = public_url ++ client_metadata_path;
  client_name = codes "rusty-gateway";
  client_uri = public_url;
  redirect_uris = (public_url ++ callback_path) ∷ [];
  grant_types = codes "authorization_code" ∷ codes "refresh_token" ∷ [];
  response_types = codes "code" ∷ [];
  token_endpoint_auth_method = codes "none";
}
