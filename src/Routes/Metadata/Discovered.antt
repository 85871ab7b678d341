-- ===== src/Routes/Metadata/Discovered.antt =====
-- Whether the metadata of a namespace is found where Middleware says that it is
-- (cmd/gateway/routes.go, internal/auth/auth.go).
use rusty_gateway.Common.{
  ◌≡◌, refl, ap, ap₂, ◌∙◌, Bool, true, false, ◌&&◌, List, [], ◌∷◌, ◌++◌, map, In, All, All-lookup,
}
use rusty_gateway.Common.Text.{Text, codes, text_eq}
use rusty_gateway.Common.Mux.{
  Pattern, Routes, found, route, candidates, best, path_matches, method_matches, route-exact,
  route-inside, segments_from, segments_of,
}
use rusty_gateway.Common.Mux.Segments.{is_one_segment, segments_from-one}
use rusty_gateway.Common.Mux.Named.{candidates-append, Tells, best-named}
use rusty_gateway.Auth.{AuthSettings, Authenticator}
use rusty_gateway.Routes.{
  Endpoint, resource_metadata, of_segments, well_known, mcp_route, first_routes, last_routes,
  new_mux,
}
use rusty_gateway.Routes.Metadata.{
  metadata_path, Metadata, metadata, exact, metadata_route, metadata_routes, serve_metadata,
}

-- the path under .well-known for two more segments
abbrev metadata_at : Text → Text → List Text → List Text
metadata_at s t rest = codes ".well-known" ∷ codes "oauth-protected-resource" ∷ s ∷ t ∷ rest

resource-segments :
    (name : Text)
    → is_one_segment name ≡ true
    → segments_of (metadata_path ++ codes "/mcp/" ++ name) ≡ metadata_at (codes "mcp") name []
unfolding segments_of segments_from
resource-segments name h = rw (segments_from-one name h) refl

module _ (method : Text) (s t : Text) (rest : List Text) where
  first-none :
      (ui oauth : Bool) → candidates method (metadata_at s t rest) (first_routes ui oauth) ≡ []
  unfolding first_routes candidates path_matches text_eq
  first-none true true = refl
  first-none true false = refl
  first-none false true = refl
  first-none false false = refl

  mcp-none :
      (names : List Text) → candidates method (metadata_at s t rest) (map mcp_route names) ≡ []
  unfolding candidates mcp_route path_matches text_eq
  mcp-none [] = refl
  mcp-none (n ∷ names) = mcp-none names

  last-subtree :
      (log : Bool)
      → candidates method (metadata_at s t rest) (last_routes log)
        ≡ (of_segments [] well_known true, resource_metadata) ∷ []
  unfolding last_routes candidates path_matches text_eq method_matches
  last-subtree true = refl
  last-subtree false = refl

  mux-subtree :
      (ui oauth log : Bool) (names : List Text)
      → candidates method (metadata_at s t rest) (new_mux ui oauth log names)
        ≡ (of_segments [] well_known true, resource_metadata) ∷ []
  unfolding new_mux
  mux-subtree ui oauth log names =
      candidates-append method (metadata_at s t rest) (first_routes ui oauth ++ map mcp_route names)
        (last_routes log)
      ∙ ap₂ (λ (a b : Routes Endpoint). a ++ b)
          (candidates-append method (metadata_at s t rest) (first_routes ui oauth)
              (map mcp_route names)
            ∙ ap₂ (λ (a b : Routes Endpoint). a ++ b) (first-none ui oauth) (mcp-none names))
          (last-subtree log)

mux-metadata :
    (ui oauth log : Bool) (names : List Text) (method s t : Text)
    → route (new_mux ui oauth log names) method (metadata_at s t []) ≡ found resource_metadata
unfolding best
mux-metadata ui oauth log names method s t =
    route-inside (new_mux ui oauth log names) method (metadata_at s t [])
      (of_segments [] well_known true) resource_metadata
      (ap best (mux-subtree method s t [] ui oauth log names))
      (ap best (mux-subtree method s t ([] ∷ []) ui oauth log names)) refl

abbrev pub mcp_resource : Text → Text
mcp_resource name = codes "/mcp/" ++ name

module _ (s : AuthSettings) (method name : Text) where
  abbrev document_route : Text → Pattern × Metadata
  document_route m = metadata_route s (mcp_resource m)

  document-Tells :
      (names : List Text)
      → All (λ m. is_one_segment m ≡ true) names
      → Tells method (metadata_at (codes "mcp") name []) document_route name names
  unfolding metadata_route exact path_matches method_matches text_eq
  document-Tells [] h = tt
  document-Tells (m ∷ names) h =
      (rw (resource-segments m h.0) (same (text_eq m name)), document-Tells names h.1)
    where
      same : (b : Bool) → (b && true) && true ≡ b
      same true = refl
      same false = refl

  map-resources :
      (names : List Text)
      → map (metadata_route s) (map mcp_resource names) ≡ map document_route names
  map-resources [] = refl
  map-resources (m ∷ names) = ap (λ rs. document_route m ∷ rs) (map-resources names)

  document-found :
      (names : List Text)
      → s.resources ≡ map mcp_resource names
      → All (λ m. is_one_segment m ≡ true) names
      → In name names
      → route (metadata_routes s) method (metadata_at (codes "mcp") name [])
        ≡ found (metadata s (mcp_resource name))
  unfolding metadata_routes candidates metadata_route path_matches text_eq segments_of segments_from
  document-found names same h i =
      route-exact (metadata_routes s) method (metadata_at (codes "mcp") name [])
        (document_route name).0 (metadata s (mcp_resource name))
        (rw (same, map-resources names)
          (best-named method (metadata_at (codes "mcp") name []) document_route name names
            (document-Tells names h) i))
        refl

-- Without Cloudflare Access, for an authenticator that has a resource for each of these names of
-- namespaces: the path that Middleware tells a caller whom it refuses at such a namespace is served
-- by MetadataHandler, and there by the document of that namespace.
pub metadata-discovered :
    (a : Authenticator) (ui oauth log : Bool) (names : List Text) (method name : Text)
    → a.has_access ≡ false
    → a.settings.resources ≡ map mcp_resource names
    → All (λ m. is_one_segment m ≡ true) names
    → In name names
    → (route (new_mux ui oauth log names) method (segments_of (metadata_path ++ mcp_resource name))
        ≡ found resource_metadata)
      × (serve_metadata a method (segments_of (metadata_path ++ mcp_resource name))
          ≡ found (metadata a.settings (mcp_resource name)))
unfolding serve_metadata
metadata-discovered a ui oauth log names method name off same h i =
    rw (resource-segments name (All-lookup (λ m. is_one_segment m ≡ true) name names h i), off)
      (
        mux-metadata ui oauth log names method (codes "mcp") name,
        document-found a.settings method name names same h i,
      )
