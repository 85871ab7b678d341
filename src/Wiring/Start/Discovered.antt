-- ===== src/Wiring/Start/Discovered.antt =====
-- Whether clients of an accepted configuration find the metadata of its namespaces
-- (cmd/gateway/main.go, cmd/gateway/routes.go, internal/auth/auth.go).
use rusty_gateway.Common.{
  ◌≡◌, refl, sym, ap, subst, ◌∙◌, Bool, true, false, List, [], ◌∷◌, ◌++◌, map, all, In, All, inl,
  inr, In-map, append_assoc, arith,
}
use rusty_gateway.Common.Text.{Text, codes}
use rusty_gateway.Common.Mux.{found, route, segments_of}
use rusty_gateway.Common.Mux.Segments.{is_one_segment}
use rusty_gateway.Config.{NamespaceConfig, Config}
use rusty_gateway.Config.Validate.{Host, validate, is_name, name_first, name_byte, is_cloudflare}
use rusty_gateway.Config.Validate.Accepted.{validate-Accepted, accepted-named}
use rusty_gateway.Auth.{AuthSettings, Authenticator, authenticator, new_authenticator}
use rusty_gateway.Routes.{resource_metadata, new_mux}
use rusty_gateway.Routes.Metadata.{metadata_path, metadata_url, Metadata, metadata, serve_metadata}
use rusty_gateway.Routes.Metadata.Discovered.{mcp_resource, metadata-discovered}
use rusty_gateway.Wiring.Found.{same-namespaces}
use rusty_gateway.Wiring.Start.{resources_of, auth_settings, start_auth}

bytes-one_segment : (s : Text) → all name_byte s ≡ true → is_one_segment s ≡ true
unfolding name_byte name_first
bytes-one_segment [] h = refl
bytes-one_segment (c ∷ s) h = ground (arith, bytes-one_segment s)

name-one_segment : (s : Text) → is_name s ≡ true → is_one_segment s ≡ true
unfolding is_name name_first
name-one_segment [] h = refl
name-one_segment (c ∷ s) h = ground (arith, bytes-one_segment s)

abbrev pub names_of : List NamespaceConfig → List Text
names_of nss = map (λ n. n.name) nss

namespaces-one_segment :
    (nss : List NamespaceConfig)
    → ((n : NamespaceConfig) → In n nss → is_name n.name ≡ true)
    → All (λ m. is_one_segment m ≡ true) (names_of nss)
namespaces-one_segment [] h = tt
namespaces-one_segment (n ∷ nss) h =
    (name-one_segment n.name (h n (inl refl)), namespaces-one_segment nss (λ m i. h m (inr i)))

resources-names : (nss : List NamespaceConfig) → resources_of nss ≡ map mcp_resource (names_of nss)
unfolding resources_of
resources-names [] = refl
resources-names (n ∷ nss) = ap (λ rs. mcp_resource n.name ∷ rs) (resources-names nss)

-- `New` keeps its settings
authenticator-settings :
    (ok discovers : Bool) (s : AuthSettings) (a : Authenticator)
    → new_authenticator ok discovers s ≡ authenticator a
    → a.settings ≡ s
unfolding new_authenticator
authenticator-settings ok discovers s a h = ground (arith, h)

-- For a configuration that `validate` accepts, and as it leaves it, with an authenticator of auth.New
-- that is not behind Cloudflare Access: the URL that Middleware tells a caller whom it refuses at a
-- namespace is that of a path under the public URL which the mux hands to MetadataHandler, for any
-- method, and there it is served by the document whose resource is the URL of that namespace.
pub accepted-metadata :
    (host : Host) (c out : Config) (discovers ui oauth log : Bool) (a : Authenticator)
    (n : NamespaceConfig) (method : Text)
    → validate host c ≡ (out, [])
    → start_auth host discovers out ≡ authenticator a
    → a.has_access ≡ false
    → In n out.namespaces
    → (path : Text) × (metadata_url a (mcp_resource n.name) ≡ out.server.public_url ++ path)
      × (route (new_mux ui oauth log (names_of out.namespaces)) method (segments_of path)
          ≡ found resource_metadata)
      × ((document : Metadata) × (serve_metadata a method (segments_of path) ≡ found document)
          × (document.resource ≡ out.server.public_url ++ (codes "/mcp/" ++ n.name)))
unfolding metadata_url metadata start_auth auth_settings
accepted-metadata host c out discovers ui oauth log a n method accepted made off i =
    let settings =
      authenticator-settings (is_cloudflare host out.auth.cloudflare) discovers (auth_settings out)
        a made in
    let same = same-namespaces host c out accepted in
    let valid = (validate-Accepted host c (ap (λ r. r.1) accepted)).3 in
    let named = λ (m : NamespaceConfig) (j : In m out.namespaces).
      accepted-named (map (λ e. e.0) c.servers) [] c.namespaces m valid
        (subst (In m) (sym same) j) in
    let (at, served) =
      metadata-discovered a ui oauth log (names_of out.namespaces) method n.name off
        (ap (λ s. s.resources) settings ∙ resources-names out.namespaces)
        (namespaces-one_segment out.namespaces named) (In-map (λ m. m.name) n out.namespaces i) in
    (
      metadata_path ++ mcp_resource n.name,
      ap (λ s. s.public_url ++ metadata_path ++ mcp_resource n.name) settings
          ∙ append_assoc out.server.public_url metadata_path (mcp_resource n.name),
      at,
      (
        metadata a.settings (mcp_resource n.name),
        served,
        ap (λ s. s.public_url ++ mcp_resource n.name) settings,
      ),
    )
