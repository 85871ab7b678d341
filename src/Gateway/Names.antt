-- ===== src/Gateway/Names.antt =====
-- Names of tools and upstreams (internal/gateway/gateway.go: Separator, UpstreamID).
pub mod Cutting
use rusty_gateway.Common.{[], ◌∷◌, ◌++◌}
use rusty_gateway.Common.Text.{Text, codes}

abbrev pub separator : Text
separator = codes "__"

-- srvName + Separator + t.Name
unfoldable pub prefixed : Text → Text → Text
prefixed server tool = server ++ separator ++ tool

-- namespace + "/" + server
unfoldable pub upstream_id : Text → Text → Text
upstream_id namespace server = namespace ++ codes "/" ++ server
