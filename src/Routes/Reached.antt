-- ===== src/Routes/Reached.antt =====
-- Where the requests for a namespace go (cmd/gateway/routes.go, `newMux`).
use rusty_gateway.Common.{
  ◌≡◌, refl, ap, ap₂, ◌∙◌, Bool, true, false, ◌&&◌, List, [], ◌∷◌, ◌++◌, map, In,
}
use mathlib.Core.List.{append-nil}
use rusty_gateway.Common.Text.{Text, codes, text_eq}
use rusty_gateway.Common.Mux.{
  Routes, found, route, candidates, best, path_matches, method_matches, route-exact,
}
use rusty_gateway.Common.Mux.Named.{candidates-append, Tells, best-named}
use rusty_gateway.Routes.{Endpoint, mcp, mcp_route, first_routes, last_routes, new_mux}

abbrev pub mcp_path : Text → List Text
mcp_path ns = codes "mcp" ∷ ns ∷ []

-- no other route has a path under /mcp/
first-none :
    (ui oauth : Bool) (method ns : Text)
    → candidates method (mcp_path ns) (first_routes ui oauth) ≡ []
unfolding first_routes candidates path_matches text_eq
first-none true true method ns = refl
first-none true false method ns = refl
first-none false true method ns = refl
first-none false false method ns = refl

last-none : (log : Bool) (method ns : Text) → candidates method (mcp_path ns) (last_routes log) ≡ []
unfolding last_routes candidates path_matches text_eq
last-none true method ns = refl
last-none false method ns = refl

mcp-Tells : (method ns : Text) (names : List Text) → Tells method (mcp_path ns) mcp_route ns names
unfolding mcp_route path_matches method_matches text_eq
mcp-Tells method ns [] = tt
mcp-Tells method ns (m ∷ names) = (same (text_eq m ns), mcp-Tells method ns names)
  where
    same : (b : Bool) → (b && true) && true ≡ b
    same true = refl
    same false = refl

-- With whatever else the mux serves: a request for /mcp/ and the name of a namespace, with any
-- method, goes to the MCP server of that namespace and to no other handler.
pub new_mux-mcp :
    (ui oauth log : Bool) (names : List Text) (method ns : Text)
    → In ns names
    → route (new_mux ui oauth log names) method (mcp_path ns) ≡ found (mcp ns)
unfolding new_mux mcp_route
new_mux-mcp ui oauth log names method ns i =
    route-exact (new_mux ui oauth log names) method (mcp_path ns) (mcp_route ns).0 (mcp ns)
      (ap best (
          candidates-append method (mcp_path ns) (first_routes ui oauth ++ map mcp_route names)
            (last_routes log)
          ∙ ap₂ (λ (a b : Routes Endpoint). a ++ b)
              (candidates-append method (mcp_path ns) (first_routes ui oauth) (map mcp_route names)
                ∙ rw (first-none ui oauth method ns) refl)
              (last-none log method ns)
          ∙ append-nil (candidates method (mcp_path ns) (map mcp_route names)))
        ∙ best-named method (mcp_path ns) mcp_route ns names (mcp-Tells method ns names) i)
      refl
