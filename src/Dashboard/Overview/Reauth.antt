-- ===== src/Dashboard/Overview/Reauth.antt =====
-- Where the links of the overview that ask for a new authorization lead (internal/ui/ui.go,
-- `overviewData`, `Handler`, `oauthLogin`).
use rusty_gateway.Common.{
  ◌≡◌, refl, sym, ap, ◌∙◌, true, false, some, List, [], ◌∷◌, ◌++◌, Assoc, ◌⊎◌, append_assoc,
}
use rusty_gateway.Common.Text.{Text, codes, text_eq, is_empty}
use rusty_gateway.Common.Mux.{
  Segment, lit, wild, found, route, candidates, best, path_matches, path_values, segments_from,
  segments_of, route-exact,
}
use rusty_gateway.Common.Mux.Segments.{is_one_segment, segments_from-slash}
use rusty_gateway.Gateway.Breaker.{BreakerState}
use rusty_gateway.Gateway.Names.{upstream_id}
use rusty_gateway.Supervisor.{Status}
use rusty_gateway.UpstreamAuth.{Entry, is_managed}
use rusty_gateway.Dashboard.Pages as Pages
use rusty_gateway.Dashboard.Pages.{Page, page_routes}
use rusty_gateway.Dashboard.Overview.{reauth_of, upstream_row, started_reply, oauth_login}

-- a name as a namespace or a server has it
abbrev pub IsPlain : Text → Type 0
IsPlain name = (is_empty name ≡ false) × (is_one_segment name ≡ true)

abbrev pub reauth_segments : List Segment
reauth_segments = lit (codes "ui") ∷ lit (codes "oauth") ∷ wild ∷ wild ∷ lit (codes "login") ∷ []

abbrev reauth_path : Text → Text → List Text
reauth_path ns server = codes "ui" ∷ codes "oauth" ∷ ns ∷ server ∷ codes "login" ∷ []

link-segments :
    (ns server : Text)
    → IsPlain ns
    → IsPlain server
    → segments_of (codes "/ui/oauth/" ++ upstream_id ns server ++ codes "/login")
      ≡ reauth_path ns server
unfolding segments_of segments_from upstream_id
link-segments ns server n s =
    rw
      (
        append_assoc (ns ++ codes "/") server (codes "/login")
            ∙ append_assoc ns (codes "/") (server ++ codes "/login"),
        segments_from-slash ns (server ++ codes "/login") n.1,
        segments_from-slash server (codes "login") s.1,
      )
      refl

page-found :
    (ns server : Text)
    → IsPlain ns
    → IsPlain server
    → route page_routes (codes "GET") (reauth_path ns server) ≡ found Pages.oauth_login
unfolding page_routes candidates path_matches text_eq best
page-found ns server n s =
    route-exact page_routes (codes "GET") (reauth_path ns server)
      (record { method = codes "GET"; segments = reauth_segments; subtree = false })
      Pages.oauth_login (rw (n.0, s.0) refl) refl

-- For an OAuth upstream of a namespace and a server with names that are not empty and have no slash:
-- the link in its row of the overview is that of the page which starts logins, and that page starts
-- the login of this upstream and of no other.
pub reauth-starts :
    (breakers : Assoc BreakerState) (entries : Assoc Entry) (st : Status) (ns server : Text)
    (start_login : Text → Text ⊎ Text)
    → IsPlain ns
    → IsPlain server
    → st.id ≡ upstream_id ns server
    → is_managed st.id entries ≡ true
    → (path : List Text) × (segments_of (upstream_row breakers (some entries) st).reauth_url ≡ path)
      × (route page_routes (codes "GET") path ≡ found Pages.oauth_login)
      × (oauth_login (some start_login) (path_values reauth_segments path)
          ≡ started_reply (start_login st.id))
unfolding upstream_row reauth_of oauth_login path_values upstream_id
reauth-starts breakers entries st ns server start_login n s same managed = (
  reauth_path ns server,
  rw managed (rw same (link-segments ns server n s)),
  page-found ns server n s,
  ap (λ id. started_reply (start_login id)) (id_of ns server ∙ sym same),
)
  where
    id_of : (ns server : Text) → ns ++ codes "/" ++ server ≡ upstream_id ns server
    id_of ns server = refl
