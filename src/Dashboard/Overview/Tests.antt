-- ===== src/Dashboard/Overview/Tests.antt =====
-- The links of the overview at a concrete table.
use rusty_gateway.Common.{
  refl, List, ◌⊎◌, inl, inr, if◌then◌else◌, lookup, ◌≡◌, false, none, some, [], ◌∷◌, Assoc,
}
use rusty_gateway.Common.Int.{pos}
use rusty_gateway.Common.Text.{Text, codes, text_eq}
use rusty_gateway.Supervisor.{Status}
use rusty_gateway.UpstreamAuth.{Entry, is_managed}
use rusty_gateway.Dashboard.Overview.{upstream_row, started_reply, oauth_login}
use rusty_gateway.Common.Mux.{found, route, segments_of, path_values}
use rusty_gateway.Gateway.Names.{upstream_id}
use rusty_gateway.Dashboard.Pages as Pages
use rusty_gateway.Dashboard.Pages.{page_routes}
use rusty_gateway.Dashboard.Overview.Reauth.{reauth_segments, reauth-starts}

abbrev entries : Assoc Entry
entries =
    (
      codes "me/x",
      record {
        handler = none;
        ready_closed = false;
        login_state = codes "s";
        login_url = codes "https://as";
        code = some none;
        stored = none;
      },
    )
    ∷ []

abbrev status : Status
status = record {
  id = codes "me/x";
  kind = codes "http";
  state = codes "needs_login";
  pid = 0;
  restarts = pos 0;
  tools = 0;
  error = [];
}

abbrev start_login : Text → Text ⊎ Text
start_login id =
    if text_eq id (codes "me/x") then inr (codes "https://as") else inl (codes "unknown")

reauth-starts_example :
    (path : List Text) × (segments_of (upstream_row [] (some entries) status).reauth_url ≡ path)
    × (route page_routes (codes "GET") path ≡ found Pages.oauth_login)
    × (oauth_login (some start_login) (path_values reauth_segments path)
        ≡ started_reply (start_login (codes "me/x")))
unfolding upstream_id is_managed lookup text_eq
reauth-starts_example =
    reauth-starts [] entries status (codes "me") (codes "x") start_login (refl, refl) (refl, refl)
      refl refl
