-- ===== src/Dashboard/Pages/Tests.antt =====
-- The theorems about the pages at concrete requests.
use rusty_gateway.Common.{◌≡◌, refl, true, false, Bool, some, [], ◌∷◌, ◌⊎◌, arith}
use rusty_gateway.Common.Text.{Text, codes, text_eq}
use rusty_gateway.Common.Mux.{route, found, method_not_allowed, add_slash}
use rusty_gateway.Dashboard.Pages.{
  Desk, new_desk, Request, page, overview, signed_in, unauthorized, sign_in, serve_ui, desk_routes,
  page_routes, oauth_login, static_files,
}
use rusty_gateway.Dashboard.Pages.Guarded.{
  is_secret, ByAccess, BySession, serve_ui-Guarded, sign_in-serve_ui,
}

abbrev sign : Text → Text
sign body = codes "ab"

abbrev nobody : Text → Bool
nobody assertion = false

abbrev desk : Desk
desk = record { token = codes "secret"; has_access = false }

desk-new : new_desk (codes "secret") (some false) ≡ some desk
unfolding new_desk
desk-new = refl

abbrev request : Request
request = record {
  method = codes "GET";
  path = codes "ui" ∷ [] ∷ [];
  cookie = some (codes "9.0f.ab");
  assertion = [];
  form_token = codes "secret";
  is_https = true;
}

serve_ui-Guarded_example :
    ((desk.has_access ≡ true)
      × ((serve_ui sign nobody desk 5 (codes "0f") request ≡ unauthorized)
          ⊎ ByAccess sign nobody desk 5 (codes "0f") request))
    ⊎ ((desk.has_access ≡ false)
        × ((is_secret (serve_ui sign nobody desk 5 (codes "0f") request) ≡ false)
            ⊎ BySession sign nobody desk 5
                (codes "0f")
                request
                (serve_ui sign nobody desk 5 (codes "0f") request)))
serve_ui-Guarded_example = serve_ui-Guarded sign nobody desk 5 (codes "0f") request

sign_in-serve_ui_example :
    (cookie : Text) × (sign_in sign nobody desk 5 (codes "0f") request ≡ signed_in cookie true)
    × (serve_ui sign nobody desk 7 (codes "0f") (record request { cookie = some cookie })
        ≡ page overview)
sign_in-serve_ui_example =
    sign_in-serve_ui sign nobody desk 5 (codes "0f") request request 7 (λ body. refl) (omega arith)
      refl refl refl refl refl

login-route :
    route page_routes
      (codes "HEAD")
      (codes "ui" ∷ codes "oauth" ∷ codes "me" ∷ codes "hevy" ∷ codes "login" ∷ [])
    ≡ found oauth_login
unfolding page_routes route text_eq
login-route = refl

wrong-method :
    route page_routes (codes "POST") (codes "ui" ∷ codes "tools" ∷ []) ≡ method_not_allowed
unfolding page_routes route text_eq
wrong-method = refl

static-route :
    route (desk_routes true) (codes "GET") (codes "ui" ∷ codes "static" ∷ codes "a.css" ∷ [])
    ≡ found static_files
unfolding desk_routes route text_eq
static-route = refl

static-slash : route (desk_routes true) (codes "GET") (codes "ui" ∷ codes "static" ∷ []) ≡ add_slash
unfolding desk_routes route text_eq
static-slash = refl
