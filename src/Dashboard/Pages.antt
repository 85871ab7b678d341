-- ===== src/Dashboard/Pages.antt =====
-- Who gets which page of the dashboard (internal/ui/ui.go: `New`, `Handler`, `auth`,
-- `cloudflareAuth`, `loginPage`, `login`, `logout`). What a page shows is not modelled here. `sign`
-- and `access` are parameters: the HMAC, and whether the oidc verifier takes an assertion.
pub mod Guarded
mod Tests
use rusty_gateway.Common.{
  ℕ, Bool, true, false, Option, none, some, List, [], ◌∷◌, ◌++◌, ◌&&◌, ◌||◌, not, if◌then◌else◌,
}
use rusty_gateway.Common.Text.{Text, codes, text_eq, is_empty}
use rusty_gateway.Common.Text.Search.{has_prefix, join}
use rusty_gateway.Common.Mux.{
  Segment, lit, wild, Pattern, Routes, Routed, found, add_slash, method_not_allowed, not_found,
  route,
}
use rusty_gateway.Dashboard.{new_session, valid_session}

pub data Page : Type 0 where
  overview overview_events oauth_login tools_page tools_list audit_page audit_rows : Page

-- the handlers of the outer mux
pub data Endpoint : Type 0 where
  static_files login_page log_out log_in pages : Endpoint

-- `has_access`: there is a verifier for Cloudflare Access
pub record Desk : Type 0 where
  pub token : Text
  pub has_access : Bool

-- `New`: `access_ok` is none where NewCloudflareVerifier refuses the settings, and else whether it
-- gave a verifier
unfoldable pub new_desk : Text → Option Bool → Option Desk
new_desk token none = none
new_desk token (some has_access) =
    if is_empty token && not has_access
    then none
    else some (record { token = token; has_access = has_access })

get : List Segment → Pattern
get segments = record { method = codes "GET"; segments = segments; subtree = false }

abbrev ui : Segment
ui = lit (codes "ui")

unfoldable pub page_routes : Routes Page
unfolding get
page_routes =
    (get (ui ∷ lit [] ∷ []), overview)
    ∷ (get (ui ∷ lit (codes "events") ∷ lit (codes "overview") ∷ []), overview_events)
    ∷ (get (ui ∷ lit (codes "oauth") ∷ wild ∷ wild ∷ lit (codes "login") ∷ []), oauth_login)
    ∷ (get (ui ∷ lit (codes "tools") ∷ []), tools_page)
    ∷ (get (ui ∷ lit (codes "tools") ∷ lit (codes "list") ∷ []), tools_list)
    ∷ (get (ui ∷ lit (codes "audit") ∷ []), audit_page)
    ∷ (get (ui ∷ lit (codes "audit") ∷ lit (codes "rows") ∷ []), audit_rows)
    ∷ []

post : Text → Pattern
post name = record { method = codes "POST"; segments = ui ∷ lit name ∷ []; subtree = false }

unfoldable pub desk_routes : Bool → Routes Endpoint
unfolding get post
desk_routes has_access =
    (
      record { method = codes "GET"; segments = ui ∷ lit (codes "static") ∷ []; subtree = true },
      static_files,
    )
    ∷ (get (ui ∷ lit (codes "login") ∷ []), login_page)
    ∷ (post (codes "logout"), log_out)
    ∷ (record { method = []; segments = ui ∷ []; subtree = true }, pages)
    ∷ (if has_access then [] else (post (codes "login"), log_in) ∷ [])

-- A request under /ui/: the path as its segments, the session cookie, the header of Cloudflare, and
-- the token in the form.
pub record Request : Type 0 where
  pub method : Text
  pub path : List Text
  pub cookie : Option Text
  pub assertion : Text
  pub form_token : Text
  -- r.TLS != nil || X-Forwarded-Proto is https
  pub is_https : Bool

pub data Reply : Type 0 where
  -- the handler of the page runs
  page : Page → Reply
  static_file : Reply
  -- the form, with an error or not
  login_form : Bool → Reply
  -- a cookie with its Secure flag, and the way to the overview
  signed_in : Text → Bool → Reply
  -- the cookie is cleared
  signed_out : Reply
  see_other : Text → Reply
  unauthorized : Reply
  -- what a mux answers by itself
  moved_to_slash no_method no_page : Reply

serve_page : Routed Page → Reply
serve_page (found p) = page p
serve_page add_slash = moved_to_slash
serve_page method_not_allowed = no_method
serve_page not_found = no_page

unfoldable pub serve_pages : Request → Reply
unfolding serve_page
serve_pages r = serve_page (route page_routes r.method r.path)

abbrev rooted : List Text → Text
rooted path = codes "/" ++ join (codes "/") path

-- the prefixes that `auth` answers by 401
is_stream : Text → Bool
is_stream path =
    has_prefix (codes "/ui/events/") path
    || has_prefix (codes "/ui/tools/list") path
    || has_prefix (codes "/ui/audit/rows") path

has_session : (Text → Text) → ℕ → Option Text → Bool
has_session sign now none = false
has_session sign now (some cookie) = valid_session sign now cookie

module _ (sign : Text → Text) (access : Text → Bool) (desk : Desk) (now : ℕ) (nonce : Text) where
  -- `auth`
  unfoldable pub with_session : Request → Reply
  unfolding has_session is_stream serve_pages
  with_session r =
      if has_session sign now r.cookie
      then serve_pages r
      else if is_stream (rooted r.path)
      then unauthorized
      else see_other (codes "/ui/login")

  -- `login`
  unfoldable pub sign_in : Request → Reply
  sign_in r =
      if text_eq r.form_token desk.token
      then signed_in (new_session sign now nonce) r.is_https
      else login_form true

  serve_endpoint : Routed Endpoint → Request → Reply
  unfolding with_session sign_in serve_pages
  serve_endpoint (found static_files) r = static_file
  serve_endpoint (found login_page) r =
      if desk.has_access then see_other (codes "/ui/") else login_form false
  serve_endpoint (found log_out) r =
      if desk.has_access then see_other (codes "/cdn-cgi/access/logout") else signed_out
  serve_endpoint (found log_in) r = sign_in r
  serve_endpoint (found pages) r = if desk.has_access then serve_pages r else with_session r
  serve_endpoint add_slash r = moved_to_slash
  serve_endpoint method_not_allowed r = no_method
  serve_endpoint not_found r = no_page

  -- the mux that `Handler` makes
  unfoldable pub serve_desk : Request → Reply
  unfolding serve_endpoint
  serve_desk r = serve_endpoint (route (desk_routes desk.has_access) r.method r.path) r

  -- `Handler`, with `cloudflareAuth` around the mux where there is a verifier
  unfoldable pub serve_ui : Request → Reply
  unfolding serve_desk
  serve_ui r =
      if desk.has_access
      then (if is_empty r.assertion || not (access r.assertion) then unauthorized else serve_desk r)
      else serve_desk r
