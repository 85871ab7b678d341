-- ===== src/Dashboard/Pages/Guarded.antt =====
-- Nobody gets a page of the dashboard without signing in (internal/ui/ui.go, `Handler`).
use rusty_gateway.Common.{
  ℕ, ◌+◌, ◌≤◌, ◌≡◌, refl, sym, ap, subst, Bool, true, false, Option, none, some, [], ◌∷◌, ◌||◌, not,
  ◌⊎◌, inl, inr, arith, if◌then◌else◌, Bool-cases, ltb,
}
use rusty_gateway.Common.Int.{max_int}
use rusty_gateway.Common.Text.{Text, codes, text_eq, text_eq_sound, text_eq_refl, is_empty}
use rusty_gateway.Common.Mux.{Routed, found, add_slash, method_not_allowed, not_found, route}
use rusty_gateway.Dashboard.{session_ttl, new_session}
use rusty_gateway.Dashboard.Sessions.{
  Signed, valid_session-Signed, valid_session-new_session, has_no_dot,
}
use rusty_gateway.Dashboard.Pages.{
  Page, overview, Endpoint, static_files, login_page, log_out, log_in, pages, Desk, desk_routes,
  page_routes, Request, Reply, page, static_file, login_form, signed_in, signed_out, see_other,
  unauthorized, moved_to_slash, no_method, no_page, serve_page, serve_pages, has_session,
  with_session, sign_in, serve_endpoint, serve_desk, serve_ui,
}

-- a reply that only someone who has signed in may get, or that signs someone in
abbrev pub is_secret : Reply → Bool
is_secret (page p) = true
is_secret (signed_in c secure) = true
is_secret static_file = false
is_secret (login_form wrong) = false
is_secret signed_out = false
is_secret (see_other to) = false
is_secret unauthorized = false
is_secret moved_to_slash = false
is_secret no_method = false
is_secret no_page = false

overview_route : route page_routes (codes "GET") (codes "ui" ∷ [] ∷ []) ≡ found overview
unfolding page_routes route text_eq
overview_route = refl

pages_route : route (desk_routes false) (codes "GET") (codes "ui" ∷ [] ∷ []) ≡ found pages
unfolding desk_routes route text_eq
pages_route = refl

module _ (sign : Text → Text) (access : Text → Bool) (desk : Desk) (now : ℕ) (nonce : Text) where
  -- A session cookie that is signed and has not expired; or the token of the desk, to get one.
  abbrev pub BySession : Request → Reply → Type 0
  BySession r (signed_in c secure) =
      (r.form_token ≡ desk.token) × (c ≡ new_session sign now nonce) × (secure ≡ r.is_https)
  BySession r _ = (cookie : Text) × (r.cookie ≡ some cookie) × Signed sign now cookie

  -- the assertion of Cloudflare Access, which the verifier takes
  abbrev pub ByAccess : Request → Type 0
  ByAccess r = (is_empty r.assertion ≡ false) × (access r.assertion ≡ true)

  -- the pages' mux signs nobody in
  pages-page :
      (r : Request) → ((p : Page) × (serve_pages r ≡ page p)) ⊎ (is_secret (serve_pages r) ≡ false)
  unfolding serve_pages
  pages-page r = cases (route page_routes r.method r.path)
    where
      cases :
          (o : Routed Page)
          → ((p : Page) × (serve_page o ≡ page p)) ⊎ (is_secret (serve_page o) ≡ false)
      cases (found p) = inl (p, unfold serve_page in refl)
      cases add_slash = inr (unfold serve_page in refl)
      cases method_not_allowed = inr (unfold serve_page in refl)
      cases not_found = inr (unfold serve_page in refl)

  session-Signed :
      (c : Option Text)
      → has_session sign now c ≡ true
      → (cookie : Text) × (c ≡ some cookie) × Signed sign now cookie
  unfolding has_session
  session-Signed none h = absurd (cc)
  session-Signed (some cookie) h = (cookie, refl, valid_session-Signed sign now cookie h)

  abbrev Guarded : Request → Reply → Type 0
  Guarded r a = (is_secret a ≡ false) ⊎ BySession r a

  with_session-Guarded : (r : Request) → Guarded r (with_session sign access desk now nonce r)
  unfolding with_session
  with_session-Guarded r = elim (Bool-cases (has_session sign now r.cookie)) [
    | inl signed ↦ rw signed (elim (pages-page r) [
      | inl (p, e) ↦ rw e (inr (session-Signed r.cookie signed))
      | inr plain ↦ inl plain
    ])
    | inr stranger ↦ rw stranger (inl (ground arith))
  ]

  sign_in-Guarded : (r : Request) → Guarded r (sign_in sign access desk now nonce r)
  unfolding sign_in
  sign_in-Guarded r = elim (Bool-cases (text_eq r.form_token desk.token)) [
    | inl same ↦ rw same (inr (text_eq_sound r.form_token desk.token same, refl, refl))
    | inr wrong ↦ rw wrong (inl refl)
  ]

  plain-Guarded : (r : Request) (a : Reply) → is_secret a ≡ false → Guarded r a
  plain-Guarded r a h = inl h

  -- without a verifier for Cloudflare Access, every endpoint of the mux is guarded
  endpoint-Guarded :
      (o : Routed Endpoint) (r : Request)
      → desk.has_access ≡ false
      → Guarded r (serve_endpoint sign access desk now nonce o r)
  unfolding serve_endpoint
  endpoint-Guarded (found static_files) r off = inl refl
  endpoint-Guarded (found login_page) r off = rw off (inl refl)
  endpoint-Guarded (found log_out) r off = rw off (inl refl)
  endpoint-Guarded (found log_in) r off = sign_in-Guarded r
  endpoint-Guarded (found pages) r off = rw off (with_session-Guarded r)
  endpoint-Guarded add_slash r off = inl refl
  endpoint-Guarded method_not_allowed r off = inl refl
  endpoint-Guarded not_found r off = inl refl

  access-cases :
      (r : Request) → ByAccess r ⊎ ((is_empty r.assertion || not (access r.assertion)) ≡ true)
  access-cases r = ground arith

  off-mux : (b : Bool) (x y : Reply) → b ≡ false → (if b then x else y) ≡ y
  off-mux b x y off = rw off refl

  -- Where the dashboard is behind Cloudflare Access, every reply but 401 is to a request with an
  -- assertion that the verifier takes. Elsewhere a page is only served for a session cookie that
  -- carries its own signature and has not expired, and a new session is only given for the
  -- token of the desk.
  pub serve_ui-Guarded :
      (r : Request)
      → ((desk.has_access ≡ true)
          × ((serve_ui sign access desk now nonce r ≡ unauthorized) ⊎ ByAccess r))
        ⊎ ((desk.has_access ≡ false)
            × ((is_secret (serve_ui sign access desk now nonce r) ≡ false)
                ⊎ BySession r (serve_ui sign access desk now nonce r)))
  unfolding serve_ui serve_desk
  serve_ui-Guarded r = elim (Bool-cases desk.has_access) [
    | inl on ↦ inl (
      on,
      elim (access-cases r) [ inl let_in ↦ inr let_in | inr refused ↦ inl (rw (on, refused) refl) ],
    )
    | inr off ↦ inr (
      off,
      subst (Guarded r) (sym (off-mux desk.has_access _ _ off))
          (endpoint-Guarded (route (desk_routes desk.has_access) r.method r.path) r off),
    )
  ]

  overview-found :
      (r : Request)
      → r.method ≡ codes "GET"
      → r.path ≡ codes "ui" ∷ [] ∷ []
      → serve_pages r ≡ page overview
  unfolding serve_pages serve_page
  overview-found r get at = rw (get, at) (ap serve_page overview_route)

  pages-found :
      (r : Request)
      → r.method ≡ codes "GET"
      → r.path ≡ codes "ui" ∷ [] ∷ []
      → desk.has_access ≡ false
      → route (desk_routes desk.has_access) r.method r.path ≡ found pages
  pages-found r get at off = rw (get, at, off) pages_route

  -- With signatures that have no dot, and without Cloudflare Access: whoever posts the token of the
  -- desk gets a cookie with which the overview is served at every instant before seven days later,
  -- as long as that instant fits in 63 bits.
  pub sign_in-serve_ui :
      (r q : Request) (later : ℕ)
      → ((body : Text) → has_no_dot (sign body) ≡ true)
      → now + session_ttl ≤ max_int
      → desk.has_access ≡ false
      → r.form_token ≡ desk.token
      → q.method ≡ codes "GET"
      → q.path ≡ codes "ui" ∷ [] ∷ []
      → ltb later (now + session_ttl) ≡ true
      → (cookie : Text) × (sign_in sign access desk now nonce r ≡ signed_in cookie r.is_https)
        × (serve_ui sign access desk later nonce (record q { cookie = some cookie })
            ≡ page overview)
  unfolding sign_in serve_ui serve_desk serve_endpoint with_session has_session
  sign_in-serve_ui r q later no_dot fits off same get at early =
      let cookie = new_session sign now nonce in
      let back = record q { cookie = some cookie } in
      (
        cookie,
        rw (same, text_eq_refl desk.token) refl,
        rw (pages-found back get at off) (
            rw off (
              rw (valid_session-new_session sign now later nonce no_dot fits, early)
                (overview-found back get at))),
      )
