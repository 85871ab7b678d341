-- ===== src/Routes/Guarded.antt =====
-- Who reaches the handlers behind the middleware (cmd/gateway/routes.go, `newMux`).
use rusty_gateway.Common.{
  ℕ, ◌≡◌, refl, sym, ap, ◌∙◌, true, false, Option, none, some, [], ◌∷◌, ◌++◌, All, In, inl, inr,
  ◌⊎◌, arith, Bool-cases, false-true,
}
use rusty_gateway.Common.Text.{Text, codes, is_empty}
use rusty_gateway.Common.Text.Search.{fields}
use rusty_gateway.Common.Mux.{
  Routes, Routed, found, add_slash, method_not_allowed, not_found, route,
}
use rusty_gateway.Auth.{IdToken, TokenInfo, Authenticator, verify, verify_access, required_scopes}
use rusty_gateway.Auth.Verified.{Admitted, verify-Admitted, verify_access-names}
use rusty_gateway.Routes.{
  Endpoint, mcp, audit_log, start_login, is_guarded, BearerCheck, Request, middleware, handled,
  admit, serve_endpoint, serve,
}

-- the endpoints that only callers with an identity may use
pub data Private : Endpoint → Type 0 where
  private_mcp : (ns : Text) → Private (mcp ns)
  private_log : Private audit_log
  private_login : Private start_login

Private-guarded : (e : Endpoint) → Private e → is_guarded e ≡ true
unfolding is_guarded
Private-guarded _ (private_mcp ns) = refl
Private-guarded _ private_log = refl
Private-guarded _ private_login = refl

module _ (check : BearerCheck) (a : Authenticator) (now : ℕ)
    (oidc access : Text → Option IdToken) where
  -- A caller whom Cloudflare Access names: the assertion of the request is one word, and the
  -- verifier takes it for a subject with a name.
  abbrev pub ByAccess : Request → TokenInfo → Type 0
  ByAccess r info =
      (token : Text) × (idt : IdToken) × (fields r.assertion ≡ token ∷ [])
      × (access token ≡ some idt)
      × (is_empty idt.subject ≡ false)
      × (info.user_id ≡ idt.subject)
      × (info.expiration ≡ idt.expiry)

  -- A caller with a token: the Authorization header of the request is a scheme and a token, this
  -- token is admitted, and the required scope, if there is one, is among its scopes.
  abbrev pub ByToken : Request → TokenInfo → Type 0
  ByToken r info =
      (scheme : Text) × (token : Text) × (fields r.authorization ≡ scheme ∷ token ∷ [])
      × Admitted a (oidc token) token info
      × ((is_empty a.settings.required_scope ≡ true) ⊎ In a.settings.required_scope info.scopes)

  abbrev pub LetIn : Request → TokenInfo → Type 0
  LetIn r info =
      ((a.has_access ≡ true) × ByAccess r info) ⊎ ((a.has_access ≡ false) × ByToken r info)

  fields-bearer : (s : Text) → fields (codes "Bearer " ++ s) ≡ codes "Bearer" ∷ fields s
  unfolding fields
  fields-bearer s = refl

  only-word :
      (s scheme token : Text)
      → codes "Bearer" ∷ fields s ≡ scheme ∷ token ∷ []
      → fields s ≡ token ∷ []
  only-word s scheme token e = cc

  scope-there :
      (info : TokenInfo)
      → All (λ s. In s info.scopes) (required_scopes a)
      → (is_empty a.settings.required_scope ≡ true) ⊎ In a.settings.required_scope info.scopes
  unfolding required_scopes
  scope-there info h = elim (Bool-cases (is_empty a.settings.required_scope)) [
    | inl no_scope ↦ inl no_scope
    | inr scope ↦ inr (only (rw scope at h))
  ]
    where
      only :
          All (λ s. In s info.scopes) (a.settings.required_scope ∷ [])
          → In a.settings.required_scope info.scopes
      only h = h.0

  middleware-ByAccess :
      (r : Request) (info : TokenInfo)
      → check.require (verify_access access) [] (codes "Bearer " ++ r.assertion) ≡ some info
      → ByAccess r info
  middleware-ByAccess r info h =
      let (scheme, token, words, taken, all_there) =
        check.asks_verifier (verify_access access) [] (codes "Bearer " ++ r.assertion) info h in
      let (idt, known, named, user, expiry) = verify_access-names access token info taken in
      (
        token,
        idt,
        only-word r.assertion scheme token (sym (fields-bearer r.assertion) ∙ words),
        known,
        named,
        user,
        expiry,
      )

  middleware-ByToken :
      (r : Request) (info : TokenInfo)
      → check.require (λ token. verify a now (oidc token) token) (required_scopes a) r.authorization
        ≡ some info
      → ByToken r info
  middleware-ByToken r info h =
      let (scheme, token, words, taken, all_there) =
        check.asks_verifier (λ token. verify a now (oidc token) token) (required_scopes a)
          r.authorization info h in
      (
        scheme,
        token,
        words,
        verify-Admitted a now (oidc token) token info taken,
        scope-there info all_there,
      )

  middleware-LetIn :
      (r : Request) (info : TokenInfo)
      → middleware check a now oidc access r ≡ some info
      → LetIn r info
  unfolding middleware
  middleware-LetIn r info h = elim (Bool-cases a.has_access) [
    | inl on ↦ elim (Bool-cases (is_empty r.assertion)) [
      | inl missing ↦ absurd (ground (arith, h, on, missing))
      | inr given ↦ inl (on, middleware-ByAccess r info (ground (arith, h, on, given)))
    ]
    | inr off ↦ inr (off, middleware-ByToken r info (ground (arith, h, off)))
  ]

  handled-same :
      (e k : Endpoint) (i j : Option TokenInfo) → handled e i ≡ handled k j → (e ≡ k) × (i ≡ j)
  handled-same e k i j h = (cc, cc)

  admit-LetIn :
      (e k : Endpoint) (who o : Option TokenInfo)
      → admit check a now oidc access k o ≡ handled e who
      → (info : TokenInfo) × (o ≡ some info) × (who ≡ some info)
  unfolding admit
  admit-LetIn e k who none h = absurd (cc)
  admit-LetIn e k who (some info) h = (info, refl, sym (handled-same k e (some info) who h).1)

  endpoint-LetIn :
      (e : Endpoint) (who : Option TokenInfo) (o : Routed Endpoint) (r : Request)
      → serve_endpoint check a now oidc access o r ≡ handled e who
      → is_guarded e ≡ true
      → (info : TokenInfo) × (who ≡ some info) × LetIn r info
  unfolding serve_endpoint
  endpoint-LetIn e who (found k) r h g = elim (Bool-cases (is_guarded k)) [
    | inl guarded ↦
        let (info, taken, same) =
          admit-LetIn e k who (middleware check a now oidc access r) (rw guarded at h) in
        (info, same, middleware-LetIn r info taken)
    | inr open_to_all ↦ absurd (
        false-true
          (sym open_to_all ∙ ap is_guarded (handled-same k e none who (rw open_to_all at h)).0 ∙ g))
  ]
  endpoint-LetIn e who add_slash r h g = absurd (cc)
  endpoint-LetIn e who method_not_allowed r h g = absurd (cc)
  endpoint-LetIn e who not_found r h g = absurd (cc)

  -- Whatever the routes are: an MCP server, the audit log or the start of a login only handles a
  -- request whose caller has been let in. With Cloudflare Access, the assertion of this request is
  -- one word that the access verifier takes, and the caller is the subject that it names. Without,
  -- the Authorization header of this request is a scheme and a token; the token is the static
  -- token, or the issuer's verifier takes it for this gateway, and then the caller is the user that
  -- it names; and if a scope is required, it is among the scopes of the caller.
  pub serve-LetIn :
      (routes : Routes Endpoint) (r : Request) (e : Endpoint) (who : Option TokenInfo)
      → serve check a now oidc access routes r ≡ handled e who
      → Private e
      → (info : TokenInfo) × (who ≡ some info) × LetIn r info
  unfolding serve
  serve-LetIn routes r e who h p =
      endpoint-LetIn e who (route routes r.method r.path) r h (Private-guarded e p)
