-- ===== src/Routes/Tests.antt =====
-- The theorems about the routes at concrete requests.
use rusty_gateway.Common.{
  subst, Bool, Bool-cases, inl, inr, arith, any, all, ◌&&◌, if◌then◌else◌, ◌≡◌, refl, true, false,
  Option, none, some, List, [], ◌∷◌, In, ◌⊎◌, All,
}
use rusty_gateway.Common.Int.{pos}
use rusty_gateway.Common.Text.{Text, codes, text_eq}
use rusty_gateway.Common.Text.Search.{fields}
use rusty_gateway.Common.Mux.{route, found, method_not_allowed, not_found}
use rusty_gateway.Supervisor.{Spec, Options}
use rusty_gateway.Supervisor.Run.Phases.{has_failed}
use rusty_gateway.Supervisor.Table.{Loop, new_table, statuses, here}
use rusty_gateway.Auth.{
  AuthSettings, Authenticator, IdToken, TokenInfo, verify, static, required_scopes,
}
use rusty_gateway.Auth.Verified.{any-In}
use rusty_gateway.Routes.{
  audit_log, oauth_callback, new_mux, BearerCheck, Request, handled, serve, middleware, health_code,
  healthcheck, is_guarded,
}
use rusty_gateway.Routes.Guarded.{LetIn, private_log, serve-LetIn}
use rusty_gateway.Routes.Reached.{mcp_path}
use rusty_gateway.Routes.Health.{GaveUp, healthz-Tells}

abbrev names : List Text
names = codes "me" ∷ codes "work" ∷ []

audit-method :
    route (new_mux false false true names) (codes "POST") (codes "audit" ∷ []) ≡ method_not_allowed
unfolding new_mux route text_eq
audit-method = refl

unknown-namespace :
    route (new_mux true true true names) (codes "POST") (mcp_path (codes "you")) ≡ not_found
unfolding new_mux route text_eq
unknown-namespace = refl

callback-route :
    route (new_mux true true true names) (codes "GET") (codes "oauth" ∷ codes "callback" ∷ [])
    ≡ found oauth_callback
unfolding new_mux route text_eq
callback-route = refl

-- A check of two words, the first of which is Bearer.
abbrev with_scopes : List Text → Option TokenInfo → Option TokenInfo
with_scopes scopes none = none
with_scopes scopes (some info) =
    if all (λ s. any (λ t. text_eq t s) info.scopes) scopes then some info else none

abbrev check_words : (Text → Option TokenInfo) → List Text → List Text → Option TokenInfo
check_words verifier scopes [] = none
check_words verifier scopes (scheme ∷ []) = none
check_words verifier scopes (scheme ∷ token ∷ []) =
    if text_eq scheme (codes "Bearer") then with_scopes scopes (verifier token) else none
check_words verifier scopes (scheme ∷ token ∷ word ∷ words) = none

all-there :
    (has scopes : List Text)
    → all (λ s. any (λ t. text_eq t s) has) scopes ≡ true
    → All (λ s. In s has) scopes
all-there has [] h = tt
all-there has (s ∷ scopes) h =
    let (first, rest) = both (any (λ t. text_eq t s) has) _ h in
    (any-In s has first, all-there has scopes rest)
  where
    both : (a b : Bool) → (a && b) ≡ true → (a ≡ true) × (b ≡ true)
    both a b h = ground arith

with_scopes-facts :
    (scopes : List Text) (o : Option TokenInfo) (info : TokenInfo)
    → with_scopes scopes o ≡ some info
    → (o ≡ some info) × All (λ s. In s info.scopes) scopes
with_scopes-facts scopes none info h = cc
with_scopes-facts scopes (some found_info) info h =
    elim (Bool-cases (all (λ s. any (λ t. text_eq t s) found_info.scopes) scopes)) [
      | inl there ↦
          let same = rw there at h in
          (
            same,
            subst (λ i. All (λ s. In s i.scopes) scopes) (some-same found_info info same)
                (all-there found_info.scopes scopes there),
          )
      | inr missing ↦ absurd (none-some info (rw missing at h))
    ]
  where
    some-same : (i k : TokenInfo) → some i ≡ some k → i ≡ k
    some-same i k e = cc

    none-some : (i : TokenInfo) → none ≡ some i → ⊥
    none-some i e = cc

check_words-facts :
    (verifier : Text → Option TokenInfo) (scopes words : List Text) (info : TokenInfo)
    → check_words verifier scopes words ≡ some info
    → (scheme : Text) × (token : Text) × (words ≡ scheme ∷ token ∷ [])
      × (verifier token ≡ some info)
      × All (λ s. In s info.scopes) scopes
check_words-facts verifier scopes [] info h = cc
check_words-facts verifier scopes (scheme ∷ []) info h = cc
check_words-facts verifier scopes (scheme ∷ token ∷ []) info h =
    elim (Bool-cases (text_eq scheme (codes "Bearer"))) [
      | inl bearer ↦
          let (taken, there) = with_scopes-facts scopes (verifier token) info (rw bearer at h) in
          (scheme, token, refl, taken, there)
      | inr other ↦ absurd (none-some (rw other at h))
    ]
  where
    none-some : none ≡ some info → ⊥
    none-some e = cc
check_words-facts verifier scopes (scheme ∷ token ∷ word ∷ words) info h = cc

abbrev check : BearerCheck
check = record {
  require = λ verifier scopes header. check_words verifier scopes (fields header);
  asks_verifier =
      λ verifier scopes header info h. check_words-facts verifier scopes (fields header) info h;
}

abbrev settings : AuthSettings
settings = record {
  public_url = codes "https://gw";
  issuer = [];
  audience = [];
  required_scope = codes "mcp";
  scopes = [];
  static_token = codes "t";
  resources = [];
  cloudflare = record { team_domain = []; audience = [] };
}

abbrev authn : Authenticator
authn = record { settings = settings; has_issuer = false; audience = []; has_access = false }

abbrev unknown : Text → Option IdToken
unknown token = none

abbrev request : Request
request = record {
  method = codes "GET";
  path = codes "audit" ∷ [];
  authorization = codes "Bearer t";
  assertion = [];
}

abbrev caller : TokenInfo
caller = record {
  scopes = codes "mcp" ∷ [];
  expiration = 3605;
  user_id = codes "static";
  method = static;
  client_id = codes "static";
}

request-handled :
    serve check authn 5 unknown unknown (new_mux false false true names) request
    ≡ handled audit_log (some caller)
unfolding serve new_mux route text_eq middleware verify is_guarded fields required_scopes
request-handled = refl

serve-LetIn_example :
    (info : TokenInfo) × (some caller ≡ some info)
    × LetIn check authn 5 unknown unknown request info
serve-LetIn_example =
    serve-LetIn check authn 5 unknown unknown (new_mux false false true names) request audit_log
      (some caller) request-handled private_log

abbrev options : Options
options = record {
  ping_interval = pos 30;
  start_timeout = pos 30;
  backoff_min = pos 1;
  backoff_max = pos 60;
  stable_after = pos 60;
  max_failures = pos 3;
}

abbrev specs : List Spec
specs = record { id = codes "me/hevy"; url = []; oauth = false; no_ping = false } ∷ []

healthz-Tells_example :
    ((health_code (statuses (new_table specs)) ≡ 200)
      × (healthcheck (some (health_code (statuses (new_table specs)))) ≡ true)
      × All
          (λ l. has_failed ((new_table specs).upstreams l.spec.id).state ≡ false)
          (new_table specs).loops)
    ⊎ ((health_code (statuses (new_table specs)) ≡ 503)
        × (healthcheck (some (health_code (statuses (new_table specs)))) ≡ false)
        × ((l : Loop) × In l (new_table specs).loops × GaveUp options (new_table specs) l))
healthz-Tells_example = healthz-Tells options specs (new_table specs) refl (tt, tt) here
