-- ===== src/Auth.antt =====
-- Authentication of clients (internal/auth/auth.go, internal/auth/cloudflare.go). The verifiers of
-- the oidc package are parameters: what they make of a token, `none` where they refuse it.
pub mod Verified
mod Tests
use rusty_gateway.Common.{
  ℕ, ◌+◌, Bool, true, false, Option, none, some, List, [], ◌∷◌, ◌++◌, map, any, is_nil, not, ◌&&◌,
  ◌||◌, if◌then◌else◌,
}
use rusty_gateway.Common.Text.{Text, codes, text_eq, is_empty}
use rusty_gateway.Common.Text.Search.{fields}
use rusty_gateway.Config.{CloudflareAccess}

pub record AuthSettings : Type 0 where
  pub public_url : Text
  pub issuer : Text
  pub audience : Text
  pub required_scope : Text
  pub scopes : List Text
  pub static_token : Text
  pub resources : List Text
  pub cloudflare : CloudflareAccess

-- oidc.IDToken with the claims that `verify` reads; `claims` is `none` where decoding them fails.
pub record Claims : Type 0 where
  pub scope : Text
  pub scp : List Text
  pub client_id : Text
  pub azp : Text

pub record IdToken : Type 0 where
  pub subject : Text
  pub audience : List Text
  pub expiry : ℕ
  pub claims : Option Claims

pub data Method : Type 0 where
  static oidc cloudflare : Method

-- sdkauth.TokenInfo
pub record TokenInfo : Type 0 where
  pub scopes : List Text
  pub expiration : ℕ
  pub user_id : Text
  pub method : Method
  pub client_id : Text

-- Authenticator: the accepted audiences, and which verifiers there are
pub record Authenticator : Type 0 where
  pub settings : AuthSettings
  pub has_issuer : Bool
  pub audience : List Text
  pub has_access : Bool

pub data NewError : Type 0 where
  bad_cloudflare exclusive discovery_failed no_method : NewError

pub data NewReply : Type 0 where
  authenticator : Authenticator → NewReply
  new_error : NewError → NewReply

accepted_audience : AuthSettings → List Text
accepted_audience s =
    s.public_url
    ∷ ((if is_empty s.audience then [] else s.audience ∷ [])
        ++ map (λ r. s.public_url ++ r) s.resources)

-- `New`. `cloudflare_ok` is CloudflareAccess.Validate, and `discovers` whether oidc.NewProvider
-- finds the issuer.
unfoldable pub new_authenticator : Bool → Bool → AuthSettings → NewReply
unfolding accepted_audience
new_authenticator cloudflare_ok discovers s =
    if not cloudflare_ok
    then new_error bad_cloudflare
    else if not (is_empty s.cloudflare.team_domain)
    then (if not (is_empty s.issuer)
          || not (is_empty s.static_token)
          || not (is_empty s.audience)
          || not (is_empty s.required_scope)
          || not (is_nil s.scopes)
        then new_error exclusive
        else authenticator
            (record { settings = s; has_issuer = false; audience = []; has_access = true }))
    else if not (is_empty s.issuer) && not discovers
    then new_error discovery_failed
    else if is_empty s.issuer && is_empty s.static_token
    then new_error no_method
    else authenticator (record {
      settings = s;
      has_issuer = not (is_empty s.issuer);
      audience = accepted_audience s;
      has_access = false;
    })

unfoldable pub accepts_audience : List Text → List Text → Bool
accepts_audience accepted auds = any (λ aud. any (λ a. text_eq a aud) accepted) auds

or_azp : Claims → Text
or_azp c = if is_empty c.client_id then c.azp else c.client_id

info_of : IdToken → Option Claims → Option TokenInfo
unfolding or_azp
info_of idt none = none
info_of idt (some c) = some (record {
  scopes = fields c.scope ++ c.scp;
  expiration = idt.expiry;
  user_id = idt.subject;
  method = oidc;
  client_id = or_azp c;
})

checked : Authenticator → Option IdToken → Option TokenInfo
unfolding accepts_audience info_of
checked a none = none
checked a (some idt) =
    if accepts_audience a.audience idt.audience then info_of idt idt.claims else none

-- `verify` at an instant in seconds, with what the oidc verifier makes of the token; `none` is
-- ErrInvalidToken.
unfoldable pub verify : Authenticator → ℕ → Option IdToken → Text → Option TokenInfo
unfolding checked
verify a now verified tok =
    if not (is_empty a.settings.static_token) && text_eq tok a.settings.static_token
    then some (record {
      scopes = fields a.settings.required_scope;
      expiration = now + 3600;
      user_id = codes "static";
      method = static;
      client_id = codes "static";
    })
    else if not a.has_issuer
    then none
    else checked a verified

-- What Middleware hands to RequireBearerToken as the scopes that a token must have.
unfoldable pub required_scopes : Authenticator → List Text
required_scopes a =
    if is_empty a.settings.required_scope then [] else a.settings.required_scope ∷ []

access_info : Option IdToken → Option TokenInfo
access_info none = none
access_info (some t) =
    if is_empty t.subject
    then none
    else some (record {
      scopes = [];
      expiration = t.expiry;
      user_id = t.subject;
      method = cloudflare;
      client_id = t.subject;
    })

-- cloudflareMiddleware: the verifier's view of the assertion header
unfoldable pub verify_access : (Text → Option IdToken) → Text → Option TokenInfo
unfolding access_info
verify_access access assertion = if is_empty assertion then none else access_info (access assertion)

-- ClientID
unfoldable pub client_id : Option TokenInfo → Text
client_id none = []
client_id (some t) = t.client_id
