-- ===== src/Auth/Tests.antt =====
-- The theorems about authentication at concrete inputs.
use rusty_gateway.Common.{◌≡◌, refl, true, false, none, some, [], ◌∷◌, any}
use rusty_gateway.Common.Text.{codes, text_eq}
use rusty_gateway.Common.Text.Search.{fields}
use rusty_gateway.Auth.{
  AuthSettings, TokenInfo, Authenticator, static, authenticator, new_authenticator, verify,
  required_scopes,
}

abbrev settings : AuthSettings
settings = record {
  public_url = codes "https://gw";
  issuer = [];
  audience = [];
  required_scope = codes "read write";
  scopes = [];
  static_token = codes "tok";
  resources = [];
  cloudflare = record { team_domain = []; audience = [] };
}

abbrev made : Authenticator
made = record {
  settings = settings;
  has_issuer = false;
  audience = codes "https://gw" ∷ [];
  has_access = false;
}

new-made : new_authenticator true true settings ≡ authenticator made
unfolding new_authenticator
new-made = refl

abbrev info : TokenInfo
info = record {
  scopes = codes "read" ∷ codes "write" ∷ [];
  expiration = 3600;
  user_id = codes "static";
  method = static;
  client_id = codes "static";
}

verified-info : verify made 0 none (codes "tok") ≡ some info
unfolding verify text_eq fields
verified-info = refl

-- The static token gets the words of the required scope, and the middleware asks for the scope as
-- one word.
scope-split : any (λ s. text_eq s (codes "read write")) info.scopes ≡ false
unfolding text_eq
scope-split = refl

scope-required : required_scopes made ≡ codes "read write" ∷ []
unfolding required_scopes
scope-required = refl
