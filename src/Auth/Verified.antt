-- ===== src/Auth/Verified.antt =====
-- Whom an authenticator lets in (internal/auth/auth.go, `New` and `verify`).
use rusty_gateway.Common.{
  ℕ, ◌≡◌, refl, Bool, true, false, Option, none, some, List, [], ◌∷◌, any, In, is_nil, not, ◌&&◌,
  Bool-cases, inl, inr, ◌⊎◌, arith,
}
use rusty_gateway.Common.Text.{Text, text_eq, text_eq_sound, is_empty}
use rusty_gateway.Auth.{
  AuthSettings, IdToken, Claims, TokenInfo, static, oidc, Authenticator, authenticator,
  new_authenticator, accepts_audience, verify, checked, info_of, access_info, verify_access,
  cloudflare,
}

-- A text is in both lists.
abbrev pub Meet : List Text → List Text → Type 0
Meet ts us = (t : Text) × In t ts × In t us

pub any-In : (t : Text) (ts : List Text) → any (λ a. text_eq a t) ts ≡ true → In t ts
any-In t [] h = cc
any-In t (a ∷ ts) h = elim (Bool-cases (text_eq a t)) [
  | inl same ↦ inl (text_eq_sound a t same)
  | inr other ↦ inr (any-In t ts (ground (arith, h, other)))
]

accepts_audience-Meet :
    (accepted auds : List Text) → accepts_audience accepted auds ≡ true → Meet accepted auds
unfolding accepts_audience
accepts_audience-Meet accepted [] h = cc
accepts_audience-Meet accepted (aud ∷ auds) h =
    elim (Bool-cases (any (λ a. text_eq a aud) accepted)) [
      | inl found ↦ (aud, any-In aud accepted found, inl refl)
      | inr other ↦
          let (t, here, there) = accepts_audience-Meet accepted auds (ground (arith, h, other)) in
          (t, here, inr there)
    ]

-- What lets a token in: the static token, which is not empty; or the issuer's verifier, with an
-- audience that is accepted, as the user that the verifier names.
abbrev pub Admitted : Authenticator → Option IdToken → Text → TokenInfo → Type 0
Admitted a verified tok info =
    ((tok ≡ a.settings.static_token) × (is_empty tok ≡ false) × (info.method ≡ static))
    ⊎ ((idt : IdToken) × (verified ≡ some idt)
        × (a.has_issuer ≡ true)
        × Meet a.audience idt.audience
        × (info.method ≡ oidc)
        × (info.user_id ≡ idt.subject)
        × (info.expiration ≡ idt.expiry))

oidc_info :
    (a : Authenticator) (idt : IdToken) (c : Option Claims) (info : TokenInfo)
    → info_of idt c ≡ some info
    → (info.method ≡ oidc) × (info.user_id ≡ idt.subject) × (info.expiration ≡ idt.expiry)
unfolding info_of
oidc_info a idt none info h = cc
oidc_info a idt (some c) info h = (cc, cc, cc)

checked-Admitted :
    (a : Authenticator) (verified : Option IdToken) (tok : Text) (info : TokenInfo)
    → a.has_issuer ≡ true
    → checked a verified ≡ some info
    → Admitted a verified tok info
unfolding checked
checked-Admitted a none tok info issuer h = cc
checked-Admitted a (some idt) tok info issuer h =
    elim (Bool-cases (accepts_audience a.audience idt.audience)) [
      | inl accepted ↦
          let (method, user, expiry) =
            oidc_info a idt idt.claims info (ground (arith, h, accepted)) in
          inr (
            idt,
            refl,
            issuer,
            accepts_audience-Meet a.audience idt.audience accepted,
            method,
            user,
            expiry,
          )
      | inr refused ↦ absurd (ground (arith, h, refused))
    ]

static-facts :
    (a : Authenticator) (now : ℕ) (verified : Option IdToken) (tok : Text) (info : TokenInfo)
    → (not (is_empty a.settings.static_token) && text_eq tok a.settings.static_token) ≡ true
    → verify a now verified tok ≡ some info
    → (tok ≡ a.settings.static_token) × (is_empty tok ≡ false) × (info.method ≡ static)
unfolding verify
static-facts a now verified tok info matched h =
    let same = text_eq_sound tok a.settings.static_token (ground (arith, matched)) in
    (same, ground (arith, matched, same), ground (arith, matched, h))

-- Whom `verify` lets in is admitted: either the token is the static token, and not empty, or the
-- issuer's verifier took it for one of the accepted audiences, and the user and the expiry are
-- those of the verified token.
pub verify-Admitted :
    (a : Authenticator) (now : ℕ) (verified : Option IdToken) (tok : Text) (info : TokenInfo)
    → verify a now verified tok ≡ some info
    → Admitted a verified tok info
unfolding verify
verify-Admitted a now verified tok info h =
    elim (Bool-cases
      (not (is_empty a.settings.static_token) && text_eq tok a.settings.static_token)) [
        | inl matched ↦ inl (static-facts a now verified tok info matched h)
        | inr other ↦ elim (Bool-cases a.has_issuer) [
          | inl issuer ↦
              checked-Admitted a verified tok info issuer (ground (arith, h, other, issuer))
          | inr missing ↦ absurd (ground (arith, h, other, missing))
        ]
      ]

info-names :
    (verified : Option IdToken) (info : TokenInfo)
    → access_info verified ≡ some info
    → (idt : IdToken) × (verified ≡ some idt)
      × (is_empty idt.subject ≡ false)
      × (info.user_id ≡ idt.subject)
      × (info.expiration ≡ idt.expiry)
unfolding access_info
info-names none info h = cc
info-names (some idt) info h = elim (Bool-cases (is_empty idt.subject)) [
  | inl nameless ↦ absurd (ground (arith, h, nameless))
  | inr named ↦ (idt, refl, named, user (rw named at h), expiry (rw named at h))
]
  where
    user :
        ◌≡◌ {A = Option TokenInfo}
          (some (record {
            scopes = [];
            expiration = idt.expiry;
            user_id = idt.subject;
            method = cloudflare;
            client_id = idt.subject;
          }))
          (some info)
        → info.user_id ≡ idt.subject
    user e = cc

    expiry :
        ◌≡◌ {A = Option TokenInfo}
          (some (record {
            scopes = [];
            expiration = idt.expiry;
            user_id = idt.subject;
            method = cloudflare;
            client_id = idt.subject;
          }))
          (some info)
        → info.expiration ≡ idt.expiry
    expiry e = cc

-- Whom the verifier of Cloudflare Access takes is the subject of the assertion, which has a name.
pub verify_access-names :
    (access : Text → Option IdToken) (token : Text) (info : TokenInfo)
    → verify_access access token ≡ some info
    → (idt : IdToken) × (access token ≡ some idt)
      × (is_empty idt.subject ≡ false)
      × (info.user_id ≡ idt.subject)
      × (info.expiration ≡ idt.expiry)
unfolding verify_access
verify_access-names access token info h = elim (Bool-cases (is_empty token)) [
  | inl missing ↦ absurd (ground (arith, h, missing))
  | inr given ↦ info-names (access token) info (rw given at h)
]

-- An authenticator that `New` makes has either a Cloudflare verifier and no setting of bearer
-- tokens, or no Cloudflare verifier, and an issuer or a static token; and it accepts the public
-- URL as an audience in the second case.
pub new_authenticator-exclusive :
    (cloudflare_ok discovers : Bool) (s : AuthSettings) (a : Authenticator)
    → new_authenticator cloudflare_ok discovers s ≡ authenticator a
    → ((a.has_access ≡ true)
        × (is_empty s.issuer ≡ true)
        × (is_empty s.static_token ≡ true)
        × (is_nil s.scopes ≡ true))
      ⊎ ((a.has_access ≡ false)
          × ((is_empty s.issuer && is_empty s.static_token) ≡ false)
          × In s.public_url a.audience)
unfolding new_authenticator
new_authenticator-exclusive cloudflare_ok discovers s a h = ground arith
