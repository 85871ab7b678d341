-- ===== src/Wiring/Start/Accepted.antt =====
-- Whether authentication and the dashboard start for a configuration that `validate` accepts.
use rusty_gateway.Common.{
  ◌≡◌, ◌≢◌, refl, ap, subst, Bool, true, false, not, ◌&&◌, ◌||◌, [], ◌++◌, inl, inr, ◌⊎◌,
  Bool-cases, arith, is_nil,
}
use rusty_gateway.Common.Text.{is_empty}
use rusty_gateway.Config.{AuthConfig, Config}
use rusty_gateway.Config.Validate.{
  Host, validate, is_cloudflare, check, check_auth, no_auth, static_token_unset, ui_cloudflare,
  auth_cloudflare, auth_exclusive,
}
use rusty_gateway.Config.Validate.Sound.{append_empty, check-false, not-true}
use rusty_gateway.Config.Validate.Accepted.{sections-empty}
use rusty_gateway.Auth.{
  Authenticator, authenticator, new_error, discovery_failed, new_authenticator,
}
use rusty_gateway.Dashboard.Pages.{new_desk}
use rusty_gateway.Wiring.Start.{auth_settings, start_auth, access_verifier, failed, start_dash}

module _ (host : Host) where
  -- the tests of `check_auth`
  abbrev is_without : AuthConfig → Bool
  is_without a =
      is_empty a.issuer && is_empty a.static_token_env && is_empty a.cloudflare.team_domain

  abbrev is_unset : AuthConfig → Bool
  is_unset a = not (is_empty a.static_token_env) && is_empty a.static_token

  abbrev is_mixed : AuthConfig → Bool
  is_mixed a =
      not (is_empty a.cloudflare.team_domain)
      && (not (is_empty a.issuer)
          || not (is_empty a.audience)
          || not (is_empty a.required_scope)
          || not (is_nil a.scopes)
          || not (is_empty a.static_token_env))

  abbrev Checked : AuthConfig → Type 0
  Checked a =
      (is_without a ≡ false)
      × (is_unset a ≡ false)
      × (is_cloudflare host a.cloudflare ≡ true)
      × (is_mixed a ≡ false)

  check_auth-Checked : (a : AuthConfig) → check_auth host a ≡ [] → Checked a
  unfolding check_auth
  check_auth-Checked a h =
      let without = check (is_without a) no_auth in
      let unset = check (is_unset a) static_token_unset in
      let access = check (not (is_cloudflare host a.cloudflare)) auth_cloudflare in
      let (h3, k4) =
        append_empty (without ++ unset ++ access) (check (is_mixed a) auth_exclusive) h in
      let (h2, k3) = append_empty (without ++ unset) access h3 in
      let (k1, k2) = append_empty without unset h2 in
      (
        check-false (is_without a) no_auth k1,
        check-false (is_unset a) static_token_unset k2,
        not-true (is_cloudflare host a.cloudflare)
            (check-false (not (is_cloudflare host a.cloudflare)) auth_cloudflare k3),
        check-false (is_mixed a) auth_exclusive k4,
      )

  has_token :
      (a : AuthConfig)
      → is_without a ≡ false
      → is_unset a ≡ false
      → is_empty a.cloudflare.team_domain ≡ true
      → is_empty a.issuer ≡ true
      → is_empty a.static_token ≡ false
  has_token a one set plain own = ground (arith, one, set, plain, own)

  auth-starts :
      (c : Config) (discovers : Bool)
      → Checked c.auth
      → (is_empty c.auth.static_token_env ≡ true → is_empty c.auth.static_token ≡ true)
      → ((start_auth host discovers c ≡ new_error discovery_failed)
          × (discovers ≡ false)
          × (is_empty c.auth.issuer ≡ false))
        ⊎ ((a : Authenticator) × (start_auth host discovers c ≡ authenticator a))
  unfolding start_auth auth_settings new_authenticator
  auth-starts c discovers (one, set, access, apart) decoded =
      elim (Bool-cases (is_empty c.auth.cloudflare.team_domain)) [
        | inr cloud ↦ inr (
          record {
            settings = auth_settings c;
            has_issuer = false;
            audience = [];
            has_access = true;
          },
          ground (arith, one, set, access, apart, decoded, cloud),
        )
        | inl plain ↦ elim (Bool-cases (is_empty c.auth.issuer)) [
          | inl own ↦ rw (access, plain, own, has_token c.auth one set plain own) (inr (_, refl))
          | inr issued ↦ elim (Bool-cases discovers) [
            | inl found ↦ rw (access, plain, issued, found) (inr (_, refl))
            | inr lost ↦ inl (rw (access, plain, issued, lost) refl, lost, issued)
          ]
        ]
      ]

  dash-starts :
      (c : Config) (on : Bool)
      → is_cloudflare host c.ui_cloudflare ≡ true
      → start_dash host on c ≢ failed
  unfolding start_dash access_verifier new_desk
  dash-starts c on ok = elim (Bool-cases on) [
    | inr dark ↦ rw dark (λ e. absurd (cc))
    | inl lit ↦ elim (Bool-cases (is_empty c.auth.static_token)) [
      | inr own ↦ rw (lit, own, ok) (λ e. absurd (cc))
      | inl open_token ↦ elim (Bool-cases (is_empty c.ui_cloudflare.team_domain)) [
        | inl none_at_all ↦ rw (lit, open_token, none_at_all) (λ e. absurd (cc))
        | inr cloud ↦ rw (lit, open_token, cloud, ok) (λ e. absurd (cc))
      ]
    ]
  ]

  -- For a configuration that `validate` accepts, and as it leaves it, in which a static token
  -- without its variable is not set, as the decoder leaves it: auth.New gives an authenticator, or
  -- fails because there is an issuer and it is not found; and ui.New, where it is called, does not
  -- refuse its settings.
  pub validate-starts :
      (c out : Config) (discovers on : Bool)
      → validate host c ≡ (out, [])
      → (is_empty out.auth.static_token_env ≡ true → is_empty out.auth.static_token ≡ true)
      → (((start_auth host discovers out ≡ new_error discovery_failed)
            × (discovers ≡ false)
            × (is_empty out.auth.issuer ≡ false))
          ⊎ ((a : Authenticator) × (start_auth host discovers out ≡ authenticator a)))
        × (start_dash host on out ≢ failed)
  unfolding validate
  validate-starts c out discovers on accepted decoded =
      let (_, k2, k3, _, _, _) = sections-empty host c (ap (λ r. r.1) accepted) in
      let same = same-auth c out accepted in
      (
        auth-starts out discovers (subst (λ a. Checked a) same.0 (check_auth-Checked c.auth k2))
            decoded,
        dash-starts out on (
            subst (λ u. is_cloudflare host u ≡ true) same.1
              (not-true (is_cloudflare host c.ui_cloudflare)
                (check-false (not (is_cloudflare host c.ui_cloudflare)) ui_cloudflare k3))),
      )
    where
      same-auth :
          (c out : Config)
          → validate host c ≡ (out, [])
          → (c.auth ≡ out.auth) × (c.ui_cloudflare ≡ out.ui_cloudflare)
      same-auth c out accepted = (ap (λ r. r.0.auth) accepted, ap (λ r. r.0.ui_cloudflare) accepted)
