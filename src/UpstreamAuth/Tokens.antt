-- ===== src/UpstreamAuth/Tokens.antt =====
-- Whether the store follows the token source (internal/upstreamauth/manager.go, `Token`).
use rusty_gateway.Common.{
  ℕ, ◌≡◌, refl, sym, ap, ◌∙◌, Bool, true, false, ◌&&◌, Option, none, some, [], ◌∷◌, ◌==◌, ==_iff,
  Bool-cases, inl, inr, ◌⊎◌, arith, false-true,
}
use rusty_gateway.Common.Text.{Text, codes, is_empty, text_eq, text_eq_sound, text_eq_refl}
use rusty_gateway.UpstreamAuth.{
  Token, Credentials, Entry, SourceError, retrieve_error, other_error, SourceReply, got_token,
  source_error, is_refusal, is_dead, has_changed, invalidate, token, needs_login, source_failed,
  next_token,
}

unchanged-parts :
    (last tok : Token)
    → has_changed (some last) tok ≡ false
    → (text_eq tok.access_token last.access_token ≡ true)
      × (text_eq tok.refresh_token last.refresh_token ≡ true)
unfolding has_changed
unchanged-parts last tok h = ground arith

unchanged-same : (last tok : Token) → has_changed (some last) tok ≡ false → last ≡ tok
unchanged-same last tok h =
    let (access, refresh) = unchanged-parts last tok h in
    rw (text_eq_sound _ _ access, text_eq_sound _ _ refresh) refl

abbrev holding : Text → Token → Option Credentials
holding client tok = some (record { client = client; token = tok })

invalidated :
    (e : Entry) (h : ℕ)
    → e.handler ≡ some h
    → ((invalidate true e).stored ≡ none) × ((invalidate true e).handler ≡ none)
unfolding invalidate
invalidated e h found = rw found (refl, refl)

-- The errors of a token source after which its refresh token is of no more use: the code
-- invalid_grant; or no code at all, with the status 400 or 401.
abbrev pub Dead : SourceError → Type 0
Dead (retrieve_error code status) =
    (code ≡ codes "invalid_grant") ⊎ ((code ≡ []) × ((status ≡ some 400) ⊎ (status ≡ some 401)))
Dead other_error = ⊥

refusal-status :
    (status : Option ℕ) → is_refusal status ≡ true → (status ≡ some 400) ⊎ (status ≡ some 401)
unfolding is_refusal
refusal-status none h = cc
refusal-status (some n) h = elim (Bool-cases (n == 400)) [
  | inl same ↦ inl (ap some ((==_iff n 400).0 same))
  | inr other ↦ inr (ap some ((==_iff n 401).0 (rw other at h)))
]

is_dead-Dead : (err : SourceError) → is_dead err ≡ true → Dead err
unfolding is_dead
is_dead-Dead (retrieve_error code status) h =
    elim (Bool-cases (text_eq code (codes "invalid_grant"))) [
      | inl same ↦ inl (text_eq_sound code (codes "invalid_grant") same)
      | inr other ↦
          let (no_code, status_ok) = both (is_empty code) (is_refusal status) (rw other at h) in
          inr (is_empty_sound code no_code, refusal-status status status_ok)
    ]
  where
    both : (a b : Bool) → (a && b) ≡ true → (a ≡ true) × (b ≡ true)
    both a b h = ground arith

    is_empty_sound : (t : Text) → is_empty t ≡ true → t ≡ []
    is_empty_sound [] h = refl
    is_empty_sound (c ∷ t) h = cc
is_dead-Dead other_error h = cc

Dead-is_dead : (err : SourceError) → Dead err → is_dead err ≡ true
unfolding is_dead is_refusal
Dead-is_dead (retrieve_error code status) (inl same) =
    rw same (rw (text_eq_refl (codes "invalid_grant")) refl)
Dead-is_dead (retrieve_error code status) (inr (no_code, inl at)) =
    rw (no_code, at) (unfold text_eq in refl)
Dead-is_dead (retrieve_error code status) (inr (no_code, inr at)) =
    rw (no_code, at) (unfold text_eq in refl)
Dead-is_dead other_error h = absurd h

-- With a store that does what it is asked, and that holds the last token of the source: when the
-- source gives a token, `Token` returns that token, the store holds it and the handler is kept;
-- when the source fails because the refresh token is dead, `Token` asks for a login, there is no
-- handler and the store holds nothing; and when it fails with any other error, `Token` returns an
-- error and nothing changes.
pub next_token_kept :
    (client : Text) (last : Token) (r : SourceReply) (e : Entry) (h : ℕ)
    → e.stored ≡ some (record { client = client; token = last })
    → e.handler ≡ some h
    → ((tok : Token) × (r ≡ got_token tok)
        × ((next_token true client (some last) r e).0 ≡ token tok)
        × ((next_token true client (some last) r e).2.stored
            ≡ some (record { client = client; token = tok }))
        × ((next_token true client (some last) r e).2.handler ≡ some h))
      ⊎ ((err : SourceError) × (r ≡ source_error err)
          × Dead err
          × ((next_token true client (some last) r e).0 ≡ needs_login)
          × ((next_token true client (some last) r e).2.stored ≡ none)
          × ((next_token true client (some last) r e).2.handler ≡ none))
      ⊎ ((err : SourceError) × (r ≡ source_error err)
          × (Dead err → ⊥)
          × ((next_token true client (some last) r e).0 ≡ source_failed)
          × ((next_token true client (some last) r e).2 ≡ e))
unfolding next_token
next_token_kept client last (got_token tok) e h has_row has_handler =
    elim (Bool-cases (has_changed (some last) tok)) [
      | inl changed ↦ rw changed (inl (tok, refl, refl, refl, has_handler))
      | inr same ↦ rw same (
          inl (
            tok,
            refl,
            refl,
            has_row
                ∙ ap (λ t. some (record { client = client; token = t }))
                    (unchanged-same last tok same),
            has_handler,
          ))
    ]
next_token_kept client last (source_error err) e h has_row has_handler =
    elim (Bool-cases (is_dead err)) [
      | inl dead ↦
          let (row, gone) = invalidated e h has_handler in
          rw dead (inr (inl (err, refl, is_dead-Dead err dead, refl, row, gone)))
      | inr alive ↦
          rw alive
            (inr (inr (err, refl, (λ d. false-true (sym alive ∙ Dead-is_dead err d)), refl, refl)))
    ]
