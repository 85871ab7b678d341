-- ===== src/UpstreamAuth/Tests.antt =====
-- The theorems about logins at concrete inputs.
use rusty_gateway.Common.{ℕ, ◌≡◌, ◌↔◌, refl, true, false, none, some, List, [], ◌∷◌, ◌⊎◌}
use rusty_gateway.Common.Text.{Text, codes, text_eq}
use rusty_gateway.UpstreamAuth.{
  Token, Credentials, CodeResult, Entry, is_some, new_entry, invalidate, next_token, got_token,
  token, needs_login, source_failed, SourceReply, SourceError, source_error, retrieve_error,
}
use rusty_gateway.UpstreamAuth.Login.{
  probing, authorizing, Login, start_login, Reach, here, next, start, probed, ask, deliver, receive,
  save, finish, ask_user, receive_code, save_login, finish_login, send_code,
}
use rusty_gateway.UpstreamAuth.Login.Invariant.{at_rest, Reach-ready_iff, Reach-start_login_iff}
use rusty_gateway.UpstreamAuth.Tokens.{Dead, next_token_kept}
use rusty_gateway.UpstreamAuth.Callback.{
  Query, no_login, refused, received, callback, send_to, Sent, callback-Sent,
}

abbrev code : CodeResult
code = record { code = codes "c"; state = codes "s"; iss = [] }

abbrev creds : Credentials
creds = record {
  client = codes "client";
  token = record { access_token = codes "a"; refresh_token = codes "r" };
}

-- a first login, up to the handler
abbrev asked : Login
asked =
    ask_user (codes "s") (codes "u")
      (record (start_login (at_rest 0 none)).0 { stage = some authorizing })

abbrev answered : Login
answered = record asked { entry = send_code code asked.entry }

abbrev logged_in : Login
logged_in = finish_login 7 (save_login creds (receive_code code answered))

logged_in-Reach : Reach (at_rest 0 none) logged_in
unfolding start_login new_entry ask_user send_code receive_code save_login
logged_in-Reach =
    next
      (next
        (next
          (next (next (next (next here start) (probed refl)) (ask (codes "s") (codes "u") refl))
            (deliver code))
          (receive code refl refl))
        (save code creds refl))
      (finish 7 refl)

Reach-ready_iff_example :
    ((logged_in.entry.ready_closed ≡ true) ↔ ((k : ℕ) × (logged_in.entry.handler ≡ some k)))
    × ((is_some logged_in.entry.handler ≡ false) ↔ (logged_in.entry.ready_closed ≡ false))
Reach-ready_iff_example = Reach-ready_iff 0 none logged_in logged_in-Reach

-- the login once the user has been asked
asked-Reach : Reach (at_rest 0 none) asked
unfolding start_login new_entry ask_user
asked-Reach = next (next (next here start) (probed refl)) (ask (codes "s") (codes "u") refl)

Reach-start_login_iff_example : ((start_login asked).1 ≡ true) ↔ (asked.stage ≡ none)
Reach-start_login_iff_example = Reach-start_login_iff 0 none asked asked-Reach

abbrev query : Query
query = record { state = codes "s"; code = codes "c"; iss = []; error = [] }

abbrev entries : List (Text × Entry)
entries = (codes "me/a", new_entry 0 none) ∷ (codes "me/b", asked.entry) ∷ []

callback-Sent_example :
    ((id : Text) × ((callback query entries).0 ≡ received id)
      × Sent query id entries (callback query entries).1)
    ⊎ (((callback query entries).0 ≡ no_login) × ((callback query entries).1 ≡ entries))
    ⊎ (((callback query entries).0 ≡ refused) × ((callback query entries).1 ≡ entries))
callback-Sent_example = callback-Sent query entries

callback-received : (callback query entries).0 ≡ received (codes "me/b")
unfolding callback send_to new_entry start_login ask_user text_eq
callback-received = refl

abbrev revoked : SourceReply
revoked = source_error (retrieve_error (codes "invalid_grant") (some 400))

next_token_kept_example :
    ((tok : Token) × (revoked ≡ got_token tok)
      × ((next_token true (codes "client") (some creds.token) revoked logged_in.entry).0
          ≡ token tok)
      × ((next_token true (codes "client") (some creds.token) revoked logged_in.entry).2.stored
          ≡ some (record { client = codes "client"; token = tok }))
      × ((next_token true (codes "client") (some creds.token) revoked logged_in.entry).2.handler
          ≡ some 7))
    ⊎ ((err : SourceError) × (revoked ≡ source_error err)
        × Dead err
        × ((next_token true (codes "client") (some creds.token) revoked logged_in.entry).0
            ≡ needs_login)
        × ((next_token true (codes "client") (some creds.token) revoked logged_in.entry).2.stored
            ≡ none)
        × ((next_token true (codes "client") (some creds.token) revoked logged_in.entry).2.handler
            ≡ none))
    ⊎ ((err : SourceError) × (revoked ≡ source_error err)
        × (Dead err → ⊥)
        × ((next_token true (codes "client") (some creds.token) revoked logged_in.entry).0
            ≡ source_failed)
        × ((next_token true (codes "client") (some creds.token) revoked logged_in.entry).2
            ≡ logged_in.entry))
unfolding finish_login save_login
next_token_kept_example =
    next_token_kept (codes "client") creds.token revoked logged_in.entry 7 refl refl

-- A second login replaces the handler and the credentials; the handler that it replaced can still
-- drop both.
abbrev again : Login
again = finish_login 8 (save_login creds (record logged_in { stage = some probing }))

stale-reject :
    ((invalidate true again.entry).handler ≡ none) × ((invalidate true again.entry).stored ≡ none)
unfolding invalidate finish_login save_login
stale-reject = (refl, refl)
