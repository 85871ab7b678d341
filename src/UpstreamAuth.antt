-- ===== src/UpstreamAuth.antt =====
-- Logins at OAuth upstreams (internal/upstreamauth/manager.go, store.go). The state of one
-- upstream is its entry with its row of the credentials store. A handler is its number, and what
-- the SDK and the upstream answer is an argument.
pub mod Login
pub mod Callback
pub mod Tokens
pub mod Origin
pub mod AutoLogin
pub mod Manager
mod Tests
use rusty_gateway.Common.{
  ℕ, Bool, true, false, Option, none, some, List, [], ◌∷◌, ◌==◌, ◌&&◌, ◌||◌, not, if◌then◌else◌,
  Assoc, lookup,
}
use rusty_gateway.Common.Text.{Text, codes, text_eq, is_empty}

pub record Token : Type 0 where
  pub access_token : Text
  pub refresh_token : Text

-- `client` is the rest of the record: the client, the scopes and the endpoints.
pub record Credentials : Type 0 where
  pub client : Text
  pub token : Token

-- AuthorizationResult
pub record CodeResult : Type 0 where
  pub code : Text
  pub state : Text
  pub iss : Text

-- `ready_closed`: the channel `ready` that the entry now has is closed. `code` is `none` for nil,
-- and else what the channel of capacity 1 holds.
pub record Entry : Type 0 where
  pub handler : Option ℕ
  pub ready_closed : Bool
  pub login_state : Text
  pub login_url : Text
  pub code : Option (Option CodeResult)
  pub stored : Option Credentials

abbrev pub is_some {ℓ} : {A : Type ℓ} → Option A → Bool
is_some none = false
is_some (some a) = true

abbrev numbered : ℕ → Option Credentials → Option ℕ
numbered h none = none
numbered h (some creds) = some h

-- the body of the loop of `New`: what the store has decides whether there is a handler
unfoldable pub new_entry : ℕ → Option Credentials → Entry
new_entry h stored = record {
  handler = numbered h stored;
  ready_closed = is_some stored;
  login_state = [];
  login_url = [];
  code = none;
  stored = stored;
}

pub data HandlerAnswer : Type 0 where
  not_oauth login_required : HandlerAnswer
  has_handler : ℕ → HandlerAnswer

answer_of : Option ℕ → HandlerAnswer
answer_of none = login_required
answer_of (some h) = has_handler h

-- the method `Handler`
unfoldable pub get_handler : Text → Assoc Entry → HandlerAnswer
unfolding answer_of
get_handler id entries = elim (lookup id entries) [
  | none ↦ not_oauth
  | some e ↦ answer_of e.handler
]

-- PendingLogin
unfoldable pub pending_login : Text → Assoc Entry → Text
pending_login id entries = elim (lookup id entries) [
  | none ↦ []
  | some e ↦ if is_some e.code then e.login_url else []
]

-- Managed
unfoldable pub is_managed : Text → Assoc Entry → Bool
is_managed id entries = is_some (lookup id entries)

-- `invalidate`; `deleted` tells whether the store deleted the row
unfoldable pub invalidate : Bool → Entry → Entry
invalidate deleted e =
    if is_some e.handler
    then record e {
      handler = none;
      ready_closed = false;
      stored = if deleted then none else e.stored;
    }
    else e

-- clearLogin
unfoldable pub clear_login : Entry → Entry
clear_login e = record e { code = none; login_state = []; login_url = [] }

-- An error of the inner token source: the error code, and the status of its response if it has one.
pub data SourceError : Type 0 where
  retrieve_error : Text → Option ℕ → SourceError
  other_error : SourceError

unfoldable pub is_refusal : Option ℕ → Bool
is_refusal none = false
is_refusal (some status) = status == 400 || status == 401

-- the refresh token is dead
unfoldable pub is_dead : SourceError → Bool
unfolding is_refusal
is_dead (retrieve_error code status) =
    text_eq code (codes "invalid_grant") || (is_empty code && is_refusal status)
is_dead other_error = false

pub data SourceReply : Type 0 where
  got_token : Token → SourceReply
  source_error : SourceError → SourceReply

unfoldable pub has_changed : Option Token → Token → Bool
has_changed none tok = true
has_changed (some last) tok =
    not (text_eq tok.access_token last.access_token)
    || not (text_eq tok.refresh_token last.refresh_token)

pub data TokenAnswer : Type 0 where
  token : Token → TokenAnswer
  needs_login source_failed : TokenAnswer

-- `Token` of the persisting source of `client`: its answer, its new `last`, and the entry. `kept`
-- tells whether the store did what it was asked.
unfoldable pub next_token :
    Bool → Text → Option Token → SourceReply → Entry → TokenAnswer × Option Token × Entry
unfolding is_dead has_changed invalidate
next_token kept client last (got_token tok) e = (
  token tok,
  some tok,
  if has_changed last tok && kept
      then record e { stored = some (record { client = client; token = tok }) }
      else e,
)
next_token kept client last (source_error err) e =
    if is_dead err then (needs_login, last, invalidate kept e) else (source_failed, last, e)
