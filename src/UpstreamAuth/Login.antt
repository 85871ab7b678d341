-- ===== src/UpstreamAuth/Login.antt =====
-- `StartLogin` and what runs beside it, as a step relation on one entry
-- (internal/upstreamauth/manager.go). Everything that takes the manager's lock once is one step.
-- The upstream's URL is one that http.NewRequest takes: the configuration has parsed it.
pub mod Invariant
use rusty_gateway.Common.{
  ℕ, ◌≡◌, Bool, true, false, Option, none, some, List, [], ◌∷◌, if◌then◌else◌,
}
use rusty_gateway.Common.Text.{Text}
use rusty_gateway.UpstreamAuth.{
  Token, Credentials, CodeResult, Entry, is_some, new_entry, invalidate, clear_login, SourceReply,
  next_token,
}

-- Where the login stands: `probing` in StartLogin itself, the others in its goroutine.
pub data Stage : Type 0 where
  -- the probe of the upstream's URL
  probing : Stage
  -- in h.Authorize, before AuthorizationCodeFetcher has the URL
  authorizing : Stage
  -- in AuthorizationCodeFetcher, waiting for e.code
  waiting : Stage
  -- with the code, up to NewTokenSource, which saves the credentials
  exchanging : CodeResult → Stage
  saved : Stage
  -- before the deferred clearLogin
  leaving : Stage

pub record Login : Type 0 where
  pub entry : Entry
  -- `none` when no login runs
  pub stage : Option Stage

-- StartLogin up to the probe; `false` is the error that a login is in progress
unfoldable pub start_login : Login → Login × Bool
start_login l =
    if is_some l.entry.code
    then (l, false)
    else (record { entry = record l.entry { code = some none }; stage = some probing }, true)

-- an error before the goroutine starts
unfoldable pub abort_login : Login → Login
unfolding clear_login
abort_login l = record { entry = clear_login l.entry; stage = none }

-- AuthorizationCodeFetcher, up to its select
unfoldable pub ask_user : Text → Text → Login → Login
ask_user state url l = record {
  entry = record l.entry { login_state = state; login_url = url };
  stage = some waiting;
}

-- res := <-e.code
unfoldable pub receive_code : CodeResult → Login → Login
receive_code r l = record {
  entry = record l.entry { code = some none };
  stage = some (exchanging r);
}

-- NewTokenSource
unfoldable pub save_login : Credentials → Login → Login
save_login creds l = record { entry = record l.entry { stored = some creds }; stage = some saved }

-- After h.Authorize: the handler is set, and the channel is closed if there was none.
unfoldable pub finish_login : ℕ → Login → Login
finish_login h l = record {
  entry = record l.entry {
    handler = some h;
    ready_closed = if is_some l.entry.handler then l.entry.ready_closed else true;
  };
  stage = some leaving;
}

-- the send of the callback's result: a full channel drops it
unfoldable pub send_code : CodeResult → Entry → Entry
send_code r e = elim e.code [
  | none ↦ e
  | some slot ↦ if is_some slot then e else record e { code = some (some r) }
]

unfoldable pub is_running : Stage → Bool
is_running probing = false
is_running authorizing = true
is_running waiting = true
is_running (exchanging r) = true
is_running saved = true
is_running leaving = false

pub data Step (l : Login) : Login → Type 0 where
  start : Step l (start_login l).0
  -- the probe fails, is not answered by 401 or 403, or the handler cannot be made
  abort : l.stage ≡ some probing → Step l (abort_login l)
  probed : l.stage ≡ some probing → Step l (record l { stage = some authorizing })
  ask : (state url : Text) → l.stage ≡ some authorizing → Step l (ask_user state url l)
  receive :
      (r : CodeResult)
      → l.stage ≡ some waiting
      → l.entry.code ≡ some (some r)
      → Step l (receive_code r l)
  save :
      (r : CodeResult) (creds : Credentials)
      → l.stage ≡ some (exchanging r)
      → Step l (save_login creds l)
  -- h.Authorize fails, or its time is over
  fail :
      (s : Stage)
      → l.stage ≡ some s
      → is_running s ≡ true
      → Step l (record l { stage = some leaving })
  finish : (h : ℕ) → l.stage ≡ some saved → Step l (finish_login h l)
  clear : l.stage ≡ some leaving → Step l (record { entry = clear_login l.entry; stage = none })
  -- the callback is called with the state of this login
  deliver : (r : CodeResult) → Step l (record l { entry = send_code r l.entry })
  -- a handler, perhaps one that has been replaced, asks for a new authorization
  reject : (deleted : Bool) → Step l (record l { entry = invalidate deleted l.entry })
  -- a token source is asked for a token
  refresh :
      (kept : Bool) (client : Text) (last : Option Token) (r : SourceReply)
      → Step l (record l { entry = (next_token kept client last r l.entry).2 })

pub data Reach (l : Login) : Login → Type 0 where
  here : Reach l l
  next : {m n : Login} → Reach l m → Step m n → Reach l n
