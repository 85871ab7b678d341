-- ===== src/UpstreamAuth/AutoLogin.antt =====
-- `AutoLogin` and the loop of `autoLogin` (internal/upstreamauth/manager.go), with `LoginHandler`.
pub mod Started
use rusty_gateway.Common.{
  Bool, true, false, Option, none, some, List, [], ◌∷◌, ◌++◌, not, if◌then◌else◌, Assoc, ◌⊎◌, inl,
  inr,
}
use rusty_gateway.Common.Text.{Text, codes}
use rusty_gateway.UpstreamAuth.{Entry, is_some}

-- the upstreams for which AutoLogin starts a loop
unfoldable pub pending_ids : Assoc Entry → List Text
pending_ids [] = []
pending_ids ((id, e) ∷ entries) =
    let rest = pending_ids entries in if is_some e.handler then rest else id ∷ rest

-- Where the loop of one upstream stands: at its top, in the select after StartLogin gave a URL, or
-- returned, with the reason.
pub data AutoPhase : Type 0 where
  top waits logged_in ended gave_up : AutoPhase

-- after StartLogin returned, with a URL or an error
unfoldable pub after_start : Bool → Bool → AutoPhase
after_start ctx_done has_url = if ctx_done then ended else if has_url then waits else gave_up

-- which case of the select ran
pub data Wake : Type 0 where
  is_ready ctx_is_done lapsed : Wake

unfoldable pub after_wait : Wake → AutoPhase
after_wait is_ready = logged_in
after_wait ctx_is_done = ended
after_wait lapsed = top

-- `LoginHandler`: 400 with the error of StartLogin, or the URL to open
pub data LoginAnswer : Type 0 where
  bad_request : Text → LoginAnswer
  open_url : Text → LoginAnswer

unfoldable pub login_handler : (Text → Text ⊎ Text) → Text → Text → LoginAnswer
login_handler start ns server = elim (start (ns ++ codes "/" ++ server)) [
  | inl err ↦ bad_request err
  | inr url ↦ open_url url
]
