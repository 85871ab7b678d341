-- ===== src/Audit.antt =====
-- The audit log of tool calls (internal/audit, cmd/gateway/audit.go).
pub mod Sink
pub mod Query
pub mod Log
pub mod Http
mod Tests
use rusty_gateway.Common.{
  ℕ, Bool, true, false, Option, none, some, List, [], ◌∷◌, ◌++◌, if◌then◌else◌,
}
use rusty_gateway.Common.Int.{ℤ, pos}
use rusty_gateway.Common.Text.{Text, codes}
use rusty_gateway.Redact.{Codec, redact_json}

pub record Row : Type 0 where
  pub id : ℕ
  pub ts : ℤ
  pub namespace : Text
  pub server : Text
  pub tool : Text
  pub client_id : Text
  pub session_id : Text
  pub args_json : Text
  pub result_size : ℕ
  pub result_json : Text
  pub duration_ms : ℤ
  pub status : Text
  pub error : Text

-- c.Err: what errors.Is finds in it, and its text
pub record CallError : Type 0 where
  pub is_deadline : Bool
  pub is_circuit_open : Bool
  pub text : Text

-- c.Result: IsError, and what json.Marshal makes of it
pub record CallResult : Type 0 where
  pub is_error : Bool
  pub marshalled : Option Text

-- gateway.Call; the times are in milliseconds, as the row has them
pub record Call : Type 0 where
  pub started : ℤ
  pub duration : ℤ
  pub namespace : Text
  pub server : Text
  pub tool : Text
  pub session_id : Text
  pub args : Text
  pub err : Option CallError
  pub result : Option CallResult

-- the switch of `row`: status and error
unfoldable pub outcome : Option CallError → Option CallResult → Text × Text
outcome (some e) result =
    if e.is_deadline
    then (codes "timeout", e.text)
    else if e.is_circuit_open
    then (codes "rejected", e.text)
    else (codes "error", e.text)
outcome none none = (codes "ok", [])
outcome none (some r) = if r.is_error then (codes "tool_error", []) else (codes "ok", [])

module _ (codec : Codec) (max_payload : ℕ) where
  redacted : Option Text → Text × ℕ
  redacted none = ([], 0)
  redacted (some raw) = redact_json codec raw (pos max_payload)

  result_of : Option CallResult → Text × ℕ
  unfolding redacted
  result_of none = ([], 0)
  result_of (some r) = redacted r.marshalled

  -- `row`, for the client that auth.ClientID finds; the store gives the ID
  unfoldable pub row : Text → Call → Row
  unfolding outcome result_of
  row client c = record {
    id = 0;
    ts = c.started;
    namespace = c.namespace;
    server = c.server;
    tool = c.tool;
    client_id = client;
    session_id = c.session_id;
    args_json = (redact_json codec c.args (pos max_payload)).0;
    result_size = (result_of c.result).1;
    result_json = (result_of c.result).0;
    duration_ms = c.duration;
    status = (outcome c.err c.result).0;
    error = (outcome c.err c.result).1;
  }
