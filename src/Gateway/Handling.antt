-- ===== src/Gateway/Handling.antt =====
-- The handler of a native tool (internal/gateway/gateway.go, `handler`, with the returns of
-- `dispatch`). It hands one Call to Observe, and answers the client.
use rusty_gateway.Common.{Bool, true, false, Option, none, some, ◌++◌}
use rusty_gateway.Common.Int.{ℤ}
use rusty_gateway.Common.Text.{Text, codes}
use rusty_gateway.Audit.{Call, CallError, CallResult}
use rusty_gateway.Gateway.Names.{prefixed}
use rusty_gateway.Gateway.Discovery.MetaTools.{or_empty_object}
use rusty_gateway.Gateway.Dispatch as Dispatch

-- an error of the context or of the upstream: whether it is DeadlineExceeded, whether it is
-- ErrNotReady, and its text
pub record Failure : Type 0 where
  pub is_deadline : Bool
  pub is_not_ready : Bool
  pub text : Text

-- where `dispatch` returns
pub data Ending : Type 0 where
  circuit_open : Ending
  no_capacity : Failure → Ending
  call_failed : Failure → Ending
  returned : CallResult → Ending

unfoldable pub error_of : Ending → Option CallError
error_of circuit_open =
    some (record { is_deadline = false; is_circuit_open = true; text = codes "circuit open" })
error_of (no_capacity f) = some (record {
  is_deadline = f.is_deadline;
  is_circuit_open = false;
  text = codes "waiting for capacity: " ++ f.text;
})
error_of (call_failed f) =
    some (record { is_deadline = f.is_deadline; is_circuit_open = false; text = f.text })
error_of (returned r) = none

unfoldable pub result_of : Ending → Option CallResult
result_of circuit_open = none
result_of (no_capacity f) = none
result_of (call_failed f) = none
result_of (returned r) = some r

-- what the switch of `dispatch` tells the breaker, where it is reached
unfoldable pub signal_of : Ending → Option Dispatch.Reply
signal_of circuit_open = none
signal_of (no_capacity f) = none
signal_of (call_failed f) =
    some (elim f.is_not_ready [ true ↦ Dispatch.not_ready | false ↦ Dispatch.failed ])
signal_of (returned r) = some Dispatch.fine

-- what the client is answered
pub data Answer : Type 0 where
  answer_error : Text → Answer
  answer_result : Option CallResult → Answer

answer_of : Text → Option CallError → Option CallResult → Answer
answer_of name (some e) r = answer_error (name ++ codes ": " ++ e.text)
answer_of name none r = answer_result r

-- A request at the handler of one tool, with what the clock and the session say.
pub record Request : Type 0 where
  pub namespace : Text
  pub server : Text
  pub tool : Text
  pub session_id : Text
  pub args : Text
  pub started : ℤ
  pub duration : ℤ

-- the Call for Observe
unfoldable pub observed_call : Request → Ending → Call
unfolding error_of result_of
observed_call q e = record {
  started = q.started;
  duration = q.duration;
  namespace = q.namespace;
  server = q.server;
  tool = q.tool;
  session_id = q.session_id;
  args = or_empty_object q.args;
  err = error_of e;
  result = result_of e;
}

-- the handler
unfoldable pub handle : Request → Ending → Call × Answer
unfolding observed_call answer_of
handle q e = (observed_call q e, answer_of (prefixed q.server q.tool) (error_of e) (result_of e))
