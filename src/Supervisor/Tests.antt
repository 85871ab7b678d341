-- ===== src/Supervisor/Tests.antt =====
-- The theorems about the supervisor at concrete inputs.
use rusty_gateway.Common.{
  false-true, sym, ◌∙◌, ◌≡◌, refl, true, false, none, some, List, [], ◌∷◌, ◌++◌, arith, ◌⊎◌, ◌↔◌,
  is_nil,
}
use rusty_gateway.Common.Int.{pos, int_ltb, int_leb}
use rusty_gateway.Common.Json.{null}
use rusty_gateway.Common.Text.{Text, codes}
use rusty_gateway.Gateway.Discovery.{Tool}
use rusty_gateway.Supervisor.{Spec, Options, defaults, call_tool, listed_tools, is_remote}
use rusty_gateway.Supervisor.Run.{
  Machine, new_machine, Reach, here, next, begin, dial, list, connected, collect_pages, begin_run,
  connect, list_tools, settle, end_run, refreshed, looping,
}
use rusty_gateway.Supervisor.Run.Phases.{is_serving, is_finished, is_final, has_failed, is_some}
use rusty_gateway.Supervisor.Run.Invariant.{Reach-call_tool_iff, Reach-budget}
use rusty_gateway.Redact.Pattern.{fold_word}
use rusty_gateway.Supervisor.Stderr.{max_stderr_line, write, cut_lines}
use rusty_gateway.Supervisor.Stderr.Lines.{write-append}
use rusty_gateway.Supervisor.Environment.{compose_env, redact_env, is_secret}
use rusty_gateway.Supervisor.Environment.Hidden.{no_equals, redact_env-compose_env}

abbrev zeros : Options
zeros = record {
  ping_interval = pos 0;
  start_timeout = pos 0;
  backoff_min = pos 0;
  backoff_max = pos 0;
  stable_after = pos 0;
  max_failures = pos 0;
}

-- what the options of the gateway are after `defaults`
abbrev usual : Options
usual = record {
  ping_interval = pos 30000000000;
  start_timeout = pos 30000000000;
  backoff_min = pos 1000000000;
  backoff_max = pos 60000000000;
  stable_after = pos 60000000000;
  max_failures = pos 5;
}

defaults-usual : defaults zeros ≡ usual
unfolding defaults
defaults-usual = refl

abbrev local : Spec
local = record { id = codes "me/hevy"; url = []; oauth = false; no_ping = false }

abbrev a_tool : Tool
a_tool = record {
  name = codes "t";
  title = [];
  annotation_title = none;
  description = [];
  input_schema = null;
}

-- The first run of a local upstream, up to its tools.
abbrev dialed : Machine
dialed = connect local 0 (connected 1 77 none) (begin_run local 0 new_machine)

abbrev served : Machine
served = list_tools local 0 none (collect_pages (some (a_tool ∷ [], []) ∷ [])) dialed

served-Reach : Reach usual local new_machine served
unfolding begin_run connect new_machine is_remote
served-Reach =
    next (next (next here (begin 0 refl)) (dial 0 (connected 1 77 none) refl))
      (list 0 none (some (a_tool ∷ [], []) ∷ []) refl)

Reach-call_tool_iff_example :
    (is_serving served.phase ≡ true) ↔ (is_some (call_tool served.up) ≡ true)
Reach-call_tool_iff_example = Reach-call_tool_iff usual local served refl served-Reach

Reach-budget_example :
    ((is_finished served.phase ≡ false)
      × (int_ltb (pos served.up.failures) usual.max_failures ≡ true)
      × (has_failed served.up.state ≡ false))
    ⊎ ((is_finished served.phase ≡ true)
        × (is_final served.up.state ≡ true)
        × (served.up.session ≡ none)
        × (served.up.pid ≡ 0)
        × (has_failed served.up.state ≡ true
            → int_leb usual.max_failures (pos served.up.failures) ≡ true))
Reach-budget_example = Reach-budget usual local served refl served-Reach

write-append_example : write is_nil [] (codes "on" ++ codes "e") ≡ (
  (write is_nil [] (codes "on")).0 ++ (write is_nil (write is_nil [] (codes "on")).1 (codes "e")).0,
  (write is_nil (write is_nil [] (codes "on")).1 (codes "e")).1,
)
unfolding cut_lines max_stderr_line
write-append_example = write-append is_nil [] (codes "on") (codes "e") (omega arith)

abbrev with_value : Text → List (Text × Text)
with_value v = (codes "API_KEY", v) ∷ []

api_key-secret : is_secret (codes "API_KEY") ≡ true
unfolding is_secret fold_word
api_key-secret = refl

redact_env-compose_env_example :
    redact_env (compose_env (λ k. none) [] (with_value (codes "one")))
    ≡ redact_env (compose_env (λ k. none) [] (with_value (codes "two")))
unfolding no_equals
redact_env-compose_env_example =
    redact_env-compose_env (λ k. none) [] (with_value (codes "one")) (with_value (codes "two"))
      ((refl, refl, λ open_key. absurd (false-true (sym open_key ∙ api_key-secret))), tt)

-- A list of tools that was asked of the first session, and arrives after the second one is ready,
-- replaces the tools of the second.
abbrev asked_first : Machine
asked_first = end_run 0 (codes "exit") (record served { refreshing = 1 ∷ [] })

abbrev second : Machine
second = list_tools local 2 none (some []) (
    connect local 2 (connected 2 78 none) (
      begin_run local 2 (record (settle usual 0 (codes "exit") 1 asked_first) { phase = looping })))

late-refresh :
    (call_tool (refreshed (some (a_tool ∷ [])) [] second).up ≡ some 2)
    × (listed_tools (refreshed (some (a_tool ∷ [])) [] second).up ≡ a_tool ∷ [])
unfolding call_tool listed_tools refreshed list_tools connect begin_run settle end_run new_machine
late-refresh = (refl, refl)
