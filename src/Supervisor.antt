-- ===== src/Supervisor.antt =====
-- The supervisor of upstreams (internal/supervisor/supervisor.go): the record of one upstream and
-- what it shows to others. An error is its text, and a session is its number.
pub mod Run
pub mod Stderr
pub mod Environment
pub mod Table
mod Tests
use rusty_gateway.Common.{
  ℕ, ◌*◌, Bool, true, false, Option, none, some, List, [], ◌∷◌, ◌++◌, length, ◌&&◌, not, map,
  lookup, Assoc, if◌then◌else◌, ltb, ◌==◌,
}
use rusty_gateway.Common.Int.{ℤ, pos, negsuc}
use rusty_gateway.Common.Text.{Text, codes, is_empty}
use rusty_gateway.Gateway.Discovery.{Tool}

pub data State : Type 0 where
  starting ready failed stopped needs_login : State

unfoldable pub state_text : State → Text
state_text starting = codes "starting"
state_text ready = codes "ready"
state_text failed = codes "failed"
state_text stopped = codes "stopped"
state_text needs_login = codes "needs_login"

pub record Spec : Type 0 where
  pub id : Text
  pub url : Text
  pub oauth : Bool
  pub no_ping : Bool

-- Remote
unfoldable pub is_remote : Spec → Bool
is_remote s = not (is_empty s.url)

-- The durations, in nanoseconds, and the number of failed runs.
pub record Options : Type 0 where
  pub ping_interval : ℤ
  pub start_timeout : ℤ
  pub backoff_min : ℤ
  pub backoff_max : ℤ
  pub stable_after : ℤ
  pub max_failures : ℤ

or_default : ℤ → ℕ → ℤ
or_default (pos n) d = if n == 0 then pos d else pos n
or_default (negsuc n) d = negsuc n

abbrev seconds : ℕ → ℕ
seconds n = n * 1000000000

unfoldable pub defaults : Options → Options
unfolding or_default
defaults o = record {
  ping_interval = or_default o.ping_interval (seconds 30);
  start_timeout = or_default o.start_timeout (seconds 30);
  backoff_min = or_default o.backoff_min (seconds 1);
  backoff_max = or_default o.backoff_max (seconds 60);
  stable_after = or_default o.stable_after (seconds 60);
  max_failures = or_default o.max_failures 5;
}

-- `failures` counts from 0 and stops at an int, so it does not wrap; `restarts` may.
pub record Upstream : Type 0 where
  pub state : State
  pub last_err : Option Text
  pub session : Option ℕ
  pub tools : List Tool
  pub restarts : ℤ
  pub failures : ℕ
  pub pid : ℕ
  pub ping_broken : Bool

unfoldable pub new_upstream : Upstream
new_upstream = record {
  state = starting;
  last_err = none;
  session = none;
  tools = [];
  restarts = pos 0;
  failures = 0;
  pid = 0;
  ping_broken = false;
}

pub record Status : Type 0 where
  pub id : Text
  pub kind : Text
  pub state : Text
  pub pid : ℕ
  pub restarts : ℤ
  pub tools : ℕ
  pub error : Text

unfoldable pub is_ready : State → Bool
is_ready ready = true
is_ready starting = false
is_ready failed = false
is_ready stopped = false
is_ready needs_login = false

text_of : Option Text → Text
text_of none = []
text_of (some t) = t

-- `Status`, less the memory of the processes
unfoldable pub status : Spec → Upstream → Status
unfolding text_of state_text is_ready is_remote
status spec u = record {
  id = spec.id;
  kind = if is_remote spec then codes "http" else codes "stdio";
  state = state_text u.state;
  pid = if is_ready u.state && not (is_remote spec) then u.pid else 0;
  restarts = u.restarts;
  tools = length u.tools;
  error = text_of u.last_err;
}

-- the method `Tools`
unfoldable pub listed_tools : Upstream → List Tool
unfolding is_ready
listed_tools u = if is_ready u.state then u.tools else []

-- `CallTool`: the session that takes the call, or `none` for ErrNotReady
unfoldable pub call_tool : Upstream → Option ℕ
unfolding is_ready
call_tool u = if is_ready u.state then u.session else none
