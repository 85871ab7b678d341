-- ===== src/Supervisor/Run/Phases.antt =====
-- Where the run loop of an upstream stands, and what its state says (internal/supervisor/supervisor.go).
use rusty_gateway.Common.{ℕ, Bool, true, false, Option, none, some}
use rusty_gateway.Supervisor.{State, starting, ready, failed, stopped, needs_login}
use rusty_gateway.Supervisor.Run.{
  Phase, looping, asking, parked, connecting, listing, serving, ended, resting, finished,
}

unfoldable pub holds_session : Phase → Bool
holds_session (listing t v) = true
holds_session (serving t skip pinged) = true
holds_session looping = false
holds_session (asking t) = false
holds_session (parked t) = false
holds_session (connecting t) = false
holds_session (ended t err) = false
holds_session (resting d) = false
holds_session finished = false

unfoldable pub is_serving : Phase → Bool
is_serving (serving t skip pinged) = true
is_serving (listing t v) = false
is_serving looping = false
is_serving (asking t) = false
is_serving (parked t) = false
is_serving (connecting t) = false
is_serving (ended t err) = false
is_serving (resting d) = false
is_serving finished = false

-- where the state may still be that of a run: in it, and before `settle` has recorded its end
unfoldable pub may_show_ready : Phase → Bool
may_show_ready (serving t skip pinged) = true
may_show_ready (ended t err) = true
may_show_ready (listing t v) = false
may_show_ready looping = false
may_show_ready (asking t) = false
may_show_ready (parked t) = false
may_show_ready (connecting t) = false
may_show_ready (resting d) = false
may_show_ready finished = false

unfoldable pub is_finished : Phase → Bool
is_finished finished = true
is_finished (serving t skip pinged) = false
is_finished (listing t v) = false
is_finished looping = false
is_finished (asking t) = false
is_finished (parked t) = false
is_finished (connecting t) = false
is_finished (ended t err) = false
is_finished (resting d) = false

unfoldable pub has_failed : State → Bool
has_failed failed = true
has_failed ready = false
has_failed starting = false
has_failed stopped = false
has_failed needs_login = false

unfoldable pub is_final : State → Bool
is_final failed = true
is_final stopped = true
is_final ready = false
is_final starting = false
is_final needs_login = false

abbrev pub is_some : Option ℕ → Bool
is_some none = false
is_some (some s) = true
