-- ===== src/Supervisor/Table/Tests.antt =====
-- The theorems about the table of upstreams at concrete inputs.
use rusty_gateway.Common.{suc, ℕ, ◌≡◌, refl, false, none, some, List, [], ◌∷◌, ◌++◌, arith, length}
use rusty_gateway.Common.Int.{pos}
use rusty_gateway.Common.Text.{codes}
use rusty_gateway.Supervisor.{Spec, Options, Upstream, State, is_remote, state_text, status}
use rusty_gateway.Supervisor as Sup
use rusty_gateway.Supervisor.Run.{
  looping, connecting, Machine, new_machine, begin_run, begin, dial, connected, connect, list,
  list_tools, collect_pages,
}
use rusty_gateway.Supervisor.Run as Run
use rusty_gateway.Supervisor.Table.{
  Table, new_loop, new_table, view, moved, Loop, Reach, has_started,
}
use rusty_gateway.Supervisor.Table.Lifting.{Lifted, lift}
use rusty_gateway.Supervisor.Table.Waiting.{crashes-wait}

abbrev options : Options
options = record {
  ping_interval = pos 30;
  start_timeout = pos 30;
  backoff_min = pos 1;
  backoff_max = pos 60;
  stable_after = pos 60;
  max_failures = pos 3;
}

abbrev local : Spec
local = record { id = codes "me/hevy"; url = []; oauth = false; no_ping = false }

abbrev remote : Spec
remote = record { id = codes "me/far"; url = codes "https://x"; oauth = false; no_ping = false }

abbrev two : List Spec
two = local ∷ remote ∷ []

-- the first upstream is ready, and the other one has not begun
ready : Machine
ready =
    list_tools local 0 none (collect_pages (some ([], []) ∷ []))
      (connect local 0 (connected 1 77 none) (begin_run local 0 new_machine))

ready-Reach : Run.Reach options local new_machine ready
unfolding ready begin_run connect new_machine is_remote
ready-Reach =
    Run.next (Run.next (Run.next Run.here (begin 0 refl)) (dial 0 (connected 1 77 none) refl))
      (list 0 none (some ([], []) ∷ []) refl)

-- `Stop` is called then, and the first loop sees it
abbrev serving_loop : Loop
serving_loop = moved (new_loop local) ready

alone : Lifted options (new_table (local ∷ [])) [] (new_loop local) [] ready
unfolding new_table
alone =
    lift options (new_table (local ∷ [])) [] (new_loop local) [] refl
      (unfold new_table new_loop view new_machine in ready-Reach)

ready-state : ready.up.state ≡ Sup.ready
unfolding ready list_tools connect begin_run collect_pages
ready-state = refl

crashes-wait_example :
    (t : Table) × Reach options (new_table ([] ++ local ∷ remote ∷ [])) t
    × ((t.upstreams local.id).failures ≡ suc (length {A = ℕ × ℕ} []))
    × (has_started t ≡ false)
crashes-wait_example =
    crashes-wait options local (codes "down") 3 (1, 2) [] [] (remote ∷ []) refl refl (refl, tt)
      (omega arith)
