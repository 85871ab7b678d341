-- ===== src/Supervisor/Table.antt =====
-- The table of all upstreams (internal/supervisor/supervisor.go: `New`, `Start`, `Stop`, `Get`,
-- `Statuses`, `LivePIDs`). Each loop of `Start` is a loop of Supervisor/Run on the upstream that the
-- table has under its ID; two loops with one ID share that upstream.
pub mod Views
pub mod Lifting
pub mod Cancelled
pub mod Stopped
pub mod Waiting
mod Tests
use rusty_gateway.Common.{
  ℕ, ◌≡◌, Bool, true, false, Option, none, some, List, [], ◌∷◌, ◌++◌, ◌&&◌, not, map, all, ltb,
  ◌==◌, if◌then◌else◌, Assoc, lookup,
}
use rusty_gateway.Common.Text.{Text, text_eq}
use rusty_gateway.Supervisor.{Spec, Options, Upstream, new_upstream, Status, status}
use rusty_gateway.Supervisor.Run.{Phase, looping, Machine}
use rusty_gateway.Supervisor.Run.Phases.{is_finished}
use rusty_gateway.Supervisor.Run as Run

-- One goroutine of `Start`: the upstream that it runs, and the rest of its Machine.
pub record Loop : Type 0 where
  pub spec : Spec
  pub phase : Phase
  pub first_done : Bool
  pub refreshing : List ℕ

pub record Table : Type 0 where
  -- the map of the upstreams, which has every ID of the loops
  pub upstreams : Text → Upstream
  -- `order`, with the goroutine that each turn of the loop of `Start` launches
  pub loops : List Loop
  -- the context that `Stop` cancels
  pub cancelled : Bool

unfoldable pub new_loop : Spec → Loop
new_loop sp = record { spec = sp; phase = looping; first_done = false; refreshing = [] }

-- `New`, and the loop of `Start`. The IDs of the specs are taken to be different: of two specs with
-- one ID, `New` keeps the later one for both loops.
unfoldable pub new_table : List Spec → Table
unfolding new_loop
new_table specs = record {
  upstreams = λ id. new_upstream;
  loops = map new_loop specs;
  cancelled = false;
}

-- what the goroutine of a loop sees
unfoldable pub view : Table → Loop → Machine
view t l = record {
  up = t.upstreams l.spec.id;
  phase = l.phase;
  cancelled = t.cancelled;
  first_done = l.first_done;
  refreshing = l.refreshing;
}

abbrev pub set_upstream : Text → Upstream → (Text → Upstream) → Text → Upstream
set_upstream id u ups j = if text_eq id j then u else ups j

abbrev pub moved : Loop → Machine → Loop
moved l m = record l { phase = m.phase; first_done = m.first_done; refreshing = m.refreshing }

unfoldable pub put : List Loop → Loop → List Loop → Machine → Table → Table
put before l after m t = record t {
  upstreams = set_upstream l.spec.id m.up t.upstreams;
  loops = before ++ moved l m ∷ after;
}

-- s.cancel() of `Stop`: the context of all loops
abbrev pub cancel_all : Table → Table
cancel_all t = record t { cancelled = true }

module _ (opts : Options) where
  -- One loop takes a step, or `Stop` or the caller of `Start` cancels the context of all.
  pub data Step (t : Table) : Table → Type 0 where
    cancel : Step t (cancel_all t)
    advance :
        (before : List Loop) (l : Loop) (after : List Loop) (m : Machine)
        → t.loops ≡ before ++ l ∷ after
        → m.cancelled ≡ t.cancelled
        → Run.Step opts l.spec (view t l) m
        → Step t (put before l after m t)

  pub data Reach (t : Table) : Table → Type 0 where
    here : Reach t t
    next : {u v : Table} → Reach t u → Step u v → Reach t v

-- first.Wait() returns
unfoldable pub has_started : Table → Bool
has_started t = all (λ l. l.first_done) t.loops

-- s.wg.Wait() returns
unfoldable pub has_stopped : Table → Bool
has_stopped t = all (λ l. is_finished l.phase) t.loops

unfoldable pub statuses : Table → List Status
statuses t = map (λ l. status l.spec (t.upstreams l.spec.id)) t.loops

pids_of : (Text → Upstream) → List Loop → List ℕ
pids_of ups [] = []
pids_of ups (l ∷ ls) =
    let rest = pids_of ups ls in
    let pid = (ups l.spec.id).pid in if pid == 0 then rest else pid ∷ rest

-- sort.Ints: numbers that are equal cannot be told apart, so any sort has this result
place_pid : ℕ → List ℕ → List ℕ
place_pid p [] = p ∷ []
place_pid p (q ∷ qs) = let rest = place_pid p qs in if ltb q p then q ∷ rest else p ∷ q ∷ qs

sort_pids : List ℕ → List ℕ
unfolding place_pid
sort_pids [] = []
sort_pids (p ∷ ps) = place_pid p (sort_pids ps)

unfoldable pub live_pids : Table → List ℕ
unfolding pids_of sort_pids
live_pids t = sort_pids (pids_of t.upstreams t.loops)
