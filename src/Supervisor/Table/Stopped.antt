-- ===== src/Supervisor/Table/Stopped.antt =====
-- What `Stop` leaves behind (internal/supervisor/supervisor.go, `Stop`, `LivePIDs`).
use rusty_gateway.Common.{
  ◌≡◌, refl, Bool, true, ◌&&◌, none, List, [], ◌∷◌, inl, inr, arith, All, all, map,
}
use rusty_gateway.Common.Text.{Text}
use rusty_gateway.Common.Int.{pos, int_ltb}
use rusty_gateway.Supervisor.{Spec, Options, Upstream}
use rusty_gateway.Supervisor.Run.Phases.{is_finished, is_final}
use rusty_gateway.Supervisor.Run.Invariant.{Reach-budget}
use rusty_gateway.Supervisor.Table.{
  Loop, Table, new_loop, new_table, view, Reach, has_stopped, live_pids, pids_of, sort_pids,
}
use rusty_gateway.Supervisor.Table.Views.{Distinct, AllRun, Runs, Reach-TableInv}

-- no session, no process, and a state that is Failed or Stopped
abbrev pub IsIdle : (Text → Upstream) → Loop → Type 0
IsIdle ups l =
    ((ups l.spec.id).session ≡ none)
    × ((ups l.spec.id).pid ≡ 0)
    × (is_final (ups l.spec.id).state ≡ true)

no-pids : (ups : Text → Upstream) (ls : List Loop) → All (IsIdle ups) ls → pids_of ups ls ≡ []
unfolding pids_of
no-pids ups [] h = refl
no-pids ups (l ∷ ls) h = rw (h.0.1, no-pids ups ls h.1)

module _ (opts : Options) where
  finished-IsIdle :
      (t : Table) (l : Loop)
      → int_ltb (pos 0) opts.max_failures ≡ true
      → is_finished l.phase ≡ true
      → Runs opts t l
      → IsIdle t.upstreams l
  unfolding view
  finished-IsIdle t l limit over r = elim (Reach-budget opts l.spec (view t l) limit r) [
    | inl (going, a, b) ↦ cc
    | inr (o, final, session, pid, c) ↦ (session, pid, final)
  ]

  all-IsIdle :
      (t : Table) (ls : List Loop)
      → int_ltb (pos 0) opts.max_failures ≡ true
      → all (λ l. is_finished l.phase) ls ≡ true
      → AllRun opts t ls
      → All (IsIdle t.upstreams) ls
  all-IsIdle t [] limit over h = tt
  all-IsIdle t (l ∷ ls) limit over h =
      let (first, rest) = both (is_finished l.phase) (all (λ k. is_finished k.phase) ls) over in
      (finished-IsIdle t l limit first h.0, all-IsIdle t ls limit rest h.1)
    where
      both : (a b : Bool) → (a && b) ≡ true → (a ≡ true) × (b ≡ true)
      both a b h = ground arith

  -- With max_failures > 0 and distinct IDs: when all run loops are over, so that `Stop` returns,
  -- no upstream holds a session or names a process, each is Failed or Stopped, and LivePIDs lists
  -- nothing.
  pub has_stopped-IsIdle :
      (specs : List Spec) (t : Table)
      → int_ltb (pos 0) opts.max_failures ≡ true
      → Distinct (map new_loop specs)
      → Reach opts (new_table specs) t
      → has_stopped t ≡ true
      → All (IsIdle t.upstreams) t.loops × (live_pids t ≡ [])
  unfolding has_stopped live_pids sort_pids
  has_stopped-IsIdle specs t limit d r over =
      let idle = all-IsIdle t t.loops limit over (Reach-TableInv opts specs t d r).1 in
      (idle, rw (no-pids t.upstreams t.loops idle))

  -- from here, all loops can come to their end
  abbrev Ends : Table → Type 0
  Ends t = (u : Table) × Reach opts t u × (has_stopped u ≡ true)
