-- ===== src/Supervisor/Table/Cancelled.antt =====
-- How the loops end after `Stop` has cancelled their context (internal/supervisor/supervisor.go,
-- `Stop`, `run` and `runOnce`).
use rusty_gateway.Common.{
  ◌≡◌, refl, sym, ap, subst, ◌∙◌, true, false, none, some, List, [], ◌∷◌, ◌++◌, In, All, ◌⊎◌, inl,
  inr, arith, Bool-cases, Option-cases, false-true,
}
use rusty_gateway.Common.Text.{text_eq, text_eq_refl}
use rusty_gateway.Supervisor.{Spec, Options, stopped}
use rusty_gateway.Supervisor.Run.{
  Machine, cancel, begin, ask, wake, dial, list, tick, exit, interrupted, settles, timer, stops,
  changed, refresh, begin_run, asked, handler, login_required, refused, waited, connect, connected,
  connect_error, list_tools, ping, ping_ok, ping_unsupported, ping_error, end_run, interrupt,
  settle, stop_resting, refreshed, collect_pages, set_state,
}
use rusty_gateway.Supervisor.Run as Run
use rusty_gateway.Supervisor.Run.Phases.{is_finished}
use rusty_gateway.Supervisor.Table.{
  Loop, Table, new_loop, new_table, view, moved, put, cancel_all, Step, advance, Reach, here, next,
}
use rusty_gateway.Supervisor.Table as Table_
use rusty_gateway.Supervisor.Table.Views.{Apart, Apart-middle, Distinct, TableInv, Step-TableInv}

module _ (opts : Options) (spec : Spec) where
  -- what a step under a cancelled context comes to: the loop goes on, it ends with Stopped, or it
  -- was over before
  abbrev EndsStopped : Machine → Machine → Type 0
  EndsStopped m n =
      (is_finished n.phase ≡ false)
      ⊎ (n.up.state ≡ stopped)
      ⊎ ((is_finished m.phase ≡ true) × (n.up.state ≡ m.up.state))

  same_phase : (m n : Machine) → n.phase ≡ m.phase → n.up.state ≡ m.up.state → EndsStopped m n
  same_phase m n p s = elim (Bool-cases (is_finished m.phase)) [
    | inl over ↦ inr (inr (over, s))
    | inr going ↦ inl (ap is_finished p ∙ going)
  ]

  Step-EndsStopped : {m n : Machine} → m.cancelled ≡ true → Run.Step opts spec m n → EndsStopped m n
  unfolding begin_run asked waited connect list_tools ping end_run interrupt settle stop_resting
      refreshed is_finished set_state
  Step-EndsStopped {m} c cancel = same_phase m (record m { cancelled = true }) refl refl
  Step-EndsStopped c (begin now at) = inl (ground arith)
  Step-EndsStopped c (ask t handler at) = inl refl
  Step-EndsStopped c (ask t (login_required err) at) = inl refl
  Step-EndsStopped c (ask t (refused err) at) = inl refl
  Step-EndsStopped c (wake t none at) = inl refl
  Step-EndsStopped c (wake t (some err) at) = inl refl
  Step-EndsStopped c (dial t (connected s pid v) at) = inl refl
  Step-EndsStopped c (dial t (connect_error err) at) = inl refl
  Step-EndsStopped c (list t v pages at) = elim (Option-cases (collect_pages pages)) [
    | inl e ↦ rw e (inl refl)
    | inr (tools, e) ↦ rw e (inl refl)
  ]
  Step-EndsStopped c (tick t pinged ping_ok at) = inl refl
  Step-EndsStopped c (tick t pinged (ping_unsupported err) at) = inl (rw c (rw at refl))
  Step-EndsStopped c (tick t pinged (ping_error err) at) = inl (rw c (rw at refl))
  Step-EndsStopped c (exit t skip pinged err at) = inl refl
  Step-EndsStopped c (interrupted t skip pinged at k) = inl refl
  Step-EndsStopped c (settles t err now at) = inr (inl (rw c refl))
  Step-EndsStopped c (timer d at) = inl refl
  Step-EndsStopped c (stops d at k) = inr (inl refl)
  Step-EndsStopped {m} c (changed s held) =
      same_phase m (record m { refreshing = s ∷ m.refreshing }) refl refl
  Step-EndsStopped {m} c (refresh before s after pages at) =
      elim (Option-cases (collect_pages pages)) [
        | inl e ↦ rw e (same_phase m (record m { refreshing = before ++ after }) refl refl)
        | inr (tools, e) ↦ rw e (
            same_phase m
              (record m { up = record m.up { tools = tools }; refreshing = before ++ after }) refl
              refl)
      ]

-- In the table t this loop was over, with the state that it has now.
abbrev pub WasOver : Table → Table → Loop → Type 0
WasOver t v l =
    (k : Loop) × In k t.loops
    × (k.spec ≡ l.spec)
    × (is_finished k.phase ≡ true)
    × ((v.upstreams l.spec.id).state ≡ (t.upstreams l.spec.id).state)

-- A loop after `Stop` was called in the table t: it is not over, or it is Stopped, or it was over
-- before.
abbrev pub AfterStop : Table → Table → Loop → Type 0
AfterStop t v l =
    (is_finished l.phase ≡ false) ⊎ ((v.upstreams l.spec.id).state ≡ stopped) ⊎ WasOver t v l

module _ (opts : Options) (t : Table) where
  at-stop :
      (ls : List Loop) → ((k : Loop) → In k ls → In k t.loops) → All (AfterStop t (cancel_all t)) ls
  at-stop [] h = tt
  at-stop (l ∷ ls) h = (
    elim (Bool-cases (is_finished l.phase)) [
      | inl over ↦ inr (inr (l, h l (inl refl), refl, over, refl))
      | inr going ↦ inl going
    ],
    at-stop ls (λ k i. h k (inr i)),
  )

  own-AfterStop :
      (v : Table) (before : List Loop) (l : Loop) (after : List Loop) (m : Machine)
      → EndsStopped opts l.spec (view v l) m
      → AfterStop t v l
      → AfterStop t (put before l after m v) (moved l m)
  unfolding view put
  own-AfterStop v before l after m (inl going) h = inl going
  own-AfterStop v before l after m (inr (inl stop)) h = inr (inl (rw (text_eq_refl l.spec.id) stop))
  own-AfterStop v before l after m (inr (inr (over, same))) (inl going) =
      absurd (false-true (sym going ∙ over))
  own-AfterStop v before l after m (inr (inr (over, same))) (inr (inl stop)) =
      inr (inl (rw (text_eq_refl l.spec.id) (same ∙ stop)))
  own-AfterStop v before l after m (inr (inr (over, same))) (inr (inr (k, i, e, f, was))) =
      inr (inr (k, i, e, f, rw (text_eq_refl l.spec.id) (same ∙ was)))

  other-AfterStop :
      (v : Table) (before : List Loop) (l : Loop) (after : List Loop) (m : Machine) (k : Loop)
      → text_eq l.spec.id k.spec.id ≡ false
      → AfterStop t v k
      → AfterStop t (put before l after m v) k
  unfolding put
  other-AfterStop v before l after m k other h = rw other h

  others-AfterStop :
      (v : Table) (before : List Loop) (l : Loop) (after : List Loop) (m : Machine) (ls : List Loop)
      → Apart l.spec.id ls
      → All (AfterStop t v) ls
      → All (AfterStop t (put before l after m v)) ls
  others-AfterStop v before l after m [] apart h = tt
  others-AfterStop v before l after m (k ∷ ls) apart h = (
    other-AfterStop v before l after m k apart.0 h.0,
    others-AfterStop v before l after m ls apart.2 h.1,
  )

  middle-AfterStop :
      (v : Table) (first : List Loop) (l : Loop) (last : List Loop) (m : Machine)
      (before after : List Loop)
      → EndsStopped opts l.spec (view v l) m
      → Distinct (before ++ l ∷ after)
      → All (AfterStop t v) (before ++ l ∷ after)
      → All (AfterStop t (put first l last m v)) (before ++ moved l m ∷ after)
  middle-AfterStop v first l last m [] after ends d h =
      (own-AfterStop v first l last m ends h.0, others-AfterStop v first l last m after d.0 h.1)
  middle-AfterStop v first l last m (b ∷ before) after ends d h = (
    other-AfterStop v first l last m b (Apart-middle b.spec.id before l after d.0) h.0,
    middle-AfterStop v first l last m before after ends d.1 h.1,
  )

  abbrev AfterInv : Table → Type 0
  AfterInv v = TableInv opts v × (v.cancelled ≡ true) × All (AfterStop t v) v.loops

  Step-AfterInv : {v w : Table} → AfterInv v → Step opts v w → AfterInv w
  unfolding put view
  Step-AfterInv (i, c, h) Table_.cancel = (Step-TableInv opts i Table_.cancel, refl, h)
  Step-AfterInv {v} (i, c, h) (advance before l after m at same s) = (
    Step-TableInv opts i (advance before l after m at same s),
    c,
    middle-AfterStop v before l after m before after (Step-EndsStopped opts l.spec c s)
        (subst Distinct at i.0) (subst (λ ls. All (AfterStop t v) ls) at h),
  )

  pub Reach-AfterInv : {v : Table} → TableInv opts t → Reach opts (cancel_all t) v → AfterInv v
  Reach-AfterInv i here = (Step-TableInv opts i Table_.cancel, refl, at-stop t.loops (λ k j. j))
  Reach-AfterInv i (next r s) = Step-AfterInv (Reach-AfterInv i r) s
