-- ===== src/Supervisor/Table/Waiting.antt =====
-- When `Start` returns (internal/supervisor/supervisor.go, `Start`, `run`).
use rusty_gateway.Common.{
  ℕ, suc, ◌≡◌, ◌<◌, refl, sym, ap, subst, ◌∙◌, Bool, true, false, none, some, List, [], ◌∷◌, ◌++◌,
  inl, inr, arith, All, all, map, length, Bool-cases, Option-cases, false-true,
}
use rusty_gateway.Common.Int.{pos}
use rusty_gateway.Common.Text.{Text, codes, text_eq}
use rusty_gateway.Supervisor.{
  Spec, Options, State, starting, new_upstream, Status, status, state_text,
}
use rusty_gateway.Supervisor.Run.{
  Machine, new_machine, cancel, begin, ask, wake, dial, list, tick, exit, interrupted, settles,
  timer, stops, changed, refresh, begin_run, asked, handler, login_required, refused, waited,
  connect, connected, connect_error, list_tools, ping, ping_ok, ping_unsupported, ping_error,
  end_run, interrupt, settle, stop_resting, refreshed, collect_pages, set_state, torn_down,
  next_failures, Phase, looping, asking, parked, connecting, listing, serving, ended, resting,
  finished,
}
use rusty_gateway.Supervisor.Run as Run
use rusty_gateway.Supervisor.Run.Backoff.{IsShort, crash, crashes, crashes-count, crashes_give_up}
use rusty_gateway.Supervisor.Table.{
  Loop, Table, new_loop, new_table, view, moved, Reach, has_started, statuses,
}
use rusty_gateway.Supervisor.Table.Views.{Distinct, AllRun, Runs, Reach-TableInv}
use rusty_gateway.Supervisor.Table.Lifting.{lift}

-- where a loop can stand that has not called firstDone
abbrev is_early : Phase → Bool
is_early (parked t) = false
is_early (serving t skip pinged) = false
is_early finished = false
is_early looping = true
is_early (asking t) = true
is_early (connecting t) = true
is_early (listing t v) = true
is_early (ended t err) = true
is_early (resting d) = true

abbrev FirstInv : Machine → Type 0
FirstInv m = m.first_done ≡ false → (m.up.state ≡ starting) × (is_early m.phase ≡ true)

module _ (opts : Options) (spec : Spec) where
  Step-FirstInv : {m n : Machine} → FirstInv m → Run.Step opts spec m n → FirstInv n
  unfolding begin_run asked waited connect list_tools ping end_run interrupt settle stop_resting
      refreshed set_state torn_down
  Step-FirstInv v cancel = v
  Step-FirstInv v (begin now at) = ground arith
  Step-FirstInv v (ask t handler at) = ground arith
  Step-FirstInv v (ask t (login_required err) at) = ground arith
  Step-FirstInv v (ask t (refused err) at) = ground arith
  Step-FirstInv v (wake t none at) = ground arith
  Step-FirstInv v (wake t (some err) at) = ground arith
  Step-FirstInv v (dial t (connected s pid version) at) = ground arith
  Step-FirstInv v (dial t (connect_error err) at) = ground arith
  Step-FirstInv v (list t version pages at) = elim (Option-cases (collect_pages pages)) [
    | inl e ↦ rw e (ground arith)
    | inr (tools, e) ↦ rw e (ground arith)
  ]
  Step-FirstInv v (tick t pinged ping_ok at) = ground arith
  Step-FirstInv v (tick t pinged (ping_unsupported err) at) = ground arith
  Step-FirstInv v (tick t pinged (ping_error err) at) = ground arith
  Step-FirstInv v (exit t skip pinged err at) = ground arith
  Step-FirstInv v (interrupted t skip pinged at c) = ground arith
  Step-FirstInv v (settles t err now at) = ground arith
  Step-FirstInv v (timer d at) = ground arith
  Step-FirstInv v (stops d at c) = ground arith
  Step-FirstInv v (changed s held) = v
  Step-FirstInv v (refresh before s after pages at) = elim (Option-cases (collect_pages pages)) [
    | inl e ↦ rw e v
    | inr (tools, e) ↦ rw e v
  ]

  Reach-FirstInv : (m : Machine) → Run.Reach opts spec new_machine m → FirstInv m
  unfolding new_machine new_upstream
  Reach-FirstInv m Run.here = ground arith
  Reach-FirstInv m (Run.next r s) = Step-FirstInv (Reach-FirstInv _ r) s

abbrev pub IsPastStarting : Status → Type 0
IsPastStarting st = text_eq st.state (codes "starting") ≡ false

module _ (opts : Options) where
  loop_signalled :
      (t : Table) (l : Loop)
      → Runs opts t l
      → IsPastStarting (status l.spec (t.upstreams l.spec.id))
      → l.first_done ≡ true
  unfolding status state_text view text_eq
  loop_signalled t l r past = elim (Bool-cases l.first_done) [
    | inl done ↦ done
    | inr waits ↦
        let (state, early) = Reach-FirstInv opts l.spec (view t l) r waits in
        absurd (
          false-true (
            sym (
              subst (λ (s : State). text_eq (state_text s) (codes "starting") ≡ false) state past)))
  ]

  all_signalled :
      (t : Table) (ls : List Loop)
      → AllRun opts t ls
      → All IsPastStarting (map (λ l. status l.spec (t.upstreams l.spec.id)) ls)
      → all (λ l. l.first_done) ls ≡ true
  all_signalled t [] h past = refl
  all_signalled t (l ∷ ls) h past =
      rw (loop_signalled t l h.0 past.0) (all_signalled t ls h.1 past.1)

  -- In every state that the supervisor of specs with distinct IDs reaches: once no status says
  -- "starting", `Start` has been told of every upstream and returns.
  pub has_started-statuses :
      (specs : List Spec) (t : Table)
      → Distinct (map new_loop specs)
      → Reach opts (new_table specs) t
      → All IsPastStarting (statuses t)
      → has_started t ≡ true
  unfolding has_started statuses
  has_started-statuses specs t d r past =
      all_signalled t t.loops (Reach-TableInv opts specs t d r).1 past

  crashes-first :
      (spec : Spec) (err : Text) (n : ℕ) (rs : List (ℕ × ℕ))
      → opts.max_failures ≡ pos n
      → All (IsShort opts spec err) rs
      → length rs < n
      → (crashes opts spec err rs).first_done ≡ false
  unfolding crashes crash settle connect begin_run new_machine set_state next_failures
  crashes-first spec err n [] limit h less = refl
  crashes-first spec err n (r ∷ rs) limit h less =
      ground (arith, crashes-count opts spec err rs, crashes-first spec err n rs)

  not_all :
      (before : List Loop) (l : Loop) (after : List Loop)
      → l.first_done ≡ false
      → all (λ k. k.first_done) (before ++ l ∷ after) ≡ false
  not_all [] l after h = rw h
  not_all (b ∷ before) l after h = ground (arith, not_all before l after)

  map-middle :
      (before : List Spec) (spec : Spec) (after : List Spec)
      → map new_loop (before ++ spec ∷ after)
        ≡ map new_loop before ++ new_loop spec ∷ map new_loop after
  map-middle [] spec after = refl
  map-middle (b ∷ before) spec after = ap (λ ls. new_loop b ∷ ls) (map-middle before spec after)

  -- A first start that fails does not end the wait of `Start`: with max_failures = n, the
  -- supervisor of an upstream without oauth, and of any others, reaches a state in which fewer
  -- than n short runs of this upstream have failed to connect, its failures are counted, and
  -- `Start` still waits.
  pub crashes-wait :
      (spec : Spec) (err : Text) (n : ℕ) (r : ℕ × ℕ) (rs : List (ℕ × ℕ)) (before after : List Spec)
      → spec.oauth ≡ false
      → opts.max_failures ≡ pos n
      → All (IsShort opts spec err) (r ∷ rs)
      → suc (length rs) < n
      → (t : Table) × Reach opts (new_table (before ++ spec ∷ after)) t
        × ((t.upstreams spec.id).failures ≡ suc (length rs))
        × (has_started t ≡ false)
  unfolding has_started new_table new_loop view new_machine
  crashes-wait spec err n r rs before after plain limit h less =
      let ran = (crashes_give_up opts spec err n r rs plain limit h (omega arith)).0 in
      let up =
        lift opts (new_table (before ++ spec ∷ after)) (map new_loop before) (new_loop spec)
          (map new_loop after) (map-middle before spec after) ran in
      (
        up.table,
        up.reached,
        ap (λ m. m.up.failures) up.seen ∙ (crashes-count opts spec err (r ∷ rs) h).0,
        rw up.loops_at (
            not_all (map new_loop before) (moved (new_loop spec) (crashes opts spec err (r ∷ rs)))
              (map new_loop after) (crashes-first spec err n (r ∷ rs) limit h less)),
      )
