-- ===== src/Supervisor/Run/Invariant.antt =====
-- What holds of an upstream in every state that its run loop reaches
-- (internal/supervisor/supervisor.go, `run` and `runOnce`).
use rusty_gateway.Common.{
  ℕ, ◌≡◌, refl, Bool, true, false, Option, none, some, List, arith, Bool-cases, Option-cases, inl,
  inr, ◌⊎◌, ◌↔◌, ap, ◌∙◌,
}
use rusty_gateway.Common.Text.{Text, codes}
use rusty_gateway.Gateway.Discovery.{Tool}
use rusty_gateway.Common.Int.{ℤ, pos, int_leb, int_ltb}
use rusty_gateway.Supervisor.{Spec, Options, new_upstream, is_ready, call_tool}
use rusty_gateway.Supervisor.Run.{
  Phase, looping, asking, parked, connecting, listing, serving, ended, resting, Machine,
  new_machine, begin_run, asked, handler, login_required, refused, waited, connect, connected,
  connect_error, list_tools, ping, ping_ok, ping_unsupported, ping_error, end_run, torn_down,
  interrupt, settle, stop_resting, refreshed, Step, Reach, cancel, begin, ask, wake, dial, list,
  tick, exit, interrupted, settles, timer, stops, changed, refresh, here, next, collect_pages,
  HandlerReply, ConnectReply, PingReply, set_state,
}
use rusty_gateway.Supervisor.Run.Phases.{
  holds_session, is_serving, may_show_ready, is_finished, has_failed, is_final, is_some,
}

module _ (opts : Options) where
  -- A session is held exactly in the phases that have one, and while it is served the state is
  -- ready. Elsewhere the state is ready at most until the end of the run is recorded, and no
  -- process is named. A loop that goes on has failures left, and one that is over has a final
  -- state; it has failed only if no failures were left.
  abbrev pub UpInv : Machine → Type 0
  UpInv m =
      (is_some m.up.session ≡ holds_session m.phase)
      × (is_serving m.phase ≡ true → is_ready m.up.state ≡ true)
      × (is_ready m.up.state ≡ true → may_show_ready m.phase ≡ true)
      × (holds_session m.phase ≡ false → m.up.pid ≡ 0)
      × (is_finished m.phase ≡ false → int_ltb (pos m.up.failures) opts.max_failures ≡ true)
      × (is_finished m.phase ≡ true → is_final m.up.state ≡ true)
      × (has_failed m.up.state ≡ true → is_finished m.phase ≡ true)
      × (has_failed m.up.state ≡ true → int_leb opts.max_failures (pos m.up.failures) ≡ true)

  new_machine-UpInv : int_ltb (pos 0) opts.max_failures ≡ true → UpInv new_machine
  unfolding set_state holds_session is_serving is_ready may_show_ready is_finished has_failed
      is_final new_machine new_upstream
  new_machine-UpInv h = ground arith

  end_run-UpInv :
      (t : ℕ) (err : Text) (m : Machine)
      → is_finished m.phase ≡ false
      → UpInv m
      → UpInv (end_run t err m)
  unfolding set_state holds_session is_serving is_ready may_show_ready is_finished has_failed
      is_final end_run torn_down
  end_run-UpInv t err m going v = ground arith

  begin_run-UpInv :
      (spec : Spec) (now : ℕ) (m : Machine)
      → m.phase ≡ looping
      → UpInv m
      → UpInv (begin_run spec now m)
  unfolding set_state holds_session is_serving is_ready may_show_ready is_finished has_failed
      is_final begin_run
  begin_run-UpInv spec now m at v = ground arith

  asked-UpInv :
      (t : ℕ) (r : HandlerReply) (m : Machine) → m.phase ≡ asking t → UpInv m → UpInv (asked t r m)
  unfolding set_state holds_session is_serving is_ready may_show_ready is_finished has_failed
      is_final asked
  asked-UpInv t handler m at v = ground arith
  asked-UpInv t (login_required err) m at v = ground arith
  asked-UpInv t (refused err) m at v = ground arith

  waited-UpInv :
      (t : ℕ) (r : Option Text) (m : Machine) → m.phase ≡ parked t → UpInv m → UpInv (waited t r m)
  unfolding set_state holds_session is_serving is_ready may_show_ready is_finished has_failed
      is_final waited
  waited-UpInv t none m at v = ground arith
  waited-UpInv t (some err) m at v = ground arith

  connect-UpInv :
      (spec : Spec) (t : ℕ) (r : ConnectReply) (m : Machine)
      → m.phase ≡ connecting t
      → UpInv m
      → UpInv (connect spec t r m)
  unfolding set_state holds_session is_serving is_ready may_show_ready is_finished has_failed
      is_final connect
  connect-UpInv spec t (connected s pid version) m at v = ground arith
  connect-UpInv spec t (connect_error err) m at v = ground arith

  list_tools-UpInv :
      (spec : Spec) (t : ℕ) (version : Option Text) (r : Option (List Tool)) (m : Machine)
      → m.phase ≡ listing t version
      → UpInv m
      → UpInv (list_tools spec t version r m)
  unfolding set_state holds_session is_serving is_ready may_show_ready is_finished has_failed
      is_final list_tools
  list_tools-UpInv spec t version none m at v =
      end_run-UpInv t (codes "tools/list") m (ground arith) v
  list_tools-UpInv spec t version (some tools) m at v = ground arith

  ping-UpInv :
      (t : ℕ) (pinged : Bool) (r : PingReply) (m : Machine)
      → m.phase ≡ serving t false pinged
      → UpInv m
      → UpInv (ping t pinged r m)
  unfolding set_state holds_session is_serving is_ready may_show_ready is_finished has_failed
      is_final ping end_run torn_down
  ping-UpInv t pinged ping_ok m at v = ground arith
  ping-UpInv t pinged (ping_unsupported err) m at v = ground arith
  ping-UpInv t pinged (ping_error err) m at v = ground arith

  interrupt-UpInv :
      (t : ℕ) (skip pinged : Bool) (m : Machine)
      → m.phase ≡ serving t skip pinged
      → UpInv m
      → UpInv (interrupt t m)
  unfolding set_state holds_session is_serving is_ready may_show_ready is_finished has_failed
      is_final interrupt end_run torn_down
  interrupt-UpInv t skip pinged m at v = ground arith

  settle-UpInv :
      (t : ℕ) (err : Text) (now : ℕ) (m : Machine)
      → m.phase ≡ ended t err
      → UpInv m
      → UpInv (settle opts t err now m)
  unfolding set_state holds_session is_serving is_ready may_show_ready is_finished has_failed
      is_final settle
  settle-UpInv t err now m at v = ground arith

  stop_resting-UpInv :
      (d : ℤ) (m : Machine) → m.phase ≡ resting d → UpInv m → UpInv (stop_resting m)
  unfolding set_state holds_session is_serving is_ready may_show_ready is_finished has_failed
      is_final stop_resting
  stop_resting-UpInv d m at v = ground arith

  serving_callable :
      (m : Machine) → UpInv m → (is_serving m.phase ≡ true) ↔ (is_some (call_tool m.up) ≡ true)
  unfolding call_tool holds_session is_serving may_show_ready
  serving_callable m v = ground arith

  over-idle : (p : Phase) → is_finished p ≡ true → holds_session p ≡ false
  unfolding holds_session is_finished
  over-idle p h = ground arith

  no_session : (o : Option ℕ) → is_some o ≡ false → o ≡ none
  no_session none h = refl
  no_session (some s) h = cc

  over_facts :
      (m : Machine)
      → UpInv m
      → is_finished m.phase ≡ true
      → (is_finished m.phase ≡ true)
        × (is_final m.up.state ≡ true)
        × (m.up.session ≡ none)
        × (m.up.pid ≡ 0)
        × (has_failed m.up.state ≡ true → int_leb opts.max_failures (pos m.up.failures) ≡ true)
  over_facts m v over =
      let idle = over-idle m.phase over in
      let (held, a, b, process, c, settled, d, spent) = v in
      (over, settled over, no_session m.up.session (held ∙ idle), process idle, spent)

  going_or_over :
      (m : Machine)
      → UpInv m
      → ((is_finished m.phase ≡ false)
          × (int_ltb (pos m.up.failures) opts.max_failures ≡ true)
          × (has_failed m.up.state ≡ false))
        ⊎ ((is_finished m.phase ≡ true)
            × (is_final m.up.state ≡ true)
            × (m.up.session ≡ none)
            × (m.up.pid ≡ 0)
            × (has_failed m.up.state ≡ true → int_leb opts.max_failures (pos m.up.failures) ≡ true))
  unfolding holds_session is_finished
  going_or_over m v = elim (Bool-cases (is_finished m.phase)) [
    | inl over ↦ inr (over_facts m v over)
    | inr going ↦ inl (going, v.4 going, ground arith)
  ]

  module _ (spec : Spec) where
    Step-UpInv : {m n : Machine} → UpInv m → Step opts spec m n → UpInv n
    unfolding set_state holds_session is_serving is_ready may_show_ready is_finished has_failed
        is_final refreshed
    Step-UpInv v cancel = v
    Step-UpInv v (begin now at) = begin_run-UpInv spec now _ at v
    Step-UpInv v (ask t r at) = asked-UpInv t r _ at v
    Step-UpInv v (wake t r at) = waited-UpInv t r _ at v
    Step-UpInv v (dial t r at) = connect-UpInv spec t r _ at v
    Step-UpInv v (list t version pages at) =
        list_tools-UpInv spec t version (collect_pages pages) _ at v
    Step-UpInv v (tick t pinged r at) = ping-UpInv t pinged r _ at v
    Step-UpInv v (exit t skip pinged err at) = end_run-UpInv t err _ (ap is_finished at) v
    Step-UpInv v (interrupted t skip pinged at c) = interrupt-UpInv t skip pinged _ at v
    Step-UpInv v (settles t err now at) = settle-UpInv t err now _ at v
    Step-UpInv v (timer d at) = ground arith
    Step-UpInv v (stops d at c) = stop_resting-UpInv d _ at v
    Step-UpInv v (changed s held) = v
    Step-UpInv v (refresh before s after pages at) = elim (Option-cases (collect_pages pages)) [
      | inl e ↦ rw e v
      | inr (tools, e) ↦ rw e v
    ]

    pub Reach-UpInv :
        (m : Machine)
        → int_ltb (pos 0) opts.max_failures ≡ true
        → Reach opts spec new_machine m
        → UpInv m
    Reach-UpInv m h here = new_machine-UpInv h
    Reach-UpInv m h (next r s) = Step-UpInv (Reach-UpInv _ h r) s

    -- In every state that the run loop of a new upstream reaches, with max_failures > 0: CallTool
    -- has a session to call exactly while the loop serves one, between its first list of tools and
    -- the end of the run.
    pub Reach-call_tool_iff :
        (m : Machine)
        → int_ltb (pos 0) opts.max_failures ≡ true
        → Reach opts spec new_machine m
        → (is_serving m.phase ≡ true) ↔ (is_some (call_tool m.up) ≡ true)
    unfolding call_tool
    Reach-call_tool_iff m h r = serving_callable m (Reach-UpInv m h r)

    -- In every state that the run loop of a new upstream reaches, with max_failures > 0: while the
    -- loop goes on, the failures in a row are fewer than max_failures; an upstream is Failed only
    -- when there were at least as many and the loop is over; and when it is over, the state is
    -- Failed or Stopped, no session is held and no process is named.
    pub Reach-budget :
        (m : Machine)
        → int_ltb (pos 0) opts.max_failures ≡ true
        → Reach opts spec new_machine m
        → ((is_finished m.phase ≡ false)
            × (int_ltb (pos m.up.failures) opts.max_failures ≡ true)
            × (has_failed m.up.state ≡ false))
          ⊎ ((is_finished m.phase ≡ true)
              × (is_final m.up.state ≡ true)
              × (m.up.session ≡ none)
              × (m.up.pid ≡ 0)
              × (has_failed m.up.state ≡ true
                  → int_leb opts.max_failures (pos m.up.failures) ≡ true))
    Reach-budget m h r = going_or_over m (Reach-UpInv m h r)
