-- ===== src/Supervisor/Run.antt =====
-- The run loop of one upstream as a step relation (internal/supervisor/supervisor.go: `run`,
-- `runOnce`, `awaitOAuth`, `refreshTools`). The phase is where the loop stands; the environment
-- chooses how each call returns. One step is what happens between two waits.
pub mod Phases
pub mod Invariant
pub mod Backoff
pub mod Stopping
use rusty_gateway.Common.{
  ℕ, zero, suc, ◌+◌, ◌-◌, ◌*◌, ◌^◌, ◌%◌, ◌≡◌, Bool, true, false, Option, none, some, List, [], ◌∷◌,
  ◌++◌, ◌&&◌, ◌||◌, not, if◌then◌else◌,
}
use rusty_gateway.Common.Int.{ℤ, pos, int_leb, int_ltb, int_inc, of_bits, to_bits, time_sub}
use rusty_gateway.Common.Text.{Text, codes, is_empty}
use rusty_gateway.Gateway.Discovery.{Tool}
use rusty_gateway.Gateway.Discovery.Ranking.{text_ltb}
use rusty_gateway.Supervisor.{
  State, starting, ready, failed, stopped, needs_login, Spec, is_remote, Options, Upstream,
  new_upstream,
}

-- `started` is the instant at the top of the loop.
pub data Phase : Type 0 where
  -- the top of the loop
  looping : Phase
  -- in `awaitOAuth`, before p.Handler and in p.Wait
  asking parked : ℕ → Phase
  -- in client.Connect
  connecting : ℕ → Phase
  -- in the first `refreshTools`, with the protocol version of the session
  listing : ℕ → Option Text → Phase
  -- in the select of `runOnce`: are pings off, and has one succeeded
  serving : ℕ → Bool → Bool → Phase
  -- `runOnce` has returned this error
  ended : ℕ → Text → Phase
  -- in the select on time.After(delay)
  resting : ℤ → Phase
  finished : Phase

pub record Machine : Type 0 where
  pub up : Upstream
  pub phase : Phase
  -- ctx.Err() != nil
  pub cancelled : Bool
  -- `signalFirst` has been called
  pub first_done : Bool
  -- the sessions for which a ToolListChangedHandler is in `refreshTools`
  pub refreshing : List ℕ

unfoldable pub new_machine : Machine
new_machine = record {
  up = new_upstream;
  phase = looping;
  cancelled = false;
  first_done = false;
  refreshing = [];
}

unfoldable pub set_state : State → Option Text → Upstream → Upstream
set_state st err u = record u { state = st; last_err = err }

-- the deferred function of `runOnce`
unfoldable pub torn_down : Upstream → Upstream
torn_down u = record u { session = none; pid = 0; tools = [] }

unfoldable pub end_run : ℕ → Text → Machine → Machine
unfolding torn_down
end_run started err m = record m { up = torn_down m.up; phase = ended started err }

-- the start of `runOnce`
unfoldable pub begin_run : Spec → ℕ → Machine → Machine
begin_run spec now m = record m {
  phase = if is_remote spec && spec.oauth then asking now else connecting now;
}

-- What p.Handler answers; without a provider it is `refused`.
pub data HandlerReply : Type 0 where
  handler : HandlerReply
  login_required refused : Text → HandlerReply

unfoldable pub asked : ℕ → HandlerReply → Machine → Machine
unfolding set_state
asked started handler m = record m { phase = connecting started }
asked started (login_required err) m = record m {
  up = set_state needs_login (some err) m.up;
  first_done = true;
  phase = parked started;
}
asked started (refused err) m = record m { phase = ended started err }

-- p.Wait returned, with an error or without one
unfoldable pub waited : ℕ → Option Text → Machine → Machine
unfolding set_state
waited started none m = record m { up = set_state starting none m.up; phase = asking started }
waited started (some err) m = record m { phase = ended started err }

pub data ConnectReply : Type 0 where
  -- the session, the process that serves it, and its protocol version
  connected : ℕ → ℕ → Option Text → ConnectReply
  connect_error : Text → ConnectReply

unfoldable pub connect : Spec → ℕ → ConnectReply → Machine → Machine
connect spec started (connect_error err) m = record m { phase = ended started err }
connect spec started (connected s pid version) m = record m {
  up = record m.up { session = some s; pid = if is_remote spec then 0 else pid };
  phase = listing started version;
}

-- res.ProtocolVersion >= "2026-07-28"
unfoldable pub has_no_ping : Option Text → Bool
has_no_ping none = false
has_no_ping (some version) = not (text_ltb version (codes "2026-07-28"))

-- The loop of `refreshTools` over the pages that arrive: tools and the next cursor, or `none` for
-- an error.
unfoldable pub collect_pages : List (Option (List Tool × Text)) → Option (List Tool)
collect_pages [] = none
collect_pages (none ∷ pages) = none
collect_pages (some (tools, cursor) ∷ pages) =
    let rest = collect_pages pages in
    if is_empty cursor
    then some tools
    else elim rest [ none ↦ none | some more ↦ some (tools ++ more) ]

-- the first `refreshTools` returned; on success `setState(Ready, nil)` and `onReady()`
unfoldable pub list_tools : Spec → ℕ → Option Text → Option (List Tool) → Machine → Machine
unfolding end_run set_state
list_tools spec started version none m = end_run started (codes "tools/list") m
list_tools spec started version (some tools) m = record m {
  up = set_state ready none (record m.up { tools = tools });
  first_done = true;
  phase = serving started (spec.no_ping || m.up.ping_broken || has_no_ping version) false;
}

pub data PingReply : Type 0 where
  ping_ok : PingReply
  -- `pingUnsupported` holds of the error, or does not
  ping_unsupported ping_error : Text → PingReply

-- the ticker's case of the select
unfoldable pub ping : ℕ → Bool → PingReply → Machine → Machine
unfolding end_run
ping started pinged ping_ok m = record m { phase = serving started false true }
ping started pinged (ping_unsupported err) m =
    if m.cancelled
    then m
    else if not pinged
    then record m { up = record m.up { ping_broken = true }; phase = serving started true pinged }
    else end_run started err m
ping started pinged (ping_error err) m = if m.cancelled then m else end_run started err m

-- ctx.Done() in the select of `runOnce`
unfoldable pub interrupt : ℕ → Machine → Machine
unfolding end_run set_state
interrupt started m =
    end_run started (codes "context canceled") (record m { up = set_state stopped none m.up })

-- opts.BackoffMin<<(failures-1) on 64 bits, and `min`
unfoldable pub backoff : Options → ℕ → ℤ
backoff opts failures =
    let shifted = of_bits ((to_bits opts.backoff_min * 2 ^ (failures - 1)) % 2 ^ 64) in
    if int_ltb opts.backoff_max shifted then opts.backoff_max else shifted

-- the failures after this run
unfoldable pub next_failures : Options → ℕ → ℕ → ℕ → ℕ
next_failures opts started now failures =
    if int_leb opts.stable_after (time_sub now started) then 1 else suc failures

-- `run` after `runOnce` returned
unfoldable pub settle : Options → ℕ → Text → ℕ → Machine → Machine
unfolding set_state next_failures backoff
settle opts started err now m =
    let n = next_failures opts started now m.up.failures in
    let u = record m.up { failures = n; restarts = int_inc m.up.restarts } in
    if m.cancelled
    then record m { up = set_state stopped none m.up; phase = finished; first_done = true }
    else if int_leb opts.max_failures (pos n)
    then record m { up = set_state failed (some err) u; phase = finished; first_done = true }
    else record m { up = set_state starting (some err) u; phase = resting (backoff opts n) }

-- ctx.Done() in the select on the timer
unfoldable pub stop_resting : Machine → Machine
unfolding set_state
stop_resting m = record m { up = set_state stopped none m.up; phase = finished; first_done = true }

-- a `refreshTools` of the ToolListChangedHandler ends
unfoldable pub refreshed : Option (List Tool) → List ℕ → Machine → Machine
refreshed none others m = record m { refreshing = others }
refreshed (some tools) others m = record m {
  up = record m.up { tools = tools };
  refreshing = others;
}

module _ (opts : Options) (spec : Spec) where
  pub data Step (m : Machine) : Machine → Type 0 where
    cancel : Step m (record m { cancelled = true })
    begin : (now : ℕ) → m.phase ≡ looping → Step m (begin_run spec now m)
    ask : (t : ℕ) (r : HandlerReply) → m.phase ≡ asking t → Step m (asked t r m)
    wake : (t : ℕ) (r : Option Text) → m.phase ≡ parked t → Step m (waited t r m)
    dial : (t : ℕ) (r : ConnectReply) → m.phase ≡ connecting t → Step m (connect spec t r m)
    list :
        (t : ℕ) (v : Option Text) (pages : List (Option (List Tool × Text)))
        → m.phase ≡ listing t v
        → Step m (list_tools spec t v (collect_pages pages) m)
    tick :
        (t : ℕ) (pinged : Bool) (r : PingReply)
        → m.phase ≡ serving t false pinged
        → Step m (ping t pinged r m)
    exit :
        (t : ℕ) (skip pinged : Bool) (err : Text)
        → m.phase ≡ serving t skip pinged
        → Step m (end_run t err m)
    interrupted :
        (t : ℕ) (skip pinged : Bool)
        → m.phase ≡ serving t skip pinged
        → m.cancelled ≡ true
        → Step m (interrupt t m)
    settles :
        (t : ℕ) (err : Text) (now : ℕ) → m.phase ≡ ended t err → Step m (settle opts t err now m)
    timer : (d : ℤ) → m.phase ≡ resting d → Step m (record m { phase = looping })
    stops : (d : ℤ) → m.phase ≡ resting d → m.cancelled ≡ true → Step m (stop_resting m)
    -- the upstream says that its tools have changed
    changed : (s : ℕ) → m.up.session ≡ some s → Step m (record m { refreshing = s ∷ m.refreshing })
    refresh :
        (before : List ℕ) (s : ℕ) (after : List ℕ) (pages : List (Option (List Tool × Text)))
        → m.refreshing ≡ before ++ s ∷ after
        → Step m (refreshed (collect_pages pages) (before ++ after) m)

  pub data Reach (m : Machine) : Machine → Type 0 where
    here : Reach m m
    next : {k n : Machine} → Reach m k → Step k n → Reach m n
