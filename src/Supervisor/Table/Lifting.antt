-- ===== src/Supervisor/Table/Lifting.antt =====
-- What one loop can do alone, it can do in the table while the others wait
-- (internal/supervisor/supervisor.go, `Start`).
use rusty_gateway.Common.{
  ◌≡◌, refl, sym, ap, subst, ◌∙◌, Bool, true, none, some, List, ◌∷◌, ◌++◌, ◌⊎◌, inl, inr, arith,
  Option-cases,
}
use rusty_gateway.Common.Text.{text_eq_refl}
use rusty_gateway.Supervisor.{Spec, Options}
use rusty_gateway.Supervisor.Run.{
  Machine, cancel, begin, ask, wake, dial, list, tick, exit, interrupted, settles, timer, stops,
  changed, refresh, begin_run, asked, handler, login_required, refused, waited, connect, connected,
  connect_error, list_tools, ping, ping_ok, ping_unsupported, ping_error, end_run, interrupt,
  settle, stop_resting, refreshed, collect_pages,
}
use rusty_gateway.Supervisor.Run as Run
use rusty_gateway.Supervisor.Table.{
  Loop, Table, view, moved, put, set_upstream, Step, advance, Reach, here, next,
}
use rusty_gateway.Supervisor.Table as Table_

-- only `cancel` changes whether the context is cancelled
module _ (opts : Options) (spec : Spec) where
  cancels_or_keeps :
      {m n : Machine}
      → Run.Step opts spec m n
      → (n ≡ record m { cancelled = true }) ⊎ (n.cancelled ≡ m.cancelled)
  unfolding begin_run asked waited connect list_tools ping end_run interrupt settle stop_resting
      refreshed
  cancels_or_keeps cancel = inl refl
  cancels_or_keeps (begin now at) = inr refl
  cancels_or_keeps (ask t handler at) = inr refl
  cancels_or_keeps (ask t (login_required err) at) = inr refl
  cancels_or_keeps (ask t (refused err) at) = inr refl
  cancels_or_keeps (wake t none at) = inr refl
  cancels_or_keeps (wake t (some err) at) = inr refl
  cancels_or_keeps (dial t (connected s pid v) at) = inr refl
  cancels_or_keeps (dial t (connect_error err) at) = inr refl
  cancels_or_keeps (list t v pages at) = elim (Option-cases (collect_pages pages)) [
    | inl e ↦ rw e (inr refl)
    | inr (tools, e) ↦ rw e (inr refl)
  ]
  cancels_or_keeps (tick t pinged ping_ok at) = inr refl
  cancels_or_keeps (tick t pinged (ping_unsupported err) at) = inr (ground arith)
  cancels_or_keeps (tick t pinged (ping_error err) at) = inr (ground arith)
  cancels_or_keeps (exit t skip pinged err at) = inr refl
  cancels_or_keeps (interrupted t skip pinged at c) = inr refl
  cancels_or_keeps (settles t err now at) = inr (ground arith)
  cancels_or_keeps (timer d at) = inr refl
  cancels_or_keeps (stops d at c) = inr refl
  cancels_or_keeps (changed s held) = inr refl
  cancels_or_keeps (refresh before s after pages at) = elim (Option-cases (collect_pages pages)) [
    | inl e ↦ rw e (inr refl)
    | inr (tools, e) ↦ rw e (inr refl)
  ]

  pub Reach-cancelled :
      {m n : Machine} → m.cancelled ≡ true → Run.Reach opts spec m n → n.cancelled ≡ true
  Reach-cancelled c Run.here = c
  Reach-cancelled c (Run.next r s) = elim (cancels_or_keeps s) [
    | inl e ↦ ap (λ k. k.cancelled) e
    | inr same ↦ same ∙ Reach-cancelled c r
  ]

module _ (opts : Options) where
  -- The table after a loop has come to the state m, with the others where they were.
  pub record Lifted (t : Table) (before : List Loop) (l : Loop) (after : List Loop) (m : Machine)
      : Type 0 where
    pub table : Table
    pub reached : Reach opts t table
    pub loops_at : table.loops ≡ before ++ moved l m ∷ after
    pub seen : view table (moved l m) ≡ m

  lift_cancel :
      {t : Table} (before : List Loop) (l : Loop) (after : List Loop) (k m : Machine)
      → m ≡ record k { cancelled = true }
      → Lifted t before l after k
      → Lifted t before l after m
  unfolding view
  lift_cancel before l after k m e h = rw e (record {
    table = record h.table { cancelled = true };
    reached = next h.reached Table_.cancel;
    loops_at = h.loops_at;
    seen = ap (λ (n : Machine). record n { cancelled = true }) h.seen;
  })

  seen-put :
      (u : Table) (before : List Loop) (l : Loop) (after : List Loop) (k m : Machine)
      → m.cancelled ≡ u.cancelled
      → view (put before (moved l k) after m u) (moved l m) ≡ m
  unfolding view put
  seen-put u before l after k m same =
      rw (text_eq_refl l.spec.id) (ap (λ (c : Bool). record m { cancelled = c }) (sym same))

  seen-cancelled : (u : Table) (l : Loop) (k : Machine) → view u l ≡ k → k.cancelled ≡ u.cancelled
  unfolding view
  seen-cancelled u l k e = sym (ap (λ n. n.cancelled) e)

  lift_step :
      {t : Table} (before : List Loop) (l : Loop) (after : List Loop) (k m : Machine)
      → m.cancelled ≡ k.cancelled
      → Run.Step opts l.spec k m
      → Lifted t before l after k
      → Lifted t before l after m
  unfolding put
  lift_step before l after k m same s h =
      let as_seen : m.cancelled ≡ h.table.cancelled =
        same ∙ seen-cancelled h.table (moved l k) k h.seen in
      record {
        table = put before (moved l k) after m h.table;
        reached = next h.reached (
            advance before (moved l k) after m h.loops_at as_seen
              (subst (λ n. Run.Step opts l.spec n m) (sym h.seen) s));
        loops_at = refl;
        seen = seen-put h.table before l after k m as_seen;
      }

  pub lift :
      (t : Table) (before : List Loop) (l : Loop) (after : List Loop) {m : Machine}
      → t.loops ≡ before ++ l ∷ after
      → Run.Reach opts l.spec (view t l) m
      → Lifted t before l after m
  unfolding view
  lift t before l after at Run.here = record {
    table = t;
    reached = here;
    loops_at = at;
    seen = refl;
  }
  lift t before l after {m} at (Run.next {k = k} r s) = elim (cancels_or_keeps opts l.spec s) [
    | inl e ↦ lift_cancel before l after k m e (lift t before l after at r)
    | inr same ↦ lift_step before l after k m same s (lift t before l after at r)
  ]

  pub Reach-join : {t u v : Table} → Reach opts t u → Reach opts u v → Reach opts t v
  Reach-join r here = r
  Reach-join r (next q s) = next (Reach-join r q) s
