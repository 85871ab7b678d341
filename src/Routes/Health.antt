-- ===== src/Routes/Health.antt =====
-- What GET /healthz says of the upstreams (cmd/gateway/routes.go, cmd/gateway/healthcheck.go;
-- internal/supervisor/supervisor.go).
use rusty_gateway.Common.{
  ℕ, ◌≡◌, refl, true, false, some, List, [], ◌∷◌, map, In, inl, inr, ◌⊎◌, All, Bool-cases,
}
use rusty_gateway.Common.Int.{pos, int_ltb, int_leb}
use rusty_gateway.Common.Text.{codes, text_eq}
use rusty_gateway.Supervisor.{
  State, starting, ready, failed, stopped, needs_login, state_text, Spec, Options, status,
}
use rusty_gateway.Supervisor.Run.Phases.{is_finished, has_failed}
use rusty_gateway.Supervisor.Run.Invariant.{Reach-budget}
use rusty_gateway.Supervisor.Table.{Loop, Table, new_loop, new_table, view, statuses, Reach}
use rusty_gateway.Supervisor.Table.Views.{Distinct, AllRun, Runs, Reach-TableInv}
use rusty_gateway.Routes.{health_code, healthcheck}

failed-text : (s : State) → text_eq (state_text s) (codes "failed") ≡ has_failed s
unfolding state_text has_failed text_eq
failed-text starting = refl
failed-text ready = refl
failed-text failed = refl
failed-text stopped = refl
failed-text needs_login = refl

module _ (opts : Options) where
  -- the loop of this upstream is over, after max_failures failures in a row
  abbrev pub GaveUp : Table → Loop → Type 0
  GaveUp t l =
      (is_finished l.phase ≡ true)
      × (int_leb opts.max_failures (pos (t.upstreams l.spec.id).failures) ≡ true)

  failed-GaveUp :
      (t : Table) (l : Loop)
      → int_ltb (pos 0) opts.max_failures ≡ true
      → Runs opts t l
      → has_failed (t.upstreams l.spec.id).state ≡ true
      → GaveUp t l
  unfolding view
  failed-GaveUp t l limit r gone = elim (Reach-budget opts l.spec (view t l) limit r) [
    | inl (going, few, other) ↦ cc
    | inr (over, final, session, pid, spent) ↦ (over, spent gone)
  ]

  -- the code of the answer, and what it means
  abbrev Tells : Table → List Loop → ℕ → Type 0
  Tells t ls code =
      ((code ≡ 200) × All (λ l. has_failed (t.upstreams l.spec.id).state ≡ false) ls)
      ⊎ ((code ≡ 503) × ((l : Loop) × In l ls × GaveUp t l))

  codes-Tells :
      (t : Table) (ls : List Loop)
      → int_ltb (pos 0) opts.max_failures ≡ true
      → AllRun opts t ls
      → Tells t ls (health_code (map (λ l. status l.spec (t.upstreams l.spec.id)) ls))
  unfolding health_code status
  codes-Tells t [] limit h = inl (refl, tt)
  codes-Tells t (l ∷ ls) limit h =
      rw (failed-text (t.upstreams l.spec.id).state)
        (elim (Bool-cases (has_failed (t.upstreams l.spec.id).state)) [
          | inl gone ↦ rw gone (inr (refl, (l, inl refl, failed-GaveUp t l limit h.0 gone)))
          | inr up ↦ rw up (elim (codes-Tells t ls limit h.1) [
            | inl (well, all_up) ↦ inl (well, (refl, all_up))
            | inr (ill, (k, i, gave_up)) ↦ inr (ill, (k, inr i, gave_up))
          ])
        ])

  -- With max_failures > 0 and distinct IDs, in every state that the supervisor reaches: /healthz
  -- answers 200, so that the health check passes, when no upstream is Failed; else it answers 503,
  -- the check does not pass, and the loop of some upstream has given up after max_failures
  -- failures in a row.
  pub healthz-Tells :
      (specs : List Spec) (t : Table)
      → int_ltb (pos 0) opts.max_failures ≡ true
      → Distinct (map new_loop specs)
      → Reach opts (new_table specs) t
      → ((health_code (statuses t) ≡ 200)
          × (healthcheck (some (health_code (statuses t))) ≡ true)
          × All (λ l. has_failed (t.upstreams l.spec.id).state ≡ false) t.loops)
        ⊎ ((health_code (statuses t) ≡ 503)
            × (healthcheck (some (health_code (statuses t))) ≡ false)
            × ((l : Loop) × In l t.loops × GaveUp t l))
  unfolding statuses healthcheck
  healthz-Tells specs t limit d r =
      elim (codes-Tells t t.loops limit (Reach-TableInv opts specs t d r).1) [
        | inl (well, all_up) ↦ inl (well, rw well refl, all_up)
        | inr (ill, gave_up) ↦ inr (ill, rw ill refl, gave_up)
      ]
