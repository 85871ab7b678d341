-- ===== src/Dashboard/Overview/Logins.antt =====
-- Which links the overview offers (internal/ui/ui.go, `overviewData`;
-- internal/upstreamauth/manager.go, `PendingLogin`).
use rusty_gateway.Common.{
  ℕ, ◌≡◌, refl, sym, ap, ◌∙◌, true, false, Option, some, List, [], ◌∷◌, map, In, In-append_left,
  In-append_right, In-append_cases, inl, inr, ◌↔◌, Bool-cases, Assoc,
}
use rusty_gateway.Common.Text.{Text, codes, text_eq, text_eq_sound, text_eq_refl, is_empty}
use rusty_gateway.Supervisor.{Status}
use rusty_gateway.Gateway.Breaker.{BreakerState}
use rusty_gateway.UpstreamAuth.{Entry, pending_login}
use rusty_gateway.Dashboard.Overview.{login_row, login_rows, overview_data, upstream_row}

-- an upstream that needs a login, for which one is in progress that has its link
abbrev pub Pending : Assoc Entry → Text → Text → Status → Type 0
Pending entries id url st =
    (st.id ≡ id)
    × (st.state ≡ codes "needs_login")
    × (pending_login id entries ≡ url)
    × (is_empty url ≡ false)

module _ (entries : Assoc Entry) (id url : Text) where
  pair-same : (a b : Text) → ◌≡◌ {A = Text × Text} (a, b) (id, url) → (a ≡ id) × (b ≡ url)
  pair-same a b e = (ap (λ p. p.0) e, ap (λ p. p.1) e)

  row-Pending :
      (st : Status) → In (id, url) (login_row (some entries) st) → Pending entries id url st
  unfolding login_row
  row-Pending st i = elim (Bool-cases (text_eq st.state (codes "needs_login"))) [
    | inl needs ↦ elim (Bool-cases (is_empty (pending_login st.id entries))) [
      | inl no_link ↦ absurd (rw (needs, no_link) at i)
      | inr link ↦ found needs link (rw (needs, link) at i)
    ]
    | inr other ↦ absurd (rw other at i)
  ]
    where
      found :
          text_eq st.state (codes "needs_login") ≡ true
          → is_empty (pending_login st.id entries) ≡ false
          → In {A = Text × Text} (id, url) ((st.id, pending_login st.id entries) ∷ [])
          → Pending entries id url st
      found needs link (inr none_left) = absurd none_left
      found needs link (inl e) =
          let (same, same_url) = pair-same st.id (pending_login st.id entries) e in
          (
            same,
            text_eq_sound st.state (codes "needs_login") needs,
            ap (λ j. pending_login j entries) (sym same) ∙ same_url,
            ap is_empty (sym same_url) ∙ link,
          )

  Pending-row :
      (st : Status) → Pending entries id url st → In (id, url) (login_row (some entries) st)
  unfolding login_row
  Pending-row st (same, state, link, full) =
      rw (same, state, text_eq_refl (codes "needs_login"), link, full) (inl refl)

  rows-Pending :
      (statuses : List Status)
      → In (id, url) (login_rows (some entries) statuses)
      → (st : Status) × In st statuses × Pending entries id url st
  unfolding login_rows
  rows-Pending [] i = absurd i
  rows-Pending (st ∷ statuses) i =
      elim (In-append_cases (id, url) (login_row (some entries) st)
        (login_rows (some entries) statuses) i) [
          | inl own ↦ (st, inl refl, row-Pending st own)
          | inr later ↦ let (s, j, p) = rows-Pending statuses later in (s, inr j, p)
        ]

  Pending-rows :
      (statuses : List Status) (st : Status)
      → In st statuses
      → Pending entries id url st
      → In (id, url) (login_rows (some entries) statuses)
  unfolding login_rows
  Pending-rows [] st i p = absurd i
  Pending-rows (s ∷ statuses) st (inl e) p =
      In-append_left (id, url) (login_row (some entries) s) (login_rows (some entries) statuses)
        (rw e (Pending-row st p))
  Pending-rows (s ∷ statuses) st (inr i) p =
      In-append_right (id, url) (login_row (some entries) s) (login_rows (some entries) statuses)
        (Pending-rows statuses st i p)

  -- The overview offers a link for an upstream exactly when its status says "needs_login" and the
  -- manager has a login in progress for it whose link is known; and it has a row for each
  -- status, in their order.
  pub overview_data-logins :
      (breakers : Assoc BreakerState) (sessions : Option ℕ) (statuses : List Status)
      → (In (id, url) (overview_data breakers (some entries) sessions statuses).logins
          ↔ ((st : Status) × In st statuses × Pending entries id url st))
        × (map (λ r. r.id) (overview_data breakers (some entries) sessions statuses).upstreams
            ≡ map (λ st. st.id) statuses)
  unfolding overview_data
  overview_data-logins breakers sessions statuses = (
    ((λ i. rows-Pending statuses i), λ (st, i, p). Pending-rows statuses st i p),
    same_ids statuses,
  )
    where
      same_ids :
          (ss : List Status)
          → map (λ r. r.id) (map (upstream_row breakers (some entries)) ss) ≡ map (λ s. s.id) ss
      same_ids [] = refl
      same_ids (s ∷ ss) = ap (λ l. s.id ∷ l) (same_ids ss)
