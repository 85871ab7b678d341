-- ===== src/UpstreamAuth/AutoLogin/Started.antt =====
-- The loops of `AutoLogin` are those of the upstreams that need a login
-- (internal/upstreamauth/manager.go, `AutoLogin`, `Handler`).
use rusty_gateway.Common.{
  ◌≡◌, refl, sym, ap, subst, ◌∙◌, true, false, Option, none, some, [], ◌∷◌, In, inl, inr, ◌⊎◌, ◌↔◌,
  arith, if◌then◌else◌, Bool-cases, Option-cases, false-true, Assoc, lookup,
}
use rusty_gateway.Common.Text.{Text, text_eq, text_eq_sound, text_eq_refl}
use rusty_gateway.UpstreamAuth.{Entry, is_some, login_required, get_handler, answer_of}
use rusty_gateway.UpstreamAuth.AutoLogin.{pending_ids}

-- a map has one entry for a key
abbrev pub Unique : Assoc Entry → Type 0
Unique [] = Unit
Unique ((k, e) ∷ entries) = (lookup k entries ≡ none) × Unique entries

abbrev Waiting : Text → Assoc Entry → Type 0
Waiting id entries = (e : Entry) × (lookup id entries ≡ some e) × (is_some e.handler ≡ false)

head-lookup :
    (id : Text) (e : Entry) (entries : Assoc Entry) → lookup id ((id, e) ∷ entries) ≡ some e
unfolding lookup
head-lookup id e entries = rw (text_eq_refl id) refl

tail-lookup :
    (id k : Text) (e f : Entry) (entries : Assoc Entry)
    → lookup k entries ≡ none
    → lookup id entries ≡ some f
    → lookup id ((k, e) ∷ entries) ≡ some f
unfolding lookup
tail-lookup id k e f entries alone h = elim (Bool-cases (text_eq k id)) [
  | inl same ↦ absurd (
      none_some
        (sym alone ∙ subst (λ j. lookup j entries ≡ some f) (sym (text_eq_sound k id same)) h))
  | inr other ↦ rw other h
]
  where
    none_some : ◌≡◌ {A = Option Entry} none (some f) → ⊥
    none_some p = cc

later-Waiting :
    (id k : Text) (e : Entry) (entries : Assoc Entry)
    → lookup k entries ≡ none
    → Waiting id entries
    → Waiting id ((k, e) ∷ entries)
later-Waiting id k e entries alone (f, found, idle) =
    (f, tail-lookup id k e f entries alone found, idle)

pending-Waiting :
    (id : Text) (entries : Assoc Entry)
    → Unique entries
    → In id (pending_ids entries)
    → Waiting id entries
unfolding pending_ids
pending-Waiting id [] u i = absurd i
pending-Waiting id ((k, e) ∷ entries) u i = elim (Bool-cases (is_some e.handler)) [
  | inl has ↦ later-Waiting id k e entries u.0 (pending-Waiting id entries u.1 (rw has at i))
  | inr idle ↦ elim (rw idle at i) [
    | inl same ↦
        (e, subst (λ j. lookup j ((k, e) ∷ entries) ≡ some e) same (head-lookup k e entries), idle)
    | inr later ↦ later-Waiting id k e entries u.0 (pending-Waiting id entries u.1 later)
  ]
]

Waiting-pending :
    (id : Text) (e : Entry) (entries : Assoc Entry)
    → lookup id entries ≡ some e
    → is_some e.handler ≡ false
    → In id (pending_ids entries)
unfolding pending_ids lookup
Waiting-pending id e [] h idle = absurd (cc)
Waiting-pending id e ((k, f) ∷ entries) h idle = elim (Bool-cases (text_eq k id)) [
  | inl same ↦ rw (own (rw same at h)) (inl (text_eq_sound k id same))
  | inr other ↦
      later (Bool-cases (is_some f.handler)) (Waiting-pending id e entries (rw other at h) idle)
]
  where
    own : ◌≡◌ {A = Option Entry} (some f) (some e) → is_some f.handler ≡ false
    own p = cc

    later :
        (is_some f.handler ≡ true) ⊎ (is_some f.handler ≡ false)
        → In id (pending_ids entries)
        → In id (if is_some f.handler then pending_ids entries else k ∷ pending_ids entries)
    later (inl has) i = rw has i
    later (inr none_yet) i = rw none_yet (inr i)

Waiting-required :
    (id : Text) (entries : Assoc Entry)
    → Waiting id entries
    → get_handler id entries ≡ login_required
unfolding get_handler answer_of
Waiting-required id entries (e, found, idle) = elim (Option-cases e.handler) [
  | inl missing ↦ ground arith
  | inr (h, has) ↦ absurd (false-true (sym idle ∙ ap is_some has))
]

required-Waiting :
    (id : Text) (entries : Assoc Entry)
    → get_handler id entries ≡ login_required
    → Waiting id entries
unfolding get_handler answer_of
required-Waiting id entries h = elim (Option-cases (lookup id entries)) [
  | inl unknown ↦ absurd (ground arith)
  | inr (e, found) ↦ elim (Option-cases e.handler) [
    | inl missing ↦ (e, found, ap is_some missing)
    | inr (k, has) ↦ absurd (ground arith)
  ]
]

-- AutoLogin starts a loop for exactly those upstreams for which Handler answers that a login is
-- required, which are those that the supervisor parks.
pub pending_ids_iff :
    (id : Text) (entries : Assoc Entry)
    → Unique entries
    → In id (pending_ids entries) ↔ (get_handler id entries ≡ login_required)
pending_ids_iff id entries u = (
  (λ i. Waiting-required id entries (pending-Waiting id entries u i)),
  λ h.
      let (e, found, idle) = required-Waiting id entries h in
      Waiting-pending id e entries found idle,
)
