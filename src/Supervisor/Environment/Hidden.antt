-- ===== src/Supervisor/Environment/Hidden.antt =====
-- What the log shows of a child's environment (internal/supervisor/supervisor.go, `redactEnv`).
use rusty_gateway.Common.{
  ◌≡◌, refl, sym, ap, ◌∙◌, Bool, true, false, Option, List, [], ◌∷◌, ◌++◌, map, arith, Bool-cases,
  inl, inr, ◌==◌, if◌then◌else◌,
}
use rusty_gateway.Common.Text.{Text}
use rusty_gateway.Gateway.Discovery.Ranking.{text_ltb}
use rusty_gateway.Supervisor.Environment.{
  base_env, place_key, sort_keys, compose_env, key_of, is_secret, redact_entry, redact_env,
}

-- no '=' in a text
unfoldable pub no_equals : Text → Bool
no_equals [] = true
no_equals (c ∷ s) = let rest = no_equals s in if c == b'=' then false else rest

key_of-entry : (k v : Text) → no_equals k ≡ true → key_of (k ++ b'=' ∷ v) ≡ k
unfolding key_of no_equals
key_of-entry [] v h = refl
key_of-entry (c ∷ k) v h = ground (arith, key_of-entry k v)

-- The same key without '=', and the same value unless the key is secret.
abbrev pub AlikeAt : Text × Text → Text × Text → Type 0
AlikeAt (k, v) (j, w) = (k ≡ j) × (no_equals k ≡ true) × (is_secret k ≡ false → v ≡ w)

abbrev pub Alike : List (Text × Text) → List (Text × Text) → Type 0
Alike [] [] = Unit
Alike [] (d ∷ ds) = ⊥
Alike (e ∷ es) [] = ⊥
Alike (e ∷ es) (d ∷ ds) = AlikeAt e d × Alike es ds

redact_entry-alike :
    (k v w : Text)
    → no_equals k ≡ true
    → (is_secret k ≡ false → v ≡ w)
    → redact_entry (k ++ b'=' ∷ v) ≡ redact_entry (k ++ b'=' ∷ w)
unfolding redact_entry
redact_entry-alike k v w plain same = elim (Bool-cases (is_secret k)) [
  | inl secret ↦ rw (key_of-entry k v plain, key_of-entry k w plain, secret) refl
  | inr open_key ↦ rw (same open_key) refl
]

redact_entries-Alike :
    (es ds : List (Text × Text))
    → Alike es ds
    → redact_env (map (λ e. e.0 ++ b'=' ∷ e.1) es) ≡ redact_env (map (λ e. e.0 ++ b'=' ∷ e.1) ds)
unfolding redact_env
redact_entries-Alike [] [] h = refl
redact_entries-Alike [] (d ∷ ds) h = absurd h
redact_entries-Alike (e ∷ es) [] h = absurd h
redact_entries-Alike ((k, v) ∷ es) ((j, w) ∷ ds) h =
    rw (sym h.0.0, redact_entry-alike k v w h.0.1 h.0.2, redact_entries-Alike es ds h.1) refl

moved : (t : Bool) (a b k j : Text) → a ≡ b → k ≡ j → text_ltb a k ≡ t → text_ltb b j ≡ t
moved t a b k j same_place same_key h = cc

place_key-Alike :
    (e d : Text × Text) (es ds : List (Text × Text))
    → AlikeAt e d
    → Alike es ds
    → Alike (place_key e es) (place_key d ds)
unfolding place_key
place_key-Alike (k, v) (j, w) [] [] same h = (same, tt)
place_key-Alike (k, v) (j, w) [] (d ∷ ds) same h = absurd h
place_key-Alike (k, v) (j, w) (e ∷ es) [] same h = absurd h
place_key-Alike (k, v) (j, w) ((a, x) ∷ es) ((b, y) ∷ ds) same h =
    elim (Bool-cases (text_ltb a k)) [
      | inl behind ↦
          rw (behind, moved true a b k j h.0.0 same.0 behind)
            (h.0, place_key-Alike (k, v) (j, w) es ds same h.1)
      | inr ahead ↦ rw (ahead, moved false a b k j h.0.0 same.0 ahead) (same, h)
    ]

sort_keys-Alike : (es ds : List (Text × Text)) → Alike es ds → Alike (sort_keys es) (sort_keys ds)
unfolding sort_keys
sort_keys-Alike [] [] h = tt
sort_keys-Alike [] (d ∷ ds) h = absurd h
sort_keys-Alike (e ∷ es) [] h = absurd h
sort_keys-Alike (e ∷ es) (d ∷ ds) h =
    place_key-Alike e d (sort_keys es) (sort_keys ds) h.0 (sort_keys-Alike es ds h.1)

redact_env-append : (xs ys : List Text) → redact_env (xs ++ ys) ≡ redact_env xs ++ redact_env ys
unfolding redact_env
redact_env-append [] ys = refl
redact_env-append (x ∷ xs) ys = ap (λ l. redact_entry x ∷ l) (redact_env-append xs ys)

-- What is logged of the environment of a child does not depend on the values that the
-- configuration gives for keys that look secret: two maps with the same keys, none with an '=',
-- and the same values at all other keys, are logged alike.
pub redact_env-compose_env :
    (host : Text → Option Text) (base : List Text) (es ds : List (Text × Text))
    → Alike es ds
    → redact_env (compose_env host base es) ≡ redact_env (compose_env host base ds)
unfolding compose_env
redact_env-compose_env host base es ds h =
    redact_env-append (base_env host base) (map (λ e. e.0 ++ b'=' ∷ e.1) (sort_keys es))
    ∙ ap (λ rest. redact_env (base_env host base) ++ rest)
        (redact_entries-Alike (sort_keys es) (sort_keys ds) (sort_keys-Alike es ds h))
    ∙ sym (redact_env-append (base_env host base) (map (λ e. e.0 ++ b'=' ∷ e.1) (sort_keys ds)))
