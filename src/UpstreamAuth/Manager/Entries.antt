-- ===== src/UpstreamAuth/Manager/Entries.antt =====
-- What `New` of internal/upstreamauth/manager.go puts under an ID, and when it fails.
use rusty_gateway.Common.{
  ℕ, suc, ◌≡◌, refl, sym, ap, ◌∙◌, Bool, true, false, Option, none, some, List, [], ◌∷◌, Assoc,
  lookup, insert, lookup-insert, any, In, inl, inr, ◌⊎◌, Bool-cases, if◌then◌else◌, arith,
}
use rusty_gateway.Common.Text.{Text, text_eq, text_eq_sound}
use rusty_gateway.UpstreamAuth.{Credentials, Entry, new_entry, is_some}
use rusty_gateway.UpstreamAuth.Manager.{
  Upstream, Loaded, loaded, no_row, load_failed, add_entries, new_manager,
}

abbrev pub is_loaded : Loaded → Bool
is_loaded (loaded creds) = true
is_loaded no_row = false
is_loaded (load_failed err) = false

-- whether there is an entry, and whether it has a handler
abbrev pub handler_of : Option Entry → Option Bool
handler_of none = none
handler_of (some e) = some (is_some e.handler)

abbrev pub named : Text → List Upstream → Bool
named id ups = any (λ up. text_eq up.id id) ups

module _ (load : Text → Loaded) where
  Loaded-cases :
      (id : Text)
      → ((creds : Credentials) × (load id ≡ loaded creds))
        ⊎ (load id ≡ no_row)
        ⊎ ((err : Text) × (load id ≡ load_failed err))
  Loaded-cases id = cases (load id) refl
    where
      cases :
          (l : Loaded)
          → load id ≡ l
          → ((creds : Credentials) × (load id ≡ loaded creds))
            ⊎ (load id ≡ no_row)
            ⊎ ((err : Text) × (load id ≡ load_failed err))
      cases (loaded creds) e = inl (creds, e)
      cases no_row e = inr (inl e)
      cases (load_failed err) e = inr (inr (err, e))

  after-insert :
      (id : Text) (up : Upstream) (ups : List Upstream) (m : Assoc Entry) (e : Entry)
      → is_some e.handler ≡ is_loaded (load up.id)
      → (if named id ups
          then some (is_loaded (load id))
          else handler_of (lookup id (insert up.id e m)))
        ≡ (if named id (up ∷ ups) then some (is_loaded (load id)) else handler_of (lookup id m))
  after-insert id up ups m e h =
      rw (lookup-insert up.id id e m) (elim (Bool-cases (text_eq up.id id)) [
        | inl same ↦ elim (Bool-cases (named id ups)) [
          | inl more ↦ rw (same, more) refl
          | inr last ↦
              rw (same, last)
                (ap some (h ∙ ap (λ i. is_loaded (load i)) (text_eq_sound up.id id same)))
        ]
        | inr other ↦ rw other refl
      ])

  add_entries-lookup :
      (id : Text) (n : ℕ) (ups : List Upstream) (m out : Assoc Entry)
      → add_entries load n ups m ≡ some out
      → handler_of (lookup id out)
        ≡ (if named id ups then some (is_loaded (load id)) else handler_of (lookup id m))
  unfolding add_entries new_entry
  add_entries-lookup id n [] m out h = cc
  add_entries-lookup id n (up ∷ ups) m out h = elim (Loaded-cases up.id) [
    | inl (creds, e) ↦
        add_entries-lookup id (suc n) ups (insert up.id (new_entry n (some creds)) m) out
          (rw (e, add_entries) at h)
        ∙ after-insert id up ups m (new_entry n (some creds)) (sym (ap is_loaded e))
    | inr (inl e) ↦
        add_entries-lookup id n ups (insert up.id (new_entry n none) m) out
          (rw (e, add_entries) at h)
        ∙ after-insert id up ups m (new_entry n none) (sym (ap is_loaded e))
    | inr (inr (err, e)) ↦ absurd (ground (arith, h, e))
  ]

  add_entries-fails :
      (n : ℕ) (ups : List Upstream) (m : Assoc Entry)
      → add_entries load n ups m ≡ none
      → (up : Upstream) × In up ups × ((err : Text) × (load up.id ≡ load_failed err))
  unfolding add_entries
  add_entries-fails n [] m h = absurd (cc)
  add_entries-fails n (up ∷ ups) m h = elim (Loaded-cases up.id) [
    | inl (creds, e) ↦
        let (u, i, f) =
          add_entries-fails (suc n) ups (insert up.id (new_entry n (some creds)) m)
            (rw (e, add_entries) at h) in
        (u, inr i, f)
    | inr (inl e) ↦
        let (u, i, f) =
          add_entries-fails n ups (insert up.id (new_entry n none) m) (rw (e, add_entries) at h) in
        (u, inr i, f)
    | inr (inr failed) ↦ (up, inl refl, failed)
  ]

  -- `New` fails only when the store fails to load the credentials of some upstream. Else the table
  -- has an entry for each of its upstreams and for no other, and that has a handler exactly when
  -- credentials were loaded.
  pub new_manager-lookup :
      (ups : List Upstream)
      → ((new_manager load ups ≡ none)
          × ((up : Upstream) × In up ups × ((err : Text) × (load up.id ≡ load_failed err))))
        ⊎ ((entries : Assoc Entry) × (new_manager load ups ≡ some entries)
            × ((id : Text)
                → handler_of (lookup id entries)
                  ≡ (if named id ups then some (is_loaded (load id)) else none)))
  unfolding new_manager lookup
  new_manager-lookup ups = built (add_entries load 0 ups []) refl
    where
      built :
          (o : Option (Assoc Entry))
          → add_entries load 0 ups [] ≡ o
          → ((o ≡ none)
              × ((up : Upstream) × In up ups × ((err : Text) × (load up.id ≡ load_failed err))))
            ⊎ ((entries : Assoc Entry) × (o ≡ some entries)
                × ((id : Text)
                    → handler_of (lookup id entries)
                      ≡ (if named id ups then some (is_loaded (load id)) else none)))
      built none h = inl (refl, add_entries-fails 0 ups [] h)
      built (some entries) h = inr (entries, refl, λ id. add_entries-lookup id 0 ups [] entries h)
