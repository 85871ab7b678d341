-- ===== src/Supervisor/Table/Views.antt =====
-- Each loop of the table is a run of its own upstream (internal/supervisor/supervisor.go, `Start`).
use rusty_gateway.Common.{◌≡◌, subst, Bool, true, false, List, [], ◌∷◌, ◌++◌, map}
use rusty_gateway.Common.Text.{Text, text_eq, text_eq_refl}
use rusty_gateway.Supervisor.{Spec, Options}
use rusty_gateway.Supervisor.Run.{Machine, new_machine}
use rusty_gateway.Supervisor.Run as Run
use rusty_gateway.Supervisor.Table.{
  Loop, Table, new_loop, new_table, view, moved, put, Step, cancel, advance, Reach, here, next,
}

-- no two specs have one ID
abbrev pub Apart : Text → List Loop → Type 0
Apart id [] = Unit
Apart id (l ∷ ls) = (text_eq id l.spec.id ≡ false) × (text_eq l.spec.id id ≡ false) × Apart id ls

abbrev pub Distinct : List Loop → Type 0
Distinct [] = Unit
Distinct (l ∷ ls) = Apart l.spec.id ls × Distinct ls

-- what a step of l leaves as it was: the IDs
Apart-moved :
    (id : Text) (before : List Loop) (l : Loop) (after : List Loop) (m : Machine)
    → Apart id (before ++ l ∷ after)
    → Apart id (before ++ moved l m ∷ after)
Apart-moved id [] l after m h = h
Apart-moved id (b ∷ before) l after m h = (h.0, h.1, Apart-moved id before l after m h.2)

Distinct-moved :
    (before : List Loop) (l : Loop) (after : List Loop) (m : Machine)
    → Distinct (before ++ l ∷ after)
    → Distinct (before ++ moved l m ∷ after)
Distinct-moved [] l after m h = h
Distinct-moved (b ∷ before) l after m h =
    (Apart-moved b.spec.id before l after m h.0, Distinct-moved before l after m h.1)

pub Apart-middle :
    (id : Text) (before : List Loop) (l : Loop) (after : List Loop)
    → Apart id (before ++ l ∷ after)
    → text_eq l.spec.id id ≡ false
Apart-middle id [] l after h = h.1
Apart-middle id (b ∷ before) l after h = Apart-middle id before l after h.2

module _ (opts : Options) where
  -- every loop sees what a run of its upstream alone may come to
  abbrev pub Runs : Table → Loop → Type 0
  Runs t l = Run.Reach opts l.spec new_machine (view t l)

  abbrev pub AllRun : Table → List Loop → Type 0
  AllRun t [] = Unit
  AllRun t (l ∷ ls) = Runs t l × AllRun t ls

  new-AllRun : (ups : List Spec) (specs : List Spec) → AllRun (new_table ups) (map new_loop specs)
  unfolding new_table new_loop view new_machine
  new-AllRun ups [] = tt
  new-AllRun ups (s ∷ specs) = (Run.here, new-AllRun ups specs)

  cancel-AllRun :
      (t : Table) (ls : List Loop) → AllRun t ls → AllRun (record t { cancelled = true }) ls
  unfolding view
  cancel-AllRun t [] h = tt
  cancel-AllRun t (l ∷ ls) h = (Run.next h.0 Run.cancel, cancel-AllRun t ls h.1)

  -- the other loops see what they saw
  others-AllRun :
      (t : Table) (before : List Loop) (l : Loop) (after : List Loop) (m : Machine) (ls : List Loop)
      → Apart l.spec.id ls
      → AllRun t ls
      → AllRun (put before l after m t) ls
  unfolding put view
  others-AllRun t before l after m [] apart h = tt
  others-AllRun t before l after m (k ∷ ls) apart h =
      (rw apart.0 h.0, others-AllRun t before l after m ls apart.2 h.1)

  own-Runs :
      (t : Table) (before : List Loop) (l : Loop) (after : List Loop) (m : Machine)
      → m.cancelled ≡ t.cancelled
      → Run.Step opts l.spec (view t l) m
      → Runs t l
      → Runs (put before l after m t) (moved l m)
  unfolding put view
  own-Runs t before l after m same s h = rw (text_eq_refl l.spec.id) (
      subst (λ (c : Bool). Run.Reach opts l.spec new_machine (record m { cancelled = c })) same
        (Run.next h s))

  middle-AllRun :
      (t : Table) (first : List Loop) (l : Loop) (last : List Loop) (m : Machine)
      (before after : List Loop)
      → m.cancelled ≡ t.cancelled
      → Run.Step opts l.spec (view t l) m
      → Distinct (before ++ l ∷ after)
      → AllRun t (before ++ l ∷ after)
      → AllRun (put first l last m t) (before ++ moved l m ∷ after)
  middle-AllRun t first l last m [] after same s d h =
      (own-Runs t first l last m same s h.0, others-AllRun t first l last m after d.0 h.1)
  middle-AllRun t first l last m (b ∷ before) after same s d h = (
    one t first l last m b (Apart-middle b.spec.id before l after d.0) h.0,
    middle-AllRun t first l last m before after same s d.1 h.1,
  )
    where
      one :
          (t : Table) (first : List Loop) (l : Loop) (last : List Loop) (m : Machine) (b : Loop)
          → text_eq l.spec.id b.spec.id ≡ false
          → Runs t b
          → Runs (put first l last m t) b
      one t first l last m b other r = (unfold put view in rw other r)

  abbrev pub TableInv : Table → Type 0
  TableInv t = Distinct t.loops × AllRun t t.loops

  pub Step-TableInv : {t u : Table} → TableInv t → Step opts t u → TableInv u
  unfolding put
  Step-TableInv {t} v cancel = (v.0, cancel-AllRun t t.loops v.1)
  Step-TableInv {t} v (advance before l after m at same s) = (
    Distinct-moved before l after m (subst Distinct at v.0),
    middle-AllRun t before l after m before after same s (subst Distinct at v.0)
        (subst (AllRun t) at v.1),
  )

  -- In every state that the supervisor of specs with distinct IDs reaches, whatever its loops do
  -- and in whatever order they do it, each upstream with its loop is in a state that the loop
  -- would reach if it ran alone.
  pub Reach-TableInv :
      (specs : List Spec) (t : Table)
      → Distinct (map new_loop specs)
      → Reach opts (new_table specs) t
      → Distinct t.loops × AllRun t t.loops
  unfolding new_table
  Reach-TableInv specs t d here = (d, new-AllRun specs specs)
  Reach-TableInv specs t d (next r s) = Step-TableInv (Reach-TableInv specs _ d r) s
