-- ===== src/Gateway/Dispatch/LostTrial.antt =====
-- A trial call that ends with no outcome for the breaker (internal/gateway/gateway.go,
-- `dispatch`).
use rusty_gateway.Common.{
  ℕ, ◌≡◌, refl, true, false, some, List, [], ◌∷◌, ◌++◌, inl, inr, Bool-cases, All, subst, sym,
}
use rusty_gateway.Common.Text.{Text, text_eq, text_eq_iff, text_eq_refl}
use rusty_gateway.Gateway.Breaker.{disabled, allow}
use rusty_gateway.Gateway.Breaker.Trial.{allow-trial}
use rusty_gateway.Gateway.Dispatch.{
  Semaphore, Flight, Gate, Reply, not_ready, report, enter, acquire_one, take_sem, leave, answer,
  Step, arrive, acquire, give_up, reply, Reach, here, next,
}
use rusty_gateway.Gateway.Dispatch.Invariant.{All-split, All-join}

-- The call `f` leaves `dispatch` while it waits for capacity, or because the upstream is not ready.
pub data Abandons (g : Gate) (f : Flight) : Gate → Type 0 where
  no_capacity :
      (before after : List Flight) (s : Semaphore) (ws : List Semaphore)
      → g.flights ≡ before ++ f ∷ after
      → f.waiting ≡ s ∷ ws
      → Abandons g f (leave before f after g)
  upstream_down :
      (before after : List Flight) (now : ℕ)
      → g.flights ≡ before ++ f ∷ after
      → f.waiting ≡ []
      → Abandons g f (answer not_ready now before f after g)

abbrev Elsewhere : Text → Flight → Type 0
Elsewhere id f = text_eq f.server id ≡ false

-- The breaker of `id` is in a trial and no call to `id` is in flight.
pub record Stuck (id : Text) (t : ℕ) (g : Gate) : Type 0 where
  pub on : disabled (g.breakers id) ≡ false
  pub opened : (g.breakers id).opened_at ≡ some t
  pub trial : (g.breakers id).trial ≡ true
  pub absent : All (Elsewhere id) g.flights

Stuck-of_breakers :
    (id : Text) (t : ℕ) (g h : Gate)
    → Stuck id t g
    → h.breakers id ≡ g.breakers id
    → All (Elsewhere id) h.flights
    → Stuck id t h
Stuck-of_breakers id t g h s e absent = record {
  on = rw e s.on;
  opened = rw e s.opened;
  trial = rw e s.trial;
  absent = absent;
}

refused :
    (id : Text) (t now : ℕ) (g : Gate)
    → Stuck id t g
    → allow now (g.breakers id) ≡ (g.breakers id, false)
refused id t now g s = allow-trial now t (g.breakers id) s.on s.opened s.trial

enter_self-Stuck :
    (id : Text) (t : ℕ) (ns : Text) (now : ℕ) (g : Gate)
    → Stuck id t g
    → Stuck id t (enter ns id now g).0
unfolding enter
enter_self-Stuck id t ns now g s =
    rw (refused id t now g s) (Stuck-of_breakers id t g _ s (rw (text_eq_refl id) refl) s.absent)

enter_other-Stuck :
    (id : Text) (t : ℕ) (ns j : Text) (now : ℕ) (g : Gate)
    → text_eq j id ≡ false
    → Stuck id t g
    → Stuck id t (enter ns j now g).0
unfolding enter
enter_other-Stuck id t ns j now g other s = elim (Bool-cases (allow now (g.breakers j)).1) [
  | inl passed ↦ rw passed (Stuck-of_breakers id t g _ s (rw other refl) (other, s.absent))
  | inr shut ↦ rw shut (Stuck-of_breakers id t g _ s (rw other refl) s.absent)
]

enter-Stuck :
    (id : Text) (t : ℕ) (ns j : Text) (now : ℕ) (g : Gate)
    → Stuck id t g
    → Stuck id t (enter ns j now g).0
enter-Stuck id t ns j now g s = elim (Bool-cases (text_eq j id)) [
  | inl same ↦
      subst (λ k. Stuck id t (enter ns k now g).0) (sym ((text_eq_iff j id).0 same))
        (enter_self-Stuck id t ns now g s)
  | inr other ↦ enter_other-Stuck id t ns j now g other s
]

module _ (id : Text) (t : ℕ) (before : List Flight) (f : Flight) (after : List Flight) (g : Gate)
    (e : g.flights ≡ before ++ f ∷ after) (s : Stuck id t g) where
  absent-split : Elsewhere id f × All (Elsewhere id) (before ++ after)
  absent-split = All-split (Elsewhere id) before f after (subst (All (Elsewhere id)) e s.absent)

  leave-Stuck : Stuck id t (leave before f after g)
  unfolding leave
  leave-Stuck = Stuck-of_breakers id t g _ s refl absent-split.1

  answer-Stuck : (r : Reply) (now : ℕ) → Stuck id t (answer r now before f after g)
  unfolding answer
  answer-Stuck r now = Stuck-of_breakers id t g _ s (rw (absent-split.0) refl) absent-split.1

  acquire_one-Stuck :
      (q : Semaphore) (ws : List Semaphore) → Stuck id t (acquire_one q ws before f after g)
  unfolding acquire_one
  acquire_one-Stuck q ws =
      Stuck-of_breakers id t g _ s refl
        (All-join (Elsewhere id) before (take_sem q ws f) after absent-split.0 absent-split.1)

Step-Stuck : (id : Text) (t : ℕ) {g h : Gate} → Step g h → Stuck id t g → Stuck id t h
Step-Stuck id t {g} (arrive ns j now) s = enter-Stuck id t ns j now g s
Step-Stuck id t {g} (acquire before f after q ws e w room) s =
    acquire_one-Stuck id t before f after g e s q ws
Step-Stuck id t {g} (give_up before f after q ws n e w lim) s =
    leave-Stuck id t before f after g e s
Step-Stuck id t {g} (reply before f after r now e w) s =
    answer-Stuck id t before f after g e s r now

Reach-Stuck : (id : Text) (t : ℕ) {g h : Gate} → Stuck id t g → Reach g h → Stuck id t h
Reach-Stuck id t s here = s
Reach-Stuck id t s (next r st) = Step-Stuck id t st (Reach-Stuck id t s r)

-- A call `f` in flight is the only one to its upstream, whose breaker is on, open and in a trial.
pub record OnTrial (t : ℕ) (f : Flight) (g : Gate) : Type 0 where
  pub on : disabled (g.breakers f.server) ≡ false
  pub opened : (g.breakers f.server).opened_at ≡ some t
  pub trial : (g.breakers f.server).trial ≡ true
  pub alone :
      (before after : List Flight)
      → g.flights ≡ before ++ f ∷ after
      → All (Elsewhere f.server) (before ++ after)

Abandons-Stuck :
    (t : ℕ) (f : Flight) {g h : Gate} → OnTrial t f g → Abandons g f h → Stuck f.server t h
unfolding leave answer report
Abandons-Stuck t f o (no_capacity before after q ws e w) = record {
  on = o.on;
  opened = o.opened;
  trial = o.trial;
  absent = o.alone before after e;
}
Abandons-Stuck t f o (upstream_down before after now e w) = record {
  on = rw (text_eq_refl f.server) o.on;
  opened = rw (text_eq_refl f.server) o.opened;
  trial = rw (text_eq_refl f.server) o.trial;
  absent = o.alone before after e;
}

-- A trial call that is the only call to its upstream, and that ends while it waits for capacity or
-- because the upstream is not ready, leaves the breaker in its trial for good: in every state
-- reached from there, whatever the clock says, a new call to that upstream is refused.
pub Abandons-refused :
    {g h k : Gate} (t : ℕ) (f : Flight) (ns : Text) (now : ℕ)
    → OnTrial t f g
    → Abandons g f h
    → Reach h k
    → (enter ns f.server now k).1 ≡ false
unfolding enter
Abandons-refused {k} t f ns now o a r =
    rw (refused f.server t now k (Reach-Stuck f.server t (Abandons-Stuck t f o a) r))
