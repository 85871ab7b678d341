-- ===== src/Gateway/Dispatch.antt =====
-- `dispatch` of internal/gateway/gateway.go: the breaker, the three semaphores and the upstream
-- call of every tool call in flight, as a step relation on the state that the calls share.
pub mod Counting
pub mod Invariant
pub mod Progress
pub mod LostTrial
mod Tests
use rusty_gateway.Common.{
  ℕ, ◌≡◌, Bool, true, false, Option, none, some, List, [], ◌∷◌, ◌++◌, if◌then◌else◌,
}
use rusty_gateway.Common.Text.{Text, text_eq}
use rusty_gateway.Gateway.Limits.{has_room, acquired, released}
use rusty_gateway.Gateway.Breaker.{Breaker, allow, success, failure}

-- `g.global`, `ns.sem` and `g.perSrv[id]`
pub data Semaphore : Type 0 where
  global : Semaphore
  of_namespace : Text → Semaphore
  of_server : Text → Semaphore

unfoldable pub sem_eq : Semaphore → Semaphore → Bool
sem_eq global global = true
sem_eq (of_namespace a) (of_namespace b) = text_eq a b
sem_eq (of_server a) (of_server b) = text_eq a b
sem_eq _ _ = false

-- A call between `allow` and its return: what the loop has still to acquire, and the deferred
-- releases, the last one first. It is inside `u.CallTool` when nothing is left to acquire.
pub record Flight : Type 0 where
  pub namespace : Text
  pub server : Text
  pub waiting : List Semaphore
  pub held : List Semaphore

pub record Gate : Type 0 where
  pub limit : Semaphore → Option ℕ
  pub used : Semaphore → ℕ
  pub breakers : Text → Breaker
  pub flights : List Flight

abbrev pub set_used : Semaphore → ℕ → (Semaphore → ℕ) → Semaphore → ℕ
set_used s n used r = if sem_eq s r then n else used r

abbrev pub set_breaker : Text → Breaker → (Text → Breaker) → Text → Breaker
set_breaker id b breakers j = if text_eq id j then b else breakers j

-- How `u.CallTool` returned, as the switch on its error sees it.
pub data Reply : Type 0 where
  fine not_ready failed : Reply

unfoldable pub report : Reply → ℕ → Breaker → Breaker
report fine now b = success b
report not_ready now b = b
report failed now b = failure now b

abbrev pub new_flight : Text → Text → Flight
new_flight ns id = record {
  namespace = ns;
  server = id;
  waiting = global ∷ of_namespace ns ∷ of_server id ∷ [];
  held = [];
}

-- Entering `dispatch`: `false` is the return of ErrCircuitOpen.
unfoldable pub enter : Text → Text → ℕ → Gate → Gate × Bool
enter ns id now g =
    let (b, ok) = allow now (g.breakers id) in
    let g' = record g { breakers = set_breaker id b g.breakers } in
    if ok then (record g' { flights = new_flight ns id ∷ g.flights }, true) else (g', false)

-- The deferred releases, run in the order of the list.
unfoldable pub release_all :
    (Semaphore → Option ℕ) → List Semaphore → (Semaphore → ℕ) → Semaphore → ℕ
release_all limit [] used = used
release_all limit (s ∷ held) used =
    release_all limit held (set_used s (released (limit s) (used s)) used)

unfoldable pub take_sem : Semaphore → List Semaphore → Flight → Flight
take_sem s ws f = record f { waiting = ws; held = s ∷ f.held }

unfoldable pub acquire_one :
    Semaphore → List Semaphore → List Flight → Flight → List Flight → Gate → Gate
unfolding take_sem
acquire_one s ws before f after g = record g {
  used = set_used s (acquired (g.limit s) (g.used s)) g.used;
  flights = before ++ take_sem s ws f ∷ after;
}

unfoldable pub leave : List Flight → Flight → List Flight → Gate → Gate
leave before f after g = record g {
  used = release_all g.limit f.held g.used;
  flights = before ++ after;
}

unfoldable pub answer : Reply → ℕ → List Flight → Flight → List Flight → Gate → Gate
unfolding leave
answer r now before f after g = record (leave before f after g) {
  breakers = set_breaker f.server (report r now (g.breakers f.server)) g.breakers;
}

-- One step of one of the calls. The scheduler, the clients, the upstreams and the clock choose.
pub data Step (g : Gate) : Gate → Type 0 where
  arrive : (ns id : Text) (now : ℕ) → Step g (enter ns id now g).0
  acquire :
      (before : List Flight) (f : Flight) (after : List Flight) (s : Semaphore)
      (ws : List Semaphore)
      → g.flights ≡ before ++ f ∷ after
      → f.waiting ≡ s ∷ ws
      → has_room (g.limit s) (g.used s) ≡ true
      → Step g (acquire_one s ws before f after g)
  -- the deadline passes, or the client goes away, while the call waits for capacity
  give_up :
      (before : List Flight) (f : Flight) (after : List Flight) (s : Semaphore)
      (ws : List Semaphore) (n : ℕ)
      → g.flights ≡ before ++ f ∷ after
      → f.waiting ≡ s ∷ ws
      → g.limit s ≡ some n
      → Step g (leave before f after g)
  reply :
      (before : List Flight) (f : Flight) (after : List Flight) (r : Reply) (now : ℕ)
      → g.flights ≡ before ++ f ∷ after
      → f.waiting ≡ []
      → Step g (answer r now before f after g)

pub data Reach (g : Gate) : Gate → Type 0 where
  here : Reach g g
  next : {h k : Gate} → Reach g h → Step h k → Reach g k
