-- ===== src/Gateway/Server/Built.antt =====
-- What `New` gives every upstream, and what that means for the calls (internal/gateway/gateway.go,
-- `New`; internal/gateway/limits.go).
use rusty_gateway.Common.{
  ℕ, suc, ◌≡◌, ◌≤◌, refl, ap, ◌∙◌, Bool, true, ◌||◌, Option, none, some, List, [], ◌∷◌, any, arith,
  if◌then◌else◌, Assoc, lookup, insert, lookup-insert, Bool-cases, inl, inr,
}
use rusty_gateway.Common.Int.{pos}
use rusty_gateway.Common.Text.{Text, text_eq, text_eq_sound}
use rusty_gateway.Gateway.Limits.{Limits, server_limit, new_semaphore}
use rusty_gateway.Gateway.Breaker.{BreakerConfig, new_breaker}
use rusty_gateway.Gateway.Dispatch.{
  of_server, Gate, Step, Reach, here, next, arrive, acquire, give_up, reply, enter, acquire_one,
  leave, answer,
}
use rusty_gateway.Gateway.Dispatch.Progress.{inside, Reach-inside-le}
use rusty_gateway.Gateway.Names.{upstream_id}
use rusty_gateway.Gateway.Discovery.{Namespace}
use rusty_gateway.Gateway.Server.{
  Gateway, includes, add_ids, add_namespaces, new_gateway, gate_of, capacity,
}

module _ {V : Type 0} (f : Text → V) where
  inserted :
      (k id : Text) (rest : Bool) (m : Assoc V)
      → (if rest then some (f id) else lookup id (insert k (f k) m))
        ≡ (if text_eq k id || rest then some (f id) else lookup id m)
  inserted k id rest m = elim (Bool-cases (text_eq k id)) [
    | inl same ↦ rw (lookup-insert k id (f k) m, same, text_eq_sound k id same) (ground arith)
    | inr other ↦ rw (lookup-insert k id (f k) m, other) refl
  ]

  add_ids-lookup :
      (ns id : Text) (servers : List Text) (m : Assoc V)
      → lookup id (add_ids f ns servers m) ≡ (
          if any (λ srv. text_eq (upstream_id ns srv) id) servers then some (f id) else lookup id m)
  unfolding add_ids
  add_ids-lookup ns id [] m = refl
  add_ids-lookup ns id (srv ∷ servers) m =
      add_ids-lookup ns id servers (insert (upstream_id ns srv) (f (upstream_id ns srv)) m)
      ∙ inserted (upstream_id ns srv) id (any (λ s. text_eq (upstream_id ns s) id) servers) m

module _ (limits : Limits) (cfg : BreakerConfig) where
  abbrev found : {V : Type 0} → (Text → V) → Text → Bool → Option V → Option V
  found f id here_is rest = if here_is then some (f id) else rest

  swap_found :
      {V : Type 0} (f : Text → V) (id : Text) (a b : Bool) (o : Option V)
      → found f id b (found f id a o) ≡ found f id (a || b) o
  swap_found f id a b o = ground arith

  add_namespaces-lookup :
      (id : Text) (nss : List Namespace) (g : Gateway)
      → (lookup id (add_namespaces limits cfg nss g).per_srv
          ≡ found
              (λ j. new_semaphore (server_limit limits j))
              id
              (any (includes id) nss)
              (lookup id g.per_srv))
        × (lookup id (add_namespaces limits cfg nss g).breakers
            ≡ found (λ j. new_breaker cfg) id (any (includes id) nss) (lookup id g.breakers))
  unfolding add_namespaces
  add_namespaces-lookup id [] g = (refl, refl)
  add_namespaces-lookup id (ns ∷ nss) g =
      let (sems, brks) = add_namespaces-lookup id nss _ in
      (
        sems
            ∙ ap (found (λ j. new_semaphore (server_limit limits j)) id (any (includes id) nss)) (
                add_ids-lookup (λ j. new_semaphore (server_limit limits j)) ns.name id ns.servers
                  g.per_srv)
            ∙ swap_found (λ j. new_semaphore (server_limit limits j)) id (includes id ns)
                (any (includes id) nss) (lookup id g.per_srv),
        brks
            ∙ ap (found (λ j. new_breaker cfg) id (any (includes id) nss))
                (add_ids-lookup (λ j. new_breaker cfg) ns.name id ns.servers g.breakers)
            ∙ swap_found (λ j. new_breaker cfg) id (includes id ns) (any (includes id) nss)
                (lookup id g.breakers),
      )

  -- In the gateway that `New` builds an ID has a semaphore and a breaker exactly when some
  -- namespace has a server with that ID. Then the semaphore has the limit of that ID, and the
  -- breaker is a fresh one, also when several namespaces lead to one ID.
  pub new_gateway-lookup :
      (nss : List Namespace) (id : Text)
      → (lookup id (new_gateway limits cfg nss).per_srv
          ≡ (if any (includes id) nss then some (new_semaphore (server_limit limits id)) else none))
        × (lookup id (new_gateway limits cfg nss).breakers
            ≡ (if any (includes id) nss then some (new_breaker cfg) else none))
  unfolding new_gateway lookup
  new_gateway-lookup nss id = add_namespaces-lookup id nss _

  Step-limit : {g h : Gate} → Step g h → h.limit ≡ g.limit
  unfolding enter acquire_one leave answer
  Step-limit (arrive ns id now) = ground arith
  Step-limit (acquire before f after s ws e w room) = refl
  Step-limit (give_up before f after s ws n e w lim) = refl
  Step-limit (reply before f after r now e w) = refl

  Reach-limit : {g h : Gate} → Reach g h → h.limit ≡ g.limit
  Reach-limit here = refl
  Reach-limit (next r s) = Step-limit s ∙ Reach-limit r

  -- However the calls of a new gateway interleave, at most n of them are inside the upstream call
  -- of one ID, where n > 0 is the limit of that ID.
  pub new_gateway-inside-le :
      (nss : List Namespace) (id : Text) (n : ℕ) {h : Gate}
      → any (includes id) nss ≡ true
      → server_limit limits id ≡ pos (suc n)
      → Reach (gate_of cfg (new_gateway limits cfg nss)) h
      → inside (of_server id) h.flights ≤ suc n
  unfolding gate_of
  new_gateway-inside-le nss id n listed limit r =
      Reach-inside-le (of_server id) (suc n) (refl, λ s. refl) r
        (ap (λ l. l (of_server id)) (Reach-limit r)
          ∙ ap capacity (new_gateway-lookup nss id).0
          ∙ rw (listed, limit) (unfold new_semaphore in ground arith))
