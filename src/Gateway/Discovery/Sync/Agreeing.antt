-- ===== src/Gateway/Discovery/Sync/Agreeing.antt =====
-- What a namespace wants depends on its own upstreams only (internal/gateway/gateway.go,
-- `syncLocked`).
use rusty_gateway.Common.{
  ◌≡◌, refl, ap, ap₂, Bool, true, ◌||◌, Option, none, some, List, [], ◌∷◌, ◌++◌, ◌⊎◌, inl, inr, any,
  arith,
}
use rusty_gateway.Common.Text.{Text, text_eq, text_eq_refl}
use rusty_gateway.Gateway.Names.{upstream_id}
use rusty_gateway.Gateway.Discovery.{Discovery, Namespace, Tool}
use rusty_gateway.Gateway.Discovery.Sync.{Wanted, wanted_of, wanted_from, wanted}

module _ (marshal : Tool → Text) (old new : Text → Option (List Tool)) where
  wanted_from-agree :
      (ns : Namespace) (servers : List Text)
      → ((j : Text)
          → any (λ srv. text_eq (upstream_id ns.name srv) j) servers ≡ true
          → new j ≡ old j)
      → wanted_from marshal new ns servers ≡ wanted_from marshal old ns servers
  unfolding wanted_from
  wanted_from-agree ns [] agree = refl
  wanted_from-agree ns (srv ∷ servers) agree =
      ap₂ (λ (xs ys : List Wanted). xs ++ ys)
        (ap (wanted_of marshal ns.discovery ns.pinned_tools srv (upstream_id ns.name srv))
          (agree (upstream_id ns.name srv) (rw (text_eq_refl (upstream_id ns.name srv)) refl)))
        (wanted_from-agree ns servers (λ j h. agree j (or_true _ _ h)))
    where
      or_true : (a b : Bool) → b ≡ true → (a || b) ≡ true
      or_true a b h = ground arith

  -- two catalogs that list the same for the upstreams of a namespace want the same in it
  pub wanted-agree :
      (ns : Namespace)
      → ((j : Text)
          → any (λ srv. text_eq (upstream_id ns.name srv) j) ns.servers ≡ true
          → new j ≡ old j)
      → wanted marshal new ns ≡ wanted marshal old ns
  unfolding wanted
  wanted-agree ns agree = wanted_from-agree ns ns.servers agree

module _ (marshal : Tool → Text) (catalog : Text → Option (List Tool)) where
  wanted_of-none :
      (mode : Discovery) (pins : List Text) (srv id : Text) (o : Option (List Tool))
      → (o ≡ none) ⊎ (o ≡ some [])
      → wanted_of marshal mode pins srv id o ≡ []
  unfolding wanted_of
  wanted_of-none mode pins srv id o (inl e) = rw e refl
  wanted_of-none mode pins srv id o (inr e) = rw e refl

  wanted_from-none :
      (ns : Namespace) (servers : List Text)
      → ((j : Text) → (catalog j ≡ none) ⊎ (catalog j ≡ some []))
      → wanted_from marshal catalog ns servers ≡ []
  unfolding wanted_from
  wanted_from-none ns [] blank = refl
  wanted_from-none ns (srv ∷ servers) blank =
      ap₂ (λ (xs ys : List Wanted). xs ++ ys)
        (wanted_of-none ns.discovery ns.pinned_tools srv (upstream_id ns.name srv)
          (catalog (upstream_id ns.name srv)) (blank (upstream_id ns.name srv)))
        (wanted_from-none ns servers blank)

  -- a catalog that lists nothing makes a namespace want nothing
  pub wanted-none :
      (ns : Namespace)
      → ((j : Text) → (catalog j ≡ none) ⊎ (catalog j ≡ some []))
      → wanted marshal catalog ns ≡ []
  unfolding wanted
  wanted-none ns blank = wanted_from-none ns ns.servers blank
