-- ===== src/Config/Validate/Sound.antt =====
-- What holds of a configuration that `validate` accepts (internal/config/config.go).
use rusty_gateway.Common.{
  ℕ, ◌≡◌, ◌≢◌, refl, sym, ◌∙◌, Bool, true, false, Option, none, some, List, [], ◌∷◌, ◌++◌, is_nil,
  length, append_assoc, drop, All, In, inl, inr, ◌&&◌, not, Bool-cases, arith,
}
use rusty_gateway.Common.Text.{Text, codes, text_eq, text_eq_sound}
use rusty_gateway.Common.Text.Search.{cut, has_prefix, cons_before}
use rusty_gateway.Gateway.Names.{prefixed}
use rusty_gateway.Config.{NamespaceConfig}
use rusty_gateway.Config.Validate.{
  pin_twice, unknown_server, bad_name, duplicate, negative_max, bad_discovery, pins_need_hybrid,
  no_servers, is_discovery, pin_outside, check, is_negative, is_name, member, check_pins,
  check_servers, check_namespace, pin_parts,
}

pub append_empty {ℓ} : {E : Type ℓ} (xs ys : List E) → xs ++ ys ≡ [] → (xs ≡ []) × (ys ≡ [])
append_empty [] ys h = (refl, h)
append_empty (x ∷ xs) ys h = cc

pub check-false {ℓ} : {E : Type ℓ} (b : Bool) (e : E) → check b e ≡ [] → b ≡ false
unfolding check
check-false true e h = cc
check-false false e h = refl

pub not-true : (b : Bool) → not b ≡ false → b ≡ true
not-true true h = refl
not-true false h = cc

member-In : (t : Text) (ts : List Text) → member t ts ≡ true → In t ts
unfolding member
member-In t [] h = cc
member-In t (u ∷ ts) h = elim (Bool-cases (text_eq u t)) [
  | inl same ↦ inl (text_eq_sound u t same)
  | inr other ↦ inr (member-In t ts (ground (arith, h, other)))
]

-- A pin is the prefixed name of a tool of a server of the namespace, with a tool name.
abbrev pub Pins : List Text → Text → Type 0
Pins servers pin =
    (server : Text) × (tool : Text) × In server servers × (tool ≢ []) × (pin ≡ prefixed server tool)

abbrev pub AllPin : List Text → List Text → Type 0
AllPin servers [] = Unit
AllPin servers (pin ∷ pins) = Pins servers pin × AllPin servers pins

has_prefix-split : (p s : Text) → has_prefix p s ≡ true → p ++ drop (length p) s ≡ s
unfolding has_prefix
has_prefix-split [] s h = refl
has_prefix-split (a ∷ p) [] h = cc
has_prefix-split (a ∷ p) (b ∷ s) h = ground (arith, has_prefix-split p s)

cons_before-split :
    (c : ℕ) (sep s before after : Text) (o : Option (Text × Text))
    → ((b a : Text) → o ≡ some (b, a) → s ≡ b ++ (sep ++ a))
    → cons_before c o ≡ some (before, after)
    → c ∷ s ≡ before ++ (sep ++ after)
cons_before-split c sep s before after none split h = cc
cons_before-split c sep s before after (some (b, a)) split h = ground (arith, split b a refl)

later_cut :
    (c : ℕ) (sep s : Text)
    → has_prefix sep (c ∷ s) ≡ false
    → cons_before c (cut sep s) ≡ cut sep (c ∷ s)
unfolding cut
later_cut c sep s later = rw later refl

cut-split :
    (sep s before after : Text) → cut sep s ≡ some (before, after) → s ≡ before ++ (sep ++ after)
unfolding cut
cut-split [] [] before after h = ground arith
cut-split (d ∷ sep) [] before after h = cc
cut-split sep (c ∷ s) before after h = elim (Bool-cases (has_prefix sep (c ∷ s))) [
  | inl found ↦ ground (arith, h, found, has_prefix-split sep (c ∷ s) found)
  | inr later ↦
      cons_before-split c sep s before after (cut sep s) (λ b a. cut-split sep s b a)
        (later_cut c sep s later ∙ h)
]

known-In :
    (known servers : List Text) → check_servers known servers ≡ [] → All (λ s. In s known) servers
unfolding check_servers
known-In known [] h = tt
known-In known (s ∷ servers) h =
    let (here, rest) =
      append_empty (check (not (member s known)) _) (check_servers known servers) h in
    (
      member-In s known (not-true _ (check-false _ (unknown_server s) here)),
      known-In known servers rest,
    )

cut-prefixed_back :
    (name server tool : Text)
    → cut (codes "__") name ≡ some (server, tool)
    → name ≡ prefixed server tool
unfolding prefixed
cut-prefixed_back name server tool found =
    cut-split (codes "__") name server tool found ∙ sym (append_assoc server (codes "__") tool)

pin_parts-Pins :
    (servers : List Text) (name : Text) (parts : Option (Text × Text))
    → ((server tool : Text) → parts ≡ some (server, tool) → name ≡ prefixed server tool)
    → pin_parts servers name parts ≡ []
    → Pins servers name
unfolding pin_parts
pin_parts-Pins servers name none split h = cc
pin_parts-Pins servers name (some (server, [])) split h = cc
pin_parts-Pins servers name (some (server, c ∷ tool)) split h = (
  server,
  c ∷ tool,
  member-In server servers (not-true _ (check-false _ (pin_outside name) h)),
  (λ e. cc),
  split server (c ∷ tool) refl,
)

check_pins-AllPin :
    (servers pins names : List Text) → check_pins servers pins names ≡ [] → AllPin servers names
unfolding check_pins
check_pins-AllPin servers pins [] h = tt
check_pins-AllPin servers pins (name ∷ names) h =
    let (first, more) =
      append_empty
        (pin_parts servers name (cut (codes "__") name)
          ++ check (member name pins) (pin_twice name))
        (check_pins servers (name ∷ pins) names) h in
    let (parts, once) =
      append_empty (pin_parts servers name (cut (codes "__") name))
        (check (member name pins) (pin_twice name)) first in
    (
      pin_parts-Pins servers name (cut (codes "__") name)
          (λ server tool found. cut-prefixed_back name server tool found) parts,
      check_pins-AllPin servers (name ∷ pins) names more,
    )

-- What the checks of one namespace establish, given the servers there are and the names before.
pub record AcceptedNamespace (known seen : List Text) (ns : NamespaceConfig) : Type 0 where
  pub named : is_name ns.name ≡ true
  pub fresh : member ns.name seen ≡ false
  pub servers_known : All (λ s. In s known) ns.servers
  pub pinned : AllPin ns.servers ns.pinned_tools

pub check_namespace-Accepted :
    (known seen : List Text) (ns : NamespaceConfig)
    → check_namespace known seen ns ≡ []
    → AcceptedNamespace known seen ns
unfolding check_namespace
check_namespace-Accepted known seen ns h =
    let (e7, k8) = append_empty _ (check_servers known ns.servers) h in
    let (e6, k7) = append_empty _ (check (is_nil ns.servers) no_servers) e7 in
    let (e5, k6) = append_empty _ (check_pins ns.servers [] ns.pinned_tools) e6 in
    let (e4, k5) =
      append_empty _
        (check (not (is_nil ns.pinned_tools) && not (text_eq ns.discovery (codes "hybrid")))
          pins_need_hybrid)
        e5 in
    let (e3, k4) = append_empty _ (check (not (is_discovery ns.discovery)) bad_discovery) e4 in
    let (e2, k3) = append_empty _ (check (is_negative ns.max_concurrent) negative_max) e3 in
    let (k1, k2) =
      append_empty (check (not (is_name ns.name)) bad_name) (check (member ns.name seen) duplicate)
        e2 in
    record {
      named = not-true (is_name ns.name) (check-false _ bad_name k1);
      fresh = check-false _ duplicate k2;
      servers_known = known-In known ns.servers k8;
      pinned = check_pins-AllPin ns.servers [] ns.pinned_tools k6;
    }
