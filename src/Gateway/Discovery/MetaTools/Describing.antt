-- ===== src/Gateway/Discovery/MetaTools/Describing.antt =====
-- What describe_tools answers (internal/gateway/discovery.go).
use rusty_gateway.Common.{
  ◌≤◌, ◌<◌, ◌≡◌, ◌≢◌, refl, false, Option, none, some, List, [], ◌∷◌, map, All, arith, length,
  is_nil, ltb, ◌||◌, In, inl, inr, ◌⊎◌, Assoc, lookup, insert, lookup-insert, Option-cases,
  Bool-cases, sym, subst, ◌∙◌, ap₂, false-true,
}
use rusty_gateway.Common.Text.{Text, text_eq, text_eq_iff}
use rusty_gateway.Gateway.Discovery.{Namespace, Tool, ToolInfo, tool_infos}
use rusty_gateway.Gateway.Discovery.MetaTools.{
  unknown_tool, ok, err, by_name, cons_ok, select_names, describe_tools,
}

-- What the map holds for a name: a tool of that name from the list, or what it held before.
by_name_sound :
    (name : Text) (infos : List ToolInfo) (m : Assoc ToolInfo) (i : ToolInfo)
    → lookup name (by_name infos m) ≡ some i
    → ((i.name ≡ name) × In i infos) ⊎ (lookup name m ≡ some i)
unfolding by_name
by_name_sound name [] m i h = inr h
by_name_sound name (info ∷ infos) m i h =
    elim (by_name_sound name infos (insert info.name info m) i h) [
      | inl (same, listed) ↦ inl (same, inr listed)
      | inr before ↦ elim (Bool-cases (text_eq info.name name)) [
        | inl hit ↦
            let found : info ≡ i = ground (arith, lookup-insert info.name name info m) in
            inl (
              subst (λ (j : ToolInfo). j.name ≡ name) found ((text_eq_iff info.name name).0 hit),
              inl found,
            )
        | inr miss ↦ inr (ground (arith, lookup-insert info.name name info m))
      ]
    ]

by_name_complete :
    (name : Text) (infos : List ToolInfo) (m : Assoc ToolInfo)
    → lookup name (by_name infos m) ≡ none
    → All (λ i. i.name ≢ name) infos × (lookup name m ≡ none)
unfolding by_name
by_name_complete name [] m h = (tt, h)
by_name_complete name (info ∷ infos) m h =
    let (others, before) = by_name_complete name infos (insert info.name info m) h in
    let facts : (text_eq info.name name ≡ false) × (lookup name m ≡ none) =
      ground (arith, lookup-insert info.name name info m) in
    ((λ same. false-true (sym facts.0 ∙ (text_eq_iff info.name name).1 same), others), facts.1)

module _ (infos : List ToolInfo) where
  abbrev known : Assoc ToolInfo
  known = by_name infos []

  -- The answer to a request: the tools of these names, in their order, all from the catalog.
  abbrev pub Answers : List Text → List ToolInfo → Type 0
  Answers names found = (map (λ i. i.name) found ≡ names) × All (λ i. In i infos) found

  -- The name of a request that no tool of the catalog has.
  abbrev pub Unknown : List Text → Text → Type 0
  Unknown names name = In name names × All (λ i. i.name ≢ name) infos

  known_tool :
      (name : Text) (i : ToolInfo) → lookup name known ≡ some i → (i.name ≡ name) × In i infos
  unfolding lookup
  known_tool name i h = elim (by_name_sound name infos [] i h) [
    | inl facts ↦ facts
    | inr impossible ↦ cc
  ]

  select_names_cases :
      (names : List Text)
      → ((found : List ToolInfo) × (select_names known names ≡ ok found) × Answers names found)
        ⊎ ((name : Text) × (select_names known names ≡ err (unknown_tool name))
            × Unknown names name)
  unfolding select_names cons_ok
  select_names_cases [] = inl ([], refl, (refl, tt))
  select_names_cases (name ∷ names) = elim (Option-cases (lookup name known)) [
    | inl missing ↦
        inr
          (name, rw (missing, select_names), (inl refl, (by_name_complete name infos [] missing).0))
    | inr (i, found) ↦ elim (select_names_cases names) [
      | inl (rest, e, answers) ↦
          let (own, here) = known_tool name i found in
          inl (i ∷ rest, rw (found, select_names, e), (ap₂ ◌∷◌ own answers.0, (here, answers.1)))
      | inr (bad, e, unknown) ↦ inr (bad, rw (found, select_names, e), (inr unknown.0, unknown.1))
    ]
  ]

-- A request of 1 to 50 names is answered as a whole: with the tools of these names in the order of
-- the request, all of them from the catalog, or with an error that names a requested tool that is
-- not in the catalog.
pub describe_tools_whole :
    (catalog : Text → Option (List Tool)) (ns : Namespace) (names : List Text)
    → 0 < length names
    → length names ≤ 50
    → ((found : List ToolInfo) × (describe_tools catalog ns (some names) ≡ ok found)
        × Answers (tool_infos catalog ns []) names found)
      ⊎ ((name : Text) × (describe_tools catalog ns (some names) ≡ err (unknown_tool name))
          × Unknown (tool_infos catalog ns []) names name)
unfolding describe_tools
describe_tools_whole catalog ns names nonempty few =
    let within : (is_nil names || ltb 50 (length names)) ≡ false = ground arith in
    rw within (select_names_cases (tool_infos catalog ns []) names)
