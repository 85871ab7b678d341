-- ===== src/Gateway/Discovery/Ranking.antt =====
-- `search` of internal/gateway/discovery.go. The lower-case mapping of a code point is the
-- parameter `lower`, the table of Go's unicode package.
pub mod Order
pub mod Best
use rusty_gateway.Common.{
  ℕ, ◌+◌, ◌≤◌, ◌<◌, ◌≡◌, Bool, true, false, Option, none, some, List, [], ◌∷◌, ◌++◌, ◌||◌, ◌&&◌,
  map, take, ltb, leb, ◌==◌, is_nil, if◌then◌else◌,
}
use rusty_gateway.Common.Json.{Json}
use rusty_gateway.Common.Text.{Text, is_empty, text_eq}
use rusty_gateway.Common.Text.Search.{contains, fields, spaced, trim_left}
use rusty_gateway.Gateway.Discovery.{Namespace, Tool, ToolInfo, tool_infos, schema_keys}

-- s < t on strings
unfoldable pub text_ltb : Text → Text → Bool
text_ltb s [] = false
text_ltb [] (b ∷ t) = true
text_ltb (a ∷ s) (b ∷ t) = ltb a b || (a == b && text_ltb s t)

pub record Scored : Type 0 where
  pub info : ToolInfo
  pub score : ℕ

-- the `less` of sort.SliceStable: by score, the higher one first, then by name
unfoldable pub before : Scored → Scored → Bool
unfolding text_ltb
before a b = if a.score == b.score then text_ltb a.info.name b.info.name else ltb b.score a.score

-- A stable sort has one result: an item goes behind those that do not come after it.
unfoldable pub place : Scored → List Scored → List Scored
place x [] = x ∷ []
place x (y ∷ ys) = if before y x then y ∷ place x ys else x ∷ y ∷ ys

unfoldable pub sort_stable : List Scored → List Scored
unfolding place
sort_stable [] = []
sort_stable (x ∷ xs) = place x (sort_stable xs)

schema_words : Option Json → Text
schema_words none = []
schema_words (some schema) = schema_keys schema

module _ (lower : ℕ → ℕ) where
  -- the switch on one token
  unfoldable pub token_score : Text → Text → Text → Text → Text → ℕ
  token_score name title params desc tok =
      if contains tok name
      then 3
      else if contains tok title
      then 2
      else if contains tok params
      then 2
      else if contains tok desc
      then 1
      else 0

  total_score : Text → Text → Text → Text → List Text → ℕ
  unfolding token_score
  total_score name title params desc [] = 0
  total_score name title params desc (tok ∷ tokens) =
      token_score name title params desc tok + total_score name title params desc tokens

  unfoldable pub score_of : List Text → ToolInfo → ℕ
  unfolding total_score schema_words
  score_of tokens info =
      total_score (map lower (spaced info.name)) (map lower info.title)
        (map lower (schema_words info.input_schema)) (map lower info.description) tokens

  unfoldable pub hits : List Text → List ToolInfo → List Scored
  unfolding score_of
  hits tokens [] = []
  hits tokens (info ∷ infos) =
      let rest = hits tokens infos in
      let score = score_of tokens info in
      if ltb 0 score then record { info = info; score = score } ∷ rest else rest

  module _ (catalog : Text → Option (List Tool)) where
    -- `limit` is not negative: both callers pass a positive one
    unfoldable pub search : Namespace → Text → Text → ℕ → List ToolInfo
    unfolding sort_stable hits
    search ns query server limit =
        let tokens = fields (map lower query) in
        if is_nil tokens
        then []
        else map (λ h. h.info)
            (take limit (sort_stable (hits tokens (tool_infos catalog ns server))))

    -- `Tools`, once the namespace is found; a blank query is one with no field
    unfoldable pub tools : Namespace → Text → ℕ → List ToolInfo
    tools ns query limit =
        if is_nil (trim_left query) then tool_infos catalog ns [] else search ns query [] limit
