-- ===== src/Gateway/Discovery.antt =====
-- The catalog of a namespace and the tools that describe and call others
-- (internal/gateway/discovery.go). What the supervisor answers is the parameter `catalog`: for an
-- upstream ID, `none` when there is no such upstream, and else the tools that it lists now.
pub mod Ranking
pub mod MetaTools
pub mod Sync
mod Tests
use rusty_gateway.Common.{
  ℕ, Bool, true, false, Option, none, some, List, [], ◌∷◌, ◌++◌, map, any, ◌||◌, not, if◌then◌else◌,
}
use rusty_gateway.Common.Json.{Json, Members, as_obj, as_str, get_member, entries}
use rusty_gateway.Common.Text.{Text, codes, text_eq, is_empty}
use rusty_gateway.Common.Text.Search.{spaced, join}
use rusty_gateway.Gateway.Names.{prefixed, upstream_id}

pub data Discovery : Type 0 where
  -- the empty text and "full" behave alike
  full connector search_mode hybrid : Discovery
  -- any other text, which the configuration refuses
  unknown_mode : Discovery

pub record Namespace : Type 0 where
  pub name : Text
  pub servers : List Text
  pub discovery : Discovery
  pub pinned_tools : List Text

-- mcp.Tool, as far as the gateway reads it. `annotation_title` is `none` without annotations.
pub record Tool : Type 0 where
  pub name : Text
  pub title : Text
  pub annotation_title : Option Text
  pub description : Text
  pub input_schema : Json

pub record ToolInfo : Type 0 where
  pub name : Text
  pub server : Text
  pub title : Text
  pub description : Text
  -- `none` in a compact search result
  pub input_schema : Option Json

title_or_name : Option Text → Text → Text
title_or_name none name = name
title_or_name (some t) name = if is_empty t then name else t

unfoldable pub display_title : Tool → Text
unfolding title_or_name
display_title t = if is_empty t.title then title_or_name t.annotation_title t.name else t.title

info_of : Text → Tool → ToolInfo
unfolding display_title
info_of srv t = record {
  name = prefixed srv t.name;
  server = srv;
  title = display_title t;
  description = t.description;
  input_schema = some t.input_schema;
}

infos_of : Text → Option (List Tool) → List ToolInfo
infos_of srv none = []
infos_of srv (some tools) = map (info_of srv) tools

module _ (catalog : Text → Option (List Tool)) where
  -- the loop of `toolInfos` over the servers; an empty `server` is no filter
  infos_from : Text → Text → List Text → List ToolInfo
  unfolding infos_of info_of
  infos_from ns server [] = []
  infos_from ns server (srv ∷ servers) =
      let rest = infos_from ns server servers in
      if is_empty server || text_eq srv server
      then infos_of srv (catalog (upstream_id ns srv)) ++ rest
      else rest

  unfoldable pub tool_infos : Namespace → Text → List ToolInfo
  unfolding infos_from
  tool_infos ns server = infos_from ns.name server ns.servers

-- what one property adds to the words of a schema: its name, and its description if it has one
description_words : Option Text → List Text → List Text
description_words none rest = rest
description_words (some d) rest = d ∷ rest

described : Option Members → Option Text
described none = none
described (some m) = elim (get_member (codes "description") m) [ none ↦ none | some v ↦ as_str v ]

property_words : List (Text × Json) → List Text
unfolding description_words described
property_words [] = []
property_words ((k, v) ∷ props) =
    spaced k ∷ description_words (described (as_obj v)) (property_words props)

properties_of : Option Members → Option Members
properties_of none = none
properties_of (some m) = elim (get_member (codes "properties") m) [
  | none ↦ none
  | some v ↦ as_obj v
]

words_of : Option Members → Text
unfolding property_words
words_of none = []
words_of (some props) = join (codes " ") (property_words (entries props))

-- `schemaKeys`; the order of the properties, which Go leaves open, is that of the value
unfoldable pub schema_keys : Json → Text
unfolding words_of properties_of
schema_keys schema = words_of (properties_of (as_obj schema))
