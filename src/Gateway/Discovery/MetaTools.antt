-- ===== src/Gateway/Discovery/MetaTools.antt =====
-- The meta-tools of internal/gateway/discovery.go (`registerMetaTools`, `metaCall`). The decoded
-- arguments of a request are `none` where json.Unmarshal refuses them; what a call resolves to goes
-- on to the handler of that tool.
pub mod Describing
pub mod Calling
use rusty_gateway.Common.{
  ℕ, Bool, true, false, Option, none, some, List, [], ◌∷◌, ◌++◌, map, any, ◌||◌, length, is_nil,
  ltb, Assoc, lookup, insert, if◌then◌else◌,
}
use rusty_gateway.Common.Int.{ℤ, pos, pos_part, int_ltb, int_leb}
use rusty_gateway.Common.Text.{Text, codes, text_eq, is_empty}
use rusty_gateway.Common.Text.Search.{cut}
use rusty_gateway.Gateway.Names.{separator, upstream_id}
use rusty_gateway.Gateway.Discovery.{
  Discovery, full, connector, search_mode, hybrid, unknown_mode, Namespace, Tool, ToolInfo,
  tool_infos,
}
use rusty_gateway.Gateway.Discovery.Ranking.{search}

pub data MetaError : Type 0 where
  invalid_arguments : MetaError
  names_count : MetaError
  unknown_tool : Text → MetaError
  not_prefixed : Text → MetaError
  unknown_server : Text → MetaError
  no_tool : Text → Text → MetaError

pub data Outcome (A : Type 0) : Type 0 where
  ok : A → Outcome A
  err : MetaError → Outcome A

-- The names of the tools that `registerMetaTools` adds.
connector_names : List Text → List Text
connector_names [] = []
connector_names (srv ∷ servers) =
    (srv ++ separator ++ codes "list_tools")
    ∷ (srv ++ separator ++ codes "call")
    ∷ connector_names servers

search_names : List Text
search_names = codes "search_tools" ∷ codes "describe_tools" ∷ codes "call_tool" ∷ []

unfoldable pub meta_tool_names : Discovery → List Text → List Text
unfolding connector_names search_names
meta_tool_names full servers = []
meta_tool_names connector servers = connector_names servers
meta_tool_names search_mode servers = search_names
meta_tool_names hybrid servers = search_names
meta_tool_names unknown_mode servers = []

pub record SearchArgs : Type 0 where
  pub query : Text
  pub server : Text
  pub limit : ℤ

-- `if in.Limit <= 0 || in.Limit > 50 { in.Limit = 10 }`
unfoldable pub search_limit : ℤ → ℕ
search_limit l = if int_leb l (pos 0) || int_ltb (pos 50) l then 10 else pos_part l

abbrev pub compact : ToolInfo → ToolInfo
compact info = record info { input_schema = none }

-- the handler of search_tools
unfoldable pub search_tools :
    (ℕ → ℕ) → (Text → Option (List Tool)) → Namespace → Option SearchArgs → Outcome (List ToolInfo)
unfolding search_limit
search_tools lower catalog ns none = err invalid_arguments
search_tools lower catalog ns (some args) =
    ok (map compact (search lower catalog ns args.query args.server (search_limit args.limit)))

-- `byName`: a later tool of the same name replaces an earlier one
unfoldable pub by_name : List ToolInfo → Assoc ToolInfo → Assoc ToolInfo
by_name [] m = m
by_name (info ∷ infos) m = by_name infos (insert info.name info m)

cons_ok : ToolInfo → Outcome (List ToolInfo) → Outcome (List ToolInfo)
cons_ok info (ok infos) = ok (info ∷ infos)
cons_ok info (err e) = err e

-- the loop over the requested names
unfoldable pub select_names : Assoc ToolInfo → List Text → Outcome (List ToolInfo)
unfolding cons_ok
select_names m [] = ok []
select_names m (name ∷ names) = elim (lookup name m) [
  | none ↦ err (unknown_tool name)
  | some info ↦ cons_ok info (select_names m names)
]

-- the handler of describe_tools
unfoldable pub describe_tools :
    (Text → Option (List Tool)) → Namespace → Option (List Text) → Outcome (List ToolInfo)
unfolding select_names by_name
describe_tools catalog ns none = err invalid_arguments
describe_tools catalog ns (some names) =
    if is_nil names || ltb 50 (length names)
    then err names_count
    else select_names (by_name (tool_infos catalog ns []) []) names

pub record CallArgs : Type 0 where
  pub name : Text
  pub arguments : Text

-- The handler and the request that `metaCall` ends with.
pub record Target : Type 0 where
  pub server : Text
  pub tool : Text
  pub upstream : Text
  pub arguments : Text

abbrev pub or_empty_object : Text → Text
or_empty_object args = if is_nil args then codes "{}" else args

has_tool : Text → List Tool → Bool
has_tool name tools = any (λ t. text_eq t.name name) tools

resolve_tool : Text → Text → Text → Text → Option (List Tool) → Outcome Target
unfolding has_tool
resolve_tool id srv tool args none = err (unknown_server srv)
resolve_tool id srv tool args (some tools) =
    if has_tool tool tools
    then ok (record { server = srv; tool = tool; upstream = id; arguments = or_empty_object args })
    else err (no_tool srv tool)

module _ (catalog : Text → Option (List Tool)) (ns : Namespace) where
  -- from the check that the server belongs to the namespace on
  unfoldable pub resolve : Text → Text → Text → Outcome Target
  unfolding resolve_tool
  resolve srv tool args =
      if any (λ s. text_eq s srv) ns.servers
      then resolve_tool (upstream_id ns.name srv) srv tool args (catalog (upstream_id ns.name srv))
      else err (unknown_server srv)

  resolve_cut : CallArgs → Option (Text × Text) → Outcome Target
  resolve_cut args none = err (not_prefixed args.name)
  resolve_cut args (some (srv, tool)) = resolve srv tool args.arguments

  -- `metaCall`; an empty `server` stands for the search modes
  unfoldable pub meta_call : Text → Option CallArgs → Outcome Target
  unfolding resolve_cut
  meta_call server none = err invalid_arguments
  meta_call server (some args) =
      if is_empty server
      then resolve_cut args (cut separator args.name)
      else resolve server args.name args.arguments
