-- ===== src/Gateway/Discovery/Sync.antt =====
-- `syncLocked` of internal/gateway/gateway.go: a namespace's native tools follow the catalog.
-- A registered tool is the text that json.Marshal makes of it, with the upstream tool that its
-- handler calls.
pub mod Following
pub mod Agreeing
use rusty_gateway.Common.{
  ℕ, Bool, true, false, Option, none, some, List, [], ◌∷◌, ◌++◌, map, any, ◌&&◌, ◌||◌, not, is_nil,
  Assoc, lookup, insert, remove, if◌then◌else◌,
}
use rusty_gateway.Common.Text.{Text, codes, text_eq}
use rusty_gateway.Gateway.Names.{prefixed, upstream_id}
use rusty_gateway.Gateway.Discovery.{
  Discovery, full, connector, search_mode, hybrid, unknown_mode, Namespace, Tool, display_title,
}

-- The handler that `g.handler(ns, srvName, t.Name, u)` makes.
pub record Registered : Type 0 where
  pub encoded : Text
  pub upstream : Text
  pub tool : Text

-- What the mcp server of a namespace offers, and the `registered` map beside it.
pub record NsServer : Type 0 where
  pub offered : Assoc Registered
  pub registered : Assoc Text

unfoldable pub syncs : Discovery → Bool
syncs full = true
syncs hybrid = true
syncs connector = false
syncs search_mode = false
syncs unknown_mode = false

-- ns.ns.Discovery == DiscoveryHybrid && !slices.Contains(ns.ns.PinnedTools, name)
skipped : Discovery → List Text → Text → Bool
skipped hybrid pins name = not (any (λ p. text_eq p name) pins)
skipped full pins name = false
skipped connector pins name = false
skipped search_mode pins name = false
skipped unknown_mode pins name = false

-- `pt := *t` with the prefixed name and the title that shows the provenance
unfoldable pub native_tool : Text → Tool → Tool
native_tool srv t = record t {
  name = prefixed srv t.name;
  title = srv ++ codes ": " ++ display_title t;
}

-- One tool that the namespace wants: its name, and what AddTool registers.
abbrev pub Wanted : Type 0
Wanted = Text × Registered

module _ (marshal : Tool → Text) where
  wanted_tools : Discovery → List Text → Text → Text → List Tool → List Wanted
  unfolding skipped native_tool
  wanted_tools mode pins srv id [] = []
  wanted_tools mode pins srv id (t ∷ ts) =
      let rest = wanted_tools mode pins srv id ts in
      if skipped mode pins (prefixed srv t.name)
      then rest
      else (
        prefixed srv t.name,
        record { encoded = marshal (native_tool srv t); upstream = id; tool = t.name },
      )
        ∷ rest

  wanted_of : Discovery → List Text → Text → Text → Option (List Tool) → List Wanted
  unfolding wanted_tools
  wanted_of mode pins srv id none = []
  wanted_of mode pins srv id (some ts) = wanted_tools mode pins srv id ts

  module _ (catalog : Text → Option (List Tool)) where
    -- the tools that the two loops go through, in their order
    wanted_from : Namespace → List Text → List Wanted
    unfolding wanted_of
    wanted_from ns [] = []
    wanted_from ns (srv ∷ servers) =
        wanted_of ns.discovery ns.pinned_tools srv (upstream_id ns.name srv)
          (catalog (upstream_id ns.name srv))
        ++ wanted_from ns servers

    unfoldable pub wanted : Namespace → List Wanted
    unfolding wanted_from
    wanted ns = wanted_from ns ns.servers

-- ns.registered[name] == want[name]
unchanged : Option Text → Text → Bool
unchanged none enc = text_eq [] enc
unchanged (some old) enc = text_eq old enc

-- The body of the inner loop: `want` grows, and the tool is added if its text is new.
unfoldable pub offer :
    Assoc Text → List Wanted → Assoc Text × Assoc Registered → Assoc Text × Assoc Registered
unfolding unchanged
offer registered [] s = s
offer registered ((name, r) ∷ ws) (want, offered) = offer registered ws (
  insert name r.encoded want,
  if unchanged (lookup name registered) r.encoded then offered else insert name r offered,
)

-- RemoveTools of every registered name that is not wanted
unfoldable pub drop_stale : Assoc Text → Assoc Text → Assoc Registered → Assoc Registered
drop_stale want [] offered = offered
drop_stale want ((name, enc) ∷ registered) offered =
    drop_stale want registered
      (elim (lookup name want) [ none ↦ remove name offered | some e ↦ offered ])

unfoldable pub sync : List Wanted → NsServer → NsServer
unfolding offer drop_stale
sync ws s =
    let (want, offered) = offer s.registered ws ([], s.offered) in
    record { offered = drop_stale want s.registered offered; registered = want }

-- `syncLocked` with the check of the mode
unfoldable pub sync_locked :
    (Tool → Text) → (Text → Option (List Tool)) → Namespace → NsServer → NsServer
unfolding syncs wanted sync
sync_locked marshal catalog ns s =
    if syncs ns.discovery then sync (wanted marshal catalog ns) s else s
