-- ===== src/Gateway/Discovery/Tests.antt =====
-- A small catalog, and the theorems about discovery at concrete inputs.
use rusty_gateway.Common.{
  ℕ, ◌≤◌, ◌<◌, ◌⊎◌, ◌≡◌, refl, Option, none, some, List, [], ◌∷◌, map, All, arith, inl, In, length,
  lookup, insert, remove, if◌then◌else◌,
}
use rusty_gateway.Common.Json.{null}
use rusty_gateway.Common.Text.{Text, codes, text_eq}
use rusty_gateway.Common.Text.Search.{fields, cut, contains, spaced}
use rusty_gateway.Gateway.Names.{prefixed, upstream_id}
use rusty_gateway.Gateway.Names.Cutting.{is_plain}
use rusty_gateway.Gateway.Discovery.{
  search_mode, Namespace, Tool, ToolInfo, tool_infos, schema_keys,
}
use rusty_gateway.Gateway.Discovery.Ranking.{score_of, token_score, search}
use rusty_gateway.Gateway.Discovery.Ranking.Best.{Ranked, search-Ranked, search_complete, RanksOver}
use rusty_gateway.Gateway.Discovery.MetaTools.{unknown_server, ok, err, Target, meta_call, resolve}
use rusty_gateway.Gateway.Discovery.MetaTools.Calling.{meta_call-unplain, meta_call-listed}
use rusty_gateway.Gateway.Discovery.Sync.{Registered, NsServer, Wanted, sync}
use rusty_gateway.Gateway.Discovery.Sync.Following.{
  IsConsistent, encoded_of, wanted_text, sync_exact,
}

abbrev get_workouts : Tool
get_workouts = record {
  name = codes "get_workouts";
  title = [];
  annotation_title = none;
  description = codes "list";
  input_schema = null;
}

abbrev catalog : Text → Option (List Tool)
catalog id =
    if text_eq id (codes "me/hevy")
    then some (get_workouts ∷ [])
    else if text_eq id (codes "me/a__b")
    then some (get_workouts ∷ [])
    else none

catalog_runs : Unit {0}
unfolding tool_infos text_eq upstream_id prefixed cut is_plain meta_call resolve
catalog_runs = tt

abbrev me : Namespace
me = record {
  name = codes "me";
  servers = codes "hevy" ∷ [];
  discovery = search_mode;
  pinned_tools = [];
}

abbrev info : ToolInfo
info = record {
  name = codes "hevy__get_workouts";
  server = codes "hevy";
  title = codes "get_workouts";
  description = codes "list";
  input_schema = some null;
}

me-infos : tool_infos catalog me [] ≡ info ∷ []
unfolding catalog_runs
me-infos = refl

abbrev same_case : ℕ → ℕ
same_case c = c

abbrev query : Text
query = codes "workouts now"

search-Ranked_example :
    (length (search same_case catalog me query [] 3) ≤ 3)
    × Ranked same_case (fields (map same_case query)) (search same_case catalog me query [] 3)
    × All
        (λ i.
          In i (tool_infos catalog me [])
          × (0 < score_of same_case (fields (map same_case query)) i))
        (search same_case catalog me query [] 3)
unfolding fields
search-Ranked_example = search-Ranked same_case catalog me query [] 3 refl

listed : In info (tool_infos catalog me [])
unfolding catalog_runs
listed = inl refl

scores : 0 < score_of same_case (fields (map same_case query)) info
unfolding fields score_of token_score contains spaced schema_keys
scores = omega arith

search_complete_example :
    In info (search same_case catalog me query [] 3)
    ⊎ ((length (search same_case catalog me query [] 3) ≡ 3)
        × All
            (λ j. RanksOver same_case (fields (map same_case query)) j info)
            (search same_case catalog me query [] 3))
unfolding fields
search_complete_example = search_complete same_case catalog me query [] 3 info refl listed scores

meta_call-listed_example :
    (t : Target) × (meta_call catalog me [] (some (record { name = info.name; arguments = [] }))
      ≡ ok t)
    × (t.server ≡ info.server)
    × (prefixed t.server t.tool ≡ info.name)
    × (t.upstream ≡ upstream_id me.name info.server)
unfolding is_plain
meta_call-listed_example = meta_call-listed catalog me info [] (refl, tt) listed

-- Two servers, the second of which has the first one's separator in its name.
abbrev clash : Namespace
clash = record me { servers = codes "a" ∷ codes "a__b" ∷ [] }

abbrev split_catalog : Text → Option (List Tool)
split_catalog id =
    if text_eq id (codes "me/a")
    then some (record get_workouts { name = codes "b__get_workouts" } ∷ [])
    else none

abbrev reached : Target
reached = record {
  server = codes "a";
  tool = codes "b__get_workouts";
  upstream = codes "me/a";
  arguments = codes "{}";
}

split_call :
    meta_call split_catalog clash []
      (some (record { name = prefixed (codes "a__b") (codes "get_workouts"); arguments = [] }))
    ≡ ok reached
unfolding catalog_runs
split_call = refl

meta_call-unplain_example :
    ¬ ((reached.server ≡ codes "a__b") × (reached.tool ≡ codes "get_workouts"))
unfolding is_plain
meta_call-unplain_example =
    meta_call-unplain split_catalog clash (codes "a__b") (codes "get_workouts") [] reached refl
      split_call

-- A tool of a server with "__" in its name is listed, and call_tool refuses its listed name.
unplain_call :
    meta_call catalog
      (record me { servers = codes "a__b" ∷ [] })
      []
      (some (record { name = codes "a__b__get_workouts"; arguments = [] }))
    ≡ err (unknown_server (codes "a"))
unfolding catalog_runs
unplain_call = refl

abbrev new_text : Registered
new_text = record { encoded = codes "new"; upstream = codes "me/a"; tool = codes "t" }

abbrev ws : List Wanted
ws = (codes "a__t", new_text) ∷ []

abbrev served : NsServer
served = record {
  offered =
      (
        codes "a__old",
        record { encoded = codes "old"; upstream = codes "me/a"; tool = codes "old" },
      )
      ∷ [];
  registered = (codes "a__old", codes "old") ∷ [];
}

served-IsConsistent : IsConsistent served
unfolding lookup
served-IsConsistent name = ground arith

sync_exact_example :
    ((name : Text) → encoded_of (lookup name (sync ws served).offered) ≡ wanted_text name ws)
    × IsConsistent (sync ws served)
unfolding wanted_text
sync_exact_example = sync_exact ws served (refl, refl, tt) served-IsConsistent

-- Two wanted tools of one name, with texts x and y: a second sync of the same list offers x, while
-- the map says y.
abbrev twice : List Wanted
twice =
    (codes "n", record { encoded = codes "x"; upstream = codes "1"; tool = codes "p" })
    ∷ (codes "n", record { encoded = codes "y"; upstream = codes "2"; tool = codes "q" })
    ∷ []

abbrev nothing : NsServer
nothing = record { offered = []; registered = [] }

second_sync :
    (encoded_of (lookup (codes "n") (sync twice (sync twice nothing)).offered) ≡ some (codes "x"))
    × (lookup (codes "n") (sync twice (sync twice nothing)).registered ≡ some (codes "y"))
unfolding sync lookup insert remove text_eq
second_sync = (refl, refl)
