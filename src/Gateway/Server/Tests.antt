-- ===== src/Gateway/Server/Tests.antt =====
-- The theorems about the gateway and its servers at concrete inputs.
use rusty_gateway.Common.{
  inl, Bool, false, In, ◌||◌, arith, ◌≡◌, refl, Option, none, some, List, [], ◌∷◌, insert,
  if◌then◌else◌,
}
use rusty_gateway.Common.Int.{pos}
use rusty_gateway.Common.Json.{null}
use rusty_gateway.Common.Text.{Text, codes, text_eq}
use rusty_gateway.Gateway.Limits.{Limits}
use rusty_gateway.Gateway.Breaker.{BreakerConfig, closed, new_breaker, state}
use rusty_gateway.Gateway.Names.{upstream_id, prefixed}
use rusty_gateway.Gateway.Discovery.{Namespace, full, Tool}
use rusty_gateway.Gateway.Discovery.Sync.{wanted}
use rusty_gateway.Gateway.Discovery.Sync.Following.{wanted_text}
use rusty_gateway.Gateway.Server.{
  Server, new_server, synced, Gateway, new_gateway, refresh, refresh_all, breaker_states,
  namespaces,
}
use rusty_gateway.Gateway.Server.Refreshing
use rusty_gateway.Gateway.Server.Refreshing.{
  Follows, lists, History, changed, refreshed, refreshed_all, History-Follows,
}

abbrev limits : Limits
limits = record {
  call_timeout = pos 60;
  max_concurrent = pos 0;
  per_namespace = pos 0;
  per_server = pos 2;
  namespace_concurrency = [];
  server_concurrency = (codes "me/a", pos 1) ∷ [];
  server_timeout = [];
}

abbrev cfg : BreakerConfig
cfg = record { failures = pos 2; cooldown = pos 30 }

abbrev me : Namespace
me = record {
  name = codes "me";
  servers = codes "a" ∷ codes "b" ∷ [];
  discovery = full;
  pinned_tools = [];
}

abbrev built : Gateway
built = new_gateway limits cfg (me ∷ [])

built-states : breaker_states built ≡ (codes "me/a", closed) ∷ (codes "me/b", closed) ∷ []
unfolding breaker_states new_gateway upstream_id new_breaker state text_eq insert
built-states = refl

built-namespaces : namespaces built ≡ codes "me" ∷ []
unfolding namespaces new_gateway insert
built-namespaces = refl

abbrev a_tool : Tool
a_tool = record {
  name = codes "t";
  title = [];
  annotation_title = none;
  description = [];
  input_schema = null;
}

abbrev nothing_up : Text → Option (List Tool)
nothing_up id = none

abbrev a_up : Text → Option (List Tool)
a_up id = if text_eq (codes "me/a") id then some (a_tool ∷ []) else none

abbrev both_up : Text → Option (List Tool)
both_up id = if text_eq (codes "me/b") id then some (a_tool ∷ []) else a_up id

abbrev name_of : Tool → Text
name_of t = t.name

-- One upstream becomes ready, and then another one before the first Refresh, which still finds
-- nothing of it; its own Refresh comes after RefreshAll.
abbrev first_done : Gateway
first_done = refresh name_of a_up (codes "me/a") built

abbrev all_done : Gateway
all_done = refresh name_of both_up (codes "me/b") (refresh_all name_of both_up first_done)

first_false : (a b : Bool) → (a || b) ≡ false → a ≡ false
first_false a b h = ground arith

read-same : (j : Text) → lists j (codes "me/b" ∷ []) ≡ false → a_up j ≡ both_up j
read-same j free = rw (first_false (text_eq (codes "me/b") j) false free) refl

history : History name_of limits cfg (me ∷ []) both_up [] all_done
unfolding refresh refresh_all wanted wanted_text new_gateway text_eq upstream_id prefixed insert
history =
    refreshed [] (codes "me/b") [] both_up
      (refreshed_all both_up
        (refreshed (codes "me/b" ∷ []) (codes "me/a") [] a_up
          (changed (codes "me/b") both_up
            (changed (codes "me/a") a_up (Refreshing.built nothing_up (λ j. inl refl))
              (λ j other. rw other refl))
            (λ j other. rw other refl))
          read-same ((refl, refl, tt), tt))
        (λ j free. refl) ((refl, refl, (refl, refl, tt)), tt))
      (λ j free. refl) ((refl, refl, (refl, refl, tt)), tt)

abbrev me_server : Server
me_server =
    synced name_of both_up (synced name_of both_up (synced name_of a_up (new_server limits me)))

me_server-served : In (codes "me", me_server) all_done.servers
unfolding refresh refresh_all new_gateway text_eq upstream_id insert
me_server-served = inl refl

History-Follows_example : Follows name_of both_up me_server
History-Follows_example =
    History-Follows name_of both_up [] all_done (codes "me") me_server history me_server-served
      (λ j has. refl)
