-- ===== src/Dashboard/Overview.antt =====
-- What the overview, the tools and the audit page of the dashboard show (internal/ui/ui.go:
-- `overviewData`, `toolsPage`, `toolsList`, `auditFragment`), before the templates and without the
-- sizes of processes.
pub mod Logins
pub mod Reauth
mod Tests
use rusty_gateway.Common.{
  ℕ, Bool, true, false, Option, none, some, List, [], ◌∷◌, ◌++◌, ◌&&◌, ◌||◌, not, map, Assoc,
  lookup, if◌then◌else◌, zero, suc, ◌⊎◌, inl, inr,
}
use rusty_gateway.Common.Int.{ℤ, pos}
use rusty_gateway.Common.Text.{Text, codes, text_eq, is_empty}
use rusty_gateway.Supervisor.{Status}
use rusty_gateway.Gateway.Breaker.{BreakerState, off, closed, half_open, opened}
use rusty_gateway.Gateway.Discovery.{ToolInfo, Namespace, Tool}
use rusty_gateway.Gateway.Discovery.Ranking.{tools}
use rusty_gateway.UpstreamAuth.{Entry, is_managed, pending_login}
use rusty_gateway.Audit.{Row}
use rusty_gateway.Audit.Query.{Filter}

unfoldable pub breaker_text : BreakerState → Text
breaker_text off = codes "disabled"
breaker_text closed = codes "closed"
breaker_text half_open = codes "half-open"
breaker_text opened = codes "open"

pub record UpstreamRow : Type 0 where
  pub id : Text
  pub kind : Text
  pub state : Text
  pub breaker : Text
  pub error : Text
  pub pid : ℕ
  pub tools : ℕ
  pub restarts : ℤ
  pub reauth_url : Text

-- breakers[st.ID]
text_of_breaker : Option BreakerState → Text
unfolding breaker_text
text_of_breaker none = []
text_of_breaker (some b) = breaker_text b

reauth_of : Option (Assoc Entry) → Text → Text
reauth_of none id = []
reauth_of (some entries) id =
    if is_managed id entries then codes "/ui/oauth/" ++ id ++ codes "/login" else []

-- `oauth` is none without an OAuth manager
unfoldable pub upstream_row : Assoc BreakerState → Option (Assoc Entry) → Status → UpstreamRow
unfolding text_of_breaker reauth_of
upstream_row breakers oauth st = record {
  id = st.id;
  kind = st.kind;
  state = st.state;
  breaker = text_of_breaker (lookup st.id breakers);
  error = st.error;
  pid = st.pid;
  tools = st.tools;
  restarts = st.restarts;
  reauth_url = reauth_of oauth st.id;
}

-- what one status adds to the links to open
login_row : Option (Assoc Entry) → Status → List (Text × Text)
login_row none st = []
login_row (some entries) st =
    if text_eq st.state (codes "needs_login") && not (is_empty (pending_login st.id entries))
    then (st.id, pending_login st.id entries) ∷ []
    else []

unfoldable pub login_rows : Option (Assoc Entry) → List Status → List (Text × Text)
unfolding login_row
login_rows oauth [] = []
login_rows oauth (st ∷ statuses) = login_row oauth st ++ login_rows oauth statuses

pub record Overview : Type 0 where
  pub upstreams : List UpstreamRow
  pub logins : List (Text × Text)
  pub sessions : ℕ

sessions_of : Option ℕ → ℕ
sessions_of none = 0
sessions_of (some n) = n

-- `overviewData`, less the time of day
unfoldable pub overview_data :
    Assoc BreakerState → Option (Assoc Entry) → Option ℕ → List Status → Overview
unfolding upstream_row login_rows sessions_of
overview_data breakers oauth sessions statuses = record {
  upstreams = map (upstream_row breakers oauth) statuses;
  logins = login_rows oauth statuses;
  sessions = sessions_of sessions;
}

-- `oauthLogin`, with what StartLogin returns for an ID: 404, 400, or a redirect to the provider
pub data LoginReply : Type 0 where
  no_manager : LoginReply
  not_started : Text → LoginReply
  to_provider : Text → LoginReply

abbrev pub started_reply : Text ⊎ Text → LoginReply
started_reply (inl err) = not_started err
started_reply (inr url) = to_provider url

path_value : ℕ → List Text → Text
path_value n [] = []
path_value zero (v ∷ values) = v
path_value (suc n) (v ∷ values) = path_value n values

-- the values are those of the wildcards ns and server
unfoldable pub oauth_login : Option (Text → Text ⊎ Text) → List Text → LoginReply
unfolding path_value
oauth_login none values = no_manager
oauth_login (some start_login) values =
    started_reply (start_login (path_value 0 values ++ codes "/" ++ path_value 1 values))

-- the namespace that `toolsPage` starts with
unfoldable pub first_namespace : List Text → Text
first_namespace [] = []
first_namespace (ns ∷ nss) = ns

pub record ToolRow : Type 0 where
  pub name : Text
  pub title : Text
  pub description : Text

-- the rows of `toolsList`, less the text of the schema; an unknown namespace has no tools
unfoldable pub tool_rows :
    (ℕ → ℕ) → (Text → Option (List Tool)) → Option Namespace → Text → List ToolRow
tool_rows lower catalog none query = []
tool_rows lower catalog (some ns) query =
    map (λ (t : ToolInfo). record { name = t.name; title = t.title; description = t.description })
      (tools lower catalog ns query 50)

pub data AuditPage : Type 0 where
  not_configured query_failed : AuditPage
  audit_rows : Bool → List Row → AuditPage

shown_rows : Bool → Option (List Row) → AuditPage
shown_rows filtered none = query_failed
shown_rows filtered (some rows) = audit_rows filtered rows

-- `auditFragment`: the rows, and whether a filter is set; `select_rows` is the method Query
unfoldable pub audit_fragment :
    Option (Filter → Option (List Row)) → Text → Text → Text → Text → AuditPage
unfolding shown_rows
audit_fragment none ns server tool status = not_configured
audit_fragment (some select_rows) ns server tool status =
    shown_rows
      (not (is_empty ns) || not (is_empty server) || not (is_empty tool) || not (is_empty status))
      (select_rows (record {
        namespace = ns;
        server = server;
        tool = tool;
        status = status;
        since = none;
        after_id = 0;
        limit = pos 100;
      }))
