-- ===== src/Config/Expand.antt =====
-- References to environment variables (internal/config/config.go, `expand`).
pub mod Segments
use rusty_gateway.Common.{
  ℕ, zero, suc, ◌+◌, Bool, true, false, Option, none, some, List, [], ◌∷◌, ◌++◌, length, take, drop,
  leb, ◌==◌, ◌&&◌, ◌||◌, if◌then◌else◌,
}
use rusty_gateway.Common.Text.{Text, codes, is_empty}
use rusty_gateway.Config.{UpstreamConfig, AuthConfig, Config}

-- [A-Za-z_]
unfoldable pub is_first : ℕ → Bool
is_first c = (leb b'A' c && leb c b'Z') || (leb b'a' c && leb c b'z') || c == b'_'

-- [A-Za-z0-9_]
unfoldable pub is_rest : ℕ → Bool
unfolding is_first
is_rest c = is_first c || (leb b'0' c && leb c b'9')

-- the name up to a closing brace, if only such bytes come before it
unfoldable pub rest_name : Text → Option Text
unfolding is_rest
rest_name [] = none
rest_name (c ∷ s) =
    let rest = rest_name s in
    if c == b'}'
    then some []
    else if is_rest c
    then elim rest [ none ↦ none | some name ↦ some (c ∷ name) ]
    else none

first_name : Text → Option Text
unfolding is_first rest_name
first_name [] = none
first_name (c ∷ s) =
    if is_first c then elim (rest_name s) [ none ↦ none | some name ↦ some (c ∷ name) ] else none

-- envRef at the start of a text: the name
unfoldable pub reference : Text → Option Text
unfolding first_name
reference [] = none
reference (a ∷ []) = none
reference (a ∷ b ∷ s) = if a == b'$' && b == b'{' then first_name s else none

abbrev pub value_of : Option Text → Text
value_of none = []
value_of (some v) = v

abbrev pub missing_of : Text → Option Text → List Text
missing_of name none = name ∷ []
missing_of name (some v) = []

module _ (env : Text → Option Text) where
  -- ReplaceAllStringFunc with the function of `expandOne`: the text, and the names that are not
  -- set. `skip` bytes belong to a reference that is already replaced.
  unfoldable pub expand_from : ℕ → Text → Text × List Text
  expand_from skip [] = ([], [])
  expand_from (suc skip) (c ∷ s) = expand_from skip s
  expand_from zero (c ∷ s) = elim (reference (c ∷ s)) [
    | none ↦ (let (out, missing) = expand_from 0 s in (c ∷ out, missing))
    | some name ↦
        (let (out, missing) = expand_from (length name + 2) s in
          (value_of (env name) ++ out, missing_of name (env name) ++ missing))
  ]

  unfoldable pub expand_one : Text → Text × List Text
  unfolding expand_from
  expand_one s = expand_from 0 s

  -- the loops over Env and Headers
  expand_values : List (Text × Text) → List (Text × Text) × List Text
  unfolding expand_one
  expand_values [] = ([], [])
  expand_values ((k, v) ∷ entries) =
      let (out, missing) = expand_one v in
      let (rest, more) = expand_values entries in ((k, out) ∷ rest, missing ++ more)

  expand_secret : UpstreamConfig → Text × List Text
  expand_secret srv =
      if is_empty srv.oauth_client_secret_env
      then (srv.oauth_client_secret, [])
      else elim (env srv.oauth_client_secret_env) [
        | none ↦ (srv.oauth_client_secret, srv.oauth_client_secret_env ∷ [])
        | some v ↦ (v, [])
      ]

  unfoldable pub expand_server : UpstreamConfig → UpstreamConfig × List Text
  unfolding expand_values expand_secret
  expand_server srv =
      let (envs, missing) = expand_values srv.env in
      let (heads, more) = expand_values srv.headers in
      let (secret, last) = expand_secret srv in
      (
        record srv { env = envs; headers = heads; oauth_client_secret = secret },
        missing ++ more ++ last,
      )

  expand_servers : List (Text × UpstreamConfig) → List (Text × UpstreamConfig) × List Text
  unfolding expand_server
  expand_servers [] = ([], [])
  expand_servers ((name, srv) ∷ servers) =
      let (out, missing) = expand_server srv in
      let (rest, more) = expand_servers servers in ((name, out) ∷ rest, missing ++ more)

  static_token : AuthConfig → Text
  static_token a =
      if is_empty a.static_token_env then a.static_token else elim (env a.static_token_env) [
        | none ↦ a.static_token
        | some v ↦ if is_empty v then a.static_token else v
      ]

  -- `expand`: the configuration, and the names that its error lists; there is no error without one
  unfoldable pub expand : Config → Config × List Text
  unfolding expand_servers static_token
  expand c =
      let (servers, missing) = expand_servers c.servers in
      (
        record c { servers = servers; auth = record c.auth { static_token = static_token c.auth } },
        missing,
      )
