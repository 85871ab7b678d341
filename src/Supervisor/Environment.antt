-- ===== src/Supervisor/Environment.antt =====
-- The environment of a child, and how it is logged (internal/supervisor/supervisor.go,
-- `composeEnv`, `redactEnv`, `cutEq`). A text is its bytes.
pub mod Hidden
use rusty_gateway.Common.{
  ℕ, Bool, true, false, Option, none, some, List, [], ◌∷◌, ◌++◌, map, any, ◌||◌, ◌==◌,
  if◌then◌else◌, Assoc, lookup,
}
use rusty_gateway.Common.Text.{Text, codes}
use rusty_gateway.Gateway.Discovery.Ranking.{text_ltb}
use rusty_gateway.Redact.Pattern.{placeholder, fold_word}

-- os.LookupEnv is the parameter `host`.
unfoldable pub base_env : (Text → Option Text) → List Text → List Text
base_env host [] = []
base_env host (k ∷ ks) =
    let rest = base_env host ks in elim (host k) [ none ↦ rest | some v ↦ (k ++ b'=' ∷ v) ∷ rest ]

-- sort.Strings on the keys of the map, each with its value
unfoldable pub place_key : Text × Text → List (Text × Text) → List (Text × Text)
place_key (k, v) [] = (k, v) ∷ []
place_key (k, v) ((j, w) ∷ rest) =
    let behind = place_key (k, v) rest in
    if text_ltb j k then (j, w) ∷ behind else (k, v) ∷ (j, w) ∷ rest

unfoldable pub sort_keys : List (Text × Text) → List (Text × Text)
unfolding place_key
sort_keys [] = []
sort_keys (e ∷ es) = place_key e (sort_keys es)

unfoldable pub compose_env : (Text → Option Text) → List Text → List (Text × Text) → List Text
unfolding base_env sort_keys
compose_env host base extra = base_env host base ++ map (λ e. e.0 ++ b'=' ∷ e.1) (sort_keys extra)

-- the part before the first '='
unfoldable pub key_of : Text → Text
key_of [] = []
key_of (c ∷ s) = let rest = key_of s in if c == b'=' then [] else c ∷ rest

secret_words : List Text
secret_words =
    codes "token"
    ∷ codes "key"
    ∷ codes "secret"
    ∷ codes "password"
    ∷ codes "auth"
    ∷ codes "credential"
    ∷ []

-- secretKey.MatchString of this file
unfoldable pub is_secret : Text → Bool
unfolding secret_words
is_secret [] = false
is_secret (c ∷ s) = any (λ w. fold_word w (c ∷ s)) secret_words || is_secret s

unfoldable pub redact_entry : Text → Text
unfolding key_of is_secret
redact_entry kv = if is_secret (key_of kv) then key_of kv ++ b'=' ∷ placeholder else kv

unfoldable pub redact_env : List Text → List Text
unfolding redact_entry
redact_env env = map redact_entry env
