-- ===== src/UpstreamAuth/Manager.antt =====
-- The table of upstreams that `New` builds (internal/upstreamauth/manager.go, store.go). Handlers
-- are numbered in the order in which they are made.
pub mod Entries
use rusty_gateway.Common.{ℕ, suc, Option, none, some, List, [], ◌∷◌, Assoc, insert}
use rusty_gateway.Common.Text.{Text}
use rusty_gateway.UpstreamAuth.{Credentials, Entry, new_entry}

-- ClientCredentials: the ID of a client and its secret, if it has one
pub record Client : Type 0 where
  pub id : Text
  pub secret : Option Text

pub record Upstream : Type 0 where
  pub id : Text
  pub url : Text
  pub preregistered : Option Client
  pub headers : List (Text × Text)

-- what `Load` of the store returns: `no_row` is errNotFound
pub data Loaded : Type 0 where
  loaded : Credentials → Loaded
  no_row : Loaded
  load_failed : Text → Loaded

module _ (load : Text → Loaded) where
  -- the loop of `New`, where n handlers have been made; `none` is its error
  unfoldable pub add_entries : ℕ → List Upstream → Assoc Entry → Option (Assoc Entry)
  add_entries n [] m = some m
  add_entries n (up ∷ ups) m = elim (load up.id) [
    | loaded creds ↦ add_entries (suc n) ups (insert up.id (new_entry n (some creds)) m)
    | no_row ↦ add_entries n ups (insert up.id (new_entry n none) m)
    | load_failed err ↦ none
  ]

  -- `New`
  unfoldable pub new_manager : List Upstream → Option (Assoc Entry)
  unfolding add_entries
  new_manager ups = add_entries 0 ups []
