-- ===== src/Common/Json.antt =====
-- A decoded JSON value: Go's `any` after json.Unmarshal. Numbers are kept as their text.
use rusty_gateway.Common.{Bool, Option, none, some, List, [], ◌∷◌, if◌then◌else◌}
use rusty_gateway.Common.Text.{Text, text_eq}

mutual
  pub data Json : Type 0 where
    null : Json
    bool : Bool → Json
    num : Text → Json
    str : Text → Json
    arr : Elems → Json
    obj : Members → Json

  pub data Elems : Type 0 where
    nil : Elems
    cons : Json → Elems → Elems

  pub data Members : Type 0 where
    end : Members
    member : Text → Json → Members → Members

-- v.(map[string]any)
abbrev pub as_obj : Json → Option Members
as_obj (obj m) = some m
as_obj null = none
as_obj (bool b) = none
as_obj (num n) = none
as_obj (str s) = none
as_obj (arr xs) = none

-- v.(string)
abbrev pub as_str : Json → Option Text
as_str (str s) = some s
as_str null = none
as_str (bool b) = none
as_str (num n) = none
as_str (obj m) = none
as_str (arr xs) = none

-- m[k] on a decoded object
unfoldable pub get_member : Text → Members → Option Json
get_member k end = none
get_member k (member j v m) = if text_eq j k then some v else get_member k m

abbrev pub entries : Members → List (Text × Json)
entries end = []
entries (member k v m) = (k, v) ∷ entries m
