-- ===== src/Audit/Query.antt =====
-- Reading the log (internal/audit/store.go, `Query` and `Prune`; cmd/gateway/audit.go). A query is
-- the conditions, the order and the limit that go into the SQL text; a row passes a query when it
-- meets every condition.
use rusty_gateway.Common.{
  ℕ, Bool, Option, none, some, List, [], ◌∷◌, ◌++◌, all, max, ltb, ◌||◌, not, select, if◌then◌else◌,
}
use rusty_gateway.Common.Int.{ℤ, pos, pos_part, int_leb, int_ltb}
use rusty_gateway.Common.Text.{Text, text_eq, is_empty}
use rusty_gateway.Audit.{Row}

-- `since` is `none` for the zero time, and else its milliseconds; IDs that a row has are positive.
pub record Filter : Type 0 where
  pub namespace : Text
  pub server : Text
  pub tool : Text
  pub status : Text
  pub since : Option ℤ
  pub after_id : ℕ
  pub limit : ℤ

pub data Condition : Type 0 where
  namespace_is server_is tool_is status_is : Text → Condition
  ts_from : ℤ → Condition
  id_above : ℕ → Condition

pub record Plan : Type 0 where
  pub conditions : List Condition
  pub oldest_first : Bool
  pub limit : ℕ

unfoldable pub text_condition : (Text → Condition) → Text → List Condition
text_condition is t = if is_empty t then [] else is t ∷ []

unfoldable pub since_condition : Option ℤ → List Condition
since_condition none = []
since_condition (some t) = ts_from t ∷ []

unfoldable pub id_condition : ℕ → List Condition
id_condition n = if ltb 0 n then id_above n ∷ [] else []

-- the text and the arguments that `Query` builds
unfoldable pub plan : Filter → Plan
unfolding text_condition since_condition id_condition
plan f = record {
  conditions =
      text_condition namespace_is f.namespace
      ++ text_condition server_is f.server
      ++ text_condition tool_is f.tool
      ++ text_condition status_is f.status
      ++ since_condition f.since
      ++ id_condition f.after_id;
  oldest_first = ltb 0 f.after_id;
  limit = if int_leb f.limit (pos 0) || int_ltb (pos 1000) f.limit then 100 else pos_part f.limit;
}

unfoldable pub meets : Row → Condition → Bool
meets r (namespace_is t) = text_eq r.namespace t
meets r (server_is t) = text_eq r.server t
meets r (tool_is t) = text_eq r.tool t
meets r (status_is t) = text_eq r.status t
meets r (ts_from t) = int_leb t r.ts
meets r (id_above n) = ltb n r.id

unfoldable pub passes : Filter → Row → Bool
unfolding plan meets
passes f r = all (meets r) (plan f).conditions

-- DELETE FROM tool_calls WHERE ts < before
unfoldable pub prune : ℤ → List Row → List Row
prune before rows = select (λ r. not (int_ltb r.ts before)) rows

-- The filter of one turn of `audit tail -f`, with `last` the largest ID that was shown.
unfoldable pub follow_filter : Filter → ℕ → Filter
follow_filter base last = record base { after_id = max last 1; limit = pos 1000 }
