-- ===== src/Audit/Log.antt =====
-- The rows of the log as SQLite keeps them, and what reads them: `Insert` and `Query` of
-- internal/audit/store.go with its schema, and `audit tail` of cmd/gateway/audit.go. The table is
-- the list of its rows by ascending ID. A text that is stored as NULL is read as the empty text.
pub mod Sorted
pub mod Follow
use rusty_gateway.Common.{
  ℕ, suc, ◌+◌, Bool, List, [], ◌∷◌, ◌++◌, max, ltb, ◌&&◌, select, take, if◌then◌else◌,
}
use rusty_gateway.Common.Int.{ℤ, pos}
use rusty_gateway.Audit.{Row}
use rusty_gateway.Audit.Query.{Filter, Plan, plan, passes, follow_filter}

unfoldable pub max_id : List Row → ℕ
max_id [] = 0
max_id (r ∷ rows) = max r.id (max_id rows)

-- `Insert`: the ID of an INTEGER PRIMARY KEY is one more than the largest one in the table
unfoldable pub insert_row : Row → List Row → List Row
unfolding max_id
insert_row r rows = rows ++ record r { id = suc (max_id rows) } ∷ []

unfoldable pub reverse_rows : List Row → List Row
reverse_rows [] = []
reverse_rows (r ∷ rows) = reverse_rows rows ++ r ∷ []

-- The statement that `Query` runs: WHERE, ORDER BY id and LIMIT.
unfoldable pub query : Filter → List Row → List Row
unfolding reverse_rows
query f rows =
    let found = select (passes f) rows in
    take (plan f).limit (if (plan f).oldest_first then found else reverse_rows found)

-- What `audit tail` has printed, the first row first, and the variable `last`.
pub record Tail : Type 0 where
  pub printed : List Row
  pub last : ℕ

-- the rows before the loop: the query has the newest first, and is printed from its end
unfoldable pub tail_start : Filter → ℤ → List Row → Tail
unfolding query max_id
tail_start base n rows =
    let found = query (record base { limit = n }) rows in
    record { printed = reverse_rows found; last = max_id found }

-- last = r.ID for one row after the other
unfoldable pub last_id : ℕ → List Row → ℕ
last_id last [] = last
last_id last (r ∷ rows) = last_id r.id rows

-- one turn of the loop of -f
unfoldable pub tail_turn : Filter → List Row → Tail → Tail
unfolding query last_id
tail_turn base rows t =
    let found = query (follow_filter base t.last) rows in
    record { printed = t.printed ++ found; last = last_id t.last found }
