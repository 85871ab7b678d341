-- ===== src/Audit/Sink.antt =====
-- The buffered sink (internal/audit/sink.go): `Observe` and the writer goroutine.
pub mod Order
use rusty_gateway.Common.{
  ℕ, ◌+◌, ◌≡◌, Bool, true, false, Option, none, some, List, [], ◌∷◌, ◌++◌, length, ltb,
  if◌then◌else◌,
}
use rusty_gateway.Common.Int.{ℤ, pos, pos_part, int_leb}
use rusty_gateway.Audit.{Row}

-- `buffer` is what the channel holds, the first to come out first. `writing` is the row that the
-- writer has received and that `store.Insert` has not returned for. `stored` are the rows that the
-- store has taken, in their order, and `failed` counts those that it refused.
pub record Sink : Type 0 where
  pub capacity : ℕ
  pub buffer : List Row
  pub writing : Option Row
  pub dropped : ℕ
  pub stored : List Row
  pub failed : ℕ

-- NewSink: the size of the buffer
unfoldable pub buffer_size : ℤ → ℕ
buffer_size n = if int_leb n (pos 0) then 1024 else pos_part n

unfoldable pub new_sink : ℤ → Sink
unfolding buffer_size
new_sink size = record {
  capacity = buffer_size size;
  buffer = [];
  writing = none;
  dropped = 0;
  stored = [];
  failed = 0;
}

unfoldable pub observe : Row → Sink → Sink
observe r s =
    if ltb (length s.buffer) s.capacity
    then record s { buffer = s.buffer ++ r ∷ [] }
    else record s { dropped = s.dropped + 1 }

-- the loop of `writer` takes the first row out of the channel
unfoldable pub receive : Row → List Row → Sink → Sink
receive r rest s = record s { buffer = rest; writing = some r }

-- the rest of a turn of the loop; `inserted` tells whether store.Insert had no error
unfoldable pub write_row : Bool → Row → Sink → Sink
write_row inserted r s =
    if inserted
    then record s { writing = none; stored = s.stored ++ r ∷ [] }
    else record s { writing = none; failed = s.failed + 1 }

-- The sink after some calls to Observe, with the rows that they came with, the first one first.
pub data Run (size : ℤ) : List Row → Sink → Type 0 where
  fresh : Run size [] (new_sink size)
  observed :
      {seen : List Row} {s : Sink} (r : Row)
      → Run size seen s
      → Run size (seen ++ r ∷ []) (observe r s)
  received :
      {seen : List Row} {s : Sink} (r : Row) (rest : List Row)
      → s.writing ≡ none
      → s.buffer ≡ r ∷ rest
      → Run size seen s
      → Run size seen (receive r rest s)
  written :
      {seen : List Row} {s : Sink} (inserted : Bool) (r : Row)
      → s.writing ≡ some r
      → Run size seen s
      → Run size seen (write_row inserted r s)
