-- ===== src/Audit/Tests.antt =====
-- The audit log at concrete inputs.
use rusty_gateway.Common.{
  ℕ, ◌≡◌, refl, false, none, some, List, [], ◌∷◌, ◌++◌, arith, select, take, drop, Option, ◌⊎◌,
}
use rusty_gateway.Common.Int.{ℤ, pos, negsuc}
use rusty_gateway.Common.Text.{codes, text_eq}
use rusty_gateway.Audit.{Row}
use rusty_gateway.Audit.Sink.{Sink, new_sink, observe, receive, Run, fresh, observed, received}
use rusty_gateway.Audit.Sink.Order.{SinkInv, Run-SinkInv}
use rusty_gateway.Audit.Query.{Filter, passes, follow_filter}
use rusty_gateway.Audit.Log.{insert_row, query, Tail, tail_start, tail_turn}
use rusty_gateway.Audit.Log.Follow.{unseen, begun, inserted, turned, Following-complete}
use rusty_gateway.Audit.Http.{
  parse_int, Times, Params, since_param, ago, audit_handler, bad_request, rows,
}
use rusty_gateway.Audit.Http.Answers.{Answered, audit_handler-Answered}

abbrev a_row : ℕ → Row
a_row id = record {
  id = id;
  ts = pos 0;
  namespace = codes "me";
  server = codes "hevy";
  tool = codes "t";
  client_id = [];
  session_id = [];
  args_json = [];
  result_size = 0;
  result_json = [];
  duration_ms = pos 0;
  status = codes "ok";
  error = [];
}

-- two calls at a sink of size 1, the first row of which the writer receives before a third one
abbrev full : Sink
full =
    observe (a_row 3)
      (receive (a_row 1) [] (observe (a_row 2) (observe (a_row 1) (new_sink (pos 1)))))

full-Run : Run (pos 1) (a_row 1 ∷ a_row 2 ∷ a_row 3 ∷ []) full
unfolding observe new_sink receive
full-Run =
    observed (a_row 3)
      (received (a_row 1) [] refl refl (observed (a_row 2) (observed (a_row 1) fresh)))

Run-SinkInv_example : SinkInv (a_row 1 ∷ a_row 2 ∷ a_row 3 ∷ []) full
Run-SinkInv_example = Run-SinkInv (a_row 1 ∷ a_row 2 ∷ a_row 3 ∷ []) full full-Run

abbrev all_rows : Filter
all_rows = record {
  namespace = [];
  server = [];
  tool = [];
  status = [];
  since = none;
  after_id = 0;
  limit = pos 0;
}

-- `audit tail -f` on an empty log never shows the first row that comes.
first-row : passes (follow_filter all_rows 0) (a_row 1) ≡ false
unfolding passes follow_filter
first-row = refl

abbrev two_rows : List Row
two_rows = a_row 1 ∷ a_row 2 ∷ []

-- two rows at the start, then a third one, and a turn that shows it
abbrev started : Tail
started = tail_start all_rows (pos 50) two_rows

abbrev three_rows : List Row
three_rows = insert_row (a_row 0) two_rows

abbrev shown : Tail
shown = tail_turn all_rows three_rows started

shown-printed : shown.printed ≡ a_row 1 ∷ a_row 2 ∷ a_row 3 ∷ []
unfolding tail_turn tail_start insert_row passes query follow_filter
shown-printed = refl

Following-complete_example :
    (shown.printed ++ select (unseen all_rows shown.last) three_rows
      ≡ started.printed ++ select (unseen all_rows started.last) three_rows)
    × ((tail_turn all_rows three_rows shown).printed
        ≡ shown.printed ++ take 1000 (select (unseen all_rows shown.last) three_rows))
    × (select (unseen all_rows (tail_turn all_rows three_rows shown).last) three_rows
        ≡ drop 1000 (select (unseen all_rows shown.last) three_rows))
Following-complete_example =
    Following-complete all_rows refl (pos 50) two_rows three_rows shown (omega arith)
      (turned (inserted (a_row 0) begun))

abbrev no_times : Times
no_times = record { parse_duration = λ s. none; parse_time = λ s. none }

abbrev hevy_only : Params
hevy_only = record {
  namespace = [];
  server = codes "hevy";
  tool = [];
  status = [];
  since = [];
  limit = codes "7";
  after_id = codes "1";
}

audit_handler-Answered_example :
    ((since_param no_times 0 hevy_only.since ≡ none)
      × (audit_handler no_times 0 (λ f. some (query f two_rows)) hevy_only ≡ bad_request))
    ⊎ ((since : Option ℤ) × (since_param no_times 0 hevy_only.since ≡ some since)
        × Answered hevy_only since two_rows
            (audit_handler no_times 0 (λ f. some (query f two_rows)) hevy_only))
audit_handler-Answered_example =
    audit_handler-Answered no_times 0 two_rows hevy_only ((omega arith, tt), (tt, tt))

hevy-rows : audit_handler no_times 0 (λ f. some (query f two_rows)) hevy_only ≡ rows (a_row 2 ∷ [])
unfolding audit_handler query passes parse_int since_param text_eq
hevy-rows = refl

parse_int-minus : parse_int (codes "-120") ≡ negsuc 119
unfolding parse_int
parse_int-minus = refl

parse_int-letters : parse_int (codes "12a") ≡ pos 0
unfolding parse_int
parse_int-letters = refl

parse_int-large : parse_int (codes "99999999999999999999x") ≡ pos 9223372036854775807
unfolding parse_int
parse_int-large = refl

ago-second : ago 5000000000 (pos 1000000000) ≡ pos 4000
unfolding ago
ago-second = refl
