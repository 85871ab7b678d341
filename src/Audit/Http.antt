-- ===== src/Audit/Http.antt =====
-- GET /audit (internal/audit/http.go). The times that time.ParseDuration and time.Parse read are
-- parameters; strconv is written out.
pub mod Answers
use rusty_gateway.Common.{
  ℕ, zero, suc, ◌+◌, ◌-◌, ◌*◌, ◌/◌, ◌^◌, Bool, true, false, Option, none, some, List, [], ◌∷◌, ltb,
  leb, ◌==◌, ◌&&◌, if◌then◌else◌,
}
use rusty_gateway.Common.Int.{ℤ, pos, negsuc, pos_part, max_int}
use rusty_gateway.Common.Text.{Text, is_empty}
use rusty_gateway.Audit.{Row}
use rusty_gateway.Audit.Query.{Filter}

-- strconv.ParseUint(s, 10, 64): a bad character, a number above 64 bits, or the number
pub data Parsed : Type 0 where
  bad_syntax out_of_range : Parsed
  number : ℕ → Parsed

unfoldable pub digits_from : ℕ → Text → Parsed
digits_from n [] = number n
digits_from n (c ∷ s) =
    let next = n * 10 + (c - 48) in
    let rest = digits_from next s in
    if leb 48 c && leb c 57 then (if ltb next (2 ^ 64) then rest else out_of_range) else bad_syntax

unfoldable pub parse_uint : Text → Parsed
unfolding digits_from
parse_uint [] = bad_syntax
parse_uint (c ∷ s) = digits_from 0 (c ∷ s)

-- the number that strconv.ParseInt and strconv.Atoi return, beside their error
signed : Bool → Parsed → ℤ
signed negative bad_syntax = pos 0
signed negative out_of_range = if negative then negsuc max_int else pos max_int
signed negative (number n) =
    if negative
    then (if leb n max_int then (if n == 0 then pos 0 else negsuc (n - 1)) else negsuc max_int)
    else (if leb n max_int then pos n else pos max_int)

unfoldable pub parse_int : Text → ℤ
unfolding signed parse_uint
parse_int [] = pos 0
parse_int (c ∷ s) =
    if c == b'-'
    then signed true (parse_uint s)
    else if c == b'+'
    then signed false (parse_uint s)
    else signed false (parse_uint (c ∷ s))

-- `since` as the libraries read it: a duration in nanoseconds, or the milliseconds of a time, with
-- `none` inside for the zero time
pub record Times : Type 0 where
  pub parse_duration : Text → Option ℤ
  pub parse_time : Text → Option (Option ℤ)

-- time.Now().Add(-d).UnixMilli(), for an instant in nanoseconds; -d wraps at the least duration
unfoldable pub ago : ℕ → ℤ → ℤ
ago now (pos n) = if leb n now then pos ((now - n) / 1000000) else negsuc ((n - now - 1) / 1000000)
ago now (negsuc n) =
    if n == max_int
    then (if leb (suc n) now
        then pos ((now - suc n) / 1000000)
        else negsuc ((suc n - now - 1) / 1000000))
    else pos ((now + suc n) / 1000000)

-- `ParseSince`
unfoldable pub parse_since : Times → ℕ → Text → Option (Option ℤ)
unfolding ago
parse_since times now s = elim (times.parse_duration s) [
  | none ↦ times.parse_time s
  | some d ↦ some (some (ago now d))
]

-- the values of r.URL.Query()
pub record Params : Type 0 where
  pub namespace : Text
  pub server : Text
  pub tool : Text
  pub status : Text
  pub since : Text
  pub limit : Text
  pub after_id : Text

unfoldable pub since_param : Times → ℕ → Text → Option (Option ℤ)
unfolding parse_since
since_param times now s = if is_empty s then some none else parse_since times now s

filter_with : Params → Option (Option ℤ) → Option Filter
unfolding parse_int
filter_with p none = none
filter_with p (some since) = some (record {
  namespace = p.namespace;
  server = p.server;
  tool = p.tool;
  status = p.status;
  since = since;
  after_id = pos_part (parse_int p.after_id);
  limit = parse_int p.limit;
})

-- The filter, or `none` where `since` is refused. An AfterID that is not positive is no condition.
unfoldable pub filter_of : Times → ℕ → Params → Option Filter
unfolding since_param filter_with
filter_of times now p = filter_with p (since_param times now p.since)

pub data Answer : Type 0 where
  bad_request internal_error : Answer
  rows : List Row → Answer

answer_rows : Option (List Row) → Answer
answer_rows none = internal_error
answer_rows (some found) = rows found

answer_with : (Filter → Option (List Row)) → Option Filter → Answer
unfolding answer_rows
answer_with select_rows none = bad_request
answer_with select_rows (some f) = answer_rows (select_rows f)

-- The handler. `select_rows` is the method Query; it is `none` for an error of the database.
unfoldable pub audit_handler : Times → ℕ → (Filter → Option (List Row)) → Params → Answer
unfolding filter_of answer_with
audit_handler times now select_rows p = answer_with select_rows (filter_of times now p)
