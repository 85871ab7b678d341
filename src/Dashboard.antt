-- ===== src/Dashboard.antt =====
-- The session cookies of the dashboard (internal/ui/ui.go, `newSession` and `validSession`). `sign`
-- is the parameter for the method of that name, an HMAC in hexadecimal. Times are in seconds.
pub mod Sessions
pub mod Pages
pub mod Overview
pub mod Stream
mod Tests
use rusty_gateway.Common.{
  ℕ, zero, suc, ◌+◌, ◌-◌, ◌*◌, ◌/◌, ◌%◌, ◌^◌, Bool, true, false, Option, none, some, List, [], ◌∷◌,
  ◌++◌, ltb, leb, ◌==◌, ◌&&◌, ◌||◌, not, if◌then◌else◌,
}
use rusty_gateway.Common.Int.{ℤ, pos, negsuc, int_ltb, max_int}
use rusty_gateway.Common.Text.{Text, text_eq}
use rusty_gateway.Common.Text.Search.{is_space}

-- sessionTTL
abbrev pub session_ttl : ℕ
session_ttl = 7 * 24 * 3600

-- %d of a number that is not negative; the fuel is more than its digits
unfoldable pub decimal : ℕ → ℕ → Text
decimal zero n = []
decimal (suc fuel) n =
    if ltb n 10 then (48 + n) ∷ [] else decimal fuel (n / 10) ++ (48 + n % 10) ∷ []

unfoldable pub session_body : ℕ → Text → Text
unfolding decimal
session_body expiry nonce = decimal (suc expiry) expiry ++ b'.' ∷ nonce

-- newSession, with the hexadecimal form of the nonce
unfoldable pub new_session : (Text → Text) → ℕ → Text → Text
unfolding session_body
new_session sign now nonce =
    session_body (now + session_ttl) nonce ++ b'.' ∷ sign (session_body (now + session_ttl) nonce)

before_dot : ℕ → Option (Text × Text) → Option (Text × Text)
before_dot c none = none
before_dot c (some (body, sig)) = some (c ∷ body, sig)

-- strings.LastIndexByte(cookie, '.') with the slices before and after it
unfoldable pub split_last : Text → Option (Text × Text)
unfolding before_dot
split_last [] = none
split_last (c ∷ s) = elim (split_last s) [
  | none ↦ if c == b'.' then some ([], s) else none
  | some (body, sig) ↦ some (c ∷ body, sig)
]

unfoldable pub is_digit : ℕ → Bool
is_digit c = leb 48 c && leb c 57

-- the digits at the start of a text, read after `acc`, and the text after them
unfoldable pub read_digits : ℕ → Text → ℕ × Text
unfolding is_digit
read_digits acc [] = (acc, [])
read_digits acc (c ∷ s) =
    let rest = read_digits (acc * 10 + (c - 48)) s in if is_digit c then rest else (acc, c ∷ s)

starts_with : (ℕ → Bool) → Text → Bool
starts_with p [] = false
starts_with p (c ∷ s) = p c

-- a number of 64 bits that a dot follows
unfoldable pub dotted : Bool → ℕ × Text → Option ℤ
unfolding starts_with
dotted negative (n, rest) =
    if starts_with (λ c. c == b'.') rest
    then (if negative
        then (if leb n (2 ^ 63)
            then (if n == 0 then some (pos 0) else some (negsuc (n - 1)))
            else none)
        else (if leb n max_int then some (pos n) else none))
    else none

unsigned : Bool → Text → Option ℤ
unfolding starts_with is_digit read_digits dotted
unsigned negative s = if starts_with is_digit s then dotted negative (read_digits 0 s) else none

-- fmt.Sscanf(body, "%d.", &exp): white space but no newline, a sign, digits and the dot. A text is
-- its code points here
unfoldable pub scan_expiry : Text → Option ℤ
unfolding unsigned is_space
scan_expiry [] = none
scan_expiry (c ∷ s) =
    let rest = scan_expiry s in
    if is_space c && not (c == 10)
    then rest
    else if c == b'-'
    then unsigned true s
    else if c == b'+'
    then unsigned false s
    else unsigned false (c ∷ s)

is_before : ℕ → Option ℤ → Bool
is_before now none = false
is_before now (some expiry) = int_ltb (pos now) expiry

valid_parts : (Text → Text) → ℕ → Option (Text × Text) → Bool
unfolding is_before scan_expiry
valid_parts sign now none = false
valid_parts sign now (some (body, sig)) =
    if text_eq sig (sign body) then is_before now (scan_expiry body) else false

-- validSession at an instant
unfoldable pub valid_session : (Text → Text) → ℕ → Text → Bool
unfolding valid_parts split_last
valid_session sign now cookie = valid_parts sign now (split_last cookie)
