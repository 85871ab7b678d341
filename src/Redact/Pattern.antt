-- ===== src/Redact/Pattern.antt =====
-- The two patterns of internal/redact/redact.go, matched as Go's regexp does: leftmost, and the
-- first alternative that matches. Each alternative is a row of character classes that do not
-- overlap with what follows them, so the greedy match is the only one to try.
use rusty_gateway.Common.{
  ℕ, zero, suc, ◌+◌, Bool, true, false, not, ◌&&◌, ◌||◌, List, [], ◌∷◌, ◌++◌, any, drop, ltb, leb,
  ◌==◌, if◌then◌else◌,
}
use rusty_gateway.Common.Text.{Text, codes}

-- «redacted», as bytes
abbrev pub placeholder : Text
placeholder = 0xC2 ∷ 0xAB ∷ (codes "redacted" ++ 0xC2 ∷ 0xBB ∷ [])

between : ℕ → ℕ → ℕ → Bool
between lo hi c = leb lo c && leb c hi

unfoldable pub is_alnum : ℕ → Bool
unfolding between
is_alnum c = between b'A' b'Z' c || between b'a' b'z' c || between b'0' b'9' c

-- \w
unfoldable pub is_word : ℕ → Bool
unfolding is_alnum
is_word c = is_alnum c || c == b'_'

-- [A-Za-z0-9_-]
is_name : ℕ → Bool
unfolding is_word
is_name c = is_word c || c == b'-'

-- [A-Za-z0-9._~+/=-]
is_bearer : ℕ → Bool
unfolding is_name
is_bearer c = is_name c || c == b'.' || c == b'~' || c == b'+' || c == b'/' || c == b'='

-- [A-Fa-f0-9]
is_hex : ℕ → Bool
unfolding between
is_hex c = between b'A' b'F' c || between b'a' b'f' c || between b'0' b'9' c

-- [A-Za-z0-9+/=_-]
unfoldable pub is_base64 : ℕ → Bool
unfolding is_name
is_base64 c = is_name c || c == b'+' || c == b'/' || c == b'='

-- \s
is_blank : ℕ → Bool
is_blank c = c == 9 || c == 10 || c == 12 || c == 13 || c == 32

-- how many bytes at the start are in a class
unfoldable pub run : (ℕ → Bool) → Text → ℕ
run p [] = 0
run p (c ∷ s) = let rest = run p s in if p c then suc rest else 0

-- One letter of a (?i) pattern at the start of a text: either case, or the Kelvin sign for k and
-- the long s for s. The number of bytes, 0 if it is not there.
fold_letter : ℕ → Text → ℕ
fold_letter l [] = 0
fold_letter l (a ∷ []) = if a == l || a + 32 == l then 1 else 0
fold_letter l (a ∷ b ∷ []) =
    if a == l || a + 32 == l then 1 else if l == b's' && a == 0xC5 && b == 0xBF then 2 else 0
fold_letter l (a ∷ b ∷ c ∷ s) =
    if a == l || a + 32 == l
    then 1
    else if l == b's' && a == 0xC5 && b == 0xBF
    then 2
    else if l == b'k' && a == 0xE2 && b == 0x84 && c == 0xAA
    then 3
    else 0

unfoldable pub fold_word : Text → Text → Bool
unfolding fold_letter
fold_word [] s = true
fold_word (l ∷ word) s =
    let n = fold_letter l s in
    let rest = fold_word word (drop n s) in if n == 0 then false else rest

key_words : List Text
key_words =
    codes "token"
    ∷ codes "key"
    ∷ codes "secret"
    ∷ codes "password"
    ∷ codes "passwd"
    ∷ codes "auth"
    ∷ codes "credential"
    ∷ []

-- secretKey.MatchString
unfoldable pub key : Text → Bool
unfolding fold_word key_words
key [] = false
key (c ∷ s) = any (λ w. fold_word w (c ∷ s)) key_words || key s

-- n if it is at least `least`, else 0: no match
abbrev pub at_least : ℕ → ℕ → ℕ
at_least least n = if ltb n least then 0 else n

abbrev with_prefix : ℕ → ℕ → ℕ
with_prefix p n = if n == 0 then 0 else p + n

-- sk[-_][A-Za-z0-9_-]{8,}
unfoldable pub match_sk : Text → ℕ
unfolding run is_name
match_sk [] = 0
match_sk (a ∷ []) = 0
match_sk (a ∷ b ∷ []) = 0
match_sk (a ∷ b ∷ c ∷ s) =
    if a == b's' && b == b'k' && (c == b'-' || c == b'_')
    then with_prefix 3 (at_least 8 (run is_name s))
    else 0

-- (?i:bearer)\s+[A-Za-z0-9._~+/=-]+ ; no letter of it has a fold outside ASCII
unfoldable pub match_bearer : Text → ℕ
unfolding run is_blank is_bearer fold_word
match_bearer s =
    let blanks = run is_blank (drop 6 s) in
    let token = run is_bearer (drop (6 + blanks) s) in
    if fold_word (codes "bearer") s && not (blanks == 0) && not (token == 0)
    then 6 + blanks + token
    else 0

-- a dot and a run of [A-Za-z0-9_-] of at least this length
dotted : ℕ → Text → ℕ
unfolding run is_name
dotted least [] = 0
dotted least (c ∷ s) = if c == b'.' then with_prefix 1 (at_least least (run is_name s)) else 0

-- ey[A-Za-z0-9_-]{10,}\.[A-Za-z0-9_-]{10,}\.[A-Za-z0-9_-]{5,}
unfoldable pub match_jwt : Text → ℕ
unfolding run is_name dotted
match_jwt [] = 0
match_jwt (a ∷ []) = 0
match_jwt (a ∷ b ∷ s) =
    let header = at_least 10 (run is_name s) in
    let payload = dotted 10 (drop header s) in
    let signature = dotted 5 (drop (header + payload) s) in
    if a == b'e' && b == b'y' && not (header == 0) && not (payload == 0) && not (signature == 0)
    then 2 + header + payload + signature
    else 0

-- the first byte of a text, 0 at its end; 0 is no word character
head_or_zero : Text → ℕ
head_or_zero [] = 0
head_or_zero (c ∷ s) = c

-- [A-Fa-f0-9]{32,}\b
unfoldable pub match_hex : Text → ℕ
unfolding run is_hex is_word head_or_zero
match_hex s =
    let n = at_least 32 (run is_hex s) in if is_word (head_or_zero (drop n s)) then 0 else n

unfoldable pub first_match : ℕ → ℕ → ℕ
first_match zero n = n
first_match (suc m) n = suc m

-- \b before a match that starts with a word character
unfoldable pub bounded : ℕ → ℕ → ℕ
bounded prev n = if is_word prev then 0 else n

-- secretValue at one place: the length of the match, 0 if there is none. `prev` is the byte
-- before, 0 at the start; \b before a word character asks that it is no word character.
unfoldable pub match_secret : ℕ → Text → ℕ
match_secret prev s = first_match (bounded prev (match_sk s)) (
    first_match (match_bearer s) (
      first_match (bounded prev (match_jwt s))
        (first_match (bounded prev (match_hex s)) (at_least 40 (run is_base64 s)))))

-- secretValue.ReplaceAllString; `skip` bytes belong to a match that is already replaced
unfoldable pub scrub_from : ℕ → ℕ → Text → Text
scrub_from skip prev [] = []
scrub_from (suc skip) prev (c ∷ s) = scrub_from skip c s
scrub_from zero prev (c ∷ s) = elim (match_secret prev (c ∷ s)) [
  | zero ↦ c ∷ scrub_from 0 c s
  | suc n ↦ placeholder ++ scrub_from n c s
]

unfoldable pub scrub : Text → Text
unfolding scrub_from
scrub s = scrub_from 0 0 s
