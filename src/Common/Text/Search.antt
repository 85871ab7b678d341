-- ===== src/Common/Text/Search.antt =====
-- The functions of Go's `strings` package that the program calls, on code points.
use rusty_gateway.Common.Tests.{leb, ◌==◌, if◌then◌else◌}
use rusty_gateway.Common.Lists.{length, drop, is_nil}
use rusty_gateway.Common.Text.{Text}
use Prim.Native.Nat.{ℕ}
use mathlib.Core.Bool.{Bool, true, false, ◌&&◌, ◌||◌}
use mathlib.Core.Option.{Option, none, some}
use mathlib.Core.List.{List, [], ◌∷◌, ◌++◌, map}

-- strings.HasPrefix(s, p)
unfoldable pub has_prefix : Text → Text → Bool
has_prefix [] s = true
has_prefix (a ∷ p) [] = false
has_prefix (a ∷ p) (b ∷ s) = (a == b) && has_prefix p s

-- strings.Contains(s, sub)
unfoldable pub contains : Text → Text → Bool
unfolding has_prefix
contains sub [] = is_nil sub
contains sub (c ∷ s) = has_prefix sub (c ∷ s) || contains sub s

abbrev pub cons_before : ℕ → Option (Text × Text) → Option (Text × Text)
cons_before c none = none
cons_before c (some (before, after)) = some (c ∷ before, after)

-- strings.Cut(s, sep); `none` when sep is not found
unfoldable pub cut : Text → Text → Option (Text × Text)
unfolding has_prefix
cut sep [] = if is_nil sep then some ([], []) else none
cut sep (c ∷ s) =
    let rest = cut sep s in
    if has_prefix sep (c ∷ s) then some ([], drop (length sep) (c ∷ s)) else cons_before c rest

-- unicode.IsSpace
unfoldable pub is_space : ℕ → Bool
is_space c =
    (leb 9 c && leb c 13)
    || c == 32
    || c == 0x85
    || c == 0xA0
    || c == 0x1680
    || (leb 0x2000 c && leb c 0x200a)
    || c == 0x2028
    || c == 0x2029
    || c == 0x202f
    || c == 0x205f
    || c == 0x3000

-- a finished field goes before the rest, an empty one nowhere
abbrev pub keep_field : Text → List Text → List Text
keep_field [] rest = rest
keep_field (c ∷ w) rest = (c ∷ w) ∷ rest

-- strings.Fields(s): what stands before the next space, and the fields after it
unfoldable pub fields_from : Text → Text × List Text
unfolding is_space
fields_from [] = ([], [])
fields_from (c ∷ s) =
    let (w, rest) = fields_from s in if is_space c then ([], keep_field w rest) else (c ∷ w, rest)

unfoldable pub fields : Text → List Text
unfolding fields_from
fields s = let (w, rest) = fields_from s in keep_field w rest

-- strings.TrimSpace
unfoldable pub trim_left : Text → Text
unfolding is_space
trim_left [] = []
trim_left (c ∷ s) = let rest = trim_left s in if is_space c then rest else c ∷ s

-- strings.ReplaceAll(s, "_", " ")
unfoldable pub spaced : Text → Text
spaced s = map (λ c. if c == b'_' then b' ' else c) s

-- strings.Join(words, sep)
unfoldable pub join : Text → List Text → Text
join sep [] = []
join sep (w ∷ []) = w
join sep (w ∷ v ∷ ws) = w ++ sep ++ join sep (v ∷ ws)
