-- ===== src/Common/Mux.antt =====
-- http.ServeMux of Go's net/http, for the patterns that the program registers: a method or none,
-- segments that are literal or a wildcard, and an end that is exact or a subtree. A path is the
-- list of its segments, the last of them empty after a trailing slash; it is clean, since the mux
-- redirects any other.
pub mod Named
pub mod Segments
use mathlib.Core.Bool.{Bool, true, false, ◌&&◌, ◌||◌, not}
use mathlib.Core.Path.{◌≡◌, refl, ap, ◌∙◌}
use mathlib.Core.Logic.{inl, inr}
use mathlib.Core.Option.{Option, none, some}
use mathlib.Core.List.{List, [], ◌∷◌, ◌++◌}
use rusty_gateway.Common.Tests.{◌==◌, if◌then◌else◌, Bool-cases}
use rusty_gateway.Common.Lists.{length, All}
use rusty_gateway.Common.Text.{Text, codes, text_eq, is_empty}

pub data Segment : Type 0 where
  lit : Text → Segment
  wild : Segment

pub record Pattern : Type 0 where
  -- empty for any method
  pub method : Text
  pub segments : List Segment
  -- a pattern that ends in a slash
  pub subtree : Bool

unfoldable pub segment_matches : Segment → Text → Bool
segment_matches (lit t) s = text_eq t s
segment_matches wild s = not (is_empty s)

unfoldable pub path_matches : List Segment → Bool → List Text → Bool
unfolding segment_matches
path_matches [] subtree [] = not subtree
path_matches [] subtree (s ∷ path) = subtree
path_matches (x ∷ xs) subtree [] = false
path_matches (x ∷ xs) subtree (s ∷ path) = segment_matches x s && path_matches xs subtree path

-- a pattern for GET takes HEAD, too
unfoldable pub method_matches : Text → Text → Bool
method_matches wanted method =
    is_empty wanted
    || text_eq wanted method
    || (text_eq wanted (codes "GET") && text_eq method (codes "HEAD"))

-- what the wildcards of a pattern stand for in a path that it matches (r.PathValue)
unfoldable pub path_values : List Segment → List Text → List Text
path_values (wild ∷ xs) (s ∷ path) = s ∷ path_values xs path
path_values (lit t ∷ xs) (s ∷ path) = path_values xs path
path_values (x ∷ xs) [] = []
path_values [] path = []

-- Is the first of two patterns, which match the same path, the more specific one? A literal goes
-- before a wildcard, both before the end of a subtree, and a method before none.
unfoldable pub more_specific : List Segment → List Segment → Bool → Bool
more_specific [] [] by_method = by_method
more_specific (x ∷ xs) [] by_method = true
more_specific [] (y ∷ ys) by_method = false
more_specific (lit a ∷ xs) (wild ∷ ys) by_method = true
more_specific (wild ∷ xs) (lit b ∷ ys) by_method = false
more_specific (lit a ∷ xs) (lit b ∷ ys) by_method = more_specific xs ys by_method
more_specific (wild ∷ xs) (wild ∷ ys) by_method = more_specific xs ys by_method

abbrev pub Routes : Type 0 → Type 0
Routes H = List (Pattern × H)

-- What the mux does with a request: a handler, a redirect to the path with a slash at its end,
-- 405 or 404.
pub data Routed (H : Type 0) : Type 0 where
  found : H → Routed H
  add_slash method_not_allowed not_found : Routed H

ends_in_slash : List Text → Bool
ends_in_slash [] = false
ends_in_slash (s ∷ []) = is_empty s
ends_in_slash (s ∷ t ∷ path) = ends_in_slash (t ∷ path)

abbrev pub slashed : List Text → List Text
slashed path = path ++ [] ∷ []

module _ {H : Type 0} where
  unfoldable pub candidates : Text → List Text → Routes H → Routes H
  unfolding path_matches method_matches
  candidates method path [] = []
  candidates method path ((p, h) ∷ routes) =
      let rest = candidates method path routes in
      if path_matches p.segments p.subtree path && method_matches p.method method
      then (p, h) ∷ rest
      else rest

  better : Pattern × H → Option (Pattern × H) → Pattern × H
  unfolding more_specific
  better r none = r
  better (p, h) (some (q, k)) =
      if more_specific p.segments q.segments (not (is_empty p.method)) then (p, h) else (q, k)

  unfoldable pub best : Routes H → Option (Pattern × H)
  unfolding better
  best [] = none
  best (r ∷ routes) = some (better r (best routes))

  matches_path : List Text → Routes H → Bool
  unfolding path_matches
  matches_path path [] = false
  matches_path path ((p, h) ∷ routes) =
      path_matches p.segments p.subtree path || matches_path path routes

  -- the subtree of a pattern that is this path with a slash at its end
  is_subtree : List Text → Option (Pattern × H) → Bool
  is_subtree path none = false
  is_subtree path (some (p, h)) = p.subtree && length p.segments == length path

  unmatched : Bool → Routed H
  unmatched other_method = if other_method then method_not_allowed else not_found

  routed : Bool → Bool → Option (Pattern × H) → Routed H
  unfolding unmatched
  routed redirect other_method none = if redirect then add_slash else unmatched other_method
  routed redirect other_method (some (p, h)) = if p.subtree && redirect then add_slash else found h

  unfoldable pub route : Routes H → Text → List Text → Routed H
  unfolding candidates best matches_path routed is_subtree ends_in_slash
  route routes method path =
      let open_end = not (ends_in_slash path) in
      routed (open_end && is_subtree path (best (candidates method (slashed path) routes)))
        (matches_path path routes || (open_end && matches_path (slashed path) routes))
        (best (candidates method path routes))

  better_self : (r : Pattern × H) → better r (some r) ≡ r
  unfolding better
  better_self (p, h) =
      elim (Bool-cases (more_specific p.segments p.segments (not (is_empty p.method)))) [
        | inl first ↦ rw first refl
        | inr second ↦ rw second refl
      ]

  -- copies of one route: that route is the best
  pub best-copies :
      (x : Pattern × H) (routes : Routes H) → All (λ y. y ≡ x) routes → best (x ∷ routes) ≡ some x
  unfolding best
  best-copies x [] h = refl
  best-copies x (y ∷ routes) h =
      ap (λ o. some (better x o)) (ap (λ z. best (z ∷ routes)) h.0 ∙ best-copies x routes h.1)
      ∙ ap some (better_self x)

  -- a route with an exact end is not redirected from
  pub route-exact :
      (routes : Routes H) (method : Text) (path : List Text) (p : Pattern) (h : H)
      → best (candidates method path routes) ≡ some (p, h)
      → p.subtree ≡ false
      → route routes method path ≡ found h
  unfolding route
  route-exact routes method path p h first exact = rw (first, exact) refl

  -- a subtree that does not end where the path ends is not redirected to
  pub route-inside :
      (routes : Routes H) (method : Text) (path : List Text) (p : Pattern) (h : H)
      → best (candidates method path routes) ≡ some (p, h)
      → best (candidates method (slashed path) routes) ≡ some (p, h)
      → (length p.segments == length path) ≡ false
      → route routes method path ≡ found h
  unfolding route
  route-inside routes method path p h first slash inside =
      rw (first, slash, inside, both_false (not (ends_in_slash path)) p.subtree) refl
    where
      both_false : (a b : Bool) → b && (a && (b && false)) ≡ false
      both_false true true = refl
      both_false false true = refl
      both_false true false = refl
      both_false false false = refl

-- the segments of a path that starts with a slash
unfoldable pub segments_from : Text → Text × List Text
segments_from [] = ([], [])
segments_from (c ∷ s) =
    let (w, rest) = segments_from s in if c == b'/' then ([], w ∷ rest) else (c ∷ w, rest)

unfoldable pub segments_of : Text → List Text
unfolding segments_from
segments_of [] = []
segments_of (c ∷ s) = let (w, rest) = segments_from s in w ∷ rest
