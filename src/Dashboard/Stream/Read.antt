-- ===== src/Dashboard/Stream/Read.antt =====
-- Whether a reader of event streams gets back what `patchElements` of internal/ui/datastar.go writes.
use rusty_gateway.Common.{
  ℕ, ◌≡◌, refl, sym, ap, ap₂, drop, ◌∙◌, true, false, List, [], ◌∷◌, ◌++◌, ◌&&◌, not, ◌==◌, is_nil,
  map, All, append_assoc, Bool-cases, false-true, inl, inr,
}
use mathlib.Core.List.{append-nil}
use rusty_gateway.Common.Text.{Text, codes, text_eq}
use rusty_gateway.Common.Text.Search.{join}
use rusty_gateway.Dashboard.Stream.{
  newline, carriage_return, trim_newlines, split_lines, element_lines, patch_elements, patch_all,
  Event, Reader, end_line, field_of, feed, read, new_reader,
}
use rusty_gateway.Dashboard.Stream.Lines.{
  no_return, plain, both, split_lines-plain, split_lines-full, join-split_lines,
  no_return-trim_newlines,
}

-- between two lines of the stream
abbrev between : Text → List Text → List Event → Reader
between kind lines events = record {
  kind = kind;
  data_lines = lines;
  line = [];
  after_cr = false;
  events = events;
}

abbrev in_line : Text → List Text → Text → List Event → Reader
in_line kind lines line events = record {
  kind = kind;
  data_lines = lines;
  line = line;
  after_cr = false;
  events = events;
}

read-append : (r : Reader) (x y : Text) → read r (x ++ y) ≡ read (read r x) y
unfolding read
read-append r [] y = refl
read-append r (c ∷ x) y = read-append (feed r c) x y

feed-plain :
    (kind : Text) (lines : List Text) (line : Text) (events : List Event) (c : ℕ)
    → not (c == newline) && not (c == carriage_return) ≡ true
    → feed (in_line kind lines line events) c ≡ in_line kind lines (line ++ c ∷ []) events
unfolding feed
feed-plain kind lines line events c h = elim (Bool-cases (c == newline)) [
  | inl ends ↦ absurd (false-true (rw ends at h))
  | inr same ↦ elim (Bool-cases (c == carriage_return)) [
    | inl ends ↦ absurd (false-true (rw (same, ends) at h))
    | inr other ↦ rw (same, other) refl
  ]
]

read-plain :
    (kind : Text) (lines : List Text) (line : Text) (events : List Event) (x : Text)
    → plain x ≡ true
    → read (in_line kind lines line events) x ≡ in_line kind lines (line ++ x) events
unfolding read
read-plain kind lines line events [] h =
    sym (ap (λ l. in_line kind lines l events) (append-nil line))
read-plain kind lines line events (c ∷ x) h =
    let (here, more) = both (not (c == newline) && not (c == carriage_return)) (plain x) h in
    ap (λ r. read r x) (feed-plain kind lines line events c here)
    ∙ read-plain kind lines (line ++ c ∷ []) events x more
    ∙ ap (λ l. in_line kind lines l events) (append_assoc line (c ∷ []) x)

data-ended :
    (kind : Text) (lines : List Text) (line : Text) (events : List Event)
    → feed (in_line kind lines (codes "data: elements " ++ line) events) newline
      ≡ between kind (lines ++ (codes "elements " ++ line) ∷ []) events
unfolding feed end_line field_of text_eq
data-ended kind lines line events = refl

-- the data field of one line of a fragment
read-element :
    (kind : Text) (lines : List Text) (line rest : Text) (events : List Event)
    → plain line ≡ true
    → read (between kind lines events) (codes "data: elements " ++ line ++ newline ∷ rest)
      ≡ read (between kind (lines ++ (codes "elements " ++ line) ∷ []) events) rest
unfolding read
read-element kind lines line rest events h =
    read-append (in_line kind lines (codes "data: elements ") events) line (newline ∷ rest)
    ∙ ap (λ r. read (feed r newline) rest)
        (read-plain kind lines (codes "data: elements ") events line h)
    ∙ ap (λ r. read r rest) (data-ended kind lines line events)

read-elements :
    (kind : Text) (lines : List Text) (ls : List Text) (rest : Text) (events : List Event)
    → All (λ l. plain l ≡ true) ls
    → read (between kind lines events) (element_lines ls ++ rest)
      ≡ read (between kind (lines ++ map (λ l. codes "elements " ++ l) ls) events) rest
unfolding element_lines
read-elements kind lines [] rest events h =
    sym (ap (λ ds. read (between kind ds events) rest) (append-nil lines))
read-elements kind lines (l ∷ ls) rest events h =
    ap (λ x. read (between kind lines events) (codes "data: elements " ++ x))
      (append_assoc l (newline ∷ element_lines ls) rest)
    ∙ read-element kind lines l (element_lines ls ++ rest) events h.0
    ∙ read-elements kind (lines ++ (codes "elements " ++ l) ∷ []) ls rest events h.1
    ∙ ap (λ ds. read (between kind ds events) rest)
        (append_assoc lines ((codes "elements " ++ l) ∷ []) (map (λ k. codes "elements " ++ k) ls))

-- what the page gets from an event: the elements of its lines
unfoldable pub elements_of : Event → Text
elements_of e = join (newline ∷ []) (map (λ l. drop 9 l) e.data_lines)

kind_line :
    (rest : Text) (events : List Event)
    → read (between [] [] events) (codes "event: datastar-patch-elements" ++ newline ∷ rest)
      ≡ read (between (codes "datastar-patch-elements") [] events) rest
unfolding read feed end_line field_of text_eq
kind_line rest events = refl

-- the event of a fragment
abbrev patched : Text → Event
patched html = record {
  kind = codes "datastar-patch-elements";
  data_lines = map (λ l. codes "elements " ++ l) (split_lines (trim_newlines html));
}

event-ended :
    (kind : Text) (lines : List Text) (events : List Event)
    → is_nil lines ≡ false
    → feed (between kind lines events) newline
      ≡ between [] [] (events ++ record { kind = kind; data_lines = lines } ∷ [])
unfolding feed end_line
event-ended kind lines events h = rw h refl

is_nil-map : (f : Text → Text) (ls : List Text) → is_nil (map f ls) ≡ is_nil ls
is_nil-map f [] = refl
is_nil-map f (l ∷ ls) = refl

patch_elements-read :
    (html rest : Text) (events : List Event)
    → no_return html ≡ true
    → read (between [] [] events) (patch_elements html ++ rest)
      ≡ read (between [] [] (events ++ patched html ∷ [])) rest
unfolding patch_elements read
patch_elements-read html rest events h =
    let kind = codes "datastar-patch-elements" in
    let lines = split_lines (trim_newlines html) in
    let values = map (λ l. codes "elements " ++ l) lines in
    kind_line ((element_lines lines ++ newline ∷ []) ++ rest) events
    ∙ ap (λ x. read (between kind [] events) x)
        (append_assoc (element_lines lines) (newline ∷ []) rest)
    ∙ read-elements kind [] lines (newline ∷ rest) events
        (split_lines-plain (trim_newlines html) (no_return-trim_newlines html h))
    ∙ ap (λ r. read r rest)
        (event-ended kind values events
          (is_nil-map (λ l. codes "elements " ++ l) lines ∙ split_lines-full (trim_newlines html)))

patch_all-events :
    (htmls : List Text) (events : List Event)
    → All (λ html. no_return html ≡ true) htmls
    → (read (between [] [] events) (patch_all htmls)).events ≡ events ++ map patched htmls
unfolding patch_all read
patch_all-events [] events h = sym (append-nil events)
patch_all-events (html ∷ htmls) events h =
    ap (λ r. r.events) (patch_elements-read html (patch_all htmls) events h.0)
    ∙ patch_all-events htmls (events ++ patched html ∷ []) h.1
    ∙ append_assoc events (patched html ∷ []) (map patched htmls)

elements_of-patched : (html : Text) → elements_of (patched html) ≡ trim_newlines html
unfolding elements_of
elements_of-patched html =
    ap (join (newline ∷ [])) (dropped (split_lines (trim_newlines html)))
    ∙ join-split_lines (trim_newlines html)
  where
    dropped : (ls : List Text) → map (λ l. drop 9 l) (map (λ l. codes "elements " ++ l) ls) ≡ ls
    dropped [] = refl
    dropped (l ∷ ls) = ap (λ ks. l ∷ ks) (dropped ls)

-- Fragments without carriage returns that `stream` writes one after the other come out of a reader
-- of event streams as they went in, each as one event of the kind that patches elements, in their
-- order, and each without the newlines at its end.
pub patch_all-read :
    (htmls : List Text)
    → All (λ html. no_return html ≡ true) htmls
    → (map (λ e. elements_of e) (read new_reader (patch_all htmls)).events
        ≡ map trim_newlines htmls)
      × All
          (λ e. e.kind ≡ codes "datastar-patch-elements")
          (read new_reader (patch_all htmls)).events
patch_all-read htmls h = rw (patch_all-events htmls [] h) (all_elements htmls, all_kinds htmls)
  where
    all_elements :
        (hs : List Text) → map (λ e. elements_of e) (map patched hs) ≡ map trim_newlines hs
    all_elements [] = refl
    all_elements (html ∷ hs) = ap₂ (λ x xs. x ∷ xs) (elements_of-patched html) (all_elements hs)

    all_kinds :
        (hs : List Text) → All (λ e. e.kind ≡ codes "datastar-patch-elements") (map patched hs)
    all_kinds [] = tt
    all_kinds (html ∷ hs) = (refl, all_kinds hs)
