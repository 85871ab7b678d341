-- ===== src/Dashboard/Tests.antt =====
-- Session cookies and event streams at concrete inputs.
use rusty_gateway.Common.{◌≡◌, refl, true, List, [], ◌∷◌, ◌++◌, map, All}
use rusty_gateway.Common.Text.{Text, codes, text_eq}
use rusty_gateway.Common.Text.Search.{join, cut}
use rusty_gateway.Dashboard.{valid_session}
use rusty_gateway.Dashboard.Stream.{
  newline, carriage_return, trim_newlines, split_lines, element_lines, patch_elements, patch_all,
  read, feed, end_line, field_of, new_reader,
}
use rusty_gateway.Dashboard.Stream.Read.{elements_of, patch_all-read}

abbrev sign : Text → Text
sign body = codes "ab"

valid-cookie : valid_session sign 7 (codes "9.0f.ab") ≡ true
unfolding valid_session text_eq
valid-cookie = refl

abbrev fragments : List Text
fragments = (codes "<p>" ++ newline ∷ codes "</p>" ++ newline ∷ []) ∷ codes "<b>" ∷ []

patch-text : patch_elements (codes "<b>") ≡ (
    codes "event: datastar-patch-elements"
    ++ newline ∷ codes "data: elements <b>"
    ++ newline ∷ newline ∷ [])
unfolding patch_elements trim_newlines split_lines element_lines
patch-text = refl

-- what follows a carriage return is lost
returned-lost :
    map
      (λ e. elements_of e)
      (read new_reader (patch_elements (codes "a" ++ carriage_return ∷ codes "b"))).events
    ≡ codes "a" ∷ []
unfolding patch_elements trim_newlines split_lines element_lines read feed end_line field_of text_eq
    elements_of join cut
returned-lost = refl

patch_all-read_example :
    (map (λ e. elements_of e) (read new_reader (patch_all fragments)).events
      ≡ map trim_newlines fragments)
    × All
        (λ e. e.kind ≡ codes "datastar-patch-elements")
        (read new_reader (patch_all fragments)).events
patch_all-read_example = patch_all-read fragments (refl, (refl, tt))
