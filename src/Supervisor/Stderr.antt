-- ===== src/Supervisor/Stderr.antt =====
-- The stderr of a child, cut into log lines (internal/supervisor/supervisor.go, `stderrLogger`).
-- A text is its bytes, and the log is the list of the lines.
pub mod Lines
use rusty_gateway.Common.{
  ℕ, ◌≤◌, ◌<◌, Bool, true, false, List, [], ◌∷◌, ◌++◌, length, take, ltb, leb, ◌==◌, ◌||◌, ◌&&◌,
  is_nil, if◌then◌else◌,
}
use rusty_gateway.Common.Text.{Text}

unfoldable pub max_stderr_line : ℕ
max_stderr_line = 4096

-- bytes.TrimRight(line, "\r")
unfoldable pub trim_right : Text → Text
trim_right [] = []
trim_right (c ∷ s) = let rest = trim_right s in if is_nil rest && c == 13 then [] else c ∷ rest

-- len(bytes.TrimSpace(line)) == 0. The parameter is unicode.IsSpace on the decoded text, where no
-- byte stands for itself but ASCII: a text is blank when all of it is white space.
module _ (is_blank : Text → Bool) where
  -- the records that `emit` adds to the log
  unfoldable pub emit : Text → List Text
  unfolding trim_right
  emit line =
      let trimmed = trim_right line in
      if is_blank trimmed then [] else take max_stderr_line trimmed ∷ []

  -- The loop of `Write`: the lines before each newline, and what is left in the buffer. `acc` is
  -- the start of the line, in reverse.
  unfoldable pub cut_lines : Text → Text → List Text × Text
  unfolding emit
  cut_lines line [] = ([], line)
  cut_lines line (c ∷ s) =
      if c == 10
      then (let (out, rest) = cut_lines [] s in (emit line ++ out, rest))
      else cut_lines (line ++ c ∷ []) s

  -- a partial line with no newline in sight is flushed
  unfoldable pub flush : List Text × Text → List Text × Text
  unfolding emit
  flush (out, buf) = if ltb max_stderr_line (length buf) then (out ++ emit buf, []) else (out, buf)

  -- `Write`: the lines that it logs, and the new buffer, which held no newline before
  unfoldable pub write : Text → Text → List Text × Text
  unfolding flush cut_lines
  write buf p = flush (cut_lines buf p)
