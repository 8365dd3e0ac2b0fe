-- ===== src/Annotate.antt =====
-- tools/annotate.py: the notes that a model writes on the graded days; here a note and its frontmatter.
--
-- The notes directory is a dictionary from the stem of a file's name, a date, to the text that is read
-- from it; a missing directory has no entry. Line ends are as written: `splitlines` reads the same
-- lines after the translation of `read_text`. The clock and the fingerprint of the rubric are
-- arguments.
pub mod Select
pub mod Run
pub mod Frontmatter
pub mod Dates
pub mod Sublists
pub mod Pruned
pub mod Pending
pub mod HandWritten
use honeycow.Prelude.{
  ℕ, Bool, true, false, Option, none, some, List, [], ◌∷◌, ◌++◌, Text, codes, take, strip,
  splitlines, before, same_text, if◌then◌else◌,
}
use honeycow.Http.{behind}

pub record Day : Type 0 where
  pub date : Text
  pub status : Text
  pub partial : Bool

abbrev pub Notes : Type 0
Notes = List (Text × Text)

-- The loop over the first lines: the first field of that name.
unfoldable pub field_in : Text → List Text → Option Text
field_in field [] = none
field_in field (line ∷ lines) =
    if same_text (strip (before b':' line)) field
    then some (strip (behind b':' line))
    else field_in field lines

unfoldable pub frontmatter_field : Option Text → Text → Option Text
unfolding field_in
frontmatter_field none field = none
frontmatter_field (some text) field = field_in field (take 8 (splitlines text))

-- `o == text`
abbrev pub is_text : Option Text → Text → Bool
is_text none t = false
is_text (some s) t = same_text s t

unfoldable pub note_status : Option Text → Option Text
note_status note = frontmatter_field note (codes "status")

unfoldable pub note_rubric : Option Text → Option Text
note_rubric note = frontmatter_field note (codes "rubric")

unfoldable pub is_model_note : Option Text → Bool
is_model_note note = is_text (frontmatter_field note (codes "source")) (codes "model")

-- A line of the note, with its end.
abbrev pub line_of : Text → Text → Text → Text
line_of start value rest = start ++ (value ++ b'\n' ∷ rest)

-- `render_note`, behind its second line; `import_notes` puts a line of its own there.
unfoldable pub note_from_model : Text → Text → Text → Text → Text → Text
note_from_model text model status stamp rubric = line_of (codes "model: ") model (
    line_of (codes "generated: ") stamp (
      line_of (codes "status: ") status (
        line_of (codes "rubric: ") rubric (line_of (codes "---") [] (line_of (strip text) [] [])))))

unfoldable pub render_note : Text → Text → Text → Text → Text → Text
unfolding note_from_model
render_note text model status stamp rubric =
    line_of (codes "---") []
      (line_of (codes "source: model") [] (note_from_model text model status stamp rubric))
