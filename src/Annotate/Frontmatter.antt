-- ===== src/Annotate/Frontmatter.antt =====
-- Reading a note back: the fields that `render_note` and `import_notes` of tools/annotate.py write.
use mathlib.Core.List.{append_assoc}
use honeycow.Prelude.{
  true, false, Option, some, List, [], ◌∷◌, ◌++◌, Text, codes, take, strip, lstrip, is_space,
  is_break, any, splitlines, IsOneLine, splitlines-line, before, same_text, Text_discrete,
  ℕ_discrete, ◌≡◌, refl, sym, ap, ◌∙◌, arith,
}
use honeycow.Http.{behind}
use honeycow.Annotate.{
  field_in, frontmatter_field, line_of, note_status, note_rubric, is_model_note, is_text,
  note_from_model, render_note,
}
use honeycow.Annotate.Run.{session_note}

IsOneLine-append : (s t : Text) → IsOneLine s → IsOneLine t → IsOneLine (s ++ t)
IsOneLine-append [] t h k = k
IsOneLine-append (c ∷ s) t h k = (h.0, IsOneLine-append s t (h.1) k)

pub one_line : (s : Text) → any s is_break ≡ false → IsOneLine s
one_line [] e = tt
one_line (c ∷ s) e = (ground (arith, e), one_line s (ground (arith, e)))

-- A value that is written as it is read: one line with no space at its ends.
abbrev pub IsValue : Text → Type 0
IsValue s = IsOneLine s × (strip s ≡ s)

line_of-line :
    (start value rest : Text)
    → IsOneLine start
    → IsOneLine value
    → splitlines (line_of start value rest) ≡ (start ++ value) ∷ splitlines rest
line_of-line start value rest h k =
    ap splitlines (sym (append_assoc start value (b'\n' ∷ rest)))
    ∙ splitlines-line (start ++ value) rest (IsOneLine-append start value h k)

strip-space : (s : Text) → strip (b' ' ∷ s) ≡ strip s
unfolding strip lstrip is_space
strip-space s = refl

module _ (text model status stamp rubric : Text) (m : IsOneLine model) (t : IsOneLine stamp)
    (s : IsOneLine status) (r : IsOneLine rubric) where
  -- The lines of a note behind its provenance.
  abbrev note_lines : List Text
  note_lines =
      (codes "model: " ++ model)
      ∷ (codes "generated: " ++ stamp)
      ∷ (codes "status: " ++ status)
      ∷ (codes "rubric: " ++ rubric)
      ∷ codes "---"
      ∷ splitlines (line_of (strip text) [] [])

  splitlines-note_from_model :
      splitlines (note_from_model text model status stamp rubric) ≡ note_lines
  unfolding note_from_model is_break
  splitlines-note_from_model =
      line_of-line (codes "model: ") model _ (one_line (codes "model: ") refl) m
      ∙ ap (◌∷◌ (codes "model: " ++ model)) (
          line_of-line (codes "generated: ") stamp _ (one_line (codes "generated: ") refl) t
          ∙ ap (◌∷◌ (codes "generated: " ++ stamp)) (
              line_of-line (codes "status: ") status _ (one_line (codes "status: ") refl) s
              ∙ ap (◌∷◌ (codes "status: " ++ status)) (
                  line_of-line (codes "rubric: ") rubric _ (one_line (codes "rubric: ") refl) r
                  ∙ ap (◌∷◌ (codes "rubric: " ++ rubric))
                      (line_of-line (codes "---") [] _ (one_line (codes "---") refl) tt))))

  splitlines-render_note :
      splitlines (render_note text model status stamp rubric)
      ≡ codes "---" ∷ codes "source: model" ∷ note_lines
  unfolding render_note is_break
  splitlines-render_note =
      line_of-line (codes "---") [] _ (one_line (codes "---") refl) tt
      ∙ ap (◌∷◌ (codes "---")) (
          line_of-line (codes "source: model") [] _ (one_line (codes "source: model") refl) tt
          ∙ ap (◌∷◌ (codes "source: model")) splitlines-note_from_model)

  splitlines-session_note :
      splitlines (session_note text model status stamp rubric)
      ≡ codes "---" ∷ codes "source: model" ∷ codes "written_by: session" ∷ note_lines
  unfolding session_note is_break
  splitlines-session_note =
      line_of-line (codes "---") [] _ (one_line (codes "---") refl) tt
      ∙ ap (◌∷◌ (codes "---")) (
          line_of-line (codes "source: model") [] _ (one_line (codes "source: model") refl) tt
          ∙ ap (◌∷◌ (codes "source: model")) (
              line_of-line (codes "written_by: session") [] _
                (one_line (codes "written_by: session") refl) tt
              ∙ ap (◌∷◌ (codes "written_by: session")) splitlines-note_from_model))

-- A note that a model wrote on this verdict and rubric, as its frontmatter says.
abbrev pub IsNoteOn : Text → Text → Option Text → Type 0
IsNoteOn status rubric note =
    (is_model_note note ≡ true)
    × (note_status note ≡ some status)
    × (note_rubric note ≡ some rubric)

-- Where the fields stand in the lines of a note.
module _ (model status stamp rubric : Text) (rest : List Text) (s : strip status ≡ status)
    (r : strip rubric ≡ rubric) where
  abbrev fields : List Text
  fields =
      (codes "model: " ++ model)
      ∷ (codes "generated: " ++ stamp)
      ∷ (codes "status: " ++ status)
      ∷ (codes "rubric: " ++ rubric)
      ∷ codes "---"
      ∷ rest

  note_on :
      (note : Text)
      → splitlines note ≡ codes "---" ∷ codes "source: model" ∷ fields
      → IsNoteOn status rubric (some note)
  unfolding is_model_note note_status note_rubric frontmatter_field field_in before behind strip
      lstrip is_space same_text Text_discrete ℕ_discrete
  note_on note e = (
    ap (λ l. is_text (field_in (codes "source") (take 8 l)) (codes "model")) e,
    ap (λ l. field_in (codes "status") (take 8 l)) e ∙ ap some s,
    ap (λ l. field_in (codes "rubric") (take 8 l)) e ∙ ap some r,
  )

  session_on :
      (note : Text)
      → splitlines note ≡ codes "---" ∷ codes "source: model" ∷ codes "written_by: session" ∷ fields
      → IsNoteOn status rubric (some note)
  unfolding is_model_note note_status note_rubric frontmatter_field field_in before behind strip
      lstrip is_space same_text Text_discrete ℕ_discrete
  session_on note e = (
    ap (λ l. is_text (field_in (codes "source") (take 8 l)) (codes "model")) e,
    ap (λ l. field_in (codes "status") (take 8 l)) e ∙ ap some s,
    ap (λ l. field_in (codes "rubric") (take 8 l)) e ∙ ap some r,
  )

-- The frontmatter of a note that the service or a session wrote reads back: it is a model's, on the
-- verdict and the rubric that it was rendered with. The model's name and the time are one line each; the
-- verdict and the rubric are one line with no space at its ends.
pub frontmatter_field-render_note :
    (text model status stamp rubric : Text)
    → IsOneLine model
    → IsOneLine stamp
    → IsValue status
    → IsValue rubric
    → IsNoteOn status rubric (some (render_note text model status stamp rubric))
      × IsNoteOn status rubric (some (session_note text model status stamp rubric))
frontmatter_field-render_note text model status stamp rubric m t s r = (
  note_on model status stamp rubric (splitlines (line_of (strip text) [] [])) (s.1) (r.1) _
      (splitlines-render_note text model status stamp rubric m t (s.0) (r.0)),
  session_on model status stamp rubric (splitlines (line_of (strip text) [] [])) (s.1) (r.1) _
      (splitlines-session_note text model status stamp rubric m t (s.0) (r.0)),
)
