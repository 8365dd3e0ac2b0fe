-- ===== src/Tests/Annotating.antt =====
-- The annotator at three days: one without a note, one with a stale note, one that a person wrote on.
use honeycow.Prelude.{
  ◌≡◌, ◌≢◌, refl, false, none, some, List, [], ◌∷◌, Text, codes, Text_discrete, ℕ_discrete,
  same_text, same_text_iff, strip, lstrip, is_space, is_break, splitlines, before, IsOneLine, arith,
}
use honeycow.Dict
use honeycow.Http.{behind}
use honeycow.Annotate
use honeycow.Annotate.{Day, Notes, render_note}
use honeycow.Annotate.Select
use honeycow.Annotate.Select.{Scope, select_days}
use honeycow.Annotate.Run
use honeycow.Annotate.Run.{
  Reply, response, Block, text, wrote, annotate_day, Service, annotate, session_note,
}
use honeycow.Annotate.Dates.{note_at}
use honeycow.Annotate.Frontmatter.{IsValue, IsNoteOn, frontmatter_field-render_note, one_line}
use honeycow.Annotate.HandWritten.{annotate-by_hand}
use honeycow.Annotate.Pending.{runs, select_days-runs}

abbrev day_on : Text → Text → Day
day_on date status = record { date = date; status = status; partial = false }

abbrev days : List Day
days =
    day_on (codes "2026-09-01") (codes "red")
    ∷ day_on (codes "2026-09-02") (codes "yellow")
    ∷ day_on (codes "2026-09-03") (codes "red")
    ∷ []

abbrev by_hand : Text
by_hand = codes "our own drill"

abbrev notes : Notes
notes =
    (codes "2026-09-03", by_hand)
    ∷ (
      codes "2026-09-02",
      render_note (codes "The red is loud.") (codes "m") (codes "red") (codes "t") (codes "ab12"),
    )
    ∷ []

abbrev service : Service
service = record {
  ask = λ day. response (codes "end_turn") (text (codes " A sweep. ") ∷ []) (codes "m");
  stamp = λ day. codes "t";
}

abbrev scope : Scope
scope = record { current = codes "ab12"; all_days = false; only = none; force = false }

frontmatter_field-render_note_example :
    IsNoteOn
      (codes "red")
      (codes "ab12")
      (some (render_note (codes "A sweep.") (codes "m") (codes "red") (codes "t") (codes "ab12")))
    × IsNoteOn (codes "red") (codes "ab12") (
        some (session_note (codes "A sweep.") (codes "m") (codes "red") (codes "t") (codes "ab12")))
unfolding is_break strip lstrip is_space
frontmatter_field-render_note_example =
    frontmatter_field-render_note (codes "A sweep.") (codes "m") (codes "red") (codes "t")
      (codes "ab12") (one_line (codes "m") refl) (one_line (codes "t") refl)
      (one_line (codes "red") refl, refl) (one_line (codes "ab12") refl, refl)

annotate-by_hand_example :
    note_at (codes "2026-09-03") (annotate service scope 1 days notes).notes ≡ some by_hand
unfolding Annotate.is_model_note Annotate.frontmatter_field Annotate.field_in splitlines before
    behind strip lstrip is_space is_break same_text Text_discrete ℕ_discrete Dict.get
annotate-by_hand_example =
    annotate-by_hand scope refl (codes "2026-09-03") by_hand refl service 1 days notes refl

select_days_test :
    select_days scope notes days
    ≡ day_on (codes "2026-09-01") (codes "red") ∷ day_on (codes "2026-09-02") (codes "yellow") ∷ []
unfolding Annotate.is_model_note Annotate.note_status Annotate.note_rubric Annotate.render_note
    Annotate.note_from_model Annotate.frontmatter_field Annotate.field_in splitlines before behind
    strip lstrip is_space is_break same_text Text_discrete ℕ_discrete Dict.get Select.select_days
    Select.needs_note Select.is_in_scope Select.is_excluded Select.only_days Select.has_settled
    Select.is_settled
select_days_test = refl

differ : (s t : Text) → same_text s t ≡ false → s ≢ t
differ s t e q = let k = (same_text_iff s t).1 q in cc (e, k)

-- Every day is answered.
answered :
    (status : Text)
    → IsValue status
    → (t : Text) × (model : Text) × (annotate_day
          (response (codes "end_turn") (text (codes " A sweep. ") ∷ []) (codes "m"))
        ≡ wrote t model)
      × IsOneLine model
      × IsOneLine (codes "t")
      × IsValue status
unfolding Run.annotate_day Run.join_text Run.if_any_text strip lstrip is_space is_break
answered status v =
    (codes "A sweep.", codes "m", refl, one_line (codes "m") refl, one_line (codes "t") refl, v)

select_days-runs_example : select_days scope (runs service scope 1 days 2 notes) days ≡ []
unfolding Annotate.is_model_note Annotate.note_status Annotate.note_rubric Annotate.render_note
    Annotate.note_from_model Annotate.frontmatter_field Annotate.field_in splitlines before behind
    strip lstrip is_space is_break same_text Text_discrete ℕ_discrete Dict.get Select.select_days
    Select.needs_note Select.is_in_scope Select.is_excluded Select.only_days Select.has_settled
    Select.is_settled Run.annotate_day Run.join_text Run.if_any_text
select_days-runs_example =
    select_days-runs service scope refl 1 days
      ((differ _ _ refl, (differ _ _ refl, tt)), ((differ _ _ refl, tt), (tt, tt)))
      (one_line (codes "ab12") refl, refl)
      (
        answered (codes "red") (one_line (codes "red") refl, refl),
        (
          answered (codes "yellow") (one_line (codes "yellow") refl, refl),
          (answered (codes "red") (one_line (codes "red") refl, refl), tt),
        ),
      )
      2 notes (omega arith)
