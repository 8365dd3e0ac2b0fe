-- ===== src/Annotate/Dates.antt =====
-- The loop of `main` of tools/annotate.py, seen at one date.
use mathlib.Core.Logic.{if_pos, if_neg}
use honeycow.Prelude.{
  ℕ, Bool, true, Option, some, List, [], ◌∷◌, Text, keep_if, All, ◌≡◌, ◌≢◌, refl, sym, ap, subst,
  ◌∙◌, Text_discrete, Bool-cases, inl, inr,
}
use honeycow.Dict.{get, put}
use honeycow.Dict.Laws.{get-put}
use honeycow.Annotate.{Day, Notes, render_note}
use honeycow.Annotate.Select.{Scope}
use honeycow.Annotate.Run.{
  Answer, wrote, refused, raised, Progress, Service, annotate_day, record_answer, annotate_loop,
  run_on, started, finished,
}

abbrev pub note_at : Text → Notes → Option Text
note_at = get Text_discrete

pub note_at-put-other :
    (date other note : Text) (notes : Notes)
    → other ≢ date
    → note_at date (put Text_discrete other note notes) ≡ note_at date notes
note_at-put-other date other note notes n =
    get-put Text_discrete other date note notes ∙ if_neg (Text_discrete other date) n _ _

pub note_at-put :
    (date note : Text) (notes : Notes)
    → note_at date (put Text_discrete date note notes) ≡ some note
note_at-put date note notes =
    get-put Text_discrete date date note notes ∙ if_pos (Text_discrete date date) refl _ _

pub get-keep_if :
    (p : Text × Text → Bool) (date note : Text) (notes : Notes)
    → p (date, note) ≡ true
    → note_at date notes ≡ some note
    → note_at date (keep_if p notes) ≡ some note
unfolding get
get-keep_if p date note [] h e = cc e
get-keep_if p date note ((d, n) ∷ notes) h e = elim (Text_discrete d date) [
  | yes q ↦
      let same : some n ≡ some note = sym (if_pos (Text_discrete d date) q (some n) _) ∙ e in
      let kept : p (d, n) ≡ true = cc (q, same, h) in
      rw kept (if_pos (Text_discrete d date) q (some n) _ ∙ same)
  | no q ↦
      let rest : note_at date notes ≡ some note =
        sym (if_neg (Text_discrete d date) q (some n) _) ∙ e in
      let later = get-keep_if p date note notes h rest in
      elim (Bool-cases (p (d, n))) [
        | inl kept ↦ rw kept (if_neg (Text_discrete d date) q (some n) _ ∙ later)
        | inr gone ↦ rw gone later
      ]
]

-- Days with different dates.
abbrev pub Distinct : List Day → Type 0
Distinct [] = Unit
Distinct (day ∷ days) = All (λ other. other.date ≢ day.date) days × Distinct days

module _ (service : Service) (rubric : Text) where
  record_answer-other :
      (date stamp : Text) (day : Day) (a : Answer) (p : Progress)
      → day.date ≢ date
      → note_at date (record_answer rubric stamp day a p).notes ≡ note_at date p.notes
  unfolding record_answer
  record_answer-other date stamp day (wrote t model) p n =
      note_at-put-other date day.date _ p.notes n
  record_answer-other date stamp day (refused category) p n = refl
  record_answer-other date stamp day (raised exc) p n = refl

  -- The loop leaves the note of a date that it does not come to.
  pub annotate_loop-other :
      (date : Text) (days : List Day) (p : Progress)
      → All (λ day. day.date ≢ date) days
      → note_at date (annotate_loop service rubric days p).notes ≡ note_at date p.notes
  unfolding annotate_loop
  annotate_loop-other date [] p h = refl
  annotate_loop-other date (day ∷ days) p h =
      annotate_loop-other date days _ (h.1)
      ∙ record_answer-other date (service.stamp day) day (annotate_day (service.ask day)) p (h.0)

  -- A day that the service answers leaves a note of that text on that day's verdict.
  abbrev pub IsAnswered : Day → Type 0
  IsAnswered day = (t : Text) × (model : Text) × (annotate_day (service.ask day) ≡ wrote t model)

  abbrev pub note_of : Text → Text → Day → Text
  note_of t model day = render_note t model day.status (service.stamp day) rubric

  answered-note :
      (day : Day) (p : Progress) (t model : Text)
      → annotate_day (service.ask day) ≡ wrote t model
      → note_at day.date
          (record_answer rubric (service.stamp day) day (annotate_day (service.ask day)) p).notes
        ≡ some (note_of t model day)
  unfolding record_answer
  answered-note day p t model e =
      ap (λ a. note_at day.date (record_answer rubric (service.stamp day) day a p).notes) e
      ∙ note_at-put day.date (note_of t model day) p.notes

  pub annotate_loop-note :
      (P : Day → Option Text → Type 0)
      → (days : List Day) (p : Progress) → Distinct days
      → All
          (λ day.
            (t : Text) × (model : Text) × (annotate_day (service.ask day) ≡ wrote t model)
            × P day (some (note_of t model day)))
          days
      → All (λ day. P day (note_at day.date (annotate_loop service rubric days p).notes)) days
  unfolding annotate_loop
  annotate_loop-note P [] p u h = tt
  annotate_loop-note P (day ∷ days) p u h =
      let (t, model, e, q) = h.0 in
      (
        subst (P day)
            (sym (annotate_loop-other day.date days _ (u.0) ∙ answered-note day p t model e)) q,
        annotate_loop-note P days _ (u.1) (h.1),
      )

-- The notes that a run leaves are those of its loop.
pub run_on-notes :
    (service : Service) (s : Scope) (over_cap : ℕ) (notes : Notes) (candidates : List Day)
    → (run_on service s over_cap notes candidates).notes
      ≡ (annotate_loop service s.current candidates (started notes)).notes
unfolding run_on finished annotate_loop
run_on-notes service s over_cap notes [] = refl
run_on-notes service s over_cap notes (day ∷ candidates) = refl
