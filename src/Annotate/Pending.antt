-- ===== src/Annotate/Pending.antt =====
-- How many runs of tools/annotate.py the days take that need a note.
use mathlib.Core.List.{append-nil}
use native.Mathlib.Nat.{zero-mul, suc-mul}
use honeycow.Prelude.{
  ℕ, ◌+◌, ◌-◌, ◌*◌, ◌≤◌, true, false, not, ◌&&◌, Option, some, List, [], ◌∷◌, ◌++◌, Text, length,
  take, keep_if, ltb, All, All-map, All-zip, keep_if-append, length-take, take-append-drop, ◌≡◌,
  ◌≢◌, refl, sym, ap, subst, ◌∙◌, if◌then◌else◌, Bool-cases, inl, inr, arith, zero, suc, IsOneLine,
}
use honeycow.Annotate.{Day, Notes}
use honeycow.Annotate.Select.{
  Scope, is_in_scope, needs_note, has_settled, select_days, prune_stale_notes,
}
use honeycow.Annotate.Run.{
  Service, wrote, annotate_day, annotate_loop, annotate, last_days, started,
}
use honeycow.Annotate.Frontmatter.{IsValue, IsNoteOn, frontmatter_field-render_note}
use honeycow.Annotate.Pruned.{note_on-needs_note, needs_note-pruned, select_days-pruned}
use honeycow.Annotate.Dates.{
  note_at, note_of, Distinct, annotate_loop-other, annotate_loop-note, run_on-notes,
}
use honeycow.Annotate.Sublists.{
  All-keep_if, All-last_days, All-keep_if_of, All-take, keep_if-All, keep_if_none, keep_if-keep_if,
  Off, keep_if-Distinct, Distinct-append, keep_if-Off,
}

-- The days that a run does not come to.
abbrev first_days : ℕ → List Day → List Day
first_days max_days days = if ltb 0 max_days then take (length days - max_days) days else []

first_days-append :
    (max_days : ℕ) (days : List Day) → first_days max_days days ++ last_days max_days days ≡ days
unfolding last_days
first_days-append max_days days = elim (Bool-cases (ltb 0 max_days)) [
  | inl e ↦ rw e (take-append-drop (length days - max_days) days)
  | inr e ↦ rw e refl
]

All-first_days :
    (P : Day → Type 0) (max_days : ℕ) (days : List Day)
    → All P days
    → All P (first_days max_days days)
All-first_days P max_days days h = elim (Bool-cases (ltb 0 max_days)) [
  | inl e ↦ rw e (All-take P (length days - max_days) days h)
  | inr e ↦ rw e tt
]

at_most_suc : (n m k : ℕ) → k ≤ suc n * m → k ≤ m + n * m
at_most_suc n m k h = omega (arith, h, suc-mul n m)

no_days : (days : List Day) → length days ≤ 0 → days ≡ []
no_days [] h = refl
no_days (d ∷ days) h = absurd (omega arith)

length-first_days :
    (max_days : ℕ) (days : List Day) → length (first_days max_days days) ≤ length days - max_days
length-first_days max_days days = ground (arith, length-take (length days - max_days) days)

-- The service answers the day with a text, and what the note is rendered with can be read back.
abbrev pub IsAnswered : Service → Day → Type 0
IsAnswered service day =
    (t : Text) × (model : Text) × (annotate_day (service.ask day) ≡ wrote t model)
    × IsOneLine model
    × IsOneLine (service.stamp day)
    × IsValue day.status

-- Runs one after another.
abbrev pub runs : Service → Scope → ℕ → List Day → ℕ → Notes → Notes
runs service s max_days days zero notes = notes
runs service s max_days days (suc n) notes =
    runs service s max_days days n (annotate service s max_days days notes).notes

module _ (service : Service) (s : Scope) (unforced : s.force ≡ false) (max_days : ℕ)
    (days : List Day) (u : Distinct days) where
  module _ (current : IsValue s.current) (answers : All (IsAnswered service) days)
      (notes : Notes) where
    abbrev pending : List Day
    pending = select_days s notes days

    readable :
        (d : Day)
        → IsAnswered service d
        → (t : Text) × (model : Text) × (annotate_day (service.ask d) ≡ wrote t model)
          × IsNoteOn d.status s.current (some (note_of service s.current t model d))
    readable d (t, model, e, m, stamp, status) = (
      t,
      model,
      e,
      (frontmatter_field-render_note t model d.status (service.stamp d) s.current m stamp status
          current).0,
    )

    abbrev after : Notes
    after = (annotate service s max_days days notes).notes

    annotate-notes :
        after
        ≡ (annotate_loop service s.current
            (last_days max_days pending)
            (started (prune_stale_notes false s.all_days days notes))).notes
    unfolding annotate
    annotate-notes =
        let pruned = prune_stale_notes false s.all_days days notes in
        let selected = select_days s pruned days in
        run_on-notes service s (length selected - max_days) pruned (last_days max_days selected)
        ∙ ap
            (λ cs. (annotate_loop service s.current (last_days max_days cs) (started pruned)).notes)
            (select_days-pruned s days u notes)

    parts-Distinct : Distinct (first_days max_days pending ++ last_days max_days pending)
    unfolding select_days
    parts-Distinct =
        subst Distinct (sym (first_days-append max_days pending))
          (keep_if-Distinct (needs_note s notes) days u)

    answered : All (IsAnswered service) (last_days max_days pending)
    unfolding select_days
    answered =
        All-last_days (IsAnswered service) max_days pending
          (All-keep_if_of (IsAnswered service) (needs_note s notes) days answers)

    -- The days that the run came to need no note any more.
    annotated-needs_note : All (λ d. needs_note s after d ≡ false) (last_days max_days pending)
    annotated-needs_note =
        let candidates = last_days max_days pending in
        let IsOn : Day → Option Text → Type 0 = λ d o. IsNoteOn d.status s.current o in
        All-map
          (λ d h.
            note_on-needs_note s after d unforced
              (subst (λ n. IsOn d (note_at d.date n)) (sym annotate-notes) h))
          candidates
          (annotate_loop-note service s.current IsOn candidates
            (started (prune_stale_notes false s.all_days days notes))
            (Distinct-append (first_days max_days pending) candidates parts-Distinct).1
            (All-map (λ d h. readable d h) candidates answered))

    -- A day off their dates needs one as before.
    other-needs_note :
        (d : Day)
        → Off d.date (last_days max_days pending)
        → needs_note s (prune_stale_notes false s.all_days days notes) d ≡ needs_note s notes d
        → needs_note s after d ≡ needs_note s notes d
    unfolding needs_note
    other-needs_note d off e =
        let same : note_at d.date after
            ≡ note_at d.date (prune_stale_notes false s.all_days days notes) =
          ap (note_at d.date) annotate-notes
          ∙ annotate_loop-other service s.current d.date (last_days max_days pending)
              (started (prune_stale_notes false s.all_days days notes)) off in
        ap
          (λ o.
            if not (is_in_scope s d)
            then false
            else if not s.force && has_settled d.status s.current o
            then false
            else true)
          same
        ∙ e

    -- A day that needed no note needs none after the run.
    settled-needs_note : All (λ d. needs_note s notes d ≡ false → needs_note s after d ≡ false) days
    unfolding select_days
    settled-needs_note =
        All-zip
          (λ d off e f.
            other-needs_note d (All-last_days (λ c. c.date ≢ d.date) max_days pending (off f)) e
            ∙ f)
          days (keep_if-Off (needs_note s notes) days u) (needs_note-pruned s days u notes)

    -- The days that the run did not come to still need one.
    left-needs_note : All (λ d. needs_note s after d ≡ true) (first_days max_days pending)
    unfolding select_days
    left-needs_note =
        let first = first_days max_days pending in
        let P : Day → Type 0 = λ d.
          needs_note s (prune_stale_notes false s.all_days days notes) d ≡ needs_note s notes d in
        All-zip {Q = λ d. P d × (needs_note s notes d ≡ true)}
          (λ d off h. other-needs_note d off (h.0) ∙ h.1) first
          (Distinct-append first (last_days max_days pending) parts-Distinct).0
          (All-zip (λ d e h. (e, h)) first
            (All-first_days P max_days pending
              (All-keep_if_of P (needs_note s notes) days (needs_note-pruned s days u notes)))
            (All-first_days (λ d. needs_note s notes d ≡ true) max_days pending
              (All-keep_if (needs_note s notes) days)))

    select_days-after : select_days s after days ≡ first_days max_days pending
    unfolding select_days
    select_days-after =
        let first = first_days max_days pending in
        let last = last_days max_days pending in
        let q = needs_note s after in
        keep_if-keep_if (needs_note s notes) q days settled-needs_note
        ∙ ap (keep_if q) (sym (first_days-append max_days pending))
        ∙ keep_if-append q first last
        ∙ ap (λ x. x ++ keep_if q last) (keep_if-All q first left-needs_note)
        ∙ ap (λ x. first ++ x) (keep_if_none q last annotated-needs_note)
        ∙ append-nil first

  -- If the service answers every day, runs that are not forced come to an end of their work: after as
  -- many runs as their limits together come to the days that need a note, no day needs one. The days
  -- have different dates, and what the notes are rendered with can be read back.
  pub select_days-runs :
      IsValue s.current
      → All (IsAnswered service) days
      → (n : ℕ) (notes : Notes) → length (select_days s notes days) ≤ n * max_days
      → select_days s (runs service s max_days days n notes) days ≡ []
  select_days-runs current answers zero notes h =
      no_days (select_days s notes days) (omega (arith, h, zero-mul max_days))
  select_days-runs current answers (suc n) notes h =
      select_days-runs current answers n (annotate service s max_days days notes).notes (
        let k : length (select_days s notes days) ≤ max_days + n * max_days =
          at_most_suc n max_days _ h in
        omega (
          arith,
          k,
          length-first_days max_days (select_days s notes days),
          ap (λ (xs : List Day). length xs) (select_days-after current answers notes),
        ))
