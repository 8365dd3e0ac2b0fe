-- ===== src/Annotate/Pruned.antt =====
-- `prune_stale_notes` of tools/annotate.py on the days in the scope of `select_days`.
use mathlib.Core.Logic.{ite, if_neg}
use honeycow.Prelude.{
  Bool, true, false, not, ◌&&◌, Option, none, some, List, [], ◌∷◌, Text, keep_if, All, All-map, ◌≡◌,
  ◌≢◌, refl, sym, ap, subst, ◌∙◌, if◌then◌else◌, Bool-cases, inl, inr, arith, same_text_iff,
  Text_discrete,
}
use honeycow.Dict.{get}
use honeycow.Annotate.{
  Day, Notes, is_model_note, note_status, note_rubric, is_text, frontmatter_field,
}
use honeycow.Annotate.Select.{
  Scope, is_in_scope, needs_note, has_settled, is_settled, select_days, put_status, status_loop,
  status_now, is_misleading, is_stale, prune_stale_notes, is_green,
}
use honeycow.Annotate.Frontmatter.{IsNoteOn}
use honeycow.Annotate.Dates.{note_at, note_at-put, note_at-put-other, Distinct}
use honeycow.Annotate.Sublists.{keep_if_same, Off}

is_text-some : (o : Option Text) (t : Text) → o ≡ some t → is_text o t ≡ true
is_text-some o t e = ap (λ x. is_text x t) e ∙ (same_text_iff t t).1 refl

note_on-has_settled :
    (status current : Text) (note : Option Text)
    → IsNoteOn status current note
    → has_settled status current note ≡ true
unfolding has_settled is_settled is_model_note frontmatter_field
note_on-has_settled status current none h = cc (h.0)
note_on-has_settled status current (some t) h =
    let a = is_text-some (note_status (some t)) status (h.1) in
    let b = is_text-some (note_rubric (some t)) current (h.2) in ground (arith, h.0, a, b)

-- A note on the day's verdict and the current rubric settles the day.
pub note_on-needs_note :
    (s : Scope) (notes : Notes) (day : Day)
    → s.force ≡ false
    → IsNoteOn day.status s.current (note_at day.date notes)
    → needs_note s notes day ≡ false
unfolding needs_note
note_on-needs_note s notes day unforced h =
    ground (arith, unforced, note_on-has_settled day.status s.current (note_at day.date notes) h)

-- The verdicts of `prune_stale_notes`, at a date of the index.
put_status-other :
    (date : Text) (d : Day) (statuses : List (Text × Text))
    → d.date ≢ date
    → note_at date (put_status d statuses) ≡ note_at date statuses
unfolding put_status
put_status-other date d statuses n = elim (Bool-cases d.partial) [
  | inl e ↦ rw e refl
  | inr e ↦ rw e (note_at-put-other date d.date d.status statuses n)
]

put_status-date :
    (d : Day) (statuses : List (Text × Text))
    → d.partial ≡ false
    → note_at d.date (put_status d statuses) ≡ some d.status
unfolding put_status
put_status-date d statuses e = rw e (note_at-put d.date d.status statuses)

status_loop-Off :
    (date : Text) (days : List Day) (statuses : List (Text × Text))
    → Off date days
    → note_at date (status_loop days statuses) ≡ note_at date statuses
unfolding status_loop
status_loop-Off date [] statuses h = refl
status_loop-Off date (d ∷ days) statuses h =
    status_loop-Off date days (put_status d statuses) (h.1) ∙ put_status-other date d statuses (h.0)

status_loop-date :
    (days : List Day) (statuses : List (Text × Text))
    → Distinct days
    → All (λ d. d.partial ≡ false → note_at d.date (status_loop days statuses) ≡ some d.status) days
unfolding status_loop
status_loop-date [] statuses u = tt
status_loop-date (d ∷ days) statuses u = (
  (λ e. status_loop-Off d.date days (put_status d statuses) (u.0) ∙ put_status-date d statuses e),
  status_loop-date days (put_status d statuses) (u.1),
)

get-keep_if-all :
    (p : Text × Text → Bool) (date : Text) (notes : Notes)
    → ((note : Text) → p (date, note) ≡ true)
    → note_at date (keep_if p notes) ≡ note_at date notes
unfolding get
get-keep_if-all p date [] h = refl
get-keep_if-all p date ((d, n) ∷ notes) h =
    let later = get-keep_if-all p date notes h in
    elim (Bool-cases (p (d, n))) [
      | inl e ↦ rw e (ap (ite (Text_discrete d date) (some n)) later)
      | inr e ↦
          let off : d ≢ date = λ q. absurd (cc (subst (λ x. p (x, n) ≡ true) (sym q) (h n), e)) in
          rw e (later ∙ sym (if_neg (Text_discrete d date) off (some n) (note_at date notes)))
    ]

module _ (s : Scope) (days : List Day) (u : Distinct days) where
  -- No note of a day in scope is stale.
  scope-is_stale :
      (d : Day) (note : Text)
      → is_in_scope s d ≡ true
      → (d.partial ≡ false → note_at d.date (status_now days) ≡ some d.status)
      → is_stale s.all_days (status_now days) (d.date, note) ≡ false
  unfolding is_stale is_misleading is_in_scope
  scope-is_stale d note h e =
      let part : d.partial ≡ false = ground (arith, h) in
      let g : (is_green d.status && not s.all_days) ≡ false = ground (arith, h) in
      ap (λ o. is_model_note (some note) && is_misleading s.all_days note o) (e part)
      ∙ ground (arith, g)

  needs_note-pruned_day :
      (notes : Notes) (d : Day)
      → (d.partial ≡ false → note_at d.date (status_loop days []) ≡ some d.status)
      → needs_note s (prune_stale_notes false s.all_days days notes) d ≡ needs_note s notes d
  unfolding needs_note prune_stale_notes status_now
  needs_note-pruned_day notes d e = elim (Bool-cases (is_in_scope s d)) [
    | inl h ↦
        let kept = λ (note : Text). ap not (scope-is_stale d note h e) in
        ap
          (λ o.
            if not (is_in_scope s d)
            then false
            else if not s.force && has_settled d.status s.current o
            then false
            else true)
          (get-keep_if-all (λ entry. not (is_stale s.all_days (status_now days) entry)) d.date notes
            kept)
    | inr h ↦ rw h refl
  ]

  pub needs_note-pruned :
      (notes : Notes)
      → All
          (λ d.
            needs_note s (prune_stale_notes false s.all_days days notes) d ≡ needs_note s notes d)
          days
  needs_note-pruned notes =
      All-map (λ d e. needs_note-pruned_day notes d e) days (status_loop-date days [] u)

  pub select_days-pruned :
      (notes : Notes)
      → select_days s (prune_stale_notes false s.all_days days notes) days
        ≡ select_days s notes days
  unfolding select_days
  select_days-pruned notes = keep_if_same _ _ days (needs_note-pruned notes)
