-- ===== src/Annotate/HandWritten.antt =====
-- Notes that a person wrote, under a run of tools/annotate.py.
use honeycow.Prelude.{
  ℕ, ◌-◌, true, false, not, some, List, Text, length, keep_if, All-map, ◌≡◌, ◌≢◌, ap, ◌∙◌, arith,
}
use honeycow.Annotate.{Day, Notes, is_model_note}
use honeycow.Annotate.Select.{
  Scope, needs_note, has_settled, is_settled, select_days, status_now, is_stale, prune_stale_notes,
}
use honeycow.Annotate.Run.{Service, annotate, last_days, started}
use honeycow.Annotate.Sublists.{All-keep_if, All-last_days}
use honeycow.Annotate.Dates.{note_at, get-keep_if, annotate_loop-other, run_on-notes}

module _ (s : Scope) (unforced : s.force ≡ false) (date note : Text)
    (by_hand : is_model_note (some note) ≡ false) where
  needs_note-by_hand :
      (notes : Notes) (day : Day)
      → note_at date notes ≡ some note
      → needs_note s notes day ≡ true
      → day.date ≢ date
  unfolding needs_note has_settled is_settled
  needs_note-by_hand notes day e h q =
      let k : note_at day.date notes ≡ some note = cc (q, e) in
      ground (arith, k, h, unforced, by_hand)

  prune_stale_notes-by_hand :
      (days : List Day) (notes : Notes)
      → note_at date notes ≡ some note
      → note_at date (prune_stale_notes false s.all_days days notes) ≡ some note
  unfolding prune_stale_notes is_stale
  prune_stale_notes-by_hand days notes e =
      get-keep_if (λ entry. not (is_stale s.all_days (status_now days) entry)) date note notes
        (ground (arith, by_hand)) e

  -- A note that is not a model's is there unchanged after a run that is not forced, whatever the
  -- service answers.
  pub annotate-by_hand :
      (service : Service) (max_days : ℕ) (days : List Day) (notes : Notes)
      → note_at date notes ≡ some note
      → note_at date (annotate service s max_days days notes).notes ≡ some note
  unfolding annotate select_days
  annotate-by_hand service max_days days notes e =
      let pruned = prune_stale_notes false s.all_days days notes in
      let here = prune_stale_notes-by_hand days notes e in
      let selected = keep_if (needs_note s pruned) days in
      let others =
        All-map (λ day. needs_note-by_hand pruned day here) (last_days max_days selected)
          (All-last_days (λ day. needs_note s pruned day ≡ true) max_days selected
            (All-keep_if (needs_note s pruned) days)) in
      ap (note_at date)
        (run_on-notes service s (length selected - max_days) pruned (last_days max_days selected))
      ∙ annotate_loop-other service s.current date (last_days max_days selected) (started pruned)
          others
      ∙ here
