-- ===== src/Annotate/Select.antt =====
-- `select_days` and `prune_stale_notes` of tools/annotate.py.
use honeycow.Prelude.{
  Bool, true, false, not, ◌&&◌, ◌||◌, Option, none, some, List, [], ◌∷◌, map, Text, codes, any,
  keep_if, is_empty, strip, split, same_text, Text_discrete, sort_texts, if◌then◌else◌,
}
use honeycow.Dict.{get, put}
use honeycow.Annotate.{Day, Notes, is_text, note_status, note_rubric, is_model_note}

abbrev pub is_green : Text → Bool
is_green status = same_text status (codes "green")

-- `{d.strip() for d in only.split(",") if d.strip()}`, and `only and day["date"] not in only`
unfoldable pub only_days : Option Text → List Text
only_days none = []
only_days (some only) = keep_if (λ d. not (is_empty d)) (map strip (split b',' only))

unfoldable pub is_excluded : List Text → Text → Bool
is_excluded only date = not (is_empty only) && not (any only (same_text date))

-- The settings of a run that decide on a day: `rubric_fingerprint()`, `--all-days`, `--day`, `--force`.
pub record Scope : Type 0 where
  pub current : Text
  pub all_days : Bool
  pub only : Option Text
  pub force : Bool

-- The test of a note that exists: hand-written, or written on this verdict and rubric.
unfoldable pub is_settled : Text → Text → Option Text → Bool
is_settled status current note =
    if not (is_model_note note)
    then true
    else is_text (note_status note) status && is_text (note_rubric note) current

unfoldable pub has_settled : Text → Text → Option Text → Bool
unfolding is_settled
has_settled status current none = false
has_settled status current (some text) = is_settled status current (some text)

unfoldable pub is_in_scope : Scope → Day → Bool
is_in_scope s day =
    if is_excluded (only_days s.only) day.date
    then false
    else not (day.partial || is_green day.status && not s.all_days)

unfoldable pub needs_note : Scope → Notes → Day → Bool
unfolding is_in_scope has_settled
needs_note s notes day =
    if not (is_in_scope s day)
    then false
    else if not s.force && has_settled day.status s.current (get Text_discrete day.date notes)
    then false
    else true

unfoldable pub select_days : Scope → Notes → List Day → List Day
unfolding needs_note
select_days s notes = keep_if (needs_note s notes)

-- `{d["date"]: d["status"] for d in data["days"] if not d["partial"]}`
unfoldable pub put_status : Day → List (Text × Text) → List (Text × Text)
put_status d statuses = if d.partial then statuses else put Text_discrete d.date d.status statuses

unfoldable pub status_loop : List Day → List (Text × Text) → List (Text × Text)
unfolding put_status
status_loop [] statuses = statuses
status_loop (d ∷ days) statuses = status_loop days (put_status d statuses)

unfoldable pub status_now : List Day → List (Text × Text)
unfolding status_loop
status_now days = status_loop days []

-- The tests of the loop: the verdict that the note claims is gone and nothing will rewrite the note.
unfoldable pub is_misleading : Bool → Text → Option Text → Bool
is_misleading all_days note none = false
is_misleading all_days note (some now) =
    not (is_text (note_status (some note)) now) && (is_green now && not all_days)

unfoldable pub is_stale : Bool → List (Text × Text) → Text × Text → Bool
unfolding is_misleading
is_stale all_days statuses (stem, note) =
    is_model_note (some note) && is_misleading all_days note (get Text_discrete stem statuses)

-- The stems that are dropped, and the notes that are left.
unfoldable pub dropped : Bool → List Day → Notes → List Text
unfolding is_stale
dropped all_days days notes =
    sort_texts (map (λ entry. entry.0) (keep_if (is_stale all_days (status_now days)) notes))

unfoldable pub prune_stale_notes : Bool → Bool → List Day → Notes → Notes
unfolding is_stale
prune_stale_notes dry_run all_days days notes =
    if dry_run
    then notes
    else keep_if (λ entry. not (is_stale all_days (status_now days) entry)) notes
