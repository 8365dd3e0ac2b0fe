-- ===== src/Annotate/Run.antt =====
-- `annotate_day`, `main` and `import_notes` of tools/annotate.py.
--
-- What the service answers for a day is an argument, as are the clock and the rubric's fingerprint;
-- an exception while the evidence is gathered or the service is asked is `failed`. Writing a file
-- succeeds. The spend estimate and what is printed are left out.
use honeycow.Prelude.{
  ℕ, ◌-◌, Bool, true, false, Option, none, some, List, [], ◌∷◌, ◌++◌, Text, codes, length, drop,
  is_empty, ltb, strip, Text_discrete, text_lt, if◌then◌else◌,
}
use honeycow.Dict.{put}
use honeycow.Annotate.{Day, Notes, line_of, render_note, note_from_model}
use honeycow.Annotate.Select.{Scope, select_days, prune_stale_notes}

pub data Block : Type 0 where
  text : Text → Block
  other : Block

-- The response with its stop reason, content and model; a refusal with its category; an exception.
pub data Reply : Type 0 where
  response : Text → List Block → Text → Reply
  refusal : Option Text → Reply
  failed : Text → Reply

-- How `annotate_day` ends: text and model, `Refused`, or another exception.
pub data Answer : Type 0 where
  wrote : Text → Text → Answer
  refused : Text → Answer
  raised : Text → Answer

unfoldable pub join_text : List Block → Text
join_text [] = []
join_text (text t ∷ blocks) = t ++ join_text blocks
join_text (other ∷ blocks) = join_text blocks

unfoldable pub or_unknown : Option Text → Text
or_unknown none = codes "unknown"
or_unknown (some []) = codes "unknown"
or_unknown (some (c ∷ category)) = c ∷ category

unfoldable pub if_any_text : Text → Text → Text → Answer
if_any_text stop_reason t model =
    if is_empty t
    then raised (codes "empty response (stop_reason=" ++ stop_reason ++ codes ")")
    else wrote t model

unfoldable pub annotate_day : Reply → Answer
unfolding join_text or_unknown if_any_text
annotate_day (response stop_reason blocks model) =
    if_any_text stop_reason (strip (join_text blocks)) model
annotate_day (refusal category) = refused (or_unknown category)
annotate_day (failed exc) = raised exc

pub record Progress : Type 0 where
  pub notes : Notes
  pub written : List Text
  pub declined : List (Text × Text)
  pub error : Option Text

pub record Service : Type 0 where
  pub ask : Day → Reply
  pub stamp : Day → Text

-- One round of the loop over the candidates.
unfoldable pub record_answer : Text → Text → Day → Answer → Progress → Progress
record_answer rubric stamp day (wrote t model) p = record p {
  notes = put Text_discrete day.date (render_note t model day.status stamp rubric) p.notes;
  written = p.written ++ day.date ∷ [];
}
record_answer rubric stamp day (refused category) p = record p {
  declined = p.declined ++ (day.date, category) ∷ [];
}
record_answer rubric stamp day (raised exc) p = record p {
  error = some (day.date ++ codes ": " ++ exc);
}

module _ (service : Service) (rubric : Text) where
  unfoldable pub annotate_loop : List Day → Progress → Progress
  unfolding annotate_day record_answer
  annotate_loop [] p = p
  annotate_loop (day ∷ days) p =
      annotate_loop days
        (record_answer rubric (service.stamp day) day (annotate_day (service.ask day)) p)

-- `_status.json`
pub record Status : Type 0 where
  pub ok : Bool
  pub written : List Text
  pub deferred_by_cap : ℕ
  pub declined : List (Text × Text)
  pub coverage : Text
  pub error : Option Text

abbrev pub is_none {ℓ} : {A : Type ℓ} → Option A → Bool
is_none none = true
is_none (some a) = false

unfoldable pub write_status : Bool → ℕ → Progress → Status
write_status all_days over_cap p = record {
  ok = is_none p.error;
  written = p.written;
  deferred_by_cap = over_cap;
  declined = p.declined;
  coverage = if all_days then codes "all" else codes "non-green";
  error = p.error;
}

-- `candidates[-max_days:] if max_days > 0 else candidates`
unfoldable pub last_days : ℕ → List Day → List Day
last_days max_days days = if ltb 0 max_days then drop (length days - max_days) days else days

-- What a run leaves: the notes, the status file, and the exit status.
pub record Finished : Type 0 where
  pub notes : Notes
  pub status : Status
  pub exit : ℕ

abbrev pub started : Notes → Progress
started notes = record { notes = notes; written = []; declined = []; error = none }

unfoldable pub finished : Bool → ℕ → Progress → Finished
unfolding write_status
finished all_days over_cap p = record {
  notes = p.notes;
  status = write_status all_days over_cap p;
  exit = if is_none p.error then 0 else 1;
}

-- The candidates of a run, in their order; with none the source writes a status with no day deferred.
unfoldable pub run_on : Service → Scope → ℕ → Notes → List Day → Finished
unfolding annotate_loop finished
run_on service s over_cap notes candidates =
    if is_empty candidates
    then finished s.all_days 0 (started notes)
    else finished s.all_days over_cap (annotate_loop service s.current candidates (started notes))

-- `main` where it asks the service: no dry run, no bundles, and a client that is made.
unfoldable pub annotate : Service → Scope → ℕ → List Day → Notes → Finished
unfolding run_on last_days
annotate service s max_days days notes =
    let pruned = prune_stale_notes false s.all_days days notes in
    let selected = select_days s pruned days in
    run_on service s (length selected - max_days) pruned (last_days max_days selected)

-- `import_notes`: the manifest's days in order, the prose of each, and what was written and missed.
pub record Imported : Type 0 where
  pub notes : Notes
  pub written : List Text
  pub missing : List Text

unfoldable pub insert_entry : Text × Text → List (Text × Text) → List (Text × Text)
insert_entry x [] = x ∷ []
insert_entry (date, status) ((d, s) ∷ rest) =
    if text_lt d date
    then (d, s) ∷ insert_entry (date, status) rest
    else (date, status) ∷ (d, s) ∷ rest

unfoldable pub sort_entries : List (Text × Text) → List (Text × Text)
unfolding insert_entry
sort_entries [] = []
sort_entries (x ∷ rest) = insert_entry x (sort_entries rest)

-- `render_note(...).replace("source: model\n", "source: model\nwritten_by: session\n", 1)`
unfoldable pub session_note : Text → Text → Text → Text → Text → Text
unfolding note_from_model
session_note t model status stamp rubric = line_of (codes "---") [] (
    line_of (codes "source: model") []
      (line_of (codes "written_by: session") [] (note_from_model t model status stamp rubric)))

module _ (prose : Text → Option Text) (stamp : Text → Text) (model rubric : Text)
    (dry_run : Bool) where
  unfoldable pub import_text : Text → Text → Text → Imported → Imported
  import_text date status [] r = record r { missing = r.missing ++ date ∷ [] }
  import_text date status (c ∷ t) r = record r {
    notes =
        if dry_run
        then r.notes
        else put Text_discrete date (session_note (c ∷ t) model status (stamp date) rubric) r.notes;
    written = r.written ++ date ∷ [];
  }

  unfoldable pub import_day : Text → Text → Option Text → Imported → Imported
  unfolding import_text
  import_day date status none r = record r { missing = r.missing ++ date ∷ [] }
  import_day date status (some t) r = import_text date status (strip t) r

  unfoldable pub import_loop : List (Text × Text) → Imported → Imported
  unfolding import_day
  import_loop [] r = r
  import_loop ((date, status) ∷ manifest) r =
      import_loop manifest (import_day date status (prose date) r)

  unfoldable pub import_notes : List (Text × Text) → Notes → Imported
  unfolding import_loop sort_entries
  import_notes manifest notes =
      import_loop (sort_entries manifest) (record { notes = notes; written = []; missing = [] })
