-- ===== src/IngestNs/Host.antt =====
-- `_copy_rows` and `main` of tools/ingest_ns.py.
--
-- `stored` is a row as DuckDB's `read_csv` reads back the line that `csv.writer` wrote for it. The
-- numbers of rows, lines and files that are printed are in the result; the other output, the clean-up
-- of the scratch file and a failing database are left out.
use honeycow.Prelude.{
  ℕ, ◌+◌, ◌-◌, Bool, true, not, ◌&&◌, ◌||◌, Option, none, some, List, [], ◌∷◌, ◌++◌, map, Text,
  codes, any, concat, keep_if, length, is_empty, if◌then◌else◌, same_text, text_lt, starts_with,
}
use honeycow.IngestNs.{Row, LogFile, Patterns, read_rows}
use honeycow.IngestNs.Store.{
  Db, FileRow, Span, seen, remember, stored_span, in_days, day_of, delete_days,
}

-- The listing of one host's directory.
unfoldable pub is_log_name : Text → Bool
is_log_name name =
    starts_with (codes "queries.log") name
    || starts_with (codes "named.log.") name
    || starts_with (codes "pdns-queries.") name

unfoldable pub insert_file : LogFile → List LogFile → List LogFile
insert_file p [] = p ∷ []
insert_file p (q ∷ rest) = if text_lt q.name p.name then q ∷ insert_file p rest else p ∷ q ∷ rest

unfoldable pub sort_files : List LogFile → List LogFile
unfolding insert_file
sort_files [] = []
sort_files (p ∷ rest) = insert_file p (sort_files rest)

unfoldable pub log_files : Option (List LogFile) → List LogFile
log_files none = []
log_files (some entries) = sort_files (keep_if (λ p. is_log_name p.name) entries)

-- `lo` and `hi`, which are none together.
unfoldable pub widen : Option Span → Text → Option Span
widen none day = some (day, day)
widen (some (lo, hi)) day =
    some ((if text_lt day lo then day else lo), (if text_lt hi day then day else hi))

unfoldable pub span_loop : Option Span → List Row → Option Span
unfolding widen
span_loop span [] = span
span_loop span (r ∷ rows) = span_loop (widen span (day_of r)) rows

-- `(lo, hi) if lo else None`
unfoldable pub if_lo : Option Span → Option Span
if_lo none = none
if_lo (some (lo, hi)) = if is_empty lo then none else some (lo, hi)

pub record Copied : Type 0 where
  pub path : LogFile
  pub span : Option Span
  pub rows : List Row
  pub unparsed : ℕ

-- `only is None or day in only`
unfoldable pub is_wanted : Option (List Text) → Row → Bool
is_wanted none r = true
is_wanted (some only) r = in_days only (day_of r)

-- `s is None or any(s[0] <= d <= s[1] for d in days)`
unfoldable pub within : Span → Text → Bool
within (lo, hi) d = not (text_lt d lo) && not (text_lt hi d)

unfoldable pub is_near : Option Span → List Text → Bool
is_near none days = true
is_near (some s) days = any days (within s)

-- `q in spans`: the paths of one directory differ in their names.
unfoldable pub is_in : LogFile → List LogFile → Bool
is_in q spans = any spans (λ x. same_text q.name x.name)

abbrev pub staged_rows : List Copied → List Row
staged_rows copies = concat (map (λ c. c.rows) copies)

-- What one host comes to: no log, no changed file, no query in the input, or the numbers of the
-- report: rows, lines unparsed, changed files, files, neighbours.
pub data Report : Type 0 where
  no_logs no_changes no_rows : Report
  replaced : ℕ → ℕ → ℕ → ℕ → ℕ → Report

unfoldable pub unparsed_lines : List Copied → ℕ
unparsed_lines [] = 0
unparsed_lines (c ∷ copies) = c.unparsed + unparsed_lines copies

unfoldable pub remember_all : Text → List Copied → List FileRow → List FileRow
remember_all host [] files = files
remember_all host (c ∷ copies) files = remember_all host copies (remember host c.path c.span files)

unfoldable pub fresh_files : Db → Text → Bool → List LogFile → List LogFile
fresh_files con host force = keep_if (λ q. not (seen con host q force))

module _ (re : Patterns) where
  unfoldable pub copy_rows : Text → Option (List Text) → LogFile → Copied
  unfolding is_wanted if_lo
  copy_rows host only path =
      let read = read_rows re host path in
      record {
        path = path;
        span = if_lo (span_loop none (read.0));
        rows = keep_if (is_wanted only) (read.0);
        unparsed = read.1;
      }

  unfoldable pub copy_neighbours : Db → Text → List Text → List LogFile → List LogFile → List Copied
  unfolding copy_rows is_in is_near
  copy_neighbours con host days spans [] = []
  copy_neighbours con host days spans (q ∷ paths) =
      let skip = copy_neighbours con host days spans paths in
      let more = copy_neighbours con host days (q ∷ spans) paths in
      if is_in q spans
      then skip
      else if is_near (stored_span con host q) days
      then copy_rows host (some days) q ∷ more
      else skip

  unfoldable pub first_pass : Text → List LogFile → List Copied
  unfolding copy_rows
  first_pass host = map (copy_rows host none)

  abbrev pub days_written : Text → List LogFile → List Text
  days_written host fresh = map day_of (staged_rows (first_pass host fresh))

  unfoldable pub both_passes : Db → Text → List LogFile → List LogFile → List Copied
  unfolding first_pass copy_neighbours
  both_passes con host fresh paths =
      first_pass host fresh ++ copy_neighbours con host (days_written host fresh) fresh paths

-- The transaction.
unfoldable pub replace_days : (Row → Row) → Db → Text → List Copied → Db
unfolding delete_days remember_all
replace_days stored con host copies =
    let staging = map stored (staged_rows copies) in
    record {
      ns_queries = delete_days host staging con.ns_queries ++ staging;
      ns_files = remember_all host copies con.ns_files;
    }

module _ (re : Patterns) (stored : Row → Row) where
  unfoldable pub ingest_fresh : Db → Text → List LogFile → List LogFile → Db × Report
  unfolding both_passes replace_days
  ingest_fresh con host fresh paths =
      let copies = both_passes re con host fresh paths in
      if is_empty (map stored (staged_rows copies)) then (con, no_rows) else (
        replace_days stored con host copies,
        replaced (length (staged_rows copies)) (unparsed_lines copies) (length fresh) (length paths)
            (length copies - length fresh),
      )

  -- One round of the loop over the hosts.
  unfoldable pub ingest_host : Db → Text → Bool → List LogFile → Db × Report
  unfolding ingest_fresh fresh_files
  ingest_host con host force paths =
      let fresh = fresh_files con host force paths in
      if is_empty paths
      then (con, no_logs)
      else if is_empty fresh
      then (con, no_changes)
      else ingest_fresh con host fresh paths

  -- The loop over the hosts, each with the listing of its directory.
  unfoldable pub ingest_loop : Db → Bool → List (Text × Option (List LogFile)) → Db × List Report
  unfolding ingest_host log_files
  ingest_loop con force [] = (con, [])
  ingest_loop con force ((host, entries) ∷ hosts) =
      let r = ingest_host con host force (log_files entries) in
      let rest = ingest_loop (r.0) force hosts in (rest.0, r.1 ∷ rest.1)

  -- `main` with the database at hand; `rebuild` drops both tables.
  unfoldable pub ingest : Db → Bool → Bool → List (Text × Option (List LogFile)) → Db × List Report
  unfolding ingest_loop
  ingest con rebuild force =
      ingest_loop (if rebuild then record { ns_queries = []; ns_files = [] } else con) force
