-- ===== src/IngestNs/Store.antt =====
-- `seen`, `remember`, `stored_span` and the statements on `ns_queries` of tools/ingest_ns.py: the
-- two tables as lists of rows, and each SQL statement as the function of those lists that it names.
use honeycow.Prelude.{
  Bool, true, false, not, ◌&&◌, Option, none, some, List, [], ◌∷◌, ◌++◌, map, Text, any, keep_if,
  is_empty, if◌then◌else◌, same_text,
}
use honeycow.IngestNs.{Row, LogFile}

pub record FileRow : Type 0 where
  pub host : Text
  pub name : Text
  pub fingerprint : Text
  pub min_day : Option Text
  pub max_day : Option Text

pub record Db : Type 0 where
  pub ns_queries : List Row
  pub ns_files : List FileRow

abbrev pub Span : Type 0
Span = Text × Text

unfoldable pub is_row_of : Text → Text → FileRow → Bool
is_row_of host name f = same_text f.host host && same_text f.name name

-- `SELECT ... WHERE host = ? AND name = ?` and `fetchone()`
unfoldable pub fetch : Text → Text → List FileRow → Option FileRow
fetch host name [] = none
fetch host name (f ∷ files) = if is_row_of host name f then some f else fetch host name files

unfoldable pub seen : Db → Text → LogFile → Bool → Bool
seen con host path true = false
seen con host path false = elim (fetch host path.name con.ns_files) [
  | none ↦ false
  | some row ↦ same_text row.fingerprint path.fingerprint
]

-- `span or ("-", "-")`
unfoldable pub or_no_day : Option Span → Span
or_no_day none = (b'-' ∷ [], b'-' ∷ [])
or_no_day (some span) = span

unfoldable pub remember : Text → LogFile → Option Span → List FileRow → List FileRow
remember host path span files =
    keep_if (λ f. not (is_row_of host path.name f)) files
    ++ record {
      host = host;
      name = path.name;
      fingerprint = path.fingerprint;
      min_day = some ((or_no_day span).0);
      max_day = some ((or_no_day span).1);
    }
      ∷ []

-- `(row[0], row[1]) if row and row[0] else None`. `remember` writes both days or, as in a row from
-- before the columns, there is neither.
unfoldable pub row_span : Option Text → Option Text → Option Span
row_span none hi = none
row_span (some lo) none = none
row_span (some lo) (some hi) = if is_empty lo then none else some (lo, hi)

unfoldable pub stored_span : Db → Text → LogFile → Option Span
stored_span con host path = elim (fetch host path.name con.ns_files) [
  | none ↦ none
  | some row ↦ row_span row.min_day row.max_day
]

-- `day in days`
unfoldable pub in_days : List Text → Text → Bool
in_days days d = any days (same_text d)

abbrev pub day_of : Row → Text
day_of r = r.query.day

-- `DELETE FROM ns_queries WHERE host = ? AND day IN (SELECT DISTINCT day FROM staging)`
unfoldable pub delete_days : Text → List Row → List Row → List Row
delete_days host staging =
    keep_if (λ r. not (same_text r.host host && in_days (map day_of staging) (day_of r)))
