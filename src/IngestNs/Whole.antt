-- ===== src/IngestNs/Whole.antt =====
-- The rows of a day in the table after a run of tools/ingest_ns.py over one host.
use honeycow.Prelude.{
  ◌+◌, Bool, true, false, not, ◌&&◌, List, [], ◌∷◌, ◌++◌, map, Text, is_empty, Bool-cases, inl, inr,
  All, ◌≡◌, refl, ap, same_text, same_text_iff, if◌then◌else◌, arith,
}
use honeycow.IngestNs.{Row, LogFile, Patterns}
use honeycow.IngestNs.Store.{Db, seen, stored_span, in_days, day_of, delete_days}
use honeycow.IngestNs.Host.{
  Copied, copy_neighbours, first_pass, both_passes, days_written, staged_rows, fresh_files,
  replace_days, ingest_fresh, ingest_host,
}
use honeycow.IngestNs.Numbers.{number, number-append, number-keep_if, number-drop_if, number-map}
use honeycow.IngestNs.Days.{in_days-both_passes, in_days-not_empty}
use honeycow.IngestNs.Copies.{
  Distinct, Covers, staged_rows-append, is_in-keep_if, all_rows, rows_of, number-first_pass,
  number-copy_neighbours,
}

-- The spans that are recorded for the unchanged files of a host hold the days of their rows.
abbrev pub IsTruthful : Patterns → Db → Text → Bool → List LogFile → Type 0
IsTruthful re con host force paths =
    All
      (λ q.
        not (seen con host q force) ≡ false → Covers (stored_span con host q) (rows_of re host q))
      paths

-- A row of one host and one day that passes a test.
abbrev pub counted : Text → Text → (Row → Bool) → Row → Bool
counted host d p r = same_text r.host host && same_text (day_of r) d && p r

counted-day : (host d : Text) (p : Row → Bool) (r : Row) → counted host d p r ≡ true → day_of r ≡ d
counted-day host d p r h = (same_text_iff (day_of r) d).0 (ground (arith, h))

number-staged :
    (p : Row → Bool) (xs ys : List Copied)
    → number p (staged_rows (xs ++ ys)) ≡ number p (staged_rows xs) + number p (staged_rows ys)
number-staged p xs ys =
    cc (ap (number p) (staged_rows-append xs ys), number-append p (staged_rows xs) (staged_rows ys))

module _ (re : Patterns) where
  module _ (host d : Text) (p : Row → Bool) (on_day : (r : Row) → p r ≡ true → day_of r ≡ d) where
    -- The two passes write the rows of a day that the first pass saw as often as the files hold them.
    pub number-both_passes :
        (con : Db) (force : Bool) (paths : List LogFile)
        → Distinct paths
        → IsTruthful re con host force paths
        → in_days (days_written re host (fresh_files con host force paths)) d ≡ true
        → number p (staged_rows (both_passes re con host (fresh_files con host force paths) paths))
          ≡ number p (all_rows re host paths)
    unfolding both_passes fresh_files
    number-both_passes con force paths u t h =
        let fresh = fresh_files con host force paths in
        let days = days_written re host fresh in
        omega (
          arith,
          number-staged p (first_pass re host fresh) (copy_neighbours re con host days fresh paths),
          number-first_pass re host p d on_day fresh,
          number-copy_neighbours re host p d on_day con days (λ q. not (seen con host q force)) h
              fresh paths u (is_in-keep_if (λ q. not (seen con host q force)) paths u) t,
        )

number-off_days :
    (host d : Text) (p : Row → Bool) (rows : List Row)
    → in_days (map day_of rows) d ≡ false
    → number (counted host d p) rows ≡ 0
unfolding in_days
number-off_days host d p [] h = refl
number-off_days host d p (r ∷ rows) h =
    ground
      (arith, same_text_iff d (day_of r), same_text_iff (day_of r) d, number-off_days host d p rows)

replaced_day :
    (host d : Text) (p : Row → Bool) (days : List Text) (b : Bool)
    → in_days days d ≡ b
    → (r : Row) → counted host d p r ≡ true
    → not (same_text r.host host && in_days days (day_of r)) ≡ not b
replaced_day host d p days b h r e =
    let k : in_days days (day_of r) ≡ b = cc (h, ap (in_days days) (counted-day host d p r e)) in
    ground (arith, k, e)

module _ (stored : Row → Row) where
  -- The transaction, for the rows of a host and a day.
  module _ (host d : Text) (p : Row → Bool) where
    number-replaced :
        (con : Db) (copies : List Copied)
        → in_days (map day_of (map stored (staged_rows copies))) d ≡ true
        → number (counted host d p) (replace_days stored con host copies).ns_queries
          ≡ number (λ r. counted host d p (stored r)) (staged_rows copies)
    unfolding replace_days delete_days
    number-replaced con copies h =
        let staging = map stored (staged_rows copies) in
        omega (
          arith,
          number-append (counted host d p) (delete_days host staging con.ns_queries) staging,
          number-drop_if (counted host d p) _ (replaced_day host d p (map day_of staging) true h)
              con.ns_queries,
          number-map stored (counted host d p) (staged_rows copies),
        )

    number-kept :
        (con : Db) (copies : List Copied)
        → in_days (map day_of (map stored (staged_rows copies))) d ≡ false
        → number (counted host d p) (replace_days stored con host copies).ns_queries
          ≡ number (counted host d p) con.ns_queries
    unfolding replace_days delete_days
    number-kept con copies h =
        let staging = map stored (staged_rows copies) in
        omega (
          arith,
          number-append (counted host d p) (delete_days host staging con.ns_queries) staging,
          number-keep_if (counted host d p) _ (replaced_day host d p (map day_of staging) false h)
              con.ns_queries,
          number-off_days host d p staging h,
        )

staged-day :
    (stored : Row → Row)
    → ((r : Row) → day_of (stored r) ≡ day_of r)
    → (host d : Text) (p : Row → Bool) (r : Row) → counted host d p (stored r) ≡ true
    → day_of r ≡ d
staged-day stored keeps_day host d p r h = cc (keeps_day r, counted-day host d p (stored r) h)

in_days-no_files :
    (re : Patterns) (host d : Text) (fresh : List LogFile)
    → is_empty fresh ≡ true
    → in_days (days_written re host fresh) d ≡ false
unfolding in_days first_pass
in_days-no_files re host d [] e = refl
in_days-no_files re host d (q ∷ fresh) e = cc e

no_paths :
    (con : Db) (host : Text) (force : Bool) (paths : List LogFile)
    → is_empty paths ≡ true
    → is_empty (fresh_files con host force paths) ≡ true
unfolding fresh_files
no_paths con host force [] e = refl
no_paths con host force (q ∷ paths) e = cc e

module _ (re : Patterns) (stored : Row → Row) (keeps_day : (r : Row) → day_of (stored r) ≡ day_of r)
    (host d : Text) (p : Row → Bool) (con : Db) (force : Bool) (paths : List LogFile) where
  ingest_fresh-number :
      Distinct paths
      → IsTruthful re con host force paths
      → number
          (counted host d p)
          (ingest_fresh re stored con host (fresh_files con host force paths) paths).0.ns_queries
        ≡ (if in_days (days_written re host (fresh_files con host force paths)) d
            then number (counted host d p) (map stored (all_rows re host paths))
            else number (counted host d p) con.ns_queries)
  unfolding ingest_fresh
  ingest_fresh-number u t =
      let fresh = fresh_files con host force paths in
      let copies = both_passes re con host fresh paths in
      let staging = map stored (staged_rows copies) in
      let same = in_days-both_passes re stored keeps_day con host d fresh paths in
      elim (Bool-cases (in_days (days_written re host fresh) d)) [
        | inl e ↦
            (let k : in_days (map day_of staging) d ≡ true = cc (same, e) in
              ground (
                arith,
                e,
                in_days-not_empty staging d k,
                number-replaced stored host d p con copies k,
                number-both_passes re host d (λ r. counted host d p (stored r))
                    (staged-day stored keeps_day host d p) con force paths u t e,
                number-map stored (counted host d p) (all_rows re host paths),
              ))
        | inr e ↦
            (let k : in_days (map day_of staging) d ≡ false = cc (same, e) in
              ground (arith, e, number-kept stored host d p con copies k))
      ]

  -- For any host with files of different names and true recorded spans, any day and any test of rows:
  -- after the run the table has as many rows of that host and day that pass the test as the files
  -- hold, if a changed file has a row of that day, and otherwise as many as before the run. DuckDB
  -- keeps the day of a row.
  pub ingest_host-number :
      Distinct paths
      → IsTruthful re con host force paths
      → number (counted host d p) (ingest_host re stored con host force paths).0.ns_queries ≡ (
          if in_days (days_written re host (fresh_files con host force paths)) d
          then number (counted host d p) (map stored (all_rows re host paths))
          else number (counted host d p) con.ns_queries)
  unfolding ingest_host
  ingest_host-number u t =
      let fresh = fresh_files con host force paths in
      ground (
        arith,
        no_paths con host force paths,
        in_days-no_files re host d fresh,
        ingest_fresh-number u t,
      )
