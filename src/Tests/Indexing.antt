-- ===== src/Tests/Indexing.antt =====
-- The index of the nameservers' logs at a host with a current log and a rotated one that share a day.
use honeycow.Prelude.{
  ◌≡◌, refl, Bool, true, false, none, some, List, [], ◌∷◌, Text, codes, take, Text_discrete,
  ℕ_discrete, same_text, has_part, starts_with, text_lt,
}
use honeycow.IngestNs
use honeycow.IngestNs.{Row, LogFile, Patterns, Stamp, Body, read_rows}
use honeycow.IngestNs.Store
use honeycow.IngestNs.Store.{Db, FileRow}
use honeycow.IngestNs.Host
use honeycow.IngestNs.Host.{Report, replaced, no_changes, fresh_files, days_written, ingest_host}
use honeycow.IngestNs.Numbers.{number}
use honeycow.IngestNs.Copies.{Distinct}
use honeycow.IngestNs.Whole.{IsTruthful, counted, ingest_host-number}
use honeycow.IngestNs.Truth.{ingest_host-IsTruthful}
use honeycow.IngestNs.Again.{ingest_host-again}

-- A line starts with its day of the month, and every query is for one name.
abbrev re : Patterns
re = record {
  file_ts = λ line. none;
  syslog_ts = λ line. some (record {
    y = codes "2026";
    mon = codes "09";
    d = take 2 line;
    hms = codes "00:00:00";
    frac = codes "539";
  });
  body = λ line. some (record {
    src = codes "192.0.2.7";
    asked = codes "A.";
    qname = codes "A.";
    qclass = codes "IN";
    qtype = codes "A";
    flags = none;
  });
  pdns_body = λ line. none;
}

abbrev current : LogFile
current = record {
  name = codes "queries.log";
  fingerprint = codes "20:2";
  lines = codes "24 query: " ∷ codes "25 query: " ∷ [];
}

abbrev rotated : LogFile
rotated = record {
  name = codes "queries.log.0";
  fingerprint = codes "30:1";
  lines = codes "23 query: " ∷ codes "24 query: " ∷ codes "noise" ∷ [];
}

abbrev paths : List LogFile
paths = current ∷ rotated ∷ []

abbrev ns1 : Text
ns1 = codes "ns1"

-- The rotated file is on record; the table lacks its row of the shared day.
abbrev con : Db
con = record {
  ns_queries = [];
  ns_files =
      record {
        host = ns1;
        name = codes "queries.log.0";
        fingerprint = codes "30:1";
        min_day = some (codes "2026-09-23");
        max_day = some (codes "2026-09-24");
      }
      ∷ [];
}

abbrev stored : Row → Row
stored r = r

abbrev everything : Row → Bool
everything r = true

paths-Distinct : Distinct paths
unfolding same_text Text_discrete ℕ_discrete
paths-Distinct = ((refl, tt), (tt, tt))

paths-IsTruthful : IsTruthful re con ns1 false paths
unfolding same_text Text_discrete ℕ_discrete text_lt has_part starts_with Store.seen Store.fetch
    Store.is_row_of Store.stored_span Store.row_span IngestNs.read_rows IngestNs.read_lines
    IngestNs.add_line IngestNs.parse_line IngestNs.parse_body IngestNs.is_query_line
    IngestNs.iso_day IngestNs.bind_query Host.within
paths-IsTruthful = (λ e. cc e, (λ e. (refl, (refl, tt)), tt))

ingest_host_test : (ingest_host re stored con ns1 false paths).1 ≡ replaced 3 0 1 2 1
unfolding same_text Text_discrete ℕ_discrete text_lt has_part starts_with Store.seen Store.fetch
    Store.is_row_of Store.stored_span Store.row_span IngestNs.read_rows IngestNs.read_lines
    IngestNs.add_line IngestNs.parse_line IngestNs.parse_body IngestNs.is_query_line
    IngestNs.iso_day IngestNs.bind_query Host.within Host.ingest_host Host.ingest_fresh
    Host.both_passes Host.first_pass Host.copy_neighbours Host.copy_rows Host.fresh_files Host.is_in
    Host.is_near Host.is_wanted Host.unparsed_lines Store.in_days
ingest_host_test = refl

ingest_host-number_example :
    number
      (counted ns1 (codes "2026-09-24") everything)
      (ingest_host re stored con ns1 false paths).0.ns_queries
    ≡ 2
unfolding same_text Text_discrete ℕ_discrete text_lt has_part starts_with Store.seen Store.fetch
    Store.is_row_of IngestNs.read_rows IngestNs.read_lines IngestNs.add_line IngestNs.parse_line
    IngestNs.parse_body IngestNs.is_query_line IngestNs.iso_day IngestNs.bind_query Host.first_pass
    Host.copy_rows Host.fresh_files Host.is_wanted Store.in_days
ingest_host-number_example =
    ingest_host-number re stored (λ r. refl) ns1 (codes "2026-09-24") everything con false paths
      paths-Distinct paths-IsTruthful

ingest_host-IsTruthful_example :
    IsTruthful re (ingest_host re stored con ns1 false paths).0 ns1 false paths
ingest_host-IsTruthful_example =
    ingest_host-IsTruthful re stored ns1 con false paths paths-Distinct paths-IsTruthful

ingest_host-again_example :
    ingest_host re stored (ingest_host re stored con ns1 false paths).0 ns1 false paths
    ≡ ((ingest_host re stored con ns1 false paths).0, no_changes)
ingest_host-again_example =
    ingest_host-again re stored ns1 con false paths 3 0 1 2 1 paths-Distinct ingest_host_test
