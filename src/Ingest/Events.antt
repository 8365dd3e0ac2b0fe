-- ===== src/Ingest/Events.antt =====
-- `ingest_events` of tools/ingest.py: the loop over the lines of events.jsonl.
use honeycow.Prelude.{
  ◌+◌, Bool, true, false, Option, none, some, List, [], ◌∷◌, ◌++◌, map, Text, codes, is_empty,
  strip, if◌then◌else◌,
}
use honeycow.Ingest.{Entry, Python, DnsRow, HttpRow, dns_row, http_row, epoch}
use honeycow.Ingest.Tables.{
  is_in, Tables, Pass, Ingested, Made, dns_made, http_made, nothing_made, is_event, is_dns_event,
  dns_hash, http_hash, flush, flush_if_full,
}

module _ {Real : Type 0} where
  unfoldable pub preview_dns : DnsRow Real → Pass Real → Pass Real
  preview_dns row p = if is_in p.existing_dns row.rowhash then p else record p {
    existing_dns = p.existing_dns ++ row.rowhash ∷ [];
    counts = record p.counts { dns_new = p.counts.dns_new + 1 };
  }

  unfoldable pub queue_dns : DnsRow Real → Pass Real → Pass Real
  unfolding flush_if_full
  queue_dns row p =
      let rows = p.dns_rows ++ row ∷ [] in flush_if_full rows (record p { dns_rows = rows })

  unfoldable pub preview_http : HttpRow Real → Pass Real → Pass Real
  preview_http row p = if is_in p.existing_http row.rowhash then p else record p {
    existing_http = p.existing_http ++ row.rowhash ∷ [];
    counts = record p.counts { http_new = p.counts.http_new + 1 };
  }

  unfoldable pub queue_http : HttpRow Real → Pass Real → Pass Real
  unfolding flush_if_full
  queue_http row p =
      let rows = p.http_rows ++ row ∷ [] in flush_if_full rows (record p { http_rows = rows })

  -- The body of the loop behind the tests on a line.
  unfoldable pub see_dns : Pass Real → Pass Real
  see_dns p = record p { counts = record p.counts { dns_seen = p.counts.dns_seen + 1 } }

  unfoldable pub see_http : Pass Real → Pass Real
  see_http p = record p { counts = record p.counts { http_seen = p.counts.http_seen + 1 } }

  unfoldable pub add : Bool → Made Real → Pass Real → Pass Real
  unfolding see_dns see_http preview_dns queue_dns preview_http queue_http
  add dry_run (dns_made row) p =
      if dry_run then preview_dns row (see_dns p) else queue_dns row (see_dns p)
  add dry_run (http_made row) p =
      if dry_run then preview_http row (see_http p) else queue_http row (see_http p)
  add dry_run nothing_made p = p

  -- The pass at the loop's start; the hashes are read in a dry run only.
  unfoldable pub first_pass : Bool → Tables Real → Pass Real
  first_pass dry_run con = record {
    con = con;
    counts = record { dns_seen = 0; dns_new = 0; http_seen = 0; http_new = 0 };
    existing_dns = if dry_run then map dns_hash con.dns else [];
    existing_http = if dry_run then map http_hash con.http else [];
    dns_rows = [];
    http_rows = [];
  }

module _ {Real : Type 0} (py : Python Real) (since : Option Real) where
  -- Outside the window of `since`.
  unfoldable pub is_before : Option Real → Option Real → Bool
  is_before none ep = false
  is_before (some limit) none = true
  is_before (some limit) (some ep) = py.before ep limit

  unfoldable pub make_row : Entry Real → Text → Made Real
  unfolding is_before is_dns_event dns_row http_row epoch
  make_row e raw =
      if is_before since (epoch py e.event.ts)
      then nothing_made
      else if is_dns_event e.event.event
      then dns_made (dns_row py e raw)
      else if is_event e.event.event (codes "http_closer")
      then http_made (http_row py e raw)
      else nothing_made

  unfoldable pub if_loaded : Option (Entry Real) → Text → Made Real
  unfolding make_row
  if_loaded none raw = nothing_made
  if_loaded (some e) raw = make_row e raw

  unfoldable pub read_line : Text → Made Real
  unfolding if_loaded
  read_line line =
      let raw = strip line in if is_empty raw then nothing_made else if_loaded (py.loads raw) raw

  unfoldable pub events_loop : Bool → List Text → Pass Real → Pass Real
  unfolding read_line add
  events_loop dry_run [] p = p
  events_loop dry_run (line ∷ lines) p = events_loop dry_run lines (add dry_run (read_line line) p)

  unfoldable pub ingest_lines : Bool → Tables Real → List Text → Ingested Real
  unfolding events_loop first_pass flush
  ingest_lines dry_run con lines =
      let p = flush dry_run (events_loop dry_run lines (first_pass dry_run con)) in
      record { counts = p.counts; con = p.con }

  -- none is a file that does not exist.
  unfoldable pub ingest_events : Bool → Tables Real → Option (List Text) → Ingested Real
  unfolding ingest_lines
  ingest_events dry_run con none = record {
    counts = record { dns_seen = 0; dns_new = 0; http_seen = 0; http_new = 0 };
    con = con;
  }
  ingest_events dry_run con (some lines) = ingest_lines dry_run con lines
