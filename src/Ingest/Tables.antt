-- ===== src/Ingest/Tables.antt =====
-- `_insert` and the batches of `ingest_events` of tools/ingest.py.
--
-- A table is the list of its rows, the oldest first; one that is not created yet has none. A set of
-- row hashes is the list of its members. Creating the schema, commits and log text are left out.
use honeycow.Prelude.{
  ℕ, ◌+◌, ◌-◌, Bool, false, Option, none, some, List, [], ◌∷◌, ◌++◌, map, Text, codes, length, any,
  is_empty, leb, same_text, if◌then◌else◌,
}
use honeycow.Ingest.{DnsRow, HttpRow}

-- `h in s`
abbrev pub is_in : List Text → Text → Bool
is_in s h = any s (same_text h)

module _ {Row : Type 0} (rowhash : Row → Text) where
  -- `INSERT OR IGNORE` on a table whose primary key is `rowhash`
  unfoldable pub insert_row : Row → List Row → List Row
  insert_row row table =
      if is_in (map rowhash table) (rowhash row) then table else table ++ row ∷ []

  unfoldable pub insert_rows : List Row → List Row → List Row
  unfolding insert_row
  insert_rows [] table = table
  insert_rows (row ∷ rows) table = insert_rows rows (insert_row row table)

pub record Tables (Real : Type 0) : Type 0 where
  pub dns : List (DnsRow Real)
  pub http : List (HttpRow Real)

pub record Counts : Type 0 where
  pub dns_seen : ℕ
  pub dns_new : ℕ
  pub http_seen : ℕ
  pub http_new : ℕ

-- The variables of `ingest_events`, with the connection.
pub record Pass (Real : Type 0) : Type 0 where
  pub con : Tables Real
  pub counts : Counts
  pub existing_dns : List Text
  pub existing_http : List Text
  pub dns_rows : List (DnsRow Real)
  pub http_rows : List (HttpRow Real)

-- What a run returns, and the tables that it leaves.
pub record Ingested (Real : Type 0) : Type 0 where
  pub counts : Counts
  pub con : Tables Real

-- The row that a line makes.
pub data Made (Real : Type 0) : Type 0 where
  dns_made : DnsRow Real → Made Real
  http_made : HttpRow Real → Made Real
  nothing_made : Made Real

abbrev pub is_event : Option Text → Text → Bool
is_event none name = false
is_event (some event) name = same_text event name

unfoldable pub is_dns_event : Option Text → Bool
is_dns_event none = false
is_dns_event (some event) = is_in (codes "query" ∷ codes "query_drop" ∷ []) event

-- `len(dns_rows) >= 5000`, and then `flush()`
unfoldable pub batch_size : ℕ
batch_size = 5000

module _ {Real : Type 0} where
  abbrev pub dns_hash : DnsRow Real → Text
  dns_hash row = row.rowhash

  abbrev pub http_hash : HttpRow Real → Text
  http_hash row = row.rowhash

  -- `_insert` on either table, by how much its rows grow in number.
  unfoldable pub flush_dns : Pass Real → Pass Real
  unfolding insert_rows
  flush_dns p =
      if is_empty p.dns_rows
      then p
      else let table = insert_rows dns_hash p.dns_rows p.con.dns in
        record p {
          con = record p.con { dns = table };
          counts = record p.counts {
            dns_new = p.counts.dns_new + (length table - length p.con.dns);
          };
          dns_rows = [];
        }

  unfoldable pub flush_http : Pass Real → Pass Real
  unfolding insert_rows
  flush_http p =
      if is_empty p.http_rows
      then p
      else let table = insert_rows http_hash p.http_rows p.con.http in
        record p {
          con = record p.con { http = table };
          counts = record p.counts {
            http_new = p.counts.http_new + (length table - length p.con.http);
          };
          http_rows = [];
        }

  unfoldable pub flush : Bool → Pass Real → Pass Real
  unfolding flush_dns flush_http
  flush dry_run p = if dry_run then p else flush_http (flush_dns p)

  unfoldable pub flush_if_full : {Row : Type 0} → List Row → Pass Real → Pass Real
  unfolding batch_size flush
  flush_if_full rows p = if leb batch_size (length rows) then flush false p else p
