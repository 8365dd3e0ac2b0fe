-- ===== src/Ingest/Again.antt =====
-- A log that has grown since it was indexed: a second run of `ingest_events` of tools/ingest.py.
use honeycow.Prelude.{
  ◌-◌, ◌≡◌, refl, sym, ap, ◌∙◌, false, Option, List, [], ◌∷◌, ◌++◌, Text, length,
}
use honeycow.Ingest.{Python, DnsRow, HttpRow}
use honeycow.Ingest.Tables.{
  insert_rows, Tables, Ingested, Made, dns_made, http_made, nothing_made, dns_hash, http_hash,
}
use honeycow.Ingest.Events.{read_line, ingest_lines}
use honeycow.Ingest.Insert.{insert_rows-append, insert_rows_again}
use honeycow.Ingest.Batches.{dns_of, http_of, dns_of_made, http_of_made, ingest_lines-whole}

-- Rows that are inserted again, with more behind them.
insert_rows-grown :
    {Row : Type 0} (h : Row → Text) (rows more table : List Row)
    → insert_rows h (rows ++ more) (insert_rows h rows table)
      ≡ insert_rows h more (insert_rows h rows table)
insert_rows-grown h rows more table =
    insert_rows-append h rows more (insert_rows h rows table)
    ∙ ap (insert_rows h more) (insert_rows_again h rows table)

module _ {Real : Type 0} where
  dns_of_made-append :
      (m : Made Real) (xs ys : List (DnsRow Real))
      → dns_of_made m (xs ++ ys) ≡ dns_of_made m xs ++ ys
  dns_of_made-append (dns_made row) xs ys = refl
  dns_of_made-append (http_made row) xs ys = refl
  dns_of_made-append nothing_made xs ys = refl

  http_of_made-append :
      (m : Made Real) (xs ys : List (HttpRow Real))
      → http_of_made m (xs ++ ys) ≡ http_of_made m xs ++ ys
  http_of_made-append (dns_made row) xs ys = refl
  http_of_made-append (http_made row) xs ys = refl
  http_of_made-append nothing_made xs ys = refl

  -- What inserting the rows in one go leaves and counts.
  abbrev whole : List (DnsRow Real) → List (HttpRow Real) → Tables Real → Ingested Real
  whole ds hs con =
      let dns = insert_rows dns_hash ds con.dns in
      let http = insert_rows http_hash hs con.http in
      record {
        counts = record {
          dns_seen = length ds;
          dns_new = length dns - length con.dns;
          http_seen = length hs;
          http_new = length http - length con.http;
        };
        con = record { dns = dns; http = http };
      }

module _ {Real : Type 0} (py : Python Real) (since : Option Real) where
  dns_of-append :
      (lines more : List Text)
      → dns_of py since (lines ++ more) ≡ dns_of py since lines ++ dns_of py since more
  dns_of-append [] more = refl
  dns_of-append (line ∷ lines) more =
      ap (dns_of_made (read_line py since line)) (dns_of-append lines more)
      ∙ dns_of_made-append (read_line py since line) (dns_of py since lines) (dns_of py since more)

  http_of-append :
      (lines more : List Text)
      → http_of py since (lines ++ more) ≡ http_of py since lines ++ http_of py since more
  http_of-append [] more = refl
  http_of-append (line ∷ lines) more =
      ap (http_of_made (read_line py since line)) (http_of-append lines more)
      ∙ http_of_made-append (read_line py since line) (http_of py since lines)
          (http_of py since more)

  whole-append :
      (con : Tables Real) (lines more : List Text)
      → ingest_lines py since false con (lines ++ more)
        ≡ whole
            (dns_of py since lines ++ dns_of py since more)
            (http_of py since lines ++ http_of py since more)
            con
  whole-append con lines more =
      ingest_lines-whole py since con (lines ++ more)
      ∙ (λ i. whole (dns_of-append lines more i) (http_of-append lines more i) con)

  -- A log is indexed, and again when lines were added to it. The second run inserts as many rows as one
  -- over the added lines alone, so none if there are none, and leaves the same tables; these are also
  -- the tables of a single run over the whole log.
  pub ingest_lines-again :
      (con : Tables Real) (lines more : List Text)
      → (let first = (ingest_lines py since false con lines).con in
          let again = ingest_lines py since false first (lines ++ more) in
          let added = ingest_lines py since false first more in
          (again.con ≡ added.con)
          × (again.con ≡ (ingest_lines py since false con (lines ++ more)).con)
          × (again.counts.dns_new ≡ added.counts.dns_new)
          × (again.counts.http_new ≡ added.counts.http_new))
  ingest_lines-again con lines more =
      let ds = dns_of py since lines in
      let hs = http_of py since lines in
      let ds' = dns_of py since more in
      let hs' = http_of py since more in
      let mid : Tables Real = (whole ds hs con).con in
      let grown_dns = insert_rows-grown dns_hash ds ds' con.dns in
      let grown_http = insert_rows-grown http_hash hs hs' con.http in
      rw (ap (λ (r : Ingested Real). r.con) (ingest_lines-whole py since con lines)) (
        rw (whole-append mid lines more) (
          rw (whole-append con lines more) (
            rw (ingest_lines-whole py since mid more) (
              λ i. record { dns = grown_dns i; http = grown_http i },
              λ i. record {
                dns = (grown_dns ∙ sym (insert_rows-append dns_hash ds ds' con.dns)) i;
                http = (grown_http ∙ sym (insert_rows-append http_hash hs hs' con.http)) i;
              },
              ap (λ t. length t - length mid.dns) grown_dns,
              ap (λ t. length t - length mid.http) grown_http,
            ))))
