-- ===== src/Ingest/Preview.antt =====
-- What a dry run of `ingest_events` of tools/ingest.py promises, and what a second run inserts.
use honeycow.Prelude.{
  ℕ, suc, ◌+◌, ◌-◌, ◌≡◌, refl, sym, ap, ◌∙◌, true, false, Option, none, some, List, [], ◌∷◌, ◌++◌,
  map, Text, length, length-append, Bool-cases, inl, inr, arith,
}
use honeycow.Ingest.{Python, DnsRow, HttpRow}
use honeycow.Ingest.Tables.{
  is_in, insert_row, insert_rows, Tables, Pass, Ingested, Made, dns_made, http_made, nothing_made,
  dns_hash, http_hash, flush,
}
use honeycow.Ingest.Events.{
  add, see_dns, see_http, preview_dns, preview_http, read_line, events_loop, first_pass,
  ingest_lines, ingest_events,
}
use honeycow.Ingest.Insert.{map_same, length-insert_rows, map-insert_rows}
use honeycow.Ingest.Batches.{
  dns_of, http_of, dns_of_made, http_of_made, zero_more, ingest_lines-whole,
}

-- A set of hashes with more of them.
abbrev joined : List Text → List Text → List Text
joined hs existing = insert_rows (λ h. h) hs existing

length-hashes :
    {Row : Type 0} (h : Row → Text) (rows : List Row) → length (map h rows) ≡ length rows
length-hashes h [] = refl
length-hashes h (row ∷ rows) = omega (arith, length-hashes h rows)

length-joined :
    {Row : Type 0} (h : Row → Text) (rows table : List Row)
    → length (joined (map h rows) (map h table)) ≡ length (insert_rows h rows table)
length-joined h rows table =
    ap length (sym (map-insert_rows h rows table)) ∙ length-hashes h (insert_rows h rows table)

known :
    (existing : List Text) (h : Text)
    → is_in existing h ≡ true
    → insert_row (λ k. k) h existing ≡ existing
unfolding insert_row
known existing h e = rw (map_same existing) (rw e refl)

unknown :
    (existing : List Text) (h : Text)
    → is_in existing h ≡ false
    → insert_row (λ k. k) h existing ≡ existing ++ h ∷ []
unfolding insert_row
unknown existing h e = rw (map_same existing) (rw e refl)

one_new :
    (n : ℕ) (hs existing : List Text) (h : Text)
    → n + 1 + (length (joined hs (existing ++ h ∷ [])) - length (existing ++ h ∷ []))
      ≡ n + (length (joined hs (existing ++ h ∷ [])) - length existing)
one_new n hs existing h =
    omega
      (arith, length-append existing (h ∷ []), length-insert_rows (λ k. k) hs (existing ++ h ∷ []))

one_more : (n m : ℕ) → n + 1 + m ≡ n + suc m
one_more n m = omega arith

nothing_seen : (n : ℕ) → n ≡ n + 0
nothing_seen n = omega arith

nothing_grown : (n : ℕ) (hs : List Text) → n ≡ n + (length hs - length hs)
nothing_grown n hs = omega arith

new_rows :
    {Row : Type 0} (h : Row → Text) (rows table : List Row)
    → 0 + (length (joined (map h rows) (map h table)) - length (map h table))
      ≡ length (insert_rows h rows table) - length table
new_rows h rows table = omega (arith, length-joined h rows table, length-hashes h table)

module _ {Real : Type 0} where
  -- A dry pass after more rows.
  abbrev previewed : List (DnsRow Real) → List (HttpRow Real) → Pass Real → Pass Real
  previewed ds hs p =
      let dns = joined (map dns_hash ds) p.existing_dns in
      let http = joined (map http_hash hs) p.existing_http in
      record p {
        counts = record {
          dns_seen = p.counts.dns_seen + length ds;
          dns_new = p.counts.dns_new + (length dns - length p.existing_dns);
          http_seen = p.counts.http_seen + length hs;
          http_new = p.counts.http_new + (length http - length p.existing_http);
        };
        existing_dns = dns;
        existing_http = http;
      }

  add-previewed :
      (m : Made Real) (ds : List (DnsRow Real)) (hs : List (HttpRow Real)) (p : Pass Real)
      → previewed ds hs (add true m p) ≡ previewed (dns_of_made m ds) (http_of_made m hs) p
  unfolding add see_dns see_http preview_dns preview_http
  add-previewed (dns_made row) ds hs p = elim (Bool-cases (is_in p.existing_dns row.rowhash)) [
    | inl e ↦ rw e (
        let k = known p.existing_dns row.rowhash e in
        λ i. record p {
          counts = record {
            dns_seen = one_more p.counts.dns_seen (length ds) i;
            dns_new =
                p.counts.dns_new
                + (length (joined (map dns_hash ds) (sym k i)) - length p.existing_dns);
            http_seen = p.counts.http_seen + length hs;
            http_new =
                p.counts.http_new
                + (length (joined (map http_hash hs) p.existing_http) - length p.existing_http);
          };
          existing_dns = joined (map dns_hash ds) (sym k i);
          existing_http = joined (map http_hash hs) p.existing_http;
        })
    | inr e ↦ rw e (
        let k = unknown p.existing_dns row.rowhash e in
        (λ i. record p {
          counts = record {
            dns_seen = one_more p.counts.dns_seen (length ds) i;
            dns_new = one_new p.counts.dns_new (map dns_hash ds) p.existing_dns row.rowhash i;
            http_seen = p.counts.http_seen + length hs;
            http_new =
                p.counts.http_new
                + (length (joined (map http_hash hs) p.existing_http) - length p.existing_http);
          };
          existing_dns = joined (map dns_hash ds) (p.existing_dns ++ row.rowhash ∷ []);
          existing_http = joined (map http_hash hs) p.existing_http;
        })
        ∙ (λ i. record p {
          counts = record {
            dns_seen = p.counts.dns_seen + suc (length ds);
            dns_new =
                p.counts.dns_new
                + (length (joined (map dns_hash ds) (sym k i)) - length p.existing_dns);
            http_seen = p.counts.http_seen + length hs;
            http_new =
                p.counts.http_new
                + (length (joined (map http_hash hs) p.existing_http) - length p.existing_http);
          };
          existing_dns = joined (map dns_hash ds) (sym k i);
          existing_http = joined (map http_hash hs) p.existing_http;
        }))
  ]
  add-previewed (http_made row) ds hs p = elim (Bool-cases (is_in p.existing_http row.rowhash)) [
    | inl e ↦ rw e (
        let k = known p.existing_http row.rowhash e in
        λ i. record p {
          counts = record {
            http_seen = one_more p.counts.http_seen (length hs) i;
            http_new =
                p.counts.http_new
                + (length (joined (map http_hash hs) (sym k i)) - length p.existing_http);
            dns_seen = p.counts.dns_seen + length ds;
            dns_new =
                p.counts.dns_new
                + (length (joined (map dns_hash ds) p.existing_dns) - length p.existing_dns);
          };
          existing_http = joined (map http_hash hs) (sym k i);
          existing_dns = joined (map dns_hash ds) p.existing_dns;
        })
    | inr e ↦ rw e (
        let k = unknown p.existing_http row.rowhash e in
        (λ i. record p {
          counts = record {
            http_seen = one_more p.counts.http_seen (length hs) i;
            http_new = one_new p.counts.http_new (map http_hash hs) p.existing_http row.rowhash i;
            dns_seen = p.counts.dns_seen + length ds;
            dns_new =
                p.counts.dns_new
                + (length (joined (map dns_hash ds) p.existing_dns) - length p.existing_dns);
          };
          existing_http = joined (map http_hash hs) (p.existing_http ++ row.rowhash ∷ []);
          existing_dns = joined (map dns_hash ds) p.existing_dns;
        })
        ∙ (λ i. record p {
          counts = record {
            http_seen = p.counts.http_seen + suc (length hs);
            http_new =
                p.counts.http_new
                + (length (joined (map http_hash hs) (sym k i)) - length p.existing_http);
            dns_seen = p.counts.dns_seen + length ds;
            dns_new =
                p.counts.dns_new
                + (length (joined (map dns_hash ds) p.existing_dns) - length p.existing_dns);
          };
          existing_http = joined (map http_hash hs) (sym k i);
          existing_dns = joined (map dns_hash ds) p.existing_dns;
        }))
  ]
  add-previewed nothing_made ds hs p = refl

  nothing_previewed : (p : Pass Real) → p ≡ previewed [] [] p
  unfolding insert_rows
  nothing_previewed p = λ i. record p {
    counts = record {
      dns_seen = nothing_seen p.counts.dns_seen i;
      dns_new = nothing_grown p.counts.dns_new p.existing_dns i;
      http_seen = nothing_seen p.counts.http_seen i;
      http_new = nothing_grown p.counts.http_new p.existing_http i;
    };
  }

module _ {Real : Type 0} (py : Python Real) (since : Option Real) where
  events_loop-previewed :
      (lines : List Text) (p : Pass Real)
      → events_loop py since true lines p
        ≡ previewed (dns_of py since lines) (http_of py since lines) p
  unfolding events_loop
  events_loop-previewed [] p = nothing_previewed p
  events_loop-previewed (line ∷ lines) p =
      events_loop-previewed lines (add true (read_line py since line) p)
      ∙ add-previewed (read_line py since line) (dns_of py since lines) (http_of py since lines) p

  ingest_lines-previewed :
      (con : Tables Real) (lines : List Text)
      → ingest_lines py since true con lines
        ≡ record { counts = (ingest_lines py since false con lines).counts; con = con }
  unfolding ingest_lines first_pass flush
  ingest_lines-previewed con lines =
      let ds = dns_of py since lines in
      let hs = http_of py since lines in
      let end : Pass Real → Ingested Real = λ p. record { counts = p.counts; con = p.con } in
      ap end (events_loop-previewed lines (first_pass true con))
      ∙ (λ i. record {
        counts = record {
          dns_seen = zero_more (length ds) i;
          dns_new = new_rows dns_hash ds con.dns i;
          http_seen = zero_more (length hs) i;
          http_new = new_rows http_hash hs con.http i;
        };
        con = con;
      })
      ∙ ap (λ (r : Ingested Real). record { counts = r.counts; con = con })
          (sym (ingest_lines-whole py since con lines))

  -- A dry run reports the counts that a run which is not dry reports, though that one inserts in
  -- batches, and it leaves the tables as they are.
  pub ingest_events-dry_run :
      (con : Tables Real) (file : Option (List Text))
      → ((ingest_events py since true con file).counts
          ≡ (ingest_events py since false con file).counts)
        × ((ingest_events py since true con file).con ≡ con)
  unfolding ingest_events
  ingest_events-dry_run con none = (refl, refl)
  ingest_events-dry_run con (some lines) = (
    ap (λ (r : Ingested Real). r.counts) (ingest_lines-previewed con lines),
    ap (λ (r : Ingested Real). r.con) (ingest_lines-previewed con lines),
  )
