-- ===== src/Ingest/Batches.antt =====
-- What `ingest_events` of tools/ingest.py inserts in batches, as one list of rows.
use mathlib.Core.List.{append_assoc, append-nil}
use honeycow.Prelude.{
  ℕ, suc, ◌+◌, ◌-◌, ◌≡◌, refl, sym, ap, ◌∙◌, false, Option, List, [], ◌∷◌, ◌++◌, Text, length, leb,
  Bool-cases, inl, inr, arith,
}
use honeycow.Ingest.{Python, DnsRow, HttpRow}
use honeycow.Ingest.Tables.{
  insert_rows, Tables, Pass, Ingested, Made, dns_made, http_made, nothing_made, dns_hash, http_hash,
  flush, flush_dns, flush_http, flush_if_full, batch_size,
}
use honeycow.Ingest.Events.{
  add, see_dns, see_http, queue_dns, queue_http, read_line, events_loop, first_pass, ingest_lines,
}
use honeycow.Ingest.Insert.{insert_rows-append, length-insert_rows}

nothing_grown : (n : ℕ) {A : Type 0} (xs : List A) → n ≡ n + (length xs - length xs)
nothing_grown n xs = omega arith

grown :
    {Row : Type 0} (h : Row → Text) (n : ℕ) (xs ys table : List Row)
    → n
        + (length (insert_rows h xs table) - length table)
        + (length (insert_rows h ys (insert_rows h xs table)) - length (insert_rows h xs table))
      ≡ n + (length (insert_rows h (xs ++ ys) table) - length table)
grown h n xs ys table = omega (
  arith,
  length-insert_rows h xs table,
  length-insert_rows h ys (insert_rows h xs table),
  ap length (insert_rows-append h xs ys table),
)

one_more : (n m : ℕ) → n + 1 + m ≡ n + suc m
one_more n m = omega arith

pub zero_more : (n : ℕ) → 0 + n ≡ n
zero_more n = omega arith

add_zero : (n : ℕ) → n + 0 ≡ n
add_zero n = omega arith

module _ {Real : Type 0} where
  -- The rows of the lines, in their order.
  abbrev pub dns_of_made : Made Real → List (DnsRow Real) → List (DnsRow Real)
  dns_of_made (dns_made row) rows = row ∷ rows
  dns_of_made (http_made row) rows = rows
  dns_of_made nothing_made rows = rows

  abbrev pub http_of_made : Made Real → List (HttpRow Real) → List (HttpRow Real)
  http_of_made (dns_made row) rows = rows
  http_of_made (http_made row) rows = row ∷ rows
  http_of_made nothing_made rows = rows

  -- A pass after more rows, with nothing inserted.
  abbrev queued : List (DnsRow Real) → List (HttpRow Real) → Pass Real → Pass Real
  queued ds hs p = record p {
    counts = record p.counts {
      dns_seen = p.counts.dns_seen + length ds;
      http_seen = p.counts.http_seen + length hs;
    };
    dns_rows = p.dns_rows ++ ds;
    http_rows = p.http_rows ++ hs;
  }

  abbrev inserted : Pass Real → Pass Real
  inserted p =
      let dns = insert_rows dns_hash p.dns_rows p.con.dns in
      let http = insert_rows http_hash p.http_rows p.con.http in
      record p {
        con = record { dns = dns; http = http };
        counts = record p.counts {
          dns_new = p.counts.dns_new + (length dns - length p.con.dns);
          http_new = p.counts.http_new + (length http - length p.con.http);
        };
        dns_rows = [];
        http_rows = [];
      }

  abbrev inserted_dns : Pass Real → Pass Real
  inserted_dns p =
      let dns = insert_rows dns_hash p.dns_rows p.con.dns in
      record p {
        con = record p.con { dns = dns };
        counts = record p.counts { dns_new = p.counts.dns_new + (length dns - length p.con.dns) };
        dns_rows = [];
      }

  abbrev inserted_http : Pass Real → Pass Real
  inserted_http p =
      let http = insert_rows http_hash p.http_rows p.con.http in
      record p {
        con = record p.con { http = http };
        counts = record p.counts {
          http_new = p.counts.http_new + (length http - length p.con.http);
        };
        http_rows = [];
      }

  flush_dns-inserted :
      (p : Pass Real) (rows : List (DnsRow Real))
      → flush_dns (record p { dns_rows = rows }) ≡ inserted_dns (record p { dns_rows = rows })
  unfolding flush_dns insert_rows
  flush_dns-inserted p [] =
      ap (λ n. record p { counts = record p.counts { dns_new = n }; dns_rows = [] })
        (nothing_grown p.counts.dns_new p.con.dns)
  flush_dns-inserted p (row ∷ rows) = refl

  flush_http-inserted :
      (p : Pass Real) (rows : List (HttpRow Real))
      → flush_http (record p { http_rows = rows }) ≡ inserted_http (record p { http_rows = rows })
  unfolding flush_http insert_rows
  flush_http-inserted p [] =
      ap (λ n. record p { counts = record p.counts { http_new = n }; http_rows = [] })
        (nothing_grown p.counts.http_new p.con.http)
  flush_http-inserted p (row ∷ rows) = refl

  pub flush-inserted : (p : Pass Real) → flush false p ≡ inserted p
  unfolding flush
  flush-inserted p =
      ap flush_http (flush_dns-inserted p p.dns_rows)
      ∙ flush_http-inserted (inserted_dns p) p.http_rows

  -- Rows that are inserted early come out the same.
  queued-inserted :
      (ds : List (DnsRow Real)) (hs : List (HttpRow Real)) (p : Pass Real)
      → inserted (queued ds hs (inserted p)) ≡ inserted (queued ds hs p)
  queued-inserted ds hs p =
      let grow_dns = grown dns_hash p.counts.dns_new p.dns_rows ds p.con.dns in
      let grow_http = grown http_hash p.counts.http_new p.http_rows hs p.con.http in
      λ i. record p {
        con = record {
          dns = sym (insert_rows-append dns_hash p.dns_rows ds p.con.dns) i;
          http = sym (insert_rows-append http_hash p.http_rows hs p.con.http) i;
        };
        counts = record {
          dns_seen = p.counts.dns_seen + length ds;
          dns_new = grow_dns i;
          http_seen = p.counts.http_seen + length hs;
          http_new = grow_http i;
        };
        dns_rows = [];
        http_rows = [];
      }

  flush_if_full-inserted :
      {Row : Type 0} (rows : List Row) (ds : List (DnsRow Real)) (hs : List (HttpRow Real))
      (p : Pass Real)
      → inserted (queued ds hs (flush_if_full rows p)) ≡ inserted (queued ds hs p)
  unfolding flush_if_full batch_size
  flush_if_full-inserted rows ds hs p = elim (Bool-cases (leb 5000 (length rows))) [
    | inl e ↦
        rw e (ap (λ q. inserted (queued ds hs q)) (flush-inserted p) ∙ queued-inserted ds hs p)
    | inr e ↦ rw e refl
  ]

  add-queued :
      (m : Made Real) (ds : List (DnsRow Real)) (hs : List (HttpRow Real)) (p : Pass Real)
      → inserted (queued ds hs (add false m p))
        ≡ inserted (queued (dns_of_made m ds) (http_of_made m hs) p)
  unfolding add see_dns see_http queue_dns queue_http
  add-queued (dns_made row) ds hs p =
      flush_if_full-inserted (p.dns_rows ++ row ∷ []) ds hs (record p {
        counts = record p.counts { dns_seen = p.counts.dns_seen + 1 };
        dns_rows = p.dns_rows ++ row ∷ [];
      })
      ∙ (λ i. inserted (record p {
        counts = record p.counts {
          dns_seen = one_more p.counts.dns_seen (length ds) i;
          http_seen = p.counts.http_seen + length hs;
        };
        dns_rows = append_assoc p.dns_rows (row ∷ []) ds i;
        http_rows = p.http_rows ++ hs;
      }))
  add-queued (http_made row) ds hs p =
      flush_if_full-inserted (p.http_rows ++ row ∷ []) ds hs (record p {
        counts = record p.counts { http_seen = p.counts.http_seen + 1 };
        http_rows = p.http_rows ++ row ∷ [];
      })
      ∙ (λ i. inserted (record p {
        counts = record p.counts {
          dns_seen = p.counts.dns_seen + length ds;
          http_seen = one_more p.counts.http_seen (length hs) i;
        };
        dns_rows = p.dns_rows ++ ds;
        http_rows = append_assoc p.http_rows (row ∷ []) hs i;
      }))
  add-queued nothing_made ds hs p = refl

  nothing_queued : (p : Pass Real) → inserted p ≡ inserted (queued [] [] p)
  nothing_queued p = λ i. inserted (record p {
    counts = record p.counts {
      dns_seen = sym (add_zero p.counts.dns_seen) i;
      http_seen = sym (add_zero p.counts.http_seen) i;
    };
    dns_rows = sym (append-nil p.dns_rows) i;
    http_rows = sym (append-nil p.http_rows) i;
  })

module _ {Real : Type 0} (py : Python Real) (since : Option Real) where
  abbrev pub dns_of : List Text → List (DnsRow Real)
  dns_of [] = []
  dns_of (line ∷ lines) = dns_of_made (read_line py since line) (dns_of lines)

  abbrev pub http_of : List Text → List (HttpRow Real)
  http_of [] = []
  http_of (line ∷ lines) = http_of_made (read_line py since line) (http_of lines)

  events_loop-queued :
      (lines : List Text) (p : Pass Real)
      → inserted (events_loop py since false lines p)
        ≡ inserted (queued (dns_of lines) (http_of lines) p)
  unfolding events_loop
  events_loop-queued [] p = nothing_queued p
  events_loop-queued (line ∷ lines) p =
      events_loop-queued lines (add false (read_line py since line) p)
      ∙ add-queued (read_line py since line) (dns_of lines) (http_of lines) p

  -- A run that is not dry.
  pub ingest_lines-whole :
      (con : Tables Real) (lines : List Text)
      → ingest_lines py since false con lines ≡ (
          let dns = insert_rows dns_hash (dns_of lines) con.dns in
          let http = insert_rows http_hash (http_of lines) con.http in
          record {
            counts = record {
              dns_seen = length (dns_of lines);
              dns_new = length dns - length con.dns;
              http_seen = length (http_of lines);
              http_new = length http - length con.http;
            };
            con = record { dns = dns; http = http };
          })
  unfolding ingest_lines first_pass
  ingest_lines-whole con lines =
      let end : Pass Real → Ingested Real = λ p. record { counts = p.counts; con = p.con } in
      let dns = insert_rows dns_hash (dns_of lines) con.dns in
      let http = insert_rows http_hash (http_of lines) con.http in
      ap end (
        flush-inserted (events_loop py since false lines (first_pass false con))
        ∙ events_loop-queued lines (first_pass false con))
      ∙ (λ i. record {
        counts = record {
          dns_seen = zero_more (length (dns_of lines)) i;
          dns_new = zero_more (length dns - length con.dns) i;
          http_seen = zero_more (length (http_of lines)) i;
          http_new = zero_more (length http - length con.http) i;
        };
        con = record { dns = dns; http = http };
      })
