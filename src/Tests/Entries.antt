-- ===== src/Tests/Entries.antt =====
-- The event index over five lines: two queries, one of them twice, a request, and a line that is no JSON.
use honeycow.Prelude.{
  ℕ, suc, ◌≡◌, refl, true, false, none, some, Option, List, [], ◌∷◌, ◌++◌, Text, codes, same_text,
  Text_discrete, ℕ_discrete, strip, lstrip, is_space, ltb, length, if◌then◌else◌,
}
use honeycow.Digest.{Event}
use honeycow.Ingest.{Entry, Python}
use honeycow.Ingest
use honeycow.Ingest.Tables
use honeycow.Ingest.Tables.{Tables}
use honeycow.Ingest.Events
use honeycow.Ingest.Events.{ingest_lines}
use honeycow.Ingest.Ufw
use honeycow.Ingest.Ufw.{Packet, ingest_ufw}
use honeycow.Ingest.Run.{Index, ingest}
use honeycow.Ingest.Honest.{IsHonest, run_of, ingest-dry_run}
use honeycow.Ingest.Again.{ingest_lines-again}

abbrev event_named : Text → Text → Event
event_named name ts = record {
  event = some name;
  ts = some ts;
  src_ip = codes "192.0.2.1";
  src_port = some 53;
  client_ip = none;
  qname = some (codes "example.com.");
  qtype_name = some (codes "A");
  qclass_name = some (codes "IN");
  opcode = some (codes "QUERY");
  flags = some 256;
  handler = none;
  response_kind = none;
  response_bytes = some 60;
  drop_reason = none;
  path = none;
  user_agent = none;
}

abbrev entry_named : Text → Text → Entry ℕ
entry_named name ts = record {
  event = event_named name ts;
  request_id = none;
  transport = some (codes "udp");
  dst_bind = none;
  raw_len = some 40;
  decision = none;
  rate_limited = some false;
  elapsed_ms = some 1;
  id = some 7;
  rcode = none;
  qdcount = some 1;
  qtype_int = some 1;
  qclass_int = some 1;
  answer_count = some 1;
  authority_count = some 0;
  additional_count = some 0;
  truncated = some false;
  edns_version = none;
  edns_payload = none;
  do_set = some true;
  edns_options = some [];
  forwarded_for = none;
  method = none;
  host = none;
  request_bytes = none;
}

abbrev loads : Text → Option (Entry ℕ)
loads raw =
    if same_text raw (codes "h")
    then some (entry_named (codes "http_closer") raw)
    else if same_text raw (codes "x")
    then none
    else some (entry_named (codes "query") raw)

abbrev py : Python ℕ
py = record {
  loads = loads;
  timestamp = λ ts. some (length ts);
  before = ltb;
  sha1 = λ t. t;
  dumps = λ v. codes "[]";
}

abbrev lines : List Text
lines = codes " q\n" ∷ codes "x\n" ∷ codes "q\n" ∷ codes "h\n" ∷ codes "r\n" ∷ []

abbrev no_tables : Tables ℕ
no_tables = record { dns = []; http = [] }

abbrev packet : Packet ℕ
packet = record {
  isoformat = codes "2026-09-01T00:00:00+00:00";
  timestamp = 0;
  src = codes "192.0.2.1";
  dst = codes "198.51.100.1";
  proto = codes "TCP";
  dpt = none;
  verdict = codes "BLOCK";
}

abbrev no_index : Index ℕ
no_index = record { tables = no_tables; ufw = [] }

ingest_lines_test :
    (ingest_lines py none true no_tables lines).counts
    ≡ record { dns_seen = 3; dns_new = 2; http_seen = 1; http_new = 1 }
unfolding Events.ingest_lines Events.events_loop Events.read_line Events.if_loaded Events.make_row
    Events.is_before Events.add Events.see_dns Events.see_http Events.preview_dns
    Events.preview_http Events.first_pass Tables.flush Tables.is_dns_event strip lstrip is_space
    same_text Text_discrete ℕ_discrete Ingest.dns_row Ingest.http_row
ingest_lines_test = refl

abbrev more : List Text
more = codes "s\n" ∷ []

ingest_lines-again_example :
    (let first = (ingest_lines py (some 1) false no_tables lines).con in
      let again = ingest_lines py (some 1) false first (lines ++ more) in
      let added = ingest_lines py (some 1) false first more in
      (again.con ≡ added.con)
      × (again.con ≡ (ingest_lines py (some 1) false no_tables (lines ++ more)).con)
      × (again.counts.dns_new ≡ added.counts.dns_new)
      × (again.counts.http_new ≡ added.counts.http_new))
ingest_lines-again_example = ingest_lines-again py (some 1) no_tables lines more

-- A packet that the log holds twice counts twice in a dry run, and is inserted once.
ingest_ufw_test :
    (ingest_ufw py (λ t. none) true [] (packet ∷ packet ∷ [])).ufw_new
    ≡ suc (ingest_ufw py (λ t. none) false [] (packet ∷ packet ∷ [])).ufw_new
unfolding Ufw.ingest_ufw Ufw.not_yet Ufw.ufw_row Ufw.ufw_rowhash Ufw.join_fields Ufw.str Ufw.port
    Tables.insert_rows Tables.insert_row same_text Text_discrete ℕ_discrete
ingest_ufw_test = refl

ingest-dry_run_example :
    IsHonest no_index
      (ingest py
        (λ t. none)
        (run_of (some 1) true)
        (some (some lines))
        (some (packet ∷ packet ∷ []))
        no_index)
      (ingest py
        (λ t. none)
        (run_of (some 1) false)
        (some (some lines))
        (some (packet ∷ packet ∷ []))
        no_index)
ingest-dry_run_example =
    ingest-dry_run py (λ t. none) (some 1) (some (some lines)) (some (packet ∷ packet ∷ []))
      no_index
