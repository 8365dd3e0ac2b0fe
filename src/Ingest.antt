-- ===== src/Ingest.antt =====
-- tools/ingest.py: the SQLite index of the events and of the firewall's log; here the rows.
--
-- An entry is a line's JSON object: the keys that the digest reads, and those that only the index
-- stores, each missing or of the type that the server writes. A number with a fraction is a
-- parameter, as are json, hashlib and the parser of times.
pub mod Tables
pub mod Events
pub mod Ufw
pub mod Insert
pub mod Batches
pub mod Preview
pub mod Again
pub mod Run
pub mod Honest
use honeycow.Prelude.{
  ℕ, Bool, true, false, Option, none, some, List, [], ◌∷◌, Text, codes, same_text, if◌then◌else◌,
}
use honeycow.Digest.{Event, or_default}
use honeycow.Digest.Classify.{Family, HttpFamily, classify_query, classify_http}

pub record Entry (Real : Type 0) : Type 0 where
  pub event : Event
  pub request_id : Option Text
  pub transport : Option Text
  pub dst_bind : Option Text
  pub raw_len : Option ℕ
  pub decision : Option Text
  pub rate_limited : Option Bool
  pub elapsed_ms : Option Real
  pub id : Option ℕ
  pub rcode : Option Text
  pub qdcount : Option ℕ
  pub qtype_int : Option ℕ
  pub qclass_int : Option ℕ
  pub answer_count : Option ℕ
  pub authority_count : Option ℕ
  pub additional_count : Option ℕ
  pub truncated : Option Bool
  pub edns_version : Option ℕ
  pub edns_payload : Option ℕ
  pub do_set : Option Bool
  pub edns_options : Option (List ℕ)
  pub forwarded_for : Option Text
  pub method : Option Text
  pub host : Option Text
  pub request_bytes : Option ℕ

-- `json.loads` on a line, with none for ValueError; `datetime.fromisoformat(ts).timestamp()`, the
-- same; the order of floats; the digest in hexadecimal of a text's bytes; `json.dumps` of a list.
pub record Python (Real : Type 0) : Type 0 where
  pub loads : Text → Option (Entry Real)
  pub timestamp : Text → Option Real
  pub before : Real → Real → Bool
  pub sha1 : Text → Text
  pub dumps : List ℕ → Text

pub record DnsRow (Real : Type 0) : Type 0 where
  pub rowhash : Text
  pub ts : Option Text
  pub ts_epoch : Option Real
  pub request_id : Option Text
  pub transport : Option Text
  pub src_ip : Text
  pub src_port : Option ℕ
  pub dst_bind : Option Text
  pub raw_len : Option ℕ
  pub event : Option Text
  pub decision : Option Text
  pub handler : Option Text
  pub drop_reason : Option Text
  pub rate_limited : Option ℕ
  pub elapsed_ms : Option Real
  pub dns_id : Option ℕ
  pub opcode : Option Text
  pub rcode : Option Text
  pub flags : Option ℕ
  pub qdcount : Option ℕ
  pub qname : Option Text
  pub qtype : Option Text
  pub qtype_int : Option ℕ
  pub qclass : Option Text
  pub qclass_int : Option ℕ
  pub response_kind : Option Text
  pub answer_count : Option ℕ
  pub authority_count : Option ℕ
  pub additional_count : Option ℕ
  pub response_bytes : Option ℕ
  pub truncated : Option ℕ
  pub edns_version : Option ℕ
  pub edns_payload : Option ℕ
  pub do_set : Option ℕ
  pub edns_options : Option Text
  pub family : Family

pub record HttpRow (Real : Type 0) : Type 0 where
  pub rowhash : Text
  pub ts : Option Text
  pub ts_epoch : Option Real
  pub src_ip : Text
  pub src_port : Option ℕ
  pub dst_bind : Option Text
  pub client_ip : Option Text
  pub forwarded_for : Option Text
  pub method : Option Text
  pub path : Option Text
  pub host : Option Text
  pub user_agent : Option Text
  pub request_bytes : Option ℕ
  pub response_bytes : Option ℕ
  pub elapsed_ms : Option Real
  pub family : HttpFamily

-- `_int` of a Boolean; a number is stored as it is.
unfoldable pub int : Option Bool → Option ℕ
int none = none
int (some b) = some (if b then 1 else 0)

module _ {Real : Type 0} (py : Python Real) where
  unfoldable pub epoch : Option Text → Option Real
  epoch none = none
  epoch (some []) = none
  epoch (some (c ∷ ts)) = py.timestamp (c ∷ ts)

  unfoldable pub json : Option (List ℕ) → Option Text
  json none = none
  json (some v) = some (py.dumps v)

  unfoldable pub dns_row : Entry Real → Text → DnsRow Real
  unfolding int epoch json
  dns_row e raw = record {
    rowhash = py.sha1 raw;
    ts = e.event.ts;
    ts_epoch = epoch e.event.ts;
    request_id = e.request_id;
    transport = e.transport;
    src_ip = e.event.src_ip;
    src_port = e.event.src_port;
    dst_bind = e.dst_bind;
    raw_len = e.raw_len;
    event = e.event.event;
    decision = e.decision;
    handler = e.event.handler;
    drop_reason = e.event.drop_reason;
    rate_limited = int e.rate_limited;
    elapsed_ms = e.elapsed_ms;
    dns_id = e.id;
    opcode = e.event.opcode;
    rcode = e.rcode;
    flags = e.event.flags;
    qdcount = e.qdcount;
    qname = e.event.qname;
    qtype = e.event.qtype_name;
    qtype_int = e.qtype_int;
    qclass = e.event.qclass_name;
    qclass_int = e.qclass_int;
    response_kind = e.event.response_kind;
    answer_count = e.answer_count;
    authority_count = e.authority_count;
    additional_count = e.additional_count;
    response_bytes = e.event.response_bytes;
    truncated = int e.truncated;
    edns_version = e.edns_version;
    edns_payload = e.edns_payload;
    do_set = int e.do_set;
    edns_options = json e.edns_options;
    family = classify_query e.event;
  }

  unfoldable pub http_row : Entry Real → Text → HttpRow Real
  unfolding epoch
  http_row e raw = record {
    rowhash = py.sha1 raw;
    ts = e.event.ts;
    ts_epoch = epoch e.event.ts;
    src_ip = e.event.src_ip;
    src_port = e.event.src_port;
    dst_bind = e.dst_bind;
    client_ip = e.event.client_ip;
    forwarded_for = e.forwarded_for;
    method = e.method;
    path = e.event.path;
    host = e.host;
    user_agent = e.event.user_agent;
    request_bytes = e.request_bytes;
    response_bytes = e.event.response_bytes;
    elapsed_ms = e.elapsed_ms;
    family = classify_http (or_default e.event.path []);
  }
