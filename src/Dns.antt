-- ===== src/Dns.antt =====
-- The DNS data that the server handles, and dnspython as an interface.
--
-- Names are a parameter. A record here holds what the source reads or assigns itself: the
-- question, the flags, the three sections and the EDNS version of a message, and the fields of
-- the record data that it constructs. What dnspython does with them is the record `DnsPython`,
-- a parameter of every function that calls it.
pub mod Code
pub mod Laws
use honeycow.Prelude.{ℕ, String, Bool, Option, List, Text}

pub data Rdata (Name : Type 0) : Type 0 where
  a aaaa : String → Rdata Name
  ns : Name → Rdata Name
  -- mname, rname, serial, refresh, retry, expire, minimum
  soa : Name → Name → ℕ → ℕ → ℕ → ℕ → ℕ → Rdata Name
  -- preference, exchange
  mx : ℕ → Name → Rdata Name
  txt : List (List ℕ) → Rdata Name
  hinfo : List ℕ → List ℕ → Rdata Name

pub record RRset (Name : Type 0) : Type 0 where
  pub name : Name
  pub rdclass : ℕ
  pub rdtype : ℕ
  pub ttl : ℕ
  pub rdatas : List (Rdata Name)

pub record Question (Name : Type 0) : Type 0 where
  pub name : Name
  pub rdclass : ℕ
  pub rdtype : ℕ

pub record Message (Name : Type 0) : Type 0 where
  pub id : ℕ
  pub flags : ℕ
  pub question : List (Question Name)
  pub answer : List (RRset Name)
  pub authority : List (RRset Name)
  pub additional : List (RRset Name)
  -- `none` stands for -1: no OPT record.
  pub edns : Option ℕ

-- `dns.message.from_wire`: a message, or the class name of the `DNSException` that it raises.
pub data Parsed (Name : Type 0) : Type 0 where
  message : Message Name → Parsed Name
  dns_exception : String → Parsed Name

pub record DnsPython (Name : Type 0) : Type 0 where
  -- `dns.message.make_response` of a query without QR, which is all that the program passes it: it
  -- raises FormError otherwise, and honey_ns.py drops a message with QR before any response is made.
  -- `dns.message.Message(id=…)`, `dns.message.from_wire`
  pub make_response : Message Name → Message Name
  pub new_message : ℕ → Message Name
  pub from_wire : List ℕ → Parsed Name
  -- `message.to_wire(max_size=…)`: `none` is the exception `TooBig`
  pub to_wire : ℕ → Message Name → Option (List ℕ)
  -- `message.opcode()`, `message.rcode()`, `message.set_rcode(…)`, `message.use_edns(False)`
  pub opcode : Message Name → ℕ
  pub rcode : Message Name → ℕ
  pub set_rcode : ℕ → Message Name → Message Name
  pub use_edns_false : Message Name → Message Name
  -- `dns.rcode.to_text`, `dns.opcode.to_text`
  pub rcode_to_text : ℕ → String
  pub opcode_to_text : ℕ → String
  -- Whether the constructors of A and of AAAA data take a text; they raise a `DNSException` if not.
  pub is_ipv4 : String → Bool
  pub is_ipv6 : String → Bool
  -- `dns.rrset.RRset(name, rdclass, rdtype)` and `rrset.add(rdata, ttl)`
  pub new_rrset : Name → ℕ → ℕ → RRset Name
  pub add : RRset Name → Rdata Name → ℕ → RRset Name
  -- `dns.name.from_text` (`none` is a `DNSException`), `==` and `is_subdomain` of names
  pub from_text : Text → Option Name
  pub name_discrete : Discrete Name
  pub is_subdomain : Name → Name → Bool
