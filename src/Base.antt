-- ===== src/Base.antt =====
-- squatter/base.py: identity, record synthesizers, response helpers and serialization.
--
-- What the module reads from the environment at import is the record `Identity`; the parsing of
-- its two structured values is in Base/Config. dnspython is the parameter `d`.
pub mod Chunks
pub mod Config
pub mod Responses
use honeycow.Prelude.{
  ℕ, zero, suc, ◌+◌, ◌*◌, ◌/◌, ◌%◌, Bool, true, false, Option, none, some, List, [], ◌∷◌, ◌++◌,
  String, Text, length, take, drop, is_empty, same_string, ltb, if◌then◌else◌, bit_or, clear_bits,
  Result, ok, raise, dns_exception, too_big, index_error, ◌>>=◌,
}
use honeycow.Dns.{Rdata, RRset, Question, Message, DnsPython}
use honeycow.Dns.Code

pub record Identity (Name : Type 0) : Type 0 where
  pub ns_hosts : List Name
  pub hostmaster : Name
  pub txt_calling_card : Text
  pub version_bind_txt : Text
  pub public_a : String
  pub public_aaaa : String
  pub sinkhole_a : String
  pub sinkhole_aaaa : String

abbrev pub ttl_sinkhole : ℕ
ttl_sinkhole = 300

abbrev pub ttl_txt : ℕ
ttl_txt = 300

abbrev pub ttl_mx : ℕ
ttl_mx = 300

abbrev pub ttl_ns : ℕ
ttl_ns = 3600

abbrev pub ttl_soa : ℕ
ttl_soa = 3600

abbrev pub ttl_negative : ℕ
ttl_negative = 300

abbrev pub soa_serial : ℕ
soa_serial = 2026051801

abbrev pub soa_refresh : ℕ
soa_refresh = 3600

abbrev pub soa_retry : ℕ
soa_retry = 900

abbrev pub soa_expire : ℕ
soa_expire = 604800

abbrev pub udp_max : ℕ
udp_max = 512

abbrev pub tcp_max : ℕ
tcp_max = 65535

abbrev pub txt_chunk_limit : ℕ
txt_chunk_limit = 255

-- `text.encode("utf-8")` of one character; lone surrogates, which Python refuses, are not modelled.
unfoldable pub utf8 : ℕ → List ℕ
utf8 c =
    if ltb c 0x80
    then c ∷ []
    else if ltb c 0x800
    then (0xc0 + c / 64) ∷ (0x80 + c % 64) ∷ []
    else if ltb c 0x10000
    then (0xe0 + c / 4096) ∷ (0x80 + c / 64 % 64) ∷ (0x80 + c % 64) ∷ []
    else (0xf0 + c / 262144) ∷ (0x80 + c / 4096 % 64) ∷ (0x80 + c / 64 % 64) ∷ (0x80 + c % 64) ∷ []

unfoldable pub encode : Text → List ℕ
unfolding utf8
encode [] = []
encode (c ∷ text) = utf8 c ++ encode text

-- `[encoded[i:i + limit] for i in range(0, len(encoded), limit)]`, on fuel for the rounds.
unfoldable pub slices : ℕ → ℕ → List ℕ → List (List ℕ)
slices zero limit encoded = []
slices (suc fuel) limit [] = []
slices (suc fuel) limit (b ∷ encoded) =
    take limit (b ∷ encoded) ∷ slices fuel limit (drop limit (b ∷ encoded))

-- The chunks of `synth_txt_rrset`.
unfoldable pub chunks : List ℕ → List (List ℕ)
chunks encoded =
    if ltb txt_chunk_limit (length encoded)
    then slices (length encoded) txt_chunk_limit encoded
    else encoded ∷ []

-- `NS_HOSTS[0]`
unfoldable pub first_host : {Name : Type 0} → List Name → Result Name
first_host [] = raise index_error
first_host (host ∷ rest) = ok host

module _ {Name : Type 0} (d : DnsPython Name) where
  -- `A(…)` of the address raises for a text that is none.
  unfoldable pub synth_a_rrset : Name → ℕ → String → Result (RRset Name)
  synth_a_rrset name ttl addr =
      if d.is_ipv4 addr
      then ok (d.add (d.new_rrset name Code.class_in Code.type_a) (Rdata.a addr) ttl)
      else raise dns_exception

  unfoldable pub synth_aaaa_rrset : Name → ℕ → String → Result (RRset Name)
  synth_aaaa_rrset name ttl addr =
      if d.is_ipv6 addr
      then ok (d.add (d.new_rrset name Code.class_in Code.type_aaaa) (Rdata.aaaa addr) ttl)
      else raise dns_exception

  -- The loop over `ns_hosts`.
  unfoldable pub add_hosts : ℕ → List Name → RRset Name → RRset Name
  add_hosts ttl [] rrset = rrset
  add_hosts ttl (host ∷ hosts) rrset = add_hosts ttl hosts (d.add rrset (Rdata.ns host) ttl)

  unfoldable pub synth_ns_rrset : Name → ℕ → List Name → RRset Name
  synth_ns_rrset zone_name ttl ns_hosts =
      add_hosts ttl ns_hosts (d.new_rrset zone_name Code.class_in Code.type_ns)

  unfoldable pub synth_soa_rrset : Name → ℕ → Name → Name → RRset Name
  synth_soa_rrset zone_name ttl mname rname =
      d.add (d.new_rrset zone_name Code.class_in Code.type_soa)
        (Rdata.soa mname rname soa_serial soa_refresh soa_retry soa_expire ttl_negative) ttl

  unfoldable pub synth_mx_rrset : Name → ℕ → Name → ℕ → RRset Name
  synth_mx_rrset name ttl exchange preference =
      d.add (d.new_rrset name Code.class_in Code.type_mx) (Rdata.mx preference exchange) ttl

  unfoldable pub synth_txt_rrset : Name → ℕ → Text → ℕ → RRset Name
  synth_txt_rrset name ttl text rdclass =
      d.add (d.new_rrset name rdclass Code.type_txt) (Rdata.txt (chunks (encode text))) ttl

  -- `b"RFC8482"` and `b""`
  unfoldable pub synth_hinfo_rrset : Name → ℕ → ℕ → RRset Name
  synth_hinfo_rrset name ttl rdclass =
      d.add (d.new_rrset name rdclass Code.type_hinfo)
        (Rdata.hinfo (b'R' ∷ b'F' ∷ b'C' ∷ b'8' ∷ b'4' ∷ b'8' ∷ b'2' ∷ []) []) ttl

  -- `if aaaa_addr`: the AAAA set of one host.
  unfoldable pub aaaa_glue : Name → ℕ → String → Result (List (RRset Name))
  aaaa_glue host ttl aaaa_addr =
      if same_string aaaa_addr ""
      then ok []
      else (do rrset ← synth_aaaa_rrset host ttl aaaa_addr; ok (rrset ∷ []))

  unfoldable pub ns_glue_rrsets : ℕ → List Name → String → String → Result (List (RRset Name))
  ns_glue_rrsets ttl [] a_addr aaaa_addr = ok []
  ns_glue_rrsets ttl (host ∷ hosts) a_addr aaaa_addr = do
    rrset ← synth_a_rrset host ttl a_addr
    v6 ← aaaa_glue host ttl aaaa_addr
    rest ← ns_glue_rrsets ttl hosts a_addr aaaa_addr
    ok (rrset ∷ v6 ++ rest)

  unfoldable pub make_response : Message Name → Message Name
  make_response query =
      let response = d.make_response query in
      d.use_edns_false
        (record response { flags = clear_bits (bit_or response.flags Code.aa) Code.ra })

  -- The SOA owner when none is given: `query.question[0].name`.
  unfoldable pub first_name : List (Question Name) → Result Name
  first_name [] = raise index_error
  first_name (question ∷ rest) = ok question.name

  unfoldable pub error_response : Message Name → ℕ → Message Name
  error_response query rcode =
      let response = d.make_response query in
      d.set_rcode rcode (
        d.use_edns_false
          (record response { flags = clear_bits (clear_bits response.flags Code.aa) Code.ra }))

  unfoldable pub servfail : Message Name → Message Name
  servfail query = error_response query Code.servfail

  unfoldable pub notimp : Message Name → Message Name
  notimp query = error_response query Code.notimp

  unfoldable pub refused : Message Name → Message Name
  refused query = error_response query Code.refused

  unfoldable pub formerr : Message Name → Message Name
  formerr query = error_response query Code.formerr

  -- The assignments of both truncations.
  unfoldable pub emptied : Message Name → Message Name
  emptied response = record response {
    flags = bit_or response.flags Code.tc;
    answer = [];
    authority = [];
    additional = [];
  }

  unfoldable pub tc_truncated : Message Name → Message Name
  tc_truncated query = emptied (make_response query)

  -- The `except TooBig` path. `response` is changed in place, so it is part of the result.
  unfoldable pub serialize_emptied : Message Name → Result (List ℕ × Bool × Message Name)
  serialize_emptied response = elim (d.to_wire udp_max response) [
    | none ↦ raise too_big
    | some wire ↦ ok (wire, true, response)
  ]

  unfoldable pub serialize_udp : Message Name → Result (List ℕ × Bool × Message Name)
  serialize_udp response = elim (d.to_wire udp_max response) [
    | none ↦ serialize_emptied (emptied response)
    | some wire ↦ ok (wire, false, response)
  ]

  unfoldable pub serialize_tcp : Message Name → Result (List ℕ)
  serialize_tcp response = elim (d.to_wire tcp_max response) [
    | none ↦ raise too_big
    | some wire ↦ ok wire
  ]

  module _ (identity : Identity Name) where
    unfoldable pub negative_response : Message Name → ℕ → Option Name → Result (Message Name)
    negative_response query rcode zone_name = do
      zone_name ← elim zone_name [ none ↦ first_name query.question | some name ↦ ok name ]
      mname ← first_host identity.ns_hosts
      let response = d.set_rcode rcode (make_response query)
      ok (record response {
        authority =
            response.authority ++ synth_soa_rrset zone_name ttl_soa mname identity.hostmaster ∷ [];
      })

    unfoldable pub nodata : Message Name → Result (Message Name)
    nodata query = negative_response query Code.noerror none
