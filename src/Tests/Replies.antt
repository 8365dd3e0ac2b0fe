-- ===== src/Tests/Replies.antt =====
-- Responses of the squatter at concrete queries.
use honeycow.Prelude.{
  ◌≤◌, ◌≡◌, ◌⊎◌, Bool, true, false, Option, none, some, String, ℕ, List, ok, [], ◌∷◌, arith, codes,
  Text, length, concat, All, bit,
}
use honeycow.Base
use honeycow.Base.{Identity}
use honeycow.Base.Chunks.{chunks_lem}
use honeycow.Base.Responses.{
  Answers, IsEmpty, error_response_lem, tc_truncated_lem, serialize_udp_lem, Truncated,
}
use honeycow.Dispatch
use honeycow.Dns.{Question, Message}
use honeycow.Exemptions
use honeycow.Exemptions.{ExemptionList}
use honeycow.SourceExemptions.{Address}
use honeycow.Tests.Toy.{toy, toy-Laws}
use honeycow.Wire
use honeycow.Wire.Formerr.{IsFormerr, minimal_formerr_lem}

abbrev pub identity : Identity Text
identity = record {
  ns_hosts = codes "ns1.example.com." ∷ codes "ns2.example.com." ∷ [];
  hostmaster = codes "abuse.example.com.";
  txt_calling_card = codes "honeycow";
  version_bind_txt = [];
  public_a = "192.0.2.1";
  public_aaaa = "";
  sinkhole_a = "192.0.2.1";
  sinkhole_aaaa = "";
}

abbrev question : Question Text
question = record { name = codes "www.example.org."; rdclass = 1; rdtype = 1 }

abbrev query : Message Text
query = record {
  id = 7;
  flags = 0x100;
  question = question ∷ [];
  answer = [];
  authority = [];
  additional = [];
  edns = some 0;
}

abbrev pub exemptions : ExemptionList Text
exemptions = record { path = none; exempt = codes "example.net." ∷ [] }

abbrev pub parse_address : String → Option Address
parse_address src_ip = none

chunks_lem_example :
    (concat (Base.chunks (codes "honeycow")) ≡ codes "honeycow")
    × All (λ chunk. length chunk ≤ 255) (Base.chunks (codes "honeycow"))
chunks_lem_example = chunks_lem (codes "honeycow")

error_response_lem_example :
    (toy.rcode (Base.error_response toy query 5) ≡ 5)
    × Answers query (Base.error_response toy query 5) 0
    × IsEmpty (Base.error_response toy query 5)
error_response_lem_example = error_response_lem toy toy-Laws query 5 (omega arith)

tc_truncated_lem_example :
    Answers query (Base.tc_truncated toy query) 1
    × (bit 9 (Base.tc_truncated toy query).flags ≡ 1)
    × IsEmpty (Base.tc_truncated toy query)
tc_truncated_lem_example = tc_truncated_lem toy toy-Laws query

serialize_udp_lem_example :
    ((wire : List ℕ) (truncated : Bool) (m' : Message Text)
      → Base.serialize_udp toy query ≡ ok (wire, truncated, m')
      → (length wire ≤ 512)
        × (toy.to_wire 512 m' ≡ some wire)
        × ((truncated ≡ false) × (m' ≡ query)
            ⊎ (truncated ≡ true) × (toy.to_wire 512 query ≡ none) × Truncated query m'))
    × (length query.question ≤ 1
        → (r : List ℕ × Bool × Message Text) × (Base.serialize_udp toy query ≡ ok r))
serialize_udp_lem_example = serialize_udp_lem toy toy-Laws query

minimal_formerr_lem_example :
    (wire : List ℕ) × (m : Message Text) × (Wire.minimal_formerr toy
        (0 ∷ 7 ∷ 9 ∷ 0 ∷ 0 ∷ 1 ∷ 0 ∷ 0 ∷ 0 ∷ 0 ∷ 0 ∷ 0 ∷ 5 ∷ [])
      ≡ ok (wire, some m))
    × IsFormerr toy toy-Laws 0 7 9 wire m
minimal_formerr_lem_example =
    minimal_formerr_lem toy toy-Laws 0 7 9 0 0 1 0 0 0 0 0 0 (5 ∷ []) (omega arith)
