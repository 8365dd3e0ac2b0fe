-- ===== src/Tests/Packets.antt =====
-- Packets handled at concrete bytes.
use honeycow.Prelude.{
  ℕ, ◌≤◌, ◌≡◌, refl, subst, true, false, none, some, List, [], ◌∷◌, arith, codes, Text, length, ok,
}
use honeycow.Base
use honeycow.Dispatch.Handlers.{Handler}
use honeycow.Dispatch.Outcomes.{Returns}
use honeycow.Dns.{Message, Parsed, message, dns_exception}
use honeycow.Tests.Replies.{identity, exemptions, parse_address}
use honeycow.Tests.Toy.{zeros, toy, toy-Laws}
use honeycow.Udp
use honeycow.Udp.{Clock, Listener}
use honeycow.Udp.Accounts.{IsAccounted, IsUnaffordable, datagram_received_lem}
use honeycow.Wire
use honeycow.Wire.{Transport, udp, tcp, Site, Handled}
use honeycow.Wire.Answered.{IsAnswer, handle_wire_lem, handle_wire-Dropped}

abbrev pub site : Site Text
site = record {
  dns = toy;
  identity = identity;
  ip_address = parse_address;
  version_bind = codes "version.bind.";
  exemptions = exemptions;
  source_exemptions = none;
}

-- An UPDATE (opcode 5) with the id 7.
abbrev pub packet : List ℕ
packet = 0 ∷ 7 ∷ 0x28 ∷ 0 ∷ zeros 8

abbrev update : Message Text
update = record {
  id = 7;
  flags = 0x2800;
  question = record { name = b'a' ∷ []; rdclass = 1; rdtype = 1 } ∷ [];
  answer = [];
  authority = [];
  additional = [];
  edns = none;
}

abbrev pub FewQuestions : Parsed Text → Type 0
FewQuestions (message q) = length q.question ≤ 1
FewQuestions (dns_exception name) = Unit {0}

few_questions : (q : Message Text) → toy.from_wire packet ≡ message q → length q.question ≤ 1
few_questions q e = subst FewQuestions e (omega arith)

abbrev notimp_answer : Handled Text
notimp_answer = record {
  wire = zeros 12;
  kind = "NOTIMP";
  truncated = false;
  query = some update;
  response = some (Base.notimp toy update);
  handler = Handler.bad_opcode;
}

answered : Wire.handle_wire site packet udp "192.0.2.9" ≡ ok notimp_answer
unfolding Wire.handle_wire Wire.handle_parsed Wire.handle_query Wire.respond Wire.serialize
    Base.serialize_udp Base.notimp Base.error_response
answered = refl

handle_wire_lem_example : Returns (Wire.handle_wire site packet udp "192.0.2.9") (IsAnswer udp)
handle_wire_lem_example =
    handle_wire_lem site toy-Laws (codes "ns1.example.com.") (codes "ns2.example.com." ∷ []) refl
      packet udp "192.0.2.9" few_questions

handle_wire-Dropped_example :
    Returns
      (Wire.handle_query site (Base.notimp toy update) tcp "192.0.2.10")
      λ r. (r.wire ≡ []) × (r.response ≡ none)
handle_wire-Dropped_example =
    handle_wire-Dropped site toy-Laws (codes "ns1.example.com.") (codes "ns2.example.com." ∷ [])
      refl packet udp "192.0.2.9" notimp_answer answered (Base.notimp toy update) refl tcp
      "192.0.2.10"

abbrev clock : Clock
clock = record { allow_at = 0; charge_at = 0; force_at = 0 }

abbrev listener : Listener
listener = record {
  limiter = record { rate = 5000; burst = 20; enabled = true; max_keys = 100; buckets = [] };
  budget = record { max_bytes = 1000; window_seconds = 60; buckets = []; total = 0 };
}

datagram_received_lem_example :
    IsAccounted 12
      (IsUnaffordable site toy-Laws
        (codes "ns1.example.com.")
        (codes "ns2.example.com." ∷ [])
        refl
        clock
        listener
        "192.0.2.9"
        packet)
      (Udp.datagram_received site clock listener "192.0.2.9" packet)
datagram_received_lem_example =
    datagram_received_lem site toy-Laws (codes "ns1.example.com.") (codes "ns2.example.com." ∷ [])
      refl clock listener "192.0.2.9" packet few_questions
