-- ===== src/Dns/Laws.antt =====
-- What the development relies on of dnspython: its documented behaviour, as hypotheses.
use honeycow.Prelude.{ℕ, ◌/◌, ◌≤◌, ◌<◌, ◌≡◌, true, none, some, List, [], ◌∷◌, length, bit}
use honeycow.Dns.{Rdata, RRset, Message, DnsPython}

pub record Laws {Name : Type 0} (d : DnsPython Name) : Type 0 where
  -- A response carries the id and the question of its query, and nothing else yet.
  pub response_id : (q : Message Name) → (d.make_response q).id ≡ q.id
  pub response_question : (q : Message Name) → (d.make_response q).question ≡ q.question
  pub response_answer : (q : Message Name) → (d.make_response q).answer ≡ []
  pub response_authority : (q : Message Name) → (d.make_response q).authority ≡ []
  pub response_additional : (q : Message Name) → (d.make_response q).additional ≡ []
  -- It has QR set, and the response code NOERROR.
  pub response_qr : (q : Message Name) → bit 15 (d.make_response q).flags ≡ 1
  -- A new message carries its id and nothing else.
  pub new_message_id : (i : ℕ) → (d.new_message i).id ≡ i
  pub new_message_question : (i : ℕ) → (d.new_message i).question ≡ []
  pub new_message_answer : (i : ℕ) → (d.new_message i).answer ≡ []
  pub new_message_authority : (i : ℕ) → (d.new_message i).authority ≡ []
  pub new_message_additional : (i : ℕ) → (d.new_message i).additional ≡ []
  -- A header and one question fit in 512 bytes, since a name has at most 255.
  pub to_wire_small :
      (m : Message Name)
      → length m.question ≤ 1
      → m.answer ≡ []
      → m.authority ≡ []
      → m.additional ≡ []
      → (w : List ℕ) × (d.to_wire 512 m ≡ some w)
  -- `set_rcode` writes the low four flags (and the extended code), and nothing else.
  pub rcode-set_rcode : (r : ℕ) (m : Message Name) → r < 16 → d.rcode (d.set_rcode r m) ≡ r
  pub set_rcode_flags : (r : ℕ) (m : Message Name) → (d.set_rcode r m).flags / 16 ≡ m.flags / 16
  pub set_rcode_id : (r : ℕ) (m : Message Name) → (d.set_rcode r m).id ≡ m.id
  pub set_rcode_question : (r : ℕ) (m : Message Name) → (d.set_rcode r m).question ≡ m.question
  pub set_rcode_answer : (r : ℕ) (m : Message Name) → (d.set_rcode r m).answer ≡ m.answer
  pub set_rcode_authority : (r : ℕ) (m : Message Name) → (d.set_rcode r m).authority ≡ m.authority
  pub set_rcode_additional :
      (r : ℕ) (m : Message Name) → (d.set_rcode r m).additional ≡ m.additional
  pub set_rcode_edns : (r : ℕ) (m : Message Name) → r < 16 → (d.set_rcode r m).edns ≡ m.edns
  -- `use_edns(False)` drops the OPT record, and nothing else.
  pub use_edns_false_lem : (m : Message Name) → d.use_edns_false m ≡ record m { edns = none }
  -- With a `max_size` from 512 on a message is rendered in at most as many bytes, or `TooBig` is
  -- raised; a smaller one is not taken as it is.
  pub length-to_wire-le :
      (n : ℕ) (m : Message Name) (w : List ℕ) → 512 ≤ n → d.to_wire n m ≡ some w → length w ≤ n
  -- From there on `max_size` is a limit only: it does not change what is rendered.
  pub to_wire_more :
      (n k : ℕ) (m : Message Name) (w : List ℕ)
      → 512 ≤ n
      → n ≤ k
      → d.to_wire n m ≡ some w
      → d.to_wire k m ≡ some w
  -- A new set is empty; adding to it keeps the owner and the class, and the first addition sets
  -- the TTL and is the only element.
  pub add_name : (s : RRset Name) (r : Rdata Name) (t : ℕ) → (d.add s r t).name ≡ s.name
  pub add_new :
      (n : Name) (c y : ℕ) (r : Rdata Name) (t : ℕ)
      → d.add (d.new_rrset n c y) r t
        ≡ record { name = n; rdclass = c; rdtype = y; ttl = t; rdatas = r ∷ [] }
  pub new_rrset_name : (n : Name) (c y : ℕ) → (d.new_rrset n c y).name ≡ n
  -- Every name is a subdomain of itself.
  pub is_subdomain_refl : (n : Name) → d.is_subdomain n n ≡ true
