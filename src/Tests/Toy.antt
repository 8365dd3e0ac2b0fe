-- ===== src/Tests/Toy.antt =====
-- A small stand-in for dnspython that meets the laws: names are texts, and a message takes 12
-- bytes and 40 for each set of records.
use mathlib.Core.List.{reverse}
use honeycow.Prelude.{
  ℕ, zero, suc, ◌+◌, ◌*◌, ◌/◌, ◌%◌, ◌≤◌, ◌≡◌, refl, ap, Bool, true, false, ◌&&◌, Option, none, some,
  List, [], ◌∷◌, ◌++◌, arith, leb, ltb, ◌==◌, if◌then◌else◌, length, is_empty, not, same_string,
  Text, Text_discrete,
}
use honeycow.Dns.{RRset, Message, Parsed, message, dns_exception, DnsPython}
use honeycow.Dns.Laws.{Laws}

abbrev is_prefix : Text → Text → Bool
is_prefix [] t = true
is_prefix (c ∷ s) [] = false
is_prefix (c ∷ s) (e ∷ t) = c == e && is_prefix s t

is_prefix_refl : (s : Text) → is_prefix s s ≡ true
is_prefix_refl [] = refl
is_prefix_refl (c ∷ s) = ground (arith, is_prefix_refl s)

abbrev pub zeros : ℕ → List ℕ
zeros zero = []
zeros (suc n) = 0 ∷ zeros n

length-zeros : (n : ℕ) → length (zeros n) ≡ n
length-zeros zero = refl
length-zeros (suc n) = omega (arith, length-zeros n)

abbrev size : Message Text → ℕ
size m = 12 + 40 * (length m.answer + length m.authority + length m.additional)

abbrev render : ℕ → Message Text → Option (List ℕ)
render n m = if leb (size m) n then some (zeros (size m)) else none

length-render-le : (n : ℕ) (m : Message Text) (w : List ℕ) → render n m ≡ some w → length w ≤ n
length-render-le n m w h = ground (arith, length-zeros (size m))

-- A message of one question for the address of `a.`, with the id and the flags of the header.
abbrev parse : List ℕ → Parsed Text
parse (i ∷ j ∷ f ∷ g ∷ rest) =
    if ltb (length rest) 8
    then dns_exception "ShortHeader"
    else message (record {
      id = i * 256 + j;
      flags = f * 256 + g;
      question = record { name = b'a' ∷ []; rdclass = 1; rdtype = 1 } ∷ [];
      answer = [];
      authority = [];
      additional = [];
      edns = none;
    })
parse _ = dns_exception "ShortHeader"

abbrev pub toy : DnsPython Text
toy = record {
  make_response = λ q. record q { flags = 0x8000; answer = []; authority = []; additional = [] };
  new_message = λ i. record {
    id = i;
    flags = 0;
    question = [];
    answer = [];
    authority = [];
    additional = [];
    edns = none;
  };
  from_wire = parse;
  to_wire = render;
  opcode = λ m. m.flags / 2048 % 16;
  rcode = λ m. m.flags % 16;
  set_rcode = λ r m. record m { flags = m.flags / 16 * 16 + r % 16 };
  use_edns_false = λ m. record m { edns = none };
  rcode_to_text = λ r. if r == 5 then "REFUSED" else if r == 0 then "NOERROR" else "OTHER";
  opcode_to_text = λ o. if o == 0 then "QUERY" else "OTHER";
  is_ipv4 = λ s. not (same_string s "");
  is_ipv6 = λ s. not (same_string s "");
  new_rrset = λ n c y. record { name = n; rdclass = c; rdtype = y; ttl = 0; rdatas = [] };
  add = λ s r t. record s { ttl = t; rdatas = s.rdatas ++ r ∷ [] };
  from_text = λ t. if is_empty t then none else some t;
  name_discrete = Text_discrete;
  is_subdomain = λ n m. is_prefix (reverse m) (reverse n);
}

pub toy-Laws : Laws toy
toy-Laws = record {
  response_id = λ q. refl;
  response_question = λ q. refl;
  response_answer = λ q. refl;
  response_authority = λ q. refl;
  response_additional = λ q. refl;
  response_qr = λ q. refl;
  new_message_id = λ i. refl;
  new_message_question = λ i. refl;
  new_message_answer = λ i. refl;
  new_message_authority = λ i. refl;
  new_message_additional = λ i. refl;
  to_wire_small = λ m one a b c. (
    zeros (size m),
    ground (
      arith,
      ap (length {A = RRset Text}) a,
      ap (length {A = RRset Text}) b,
      ap (length {A = RRset Text}) c,
    ),
  );
  rcode-set_rcode = λ r m h. omega arith;
  set_rcode_flags = λ r m. omega arith;
  set_rcode_id = λ r m. refl;
  set_rcode_question = λ r m. refl;
  set_rcode_answer = λ r m. refl;
  set_rcode_authority = λ r m. refl;
  set_rcode_additional = λ r m. refl;
  set_rcode_edns = λ r m h. refl;
  use_edns_false_lem = λ m. refl;
  length-to_wire-le = λ n m w least h. length-render-le n m w h;
  to_wire_more = λ n k m w least more h. ground arith;
  add_name = λ s r t. refl;
  add_new = λ n c y r t. refl;
  new_rrset_name = λ n c y. refl;
  is_subdomain_refl = λ n. is_prefix_refl (reverse n);
}
