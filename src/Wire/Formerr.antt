-- ===== src/Wire/Formerr.antt =====
-- The answer to a packet that dnspython cannot parse, from its first bytes.
use honeycow.Prelude.{
  ℕ, ◌+◌, ◌*◌, ◌/◌, ◌^◌, ◌≤◌, ◌<◌, List, ◌∷◌, length, some, ok, min, max, ◌≡◌, ◌∙◌, [], arith, bit,
  bit_and, bit_or, bit-bit_and, bit-bit_or, bit-le-one,
}
use honeycow.Base.Responses.{bit_of_high}
use honeycow.Dns.{Message, DnsPython}
use honeycow.Dns.Code
use honeycow.Dns.Laws.{Laws}
use honeycow.Wire.{Header, unpack, wire_header, formerr_message, formerr_wire, minimal_formerr}

-- The flags of the answer before its response code is set.
abbrev formerr_flags : ℕ → ℕ
formerr_flags flags = bit_or (bit_or Code.qr (bit_and flags 0x7800)) (bit_and flags Code.rd)

pub record Echoes (flags m : ℕ) : Type 0 where
  pub qr : bit 15 m ≡ 1
  pub opcode_14 : bit 14 m ≡ bit 14 flags
  pub opcode_13 : bit 13 m ≡ bit 13 flags
  pub opcode_12 : bit 12 m ≡ bit 12 flags
  pub opcode_11 : bit 11 m ≡ bit 11 flags
  pub aa : bit 10 m ≡ 0
  pub tc : bit 9 m ≡ 0
  pub rd : bit 8 m ≡ bit 8 flags
  pub ra : bit 7 m ≡ 0

-- A digit of the flags, given the digits of the masks.
bit-formerr_flags :
    (k flags : ℕ)
    → bit k (formerr_flags flags)
      ≡ max
          (max (bit k Code.qr) (min (bit k flags) (bit k 0x7800)))
          (min (bit k flags) (bit k Code.rd))
bit-formerr_flags k flags = rw (
  bit-bit_or k (bit_or Code.qr (bit_and flags 0x7800)) (bit_and flags Code.rd),
  bit-bit_or k Code.qr (bit_and flags 0x7800),
  bit-bit_and k flags 0x7800,
  bit-bit_and k flags Code.rd,
)

Echoes-formerr_flags : (flags : ℕ) → Echoes flags (formerr_flags flags)
Echoes-formerr_flags flags = record {
  qr = omega (arith, bit-formerr_flags 15 flags, bit-le-one 15 flags);
  opcode_14 = omega (arith, bit-formerr_flags 14 flags, bit-le-one 14 flags);
  opcode_13 = omega (arith, bit-formerr_flags 13 flags, bit-le-one 13 flags);
  opcode_12 = omega (arith, bit-formerr_flags 12 flags, bit-le-one 12 flags);
  opcode_11 = omega (arith, bit-formerr_flags 11 flags, bit-le-one 11 flags);
  aa = omega (arith, bit-formerr_flags 10 flags, bit-le-one 10 flags);
  tc = omega (arith, bit-formerr_flags 9 flags, bit-le-one 9 flags);
  rd = omega (arith, bit-formerr_flags 8 flags, bit-le-one 8 flags);
  ra = omega (arith, bit-formerr_flags 7 flags, bit-le-one 7 flags);
}

module _ {Name : Type 0} (d : DnsPython Name) (laws : Laws d) where
  -- The message for a header has its id, opcode and RD flag, QR set, AA, TC and RA clear, the code
  -- FORMERR, and no record.
  pub formerr_message_lem :
      (h : Header)
      → ((formerr_message d h).id ≡ h.id)
        × Echoes h.flags (formerr_message d h).flags
        × (d.rcode (formerr_message d h) ≡ 1)
        × ((formerr_message d h).answer ≡ [])
        × ((formerr_message d h).authority ≡ [])
        × ((formerr_message d h).additional ≡ [])
  unfolding formerr_message
  formerr_message_lem h =
      let f = formerr_flags h.flags in
      let e = Echoes-formerr_flags h.flags in
      let m = record (d.new_message h.id) { flags = f } in
      let high = laws.set_rcode_flags 1 m in
      let g = (d.set_rcode 1 m).flags in
      (
        laws.set_rcode_id 1 m ∙ laws.new_message_id h.id,
        record {
          qr = bit_of_high 11 g f high ∙ e.qr;
          opcode_14 = bit_of_high 10 g f high ∙ e.opcode_14;
          opcode_13 = bit_of_high 9 g f high ∙ e.opcode_13;
          opcode_12 = bit_of_high 8 g f high ∙ e.opcode_12;
          opcode_11 = bit_of_high 7 g f high ∙ e.opcode_11;
          aa = bit_of_high 6 g f high ∙ e.aa;
          tc = bit_of_high 5 g f high ∙ e.tc;
          rd = bit_of_high 4 g f high ∙ e.rd;
          ra = bit_of_high 3 g f high ∙ e.ra;
        },
        laws.rcode-set_rcode 1 m (omega arith),
        laws.set_rcode_answer 1 m ∙ laws.new_message_answer h.id,
        laws.set_rcode_authority 1 m ∙ laws.new_message_authority h.id,
        laws.set_rcode_additional 1 m ∙ laws.new_message_additional h.id,
      )

  -- The answer to a packet whose first bytes are `i`, `j` and `f`.
  pub record IsFormerr (i j f : ℕ) (wire : List ℕ) (m : Message Name) : Type 0 where
    pub short : length wire ≤ 512
    pub rendered : d.to_wire 512 m ≡ some wire
    pub id : m.id ≡ i * 256 + j
    pub qr : bit 15 m.flags ≡ 1
    pub opcode_14 : bit 14 m.flags ≡ bit 6 f
    pub opcode_13 : bit 13 m.flags ≡ bit 5 f
    pub opcode_12 : bit 12 m.flags ≡ bit 4 f
    pub opcode_11 : bit 11 m.flags ≡ bit 3 f
    pub aa : bit 10 m.flags ≡ 0
    pub tc : bit 9 m.flags ≡ 0
    pub rd : bit 8 m.flags ≡ bit 0 f
    pub ra : bit 7 m.flags ≡ 0
    pub code : d.rcode m ≡ 1
    pub no_question : m.question ≡ []
    pub no_answer : m.answer ≡ []
    pub no_authority : m.authority ≡ []
    pub no_additional : m.additional ≡ []

  formerr_message_question : (h : Header) → (formerr_message d h).question ≡ []
  unfolding formerr_message
  formerr_message_question h = laws.set_rcode_question 1 _ ∙ laws.new_message_question h.id

  -- The answer that `_minimal_formerr` makes for a packet of at least twelve bytes, the fourth of them
  -- below 256, is at most 512 bytes, of a message with the id of the packet's first two bytes, the opcode and RD of its third, QR set, AA,
  -- TC and RA clear, the code FORMERR, no question and no record.
  pub minimal_formerr_lem :
      (i j f g q r a b c e x y : ℕ) (rest : List ℕ)
      → g < 256
      → (wire : List ℕ) × (m : Message Name) × (minimal_formerr d
            (i ∷ j ∷ f ∷ g ∷ q ∷ r ∷ a ∷ b ∷ c ∷ e ∷ x ∷ y ∷ rest)
          ≡ ok (wire, some m))
        × IsFormerr i j f wire m
  unfolding minimal_formerr formerr_wire wire_header
  minimal_formerr_lem i j f g q r a b c e x y rest byte =
      let flags = unpack f g in
      let h : Header = record {
        id = unpack i j;
        opcode = d.opcode_to_text (bit_and (flags / 2 ^ 11) 0x0f);
        rcode = d.rcode_to_text (bit_and flags 0x0f);
        flags = flags;
        qdcount = unpack q r;
      } in
      let l = formerr_message_lem h in
      let m = formerr_message d h in
      let none_asked = formerr_message_question h in
      let (w, fits) = laws.to_wire_small m (rw none_asked (omega arith)) l.3 l.4 l.5 in
      (
        w,
        m,
        ground (arith, fits),
        record {
          short = laws.length-to_wire-le 512 m w (omega arith) fits;
          rendered = fits;
          id = l.0;
          qr = l.1.qr;
          opcode_14 = l.1.opcode_14 ∙ omega (arith, byte);
          opcode_13 = l.1.opcode_13 ∙ omega (arith, byte);
          opcode_12 = l.1.opcode_12 ∙ omega (arith, byte);
          opcode_11 = l.1.opcode_11 ∙ omega (arith, byte);
          aa = l.1.aa;
          tc = l.1.tc;
          rd = l.1.rd ∙ omega (arith, byte);
          ra = l.1.ra;
          code = l.2;
          no_question = none_asked;
          no_answer = l.3;
          no_authority = l.4;
          no_additional = l.5;
        },
      )
