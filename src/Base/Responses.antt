-- ===== src/Base/Responses.antt =====
-- The flags and the sections of the responses that squatter/base.py builds, and their size.
use Prim.Native.Nat.{bit_or}
use honeycow.Prelude.{
  ℕ, zero, suc, ◌/◌, ◌≤◌, ◌<◌, ◌≡◌, refl, sym, subst, max, ◌≢◌, ◌∙◌, ap, Bool, true, false, none,
  some, List, [], arith, length, bit, clear_bits, bit-bit_or, bit-clear_bits, bit-le-one, bit-zero,
  ◌⊎◌, ok, Option-cases, inl, inr,
}
use honeycow.Dns.{Message, DnsPython}
use honeycow.Dns.Code
use honeycow.Dns.Laws.{Laws}
use honeycow.Base.{
  make_response, error_response, emptied, tc_truncated, serialize_udp, serialize_emptied, udp_max,
}

-- The message answers the query: same id and question, no OPT record, QR set, RA clear, AA as
-- given.
pub record Answers {Name : Type 0} (q m : Message Name) (aa : ℕ) : Type 0 where
  pub same_id : m.id ≡ q.id
  pub same_question : m.question ≡ q.question
  pub no_edns : m.edns ≡ none
  pub is_response : bit 15 m.flags ≡ 1
  pub authoritative : bit 10 m.flags ≡ aa
  pub no_recursion : bit 7 m.flags ≡ 0

-- No section holds a record.
pub record IsEmpty {Name : Type 0} (m : Message Name) : Type 0 where
  pub answer : m.answer ≡ []
  pub authority : m.authority ≡ []
  pub additional : m.additional ≡ []

-- The message as a truncated one: TC is set, every other flag is kept, and there is no record.
pub record Truncated {Name : Type 0} (m m' : Message Name) : Type 0 where
  pub same_id : m'.id ≡ m.id
  pub same_question : m'.question ≡ m.question
  pub same_edns : m'.edns ≡ m.edns
  pub truncated : bit 9 m'.flags ≡ 1
  pub other_flags : (k : ℕ) → k ≢ 9 → bit k m'.flags ≡ bit k m.flags
  pub empty : IsEmpty m'

bit_of_tc : (k : ℕ) → k ≢ 9 → bit k 512 ≡ 0
bit_of_tc zero h = refl
bit_of_tc (suc zero) h = refl
bit_of_tc (suc (suc zero)) h = refl
bit_of_tc (suc (suc (suc zero))) h = refl
bit_of_tc (suc (suc (suc (suc zero)))) h = refl
bit_of_tc (suc (suc (suc (suc (suc zero))))) h = refl
bit_of_tc (suc (suc (suc (suc (suc (suc zero)))))) h = refl
bit_of_tc (suc (suc (suc (suc (suc (suc (suc zero))))))) h = refl
bit_of_tc (suc (suc (suc (suc (suc (suc (suc (suc zero)))))))) h = refl
bit_of_tc (suc (suc (suc (suc (suc (suc (suc (suc (suc zero))))))))) h = absurd (h refl)
bit_of_tc (suc (suc (suc (suc (suc (suc (suc (suc (suc (suc k)))))))))) h = bit-zero k

other_bits : (k f : ℕ) → k ≢ 9 → max (bit k f) (bit k Code.tc) ≡ bit k f
other_bits k f h = omega (arith, bit_of_tc k h)

-- The flags above the response code are the digits from the fifth on.
pub bit_of_high :
    (k f g : ℕ)
    → f / 16 ≡ g / 16
    → bit (suc (suc (suc (suc k)))) f ≡ bit (suc (suc (suc (suc k)))) g
bit_of_high k f g h = ap (bit k) (omega (arith, h))

module _ {Name : Type 0} (d : DnsPython Name) (laws : Laws d) where
  pub make_response-Answers : (q : Message Name) → Answers q (make_response d q) 1
  unfolding make_response
  make_response-Answers q =
      let f = (d.make_response q).flags in
      let g = bit_or f Code.aa in
      rw laws.use_edns_false_lem (record {
        same_id = laws.response_id q;
        same_question = laws.response_question q;
        no_edns = refl;
        is_response =
            omega (arith, bit-clear_bits 15 g Code.ra, bit-bit_or 15 f Code.aa, laws.response_qr q);
        authoritative =
            omega (arith, bit-clear_bits 10 g Code.ra, bit-bit_or 10 f Code.aa, bit-le-one 10 f);
        no_recursion = omega (arith, bit-clear_bits 7 g Code.ra, bit-le-one 7 g);
      })

  pub make_response-IsEmpty : (q : Message Name) → IsEmpty (make_response d q)
  unfolding make_response
  make_response-IsEmpty q = rw laws.use_edns_false_lem (record {
    answer = laws.response_answer q;
    authority = laws.response_authority q;
    additional = laws.response_additional q;
  })

  -- Writing a response code below 16 keeps what a response answers.
  pub set_rcode-Answers :
      (r : ℕ) (q m : Message Name) (aa : ℕ)
      → r < 16
      → Answers q m aa
      → Answers q (d.set_rcode r m) aa
  set_rcode-Answers r q m aa small a =
      let high = laws.set_rcode_flags r m in
      record {
        same_id = laws.set_rcode_id r m ∙ a.same_id;
        same_question = laws.set_rcode_question r m ∙ a.same_question;
        no_edns = laws.set_rcode_edns r m small ∙ a.no_edns;
        is_response = bit_of_high 11 (d.set_rcode r m).flags m.flags high ∙ a.is_response;
        authoritative = bit_of_high 6 (d.set_rcode r m).flags m.flags high ∙ a.authoritative;
        no_recursion = bit_of_high 3 (d.set_rcode r m).flags m.flags high ∙ a.no_recursion;
      }

  pub set_rcode-IsEmpty : (r : ℕ) (m : Message Name) → IsEmpty m → IsEmpty (d.set_rcode r m)
  set_rcode-IsEmpty r m e = record {
    answer = laws.set_rcode_answer r m ∙ e.answer;
    authority = laws.set_rcode_authority r m ∙ e.authority;
    additional = laws.set_rcode_additional r m ∙ e.additional;
  }

  error_response_eq :
      (q : Message Name) (r : ℕ)
      → error_response d q r
        ≡ d.set_rcode r (record (d.make_response q) {
          flags = clear_bits (clear_bits (d.make_response q).flags Code.aa) Code.ra;
          edns = none;
        })
  unfolding error_response
  error_response_eq q r = ap (d.set_rcode r) (laws.use_edns_false_lem _)

  -- An error response answers the query with the code, claims no authority and holds no record.
  pub error_response_lem :
      (q : Message Name) (r : ℕ)
      → r < 16
      → (d.rcode (error_response d q r) ≡ r)
        × Answers q (error_response d q r) 0
        × IsEmpty (error_response d q r)
  error_response_lem q r small =
      let f = (d.make_response q).flags in
      let g = clear_bits f Code.aa in
      rw (error_response_eq q r) (
        laws.rcode-set_rcode r _ small,
        set_rcode-Answers r q _ 0 small (record {
          same_id = laws.response_id q;
          same_question = laws.response_question q;
          no_edns = refl;
          is_response =
              omega (
                arith,
                bit-clear_bits 15 g Code.ra,
                bit-clear_bits 15 f Code.aa,
                laws.response_qr q,
              );
          authoritative =
              omega
                (arith, bit-clear_bits 10 g Code.ra, bit-clear_bits 10 f Code.aa, bit-le-one 10 f);
          no_recursion = omega (arith, bit-clear_bits 7 g Code.ra, bit-le-one 7 g);
        }),
        set_rcode-IsEmpty r _ (record {
          answer = laws.response_answer q;
          authority = laws.response_authority q;
          additional = laws.response_additional q;
        }),
      )

  -- The substitute for an unaffordable response answers the query with authority, tells the client
  -- to retry over TCP and holds no record.
  pub tc_truncated_lem :
      (q : Message Name)
      → Answers q (tc_truncated d q) 1
        × (bit 9 (tc_truncated d q).flags ≡ 1)
        × IsEmpty (tc_truncated d q)
  unfolding tc_truncated emptied
  tc_truncated_lem q =
      let a = make_response-Answers q in
      let f = (make_response d q).flags in
      (
        record {
          same_id = a.same_id;
          same_question = a.same_question;
          no_edns = a.no_edns;
          is_response = omega (arith, bit-bit_or 15 f Code.tc, a.is_response);
          authoritative = omega (arith, bit-bit_or 10 f Code.tc, a.authoritative);
          no_recursion = omega (arith, bit-bit_or 7 f Code.tc, a.no_recursion);
        },
        omega (arith, bit-bit_or 9 f Code.tc, bit-le-one 9 f),
        record { answer = refl; authority = refl; additional = refl },
      )

  serialize_udp_cases :
      (m : Message Name) (wire : List ℕ) (truncated : Bool) (m' : Message Name)
      → serialize_udp d m ≡ ok (wire, truncated, m')
      → (length wire ≤ 512)
        × (d.to_wire udp_max m' ≡ some wire)
        × ((truncated ≡ false) × (m' ≡ m)
            ⊎ (truncated ≡ true) × (d.to_wire udp_max m ≡ none) × (m' ≡ emptied d m))
  unfolding serialize_udp serialize_emptied
  serialize_udp_cases m wire truncated m' h = elim (Option-cases (d.to_wire udp_max m)) [
    | inr (w, fits) ↦ ground (arith, fits, laws.length-to_wire-le 512 m w (omega arith) fits)
    | inl big ↦ elim (Option-cases (d.to_wire udp_max (emptied d m))) [
      | inr (w, fits) ↦
          ground (arith, big, fits, laws.length-to_wire-le 512 (emptied d m) w (omega arith) fits)
      | inl never ↦ ground (arith, big, never)
    ]
  ]

  emptied-Truncated : (m : Message Name) → Truncated m (emptied d m)
  unfolding emptied
  emptied-Truncated m = record {
    same_id = refl;
    same_question = refl;
    same_edns = refl;
    truncated = omega (arith, bit-bit_or 9 m.flags Code.tc, bit-le-one 9 m.flags);
    other_flags = λ k h. bit-bit_or k m.flags Code.tc ∙ other_bits k m.flags h;
    empty = record { answer = refl; authority = refl; additional = refl };
  }

  serialize_udp_returns :
      (m : Message Name)
      → length m.question ≤ 1
      → (r : List ℕ × Bool × Message Name) × (serialize_udp d m ≡ ok r)
  unfolding serialize_udp serialize_emptied emptied
  serialize_udp_returns m one = elim (Option-cases (d.to_wire 512 m)) [
    | inr (w, fits) ↦ ((w, false, m), ground (arith, fits))
    | inl big ↦
        let (w, fits) = laws.to_wire_small (emptied d m) one refl refl refl in
        ((w, true, emptied d m), ground (arith, big, fits))
  ]

  -- What `serialize_udp` does with a message. What it returns is at most 512 bytes: of the message as
  -- it was, or, exactly if that does not fit, of a message with the same id, question and EDNS, with TC
  -- set, every other flag kept and no record. It returns if the message has at most one question.
  pub serialize_udp_lem :
      (m : Message Name)
      → ((wire : List ℕ) (truncated : Bool) (m' : Message Name)
          → serialize_udp d m ≡ ok (wire, truncated, m')
          → (length wire ≤ 512)
            × (d.to_wire 512 m' ≡ some wire)
            × ((truncated ≡ false) × (m' ≡ m)
                ⊎ (truncated ≡ true) × (d.to_wire 512 m ≡ none) × Truncated m m'))
        × (length m.question ≤ 1 → (r : List ℕ × Bool × Message Name) × (serialize_udp d m ≡ ok r))
  serialize_udp_lem m = (
    λ wire truncated m' h.
        let (short, rendered, kind) = serialize_udp_cases m wire truncated m' h in
        (
          short,
          rendered,
          elim kind [
            | inl same ↦ inl same
            | inr (t, big, e) ↦ inr (t, big, subst (Truncated m) (sym e) (emptied-Truncated m))
          ],
        ),
    serialize_udp_returns m,
  )
