-- ===== src/Wire/Serialize.antt =====
-- What `_serialize` returns over each transport, and when.
use honeycow.Prelude.{
  ℕ, ◌≤◌, ◌≡◌, refl, sym, subst, true, false, none, some, List, length, arith, bit, bit-bit_or,
  Result, ok, raise, too_big, ◌>>=◌, Option-cases, inl, inr, Bool,
}
use honeycow.Base
use honeycow.Base.Responses.{Answers, IsEmpty}
use honeycow.Dispatch.Outcomes.{Yields, Returns}
use honeycow.Dns.{Message, DnsPython}
use honeycow.Dns.Code
use honeycow.Dns.Laws.{Laws}
use honeycow.Wire.{Transport, udp, tcp, serialize}

-- A result that is a value has the property.
abbrev pub Ensures {ℓ} : {A : Type ℓ} → Result A → (A → Type 0) → Type 0
Ensures (ok a) P = P a
Ensures (raise e) P = Unit {0}

pub Ensures-Returns {ℓ} : {A : Type ℓ} (P : A → Type 0) (r : Result A) → Returns r P → Ensures r P
Ensures-Returns P (ok a) p = p
Ensures-Returns P (raise e) p = tt

pub Ensures-Yields {ℓ} :
    {A : Type ℓ} (C : Type 0) (P : A → Type 0) (r : Result A) → Yields C r P → Ensures r P
Ensures-Yields C P (ok a) p = p
Ensures-Yields C P (raise e) p = tt

pub Ensures-bind {ℓ κ} :
    {A : Type ℓ} {B : Type κ} (P : A → Type 0) (Q : B → Type 0) (r : Result A) (f : A → Result B)
    → Ensures r P
    → ((a : A) → P a → Ensures (f a) Q)
    → Ensures (r >>= f) Q
Ensures-bind P Q (ok a) f p k = k a p
Ensures-bind P Q (raise e) f p k = tt

pub Returns-bind {ℓ κ} :
    {A : Type ℓ} {B : Type κ} (P : A → Type 0) (Q : B → Type 0) (r : Result A) (f : A → Result B)
    → Returns r P
    → ((a : A) → P a → Returns (f a) Q)
    → Returns (r >>= f) Q
Returns-bind P Q (ok a) f p k = k a p
Returns-bind P Q (raise e) f p k = p

-- The bytes that a transport carries.
abbrev pub max_wire : Transport → ℕ
max_wire udp = 512
max_wire tcp = 65535

pub max_wire_least : (t : Transport) → 512 ≤ max_wire t
max_wire_least udp = omega arith
max_wire_least tcp = omega arith

-- The query asks at most one question, and the message answers it: same id and question, no OPT
-- record, QR set and RA clear.
pub record Answering {Name : Type 0} (q m : Message Name) : Type 0 where
  pub few : length q.question ≤ 1
  pub same_id : m.id ≡ q.id
  pub same_question : m.question ≡ q.question
  pub no_edns : m.edns ≡ none
  pub is_response : bit 15 m.flags ≡ 1
  pub no_recursion : bit 7 m.flags ≡ 0

module _ {Name : Type 0} where
  pub Answering-Answers :
      (q m : Message Name) (aa : ℕ) → length q.question ≤ 1 → Answers q m aa → Answering q m
  Answering-Answers q m aa one a = record {
    few = one;
    same_id = a.same_id;
    same_question = a.same_question;
    no_edns = a.no_edns;
    is_response = a.is_response;
    no_recursion = a.no_recursion;
  }

module _ {Name : Type 0} (d : DnsPython Name) (laws : Laws d) where
  emptied-Answering : (q m : Message Name) → Answering q m → Answering q (Base.emptied d m)
  unfolding Base.emptied
  emptied-Answering q m a = record {
    few = a.few;
    same_id = a.same_id;
    same_question = a.same_question;
    no_edns = a.no_edns;
    is_response = omega (arith, bit-bit_or 15 m.flags Code.tc, a.is_response);
    no_recursion = omega (arith, bit-bit_or 7 m.flags Code.tc, a.no_recursion);
  }

  serialize_fits :
      (m : Message Name) (w : List ℕ) (t : Transport)
      → d.to_wire (max_wire t) m ≡ some w
      → serialize d m t ≡ ok (w, false, m)
  unfolding serialize Base.serialize_udp Base.serialize_tcp
  serialize_fits m w udp h = ground (arith, h)
  serialize_fits m w tcp h = ground (arith, h)

  serialize_truncates :
      (m : Message Name) (w : List ℕ)
      → d.to_wire 512 m ≡ none
      → d.to_wire 512 (Base.emptied d m) ≡ some w
      → serialize d m udp ≡ ok (w, true, Base.emptied d m)
  unfolding serialize Base.serialize_udp Base.serialize_emptied
  serialize_truncates m w big h = ground (arith, big, h)

  serialize_never :
      (m : Message Name)
      → d.to_wire 512 m ≡ none
      → d.to_wire 512 (Base.emptied d m) ≡ none
      → serialize d m udp ≡ raise too_big
  unfolding serialize Base.serialize_udp Base.serialize_emptied
  serialize_never m big never = ground (arith, big, never)

  emptied-HasQr : (m : Message Name) → bit 15 m.flags ≡ 1 → bit 15 (Base.emptied d m).flags ≡ 1
  unfolding Base.emptied
  emptied-HasQr m qr = omega (arith, bit-bit_or 15 m.flags Code.tc, qr)

  serialize_raises :
      (m : Message Name) → d.to_wire 65535 m ≡ none → serialize d m tcp ≡ raise too_big
  unfolding serialize Base.serialize_tcp
  serialize_raises m big = ground (arith, big)

  -- Serializing keeps QR.
  pub serialize-HasQr :
      (m : Message Name) (t : Transport)
      → bit 15 m.flags ≡ 1
      → Ensures (serialize d m t) (λ r. bit 15 r.2.flags ≡ 1)
  serialize-HasQr m udp qr = elim (Option-cases (d.to_wire 512 m)) [
    | inr (w, fits) ↦
        subst (λ r. Ensures r (λ r. bit 15 r.2.flags ≡ 1)) (sym (serialize_fits m w udp fits)) qr
    | inl big ↦ elim (Option-cases (d.to_wire 512 (Base.emptied d m))) [
      | inr (w, fits) ↦
          subst (λ r. Ensures r (λ r. bit 15 r.2.flags ≡ 1))
            (sym (serialize_truncates m w big fits)) (emptied-HasQr m qr)
      | inl never ↦
          subst (λ r. Ensures r (λ r. bit 15 r.2.flags ≡ 1)) (sym (serialize_never m big never)) tt
    ]
  ]
  serialize-HasQr m tcp qr = elim (Option-cases (d.to_wire 65535 m)) [
    | inr (w, fits) ↦
        subst (λ r. Ensures r (λ r. bit 15 r.2.flags ≡ 1)) (sym (serialize_fits m w tcp fits)) qr
    | inl big ↦ subst (λ r. Ensures r (λ r. bit 15 r.2.flags ≡ 1)) (sym (serialize_raises m big)) tt
  ]

  -- The bytes are those of an answer to the query, and the transport carries them.
  abbrev pub Carries : Message Name → Transport → List ℕ × Bool × Message Name → Type 0
  Carries q t r = (length r.0 ≤ max_wire t) × Answering q r.2

  emptied_small :
      (m : Message Name)
      → length m.question ≤ 1
      → (w : List ℕ) × (d.to_wire 512 (Base.emptied d m) ≡ some w)
  unfolding Base.emptied
  emptied_small m one = laws.to_wire_small _ one refl refl refl

  question_count :
      (q m : Message Name) → Answering q m → length q.question ≤ 1 → length m.question ≤ 1
  question_count q m a one = rw a.same_question one

  -- A response of at most one question is serialized, over TCP unless it is too big.
  pub serialize-Carries :
      (q m : Message Name) (t : Transport)
      → length q.question ≤ 1
      → Answering q m
      → Ensures (serialize d m t) (Carries q t)
  serialize-Carries q m udp one a = elim (Option-cases (d.to_wire 512 m)) [
    | inr (w, fits) ↦
        subst (λ r. Ensures r (Carries q udp)) (sym (serialize_fits m w udp fits))
          (laws.length-to_wire-le 512 m w (omega arith) fits, a)
    | inl big ↦
        let (w, fits) = emptied_small m (question_count q m a one) in
        subst (λ r. Ensures r (Carries q udp)) (sym (serialize_truncates m w big fits))
          (
            laws.length-to_wire-le 512 (Base.emptied d m) w (omega arith) fits,
            emptied-Answering q m a,
          )
  ]
  serialize-Carries q m tcp one a = elim (Option-cases (d.to_wire 65535 m)) [
    | inr (w, fits) ↦
        subst (λ r. Ensures r (Carries q tcp)) (sym (serialize_fits m w tcp fits))
          (laws.length-to_wire-le 65535 m w (omega arith) fits, a)
    | inl big ↦ subst (λ r. Ensures r (Carries q tcp)) (sym (serialize_raises m big)) tt
  ]

  -- A response without records is serialized over either transport.
  pub serialize_empty-Carries :
      (q m : Message Name) (t : Transport)
      → length q.question ≤ 1
      → Answering q m
      → IsEmpty m
      → Returns (serialize d m t) (Carries q t)
  serialize_empty-Carries q m t one a e =
      let (w, fits) =
        laws.to_wire_small m (question_count q m a one) e.answer e.authority e.additional in
      let carried = laws.to_wire_more 512 (max_wire t) m w (omega arith) (max_wire_least t) fits in
      subst (λ r. Returns r (Carries q t)) (sym (serialize_fits m w t carried))
        (laws.length-to_wire-le (max_wire t) m w (max_wire_least t) carried, a)
