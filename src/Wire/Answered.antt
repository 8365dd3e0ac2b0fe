-- ===== src/Wire/Answered.antt =====
-- What the results of `handle_wire` keep to, and what becomes of an answer that is sent back.
use honeycow.Prelude.{
  ℕ, ◌≤◌, ◌≡◌, refl, sym, subst, Bool, true, false, not, Bool-cases, inl, inr, if◌then◌else◌,
  Option, none, some, List, [], ◌∷◌, String, length, arith, ◌==◌, bit, bit_and, bit-bit_and, Result,
  ok, raise,
}
use honeycow.Base
use honeycow.Base.Responses.{
  Answers, IsEmpty, error_response_lem, make_response-Answers, make_response-IsEmpty,
  set_rcode-Answers, set_rcode-IsEmpty,
}
use honeycow.Dispatch
use honeycow.Dispatch.Handlers.{Handler}
use honeycow.Dispatch.Outcomes.{Returns, Returns-if, Returns-map, Yields-map}
use honeycow.Dispatch.Replies.{Reply, IsAddressed, authority}
use honeycow.Dispatch.Total.{Serves, dispatch-Yields}
use honeycow.Dns.{Question, Message, Parsed, message, dns_exception, DnsPython}
use honeycow.Dns.Code
use honeycow.Dns.Laws.{Laws}
use honeycow.Exemptions
use honeycow.Wire.{
  Transport, Site, Header, Handled, wire_header, formerr_message, formerr_wire, minimal_formerr,
  serialize, respond, dispatched, or_servfail, handle_query, handle_parsed, handle_wire,
}
use honeycow.Wire.Formerr.{formerr_message_lem}
use honeycow.Wire.Serialize.{
  Ensures, Ensures-Returns, Ensures-Yields, Ensures-bind, Returns-bind, max_wire, max_wire_least,
  Answering, Answering-Answers, Carries, serialize-Carries, serialize_empty-Carries,
  serialize-HasQr,
}

-- The response that goes with a query; a response without one is that to an unparsable packet.
abbrev pub Matches : {Name : Type 0} → Option (Message Name) → Option (Message Name) → Type 0
Matches none none = Unit {0}
Matches none (some m) = bit 15 m.flags ≡ 1
Matches (some q) none = ⊥
Matches (some q) (some m) = Answering q m

abbrev HasQr : {Name : Type 0} → Option (Message Name) → Type 0
HasQr none = Unit {0}
HasQr (some m) = bit 15 m.flags ≡ 1

Matches-HasQr : {Name : Type 0} (q r : Option (Message Name)) → Matches q r → HasQr r
Matches-HasQr none none a = tt
Matches-HasQr none (some m) a = a
Matches-HasQr (some q) none a = absurd a
Matches-HasQr (some q) (some m) a = a.is_response

abbrev pub IsAnswer : {Name : Type 0} → Transport → Handled Name → Type 0
IsAnswer t r = (length r.wire ≤ max_wire t) × Matches r.query r.response

module _ {Name : Type 0} (d : DnsPython Name) (laws : Laws d) where
  respond-IsAnswer :
      (q : Message Name) (kind : String) (h : Handler) (t : Transport) (m : Message Name) (aa : ℕ)
      → length q.question ≤ 1
      → Answers q m aa
      → IsEmpty m
      → Returns (respond d q kind h t m) (IsAnswer t)
  unfolding respond
  respond-IsAnswer q kind h t m aa one a e =
      Returns-bind (Carries d laws q t) (IsAnswer t) (serialize d m t) _
        (serialize_empty-Carries d laws q m t one (Answering-Answers q m aa one a) e) (λ r p. p)

  formerr_header :
      (h : Header) (w : List ℕ)
      → d.to_wire 512 (formerr_message d h) ≡ some w
      → formerr_wire d (some h) ≡ ok (w, some (formerr_message d h))
  unfolding formerr_wire
  formerr_header h w fits = ground (arith, fits)

  new_message_question_count : (h : Header) → length (formerr_message d h).question ≤ 1
  unfolding formerr_message
  new_message_question_count h =
      rw (laws.set_rcode_question _ _, laws.new_message_question h.id) (omega arith)

  -- The bytes and the message of `_minimal_formerr`.
  abbrev Formed : Transport → List ℕ × Option (Message Name) → Type 0
  Formed t r = (length r.0 ≤ max_wire t) × Matches none r.1

  formerr_wire-Formed : (o : Option Header) (t : Transport) → Returns (formerr_wire d o) (Formed t)
  unfolding formerr_wire
  formerr_wire-Formed none t = (omega (arith, max_wire_least t), tt)
  formerr_wire-Formed (some h) t =
      let l = formerr_message_lem d laws h in
      let (w, fits) =
        laws.to_wire_small (formerr_message d h) (new_message_question_count h) l.3 l.4 l.5 in
      subst (λ r. Returns r (Formed t)) (sym (formerr_header h w fits))
        (
          omega (
            arith,
            max_wire_least t,
            laws.length-to_wire-le 512 (formerr_message d h) w (omega arith) fits,
          ),
          l.1.qr,
        )

module _ {Name : Type 0} (site : Site Name) (laws : Laws site.dns) (host : Name) (hosts : List Name)
    (some_host : site.identity.ns_hosts ≡ host ∷ hosts) where
  open site use {dns as d, identity, ip_address, version_bind, exemptions, source_exemptions}

  dispatched-IsAnswer :
      (q : Message Name) (t : Transport) (src_ip : String)
      → (question : Question Name) (rest : List (Question Name)) → q.question ≡ question ∷ rest
      → length q.question ≤ 1
      → Ensures (dispatched site q t src_ip) (IsAnswer t)
  unfolding dispatched
  dispatched-IsAnswer q t src_ip question rest asked one =
      Ensures-bind (λ r. Answering q r.0) (IsAnswer t)
        (Dispatch.dispatch d identity ip_address version_bind q exemptions source_exemptions src_ip)
        _
        (Ensures-Yields (IsAddressed d identity) (λ r. Answering q r.0) _
          (Yields-map (IsAddressed d identity)
            (λ r.
              Reply d q question.name r.0 r.1
              × Serves (Dispatch.source_exempt ip_address source_exemptions src_ip)
                  (Exemptions.is_exempt d.name_discrete d.is_subdomain exemptions question.name)
                  question.rdclass question.rdtype r.1)
            (λ r. Answering q r.0) _
            (λ r reply. Answering-Answers q r.0 (authority r.1) one reply.0.answers)
            (dispatch-Yields d laws identity q question rest asked host hosts some_host ip_address
              version_bind exemptions source_exemptions src_ip)))
        λ r a.
          Ensures-bind (Carries d laws q t) (IsAnswer t) (serialize d r.0 t) _
            (serialize-Carries d laws q r.0 t one a) (λ r p. p)

  or_servfail-IsAnswer :
      (q : Message Name) (t : Transport) (r : Result (Handled Name))
      → length q.question ≤ 1
      → Ensures r (IsAnswer t)
      → Returns (or_servfail site q t r) (IsAnswer t)
  unfolding or_servfail Base.servfail
  or_servfail-IsAnswer q t (ok r) one p = p
  or_servfail-IsAnswer q t (raise e) one p =
      let l = error_response_lem d laws q 2 (omega arith) in
      respond-IsAnswer d laws q "SERVFAIL" Handler.handler_crash t _ 0 one l.1 l.2

  handle_query-IsAnswer :
      (q : Message Name) (t : Transport) (src_ip : String)
      → length q.question ≤ 1
      → Returns (handle_query site q t src_ip) (IsAnswer t)
  unfolding handle_query Base.notimp
  handle_query-IsAnswer q t src_ip one =
      Returns-if (IsAnswer t) (not (bit_and q.flags Code.qr == 0)) _ _
        (λ _. (omega (arith, max_wire_least t), tt))
        λ _.
          Returns-if (IsAnswer t) (not (d.opcode q == Code.query)) _ _
            (λ _.
              let l = error_response_lem d laws q 4 (omega arith) in
              respond-IsAnswer d laws q "NOTIMP" Handler.bad_opcode t _ 0 one l.1 l.2)
            λ _.
              Returns-if (IsAnswer t) (not (length q.question == 1)) _ _
                (λ _.
                  respond-IsAnswer d laws q "FORMERR" Handler.bad_qcount t _ 1 one
                    (set_rcode-Answers d laws 1 q _ 1 (omega arith)
                      (make_response-Answers d laws q))
                    (set_rcode-IsEmpty d laws 1 _ (make_response-IsEmpty d laws q)))
                λ counted. or_servfail-IsAnswer q t _ one (asked q.question refl counted)
    where
      asked :
          (l : List (Question Name))
          → q.question ≡ l
          → not (length q.question == 1) ≡ false
          → Ensures (dispatched site q t src_ip) (IsAnswer t)
      asked [] e counted =
          absurd (ground (arith, subst (λ l. not (length l == 1) ≡ false) e counted))
      asked (question ∷ rest) e counted = dispatched-IsAnswer q t src_ip question rest e one

  handle_parsed-IsAnswer :
      (bytes : List ℕ) (t : Transport) (src_ip : String) (p : Parsed Name)
      → ((q : Message Name) → p ≡ message q → length q.question ≤ 1)
      → Returns (handle_parsed site bytes t src_ip p) (IsAnswer t)
  unfolding handle_parsed minimal_formerr
  handle_parsed-IsAnswer bytes t src_ip (message q) one =
      handle_query-IsAnswer q t src_ip (one q refl)
  handle_parsed-IsAnswer bytes t src_ip (dns_exception name) one =
      Returns-bind (Formed d laws t) (IsAnswer t) (formerr_wire d (wire_header d bytes)) _
        (formerr_wire-Formed d laws (wire_header d bytes) t) (λ r p. p)

  -- Over either transport, a packet that does not parse or that asks at most one question is
  -- handled without an exception. The answer fits in what the transport carries (512 bytes over
  -- UDP); if there is a query, the message that it renders has the query's id and question, no OPT
  -- record, QR set and RA clear.
  pub handle_wire_lem :
      (bytes : List ℕ) (t : Transport) (src_ip : String)
      → ((q : Message Name) → d.from_wire bytes ≡ message q → length q.question ≤ 1)
      → Returns (handle_wire site bytes t src_ip) (IsAnswer t)
  unfolding handle_wire
  handle_wire_lem bytes t src_ip = handle_parsed-IsAnswer bytes t src_ip (d.from_wire bytes)

  -- What `handle_query` returns for a packet that it drops.
  abbrev Dropped : Result (Handled Name) → Type 0
  Dropped result = Returns result λ r. (r.wire ≡ []) × (r.response ≡ none)

  qr-bits : (flags : ℕ) → bit 15 flags ≡ 1 → not (bit_and flags Code.qr == 0) ≡ true
  qr-bits flags qr = ground (arith, bit-bit_and 15 flags Code.qr, qr)

  handle_query-Dropped :
      (q : Message Name) (t : Transport) (src_ip : String)
      → bit 15 q.flags ≡ 1
      → Dropped (handle_query site q t src_ip)
  unfolding handle_query
  handle_query-Dropped q t src_ip qr = rw (qr-bits q.flags qr) (refl, refl)

  respond-HasQr :
      (q : Message Name) (kind : String) (h : Handler) (t : Transport) (m : Message Name)
      → bit 15 m.flags ≡ 1
      → Ensures (respond d q kind h t m) (λ r. HasQr r.response)
  unfolding respond
  respond-HasQr q kind h t m qr =
      Ensures-bind (λ r. bit 15 r.2.flags ≡ 1) (λ r. HasQr r.response) (serialize d m t) _
        (serialize-HasQr d laws m t qr) (λ r p. p)

  Ensures-if :
      {A : Type 0} (P : A → Type 0) (b : Bool) (x y : Result A)
      → Ensures x P
      → (b ≡ false → Ensures y P)
      → Ensures (if b then x else y) P
  Ensures-if P true x y f g = f
  Ensures-if P false x y f g = g refl

  refused_count :
      (q : Message Name) (t : Transport) (src_ip : String)
      → (length q.question == 1) ≡ false
      → Ensures (handle_query site q t src_ip) (λ r. HasQr r.response)
  unfolding handle_query Base.notimp
  refused_count q t src_ip other =
      Ensures-if (λ r. HasQr r.response) (not (bit_and q.flags Code.qr == 0)) _ _ tt
        λ _.
          Ensures-if (λ r. HasQr r.response) (not (d.opcode q == Code.query)) _ _
            (respond-HasQr q "NOTIMP" Handler.bad_opcode t _
              (error_response_lem d laws q 4 (omega arith)).1.is_response)
            λ _.
              Ensures-if (λ r. HasQr r.response) (not (length q.question == 1)) _ _
                (respond-HasQr q "FORMERR" Handler.bad_qcount t _
                  (set_rcode-Answers d laws 1 q _ 1 (omega arith)
                    (make_response-Answers d laws q)).is_response)
                (λ one. absurd (ground (arith, other, one)))

  -- A query of one question is answered as above; every other answer has QR set whatever it asks.
  handle_query-HasQr :
      (q : Message Name) (t : Transport) (src_ip : String)
      → Ensures (handle_query site q t src_ip) (λ r. HasQr r.response)
  handle_query-HasQr q t src_ip = elim (Bool-cases (length q.question == 1)) [
    | inl one ↦
        Ensures-Returns (λ (r : Handled Name). HasQr r.response) _
          (Returns-map (IsAnswer t) (λ r. HasQr r.response) _
            (λ r a. Matches-HasQr r.query r.response a.1)
            (handle_query-IsAnswer q t src_ip (ground (arith, one))))
    | inr other ↦ refused_count q t src_ip other
  ]

  handle_parsed-HasQr :
      (bytes : List ℕ) (t : Transport) (src_ip : String) (p : Parsed Name)
      → Ensures (handle_parsed site bytes t src_ip p) (λ r. HasQr r.response)
  unfolding handle_parsed
  handle_parsed-HasQr bytes t src_ip (message q) = handle_query-HasQr q t src_ip
  handle_parsed-HasQr bytes t src_ip (dns_exception name) =
      Ensures-Returns (λ (r : Handled Name). HasQr r.response) _
        (Returns-map (IsAnswer t) (λ r. HasQr r.response) _
          (λ r a. Matches-HasQr r.query r.response a.1)
          (handle_parsed-IsAnswer bytes t src_ip (dns_exception name) (λ q e. ground (arith, e))))

  -- With an NS host configured, the message of any answer to any packet, sent back to the server by
  -- anyone over either transport, is dropped.
  pub handle_wire-Dropped :
      (bytes : List ℕ) (t : Transport) (src_ip : String) (r : Handled Name)
      → handle_wire site bytes t src_ip ≡ ok r
      → (m : Message Name) → r.response ≡ some m
      → (t' : Transport) (src_ip' : String) → Dropped (handle_query site m t' src_ip')
  unfolding handle_wire
  handle_wire-Dropped bytes t src_ip r e m rendered t' src_ip' =
      let a : HasQr r.response =
        subst (λ x. Ensures x (λ r. HasQr r.response)) e
          (handle_parsed-HasQr bytes t src_ip (d.from_wire bytes)) in
      handle_query-Dropped m t' src_ip' (subst HasQr rendered a)
