-- ===== src/Dispatch/Replies.antt =====
-- What each branch of `dispatch` returns: the response, its owner names and the handler's place.
use honeycow.Prelude.{
  ℕ, ◌<◌, ◌≡◌, ◌≢◌, refl, ◌∙◌, true, false, List, [], ◌∷◌, All, arith, same_string, String,
  if◌then◌else◌, ◌==◌, Result, ok, raise, ◌>>=◌,
}
use honeycow.Dns.{Rdata, RRset, Message, DnsPython}
use honeycow.Dns.Code
use honeycow.Dns.Laws.{Laws}
use honeycow.Base
use honeycow.Base.{Identity}
use honeycow.Base.Responses.{
  Answers, IsEmpty, make_response-Answers, make_response-IsEmpty, error_response_lem,
  set_rcode-Answers, set_rcode-IsEmpty,
}
use honeycow.Dispatch.Handlers.{Handler}
use honeycow.Dispatch.Outcomes.{Yields, Yields-if, Yields-bind}
use honeycow.Dispatch.{
  attach_glue, attach_authority_ns, append_answer, delegated, answer_a, answer_v6, answer_ns,
  answer_txt, answer_aaaa, answer_soa, answer_mx, attach_mx_glue,
}

-- The responses that carry an error code: no record, no authority.
abbrev pub error_code : Handler → ℕ
error_code Handler.exempt_source = 5
error_code Handler.exempt = 5
error_code Handler.refused_class = 5
error_code Handler.refused_xfr = 5
error_code Handler.formerr_meta_qtype = 1
error_code _ = 0

abbrev pub authority : Handler → ℕ
authority h = if error_code h == 0 then 1 else 0

module _ {Name : Type 0} (d : DnsPython Name) where
  -- A response to a question by a handler: it answers the query, its answers are owned by the
  -- queried name, and with an error code it is empty.
  pub record Reply (q : Message Name) (owner : Name) (m : Message Name) (h : Handler) : Type 0 where
    pub answers : Answers q m (authority h)
    pub owners : All (λ (s : RRset Name). s.name ≡ owner) m.answer
    pub empty : error_code h ≢ 0 → IsEmpty m × (d.rcode m ≡ error_code h)

-- The four addresses are ones that dnspython takes; the two of IPv6 may be empty.
pub record IsAddressed {Name : Type 0} (d : DnsPython Name) (identity : Identity Name)
    : Type 0 where
  pub public_a : d.is_ipv4 identity.public_a ≡ true
  pub sinkhole_a : d.is_ipv4 identity.sinkhole_a ≡ true
  pub public_aaaa :
      same_string identity.public_aaaa "" ≡ false → d.is_ipv6 identity.public_aaaa ≡ true
  pub sinkhole_aaaa :
      same_string identity.sinkhole_aaaa "" ≡ false → d.is_ipv6 identity.sinkhole_aaaa ≡ true

module _ {Name : Type 0} (d : DnsPython Name) (laws : Laws d) where
  pub synth_owner :
      (n : Name) (c y : ℕ) (r : Rdata Name) (t : ℕ) → (d.add (d.new_rrset n c y) r t).name ≡ n
  synth_owner n c y r t = laws.add_name _ r t ∙ laws.new_rrset_name n c y

  pub add_hosts_owner :
      (t : ℕ) (hosts : List Name) (s : RRset Name) → (Base.add_hosts d t hosts s).name ≡ s.name
  unfolding Base.add_hosts
  add_hosts_owner t [] s = refl
  add_hosts_owner t (host ∷ hosts) s =
      add_hosts_owner t hosts (d.add s (Rdata.ns host) t) ∙ laws.add_name s (Rdata.ns host) t

  module _ (identity : Identity Name) (q : Message Name) (owner : Name) where
    -- An error response.
    pub error-Reply :
        (h : Handler)
        → error_code h < 16
        → error_code h ≢ 0
        → Reply d q owner (Base.error_response d q (error_code h)) h
    error-Reply h small wrong =
        let (code, answers, empty) = error_response_lem d laws q (error_code h) small in
        record {
          answers = (let e : authority h ≡ 0 = ground arith in rw e answers);
          owners = rw empty.answer tt;
          empty = λ _. (empty, code);
        }

    -- An authoritative response with what the fold of the branch appended.
    pub positive :
        (m : Message Name)
        → Answers q m 1
        → All (λ (s : RRset Name). s.name ≡ owner) m.answer
        → (h : Handler) → error_code h ≡ 0
        → Reply d q owner m h
    positive m a o h e = record { answers = rw e a; owners = o; empty = λ ne. absurd (ne e) }

    -- The response with its one answer.
    pub answered :
        (s : RRset Name)
        → s.name ≡ owner
        → (h : Handler) → error_code h ≡ 0
        → Reply d q owner (append_answer d identity s (Base.make_response d q)) h
    unfolding append_answer
    answered s e h good =
        let a = make_response-Answers d laws q in
        positive _
          (record {
            same_id = a.same_id;
            same_question = a.same_question;
            no_edns = a.no_edns;
            is_response = a.is_response;
            authoritative = a.authoritative;
            no_recursion = a.no_recursion;
          })
          (rw ((make_response-IsEmpty d laws q).answer) (e, tt)) h good

    -- The other two sections do not matter to a reply.
    pub resectioned :
        (m : Message Name) (au ad : List (RRset Name)) (h : Handler)
        → error_code h ≡ 0
        → Reply d q owner m h
        → Reply d q owner (record m { authority = au; additional = ad }) h
    resectioned m au ad h good r =
        let a = r.answers in
        record {
          answers = record {
            same_id = a.same_id;
            same_question = a.same_question;
            no_edns = a.no_edns;
            is_response = a.is_response;
            authoritative = a.authoritative;
            no_recursion = a.no_recursion;
          };
          owners = r.owners;
          empty = λ ne. absurd (ne good);
        }

    abbrev pub C : Type 0
    C = IsAddressed d identity

    abbrev Owned : Name → RRset Name → Type 0
    Owned n s = s.name ≡ n

    abbrev IsAnything : List (RRset Name) → Type 0
    IsAnything rrsets = Unit

    synth_a-Yields :
        (n : Name) (ttl : ℕ) (addr : String)
        → (C → d.is_ipv4 addr ≡ true)
        → Yields C (Base.synth_a_rrset d n ttl addr) (Owned n)
    unfolding Base.synth_a_rrset
    synth_a-Yields n ttl addr valid =
        Yields-if C (Owned n) (d.is_ipv4 addr) _ _ (λ _. synth_owner n _ _ _ ttl)
          λ e c. ground (arith, e, valid c)

    synth_aaaa-Yields :
        (n : Name) (ttl : ℕ) (addr : String)
        → (C → d.is_ipv6 addr ≡ true)
        → Yields C (Base.synth_aaaa_rrset d n ttl addr) (Owned n)
    unfolding Base.synth_aaaa_rrset
    synth_aaaa-Yields n ttl addr valid =
        Yields-if C (Owned n) (d.is_ipv6 addr) _ _ (λ _. synth_owner n _ _ _ ttl)
          λ e c. ground (arith, e, valid c)

    aaaa_glue-Yields :
        (n : Name) (ttl : ℕ) → Yields C (Base.aaaa_glue d n ttl identity.public_aaaa) IsAnything
    unfolding Base.aaaa_glue
    aaaa_glue-Yields n ttl =
        Yields-if C IsAnything (same_string identity.public_aaaa "") _ _ (λ _. tt)
          λ v6.
            Yields-bind C (Owned n) IsAnything (Base.synth_aaaa_rrset d n ttl identity.public_aaaa)
              _ (synth_aaaa-Yields n ttl identity.public_aaaa (λ c. c.public_aaaa v6)) (λ s _. tt)

    ns_glue_rrsets-Yields :
        (ttl : ℕ) (hosts : List Name)
        → Yields C
            (Base.ns_glue_rrsets d ttl hosts identity.public_a identity.public_aaaa)
            IsAnything
    unfolding Base.ns_glue_rrsets
    ns_glue_rrsets-Yields ttl [] = tt
    ns_glue_rrsets-Yields ttl (host ∷ hosts) =
        Yields-bind C (Owned host) IsAnything (Base.synth_a_rrset d host ttl identity.public_a) _
          (synth_a-Yields host ttl identity.public_a (λ c. c.public_a))
          λ s _.
            Yields-bind C IsAnything IsAnything (Base.aaaa_glue d host ttl identity.public_aaaa) _
              (aaaa_glue-Yields host ttl)
              λ v6 _.
                Yields-bind C IsAnything IsAnything
                  (Base.ns_glue_rrsets d ttl hosts identity.public_a identity.public_aaaa) _
                  (ns_glue_rrsets-Yields ttl hosts) (λ rest _. tt)

    pub glued :
        (m : Message Name) (h : Handler)
        → error_code h ≡ 0
        → Reply d q owner m h
        → Yields C (attach_glue d identity m) (λ m'. Reply d q owner m' h)
    unfolding attach_glue
    glued m h good r =
        Yields-bind C IsAnything (λ m'. Reply d q owner m' h)
          (Base.ns_glue_rrsets d Base.ttl_ns identity.ns_hosts identity.public_a
            identity.public_aaaa)
          _ (ns_glue_rrsets-Yields Base.ttl_ns identity.ns_hosts)
          (λ rrsets _. resectioned m _ _ h good r)

    pub delegated-Reply :
        (m : Message Name) (h : Handler)
        → error_code h ≡ 0
        → Reply d q owner m h
        → Yields C (delegated d identity owner m) (λ m'. Reply d q owner m' h)
    unfolding delegated attach_authority_ns
    delegated-Reply m h good r = glued _ h good (resectioned m _ _ h good r)

    pub mx_glued :
        (host : Name) (m : Message Name)
        → Reply d q owner m Handler.synth_mx
        → Yields C (attach_mx_glue d identity host m) (λ m'. Reply d q owner m' Handler.synth_mx)
    unfolding attach_mx_glue
    mx_glued host m r =
        Yields-bind C (Owned host) (λ m'. Reply d q owner m' Handler.synth_mx)
          (Base.synth_a_rrset d host Base.ttl_ns identity.public_a) _
          (synth_a-Yields host Base.ttl_ns identity.public_a (λ c. c.public_a))
          λ s _.
            Yields-bind C IsAnything (λ m'. Reply d q owner m' Handler.synth_mx)
              (Base.aaaa_glue d host Base.ttl_ns identity.public_aaaa) _
              (aaaa_glue-Yields host Base.ttl_ns)
              (λ v6 _. resectioned m _ _ Handler.synth_mx refl r)

    pub answer_a-Reply :
        Yields C (answer_a d identity q owner) (λ m. Reply d q owner m Handler.synth_a)
    unfolding answer_a
    answer_a-Reply =
        Yields-bind C (Owned owner) (λ m. Reply d q owner m Handler.synth_a)
          (Base.synth_a_rrset d owner Base.ttl_sinkhole identity.sinkhole_a) _
          (synth_a-Yields owner Base.ttl_sinkhole identity.sinkhole_a (λ c. c.sinkhole_a))
          λ s e. delegated-Reply _ Handler.synth_a refl (answered s e Handler.synth_a refl)

    pub answer_v6-Reply :
        same_string identity.sinkhole_aaaa "" ≡ false
        → Yields C (answer_v6 d identity q owner) (λ m. Reply d q owner m Handler.synth_aaaa)
    unfolding answer_v6
    answer_v6-Reply v6 =
        Yields-bind C (Owned owner) (λ m. Reply d q owner m Handler.synth_aaaa)
          (Base.synth_aaaa_rrset d owner Base.ttl_sinkhole identity.sinkhole_aaaa) _
          (synth_aaaa-Yields owner Base.ttl_sinkhole identity.sinkhole_aaaa
            (λ c. c.sinkhole_aaaa v6))
          λ s e. delegated-Reply _ Handler.synth_aaaa refl (answered s e Handler.synth_aaaa refl)

    pub answer_ns-Reply :
        Yields C (answer_ns d identity q owner) (λ m. Reply d q owner m Handler.synth_ns)
    unfolding answer_ns Base.synth_ns_rrset
    answer_ns-Reply = glued _ Handler.synth_ns refl (
        answered _ (add_hosts_owner _ identity.ns_hosts _ ∙ laws.new_rrset_name owner _ _)
          Handler.synth_ns refl)

    pub answer_txt-Reply :
        Yields C (answer_txt d identity q owner) (λ m. Reply d q owner m Handler.synth_txt)
    unfolding answer_txt Base.synth_txt_rrset
    answer_txt-Reply =
        delegated-Reply _ Handler.synth_txt refl
          (answered _ (synth_owner owner _ _ _ _) Handler.synth_txt refl)

    -- A handler's name goes with its response.
    pub Yields-then :
        (r : Result (Message Name)) (h : Handler)
        → Yields C r (λ m. Reply d q owner m h)
        → Yields C {A = Message Name × Handler}
            (r >>= λ m. ok (m, h))
            (λ p. Reply d q owner p.0 p.1)
    Yields-then (ok m) h k = k
    Yields-then (raise e) h k = k

    module _ (host : Name) (some_host : Base.first_host identity.ns_hosts ≡ ok host) where
      pub nodata-Reply :
          (h : Handler) (zone_name : Name)
          → error_code h ≡ 0
          → Base.first_name d q.question ≡ ok zone_name
          → Yields C (Base.nodata d identity q) (λ m. Reply d q owner m h)
      unfolding Base.nodata Base.negative_response
      nodata-Reply h zone_name good asked =
          let m = d.set_rcode Code.noerror (Base.make_response d q) in
          let a = set_rcode-Answers d laws 0 q _ 1 (omega arith) (make_response-Answers d laws q) in
          let empty = set_rcode-IsEmpty d laws 0 _ (make_response-IsEmpty d laws q) in
          rw asked (
            rw some_host (
              positive _
                (record {
                  same_id = a.same_id;
                  same_question = a.same_question;
                  no_edns = a.no_edns;
                  is_response = a.is_response;
                  authoritative = a.authoritative;
                  no_recursion = a.no_recursion;
                })
                (rw empty.answer tt) h good))

      pub answer_soa-Reply :
          Yields C (answer_soa d identity q owner) (λ m. Reply d q owner m Handler.synth_soa)
      unfolding answer_soa Base.synth_soa_rrset
      answer_soa-Reply = rw some_host (
          delegated-Reply _ Handler.synth_soa refl
            (answered _ (synth_owner owner _ _ _ _) Handler.synth_soa refl))

      pub answer_mx-Reply :
          Yields C (answer_mx d identity q owner) (λ m. Reply d q owner m Handler.synth_mx)
      unfolding answer_mx Base.synth_mx_rrset
      answer_mx-Reply =
          rw some_host
            (mx_glued host _ (answered _ (synth_owner owner _ _ _ _) Handler.synth_mx refl))

      pub answer_aaaa-Reply :
          (zone_name : Name)
          → Base.first_name d q.question ≡ ok zone_name
          → Yields C (answer_aaaa d identity q owner) (λ r. Reply d q owner r.0 r.1)
      unfolding answer_aaaa
      answer_aaaa-Reply zone_name asked =
          Yields-if C (λ r. Reply d q owner r.0 r.1) (same_string identity.sinkhole_aaaa "") _ _
            (λ _.
              Yields-then _ Handler.nodata_no_v6
                (nodata-Reply Handler.nodata_no_v6 zone_name refl asked))
            (λ v6. Yields-then _ Handler.synth_aaaa (answer_v6-Reply v6))
