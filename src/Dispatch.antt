-- ===== src/Dispatch.antt =====
-- squatter/dispatch.py: the decision tree that answers every query for every name.
pub mod Handlers
pub mod Outcomes
pub mod Replies
pub mod Place
pub mod Total
use honeycow.Prelude.{
  ℕ, Bool, true, false, ◌&&◌, ◌||◌, not, Option, none, some, List, [], ◌∷◌, ◌++◌, String, Text,
  is_empty, same_string, ◌==◌, if◌then◌else◌, Result, ok, raise, index_error, ◌>>=◌,
}
use mathlib.Core.Logic.{ite}
use mathlib.Core.Bool.{decide}
use honeycow.Dns.{RRset, Question, Message, DnsPython}
use honeycow.Dns.Code
use honeycow.Base
use honeycow.Base.{Identity}
use honeycow.Dispatch.Handlers.{Handler}
use honeycow.Exemptions
use honeycow.Exemptions.{ExemptionList}
use honeycow.SourceExemptions
use honeycow.SourceExemptions.{SourceExemptionList, Address}

-- `META_QTYPES`
unfoldable pub is_meta : ℕ → Bool
is_meta qtype =
    qtype == Code.type_opt
    || qtype == Code.type_tkey
    || qtype == Code.type_tsig
    || qtype == Code.type_maila
    || qtype == Code.type_mailb

-- `query.question[0]`
unfoldable pub question_or_raise : {Name : Type 0} → List (Question Name) → Result (Question Name)
question_or_raise [] = raise index_error
question_or_raise (question ∷ rest) = ok question

-- The three conditions of the source-exemption check.
unfoldable pub source_exempt :
    (String → Option Address) → Option SourceExemptionList → String → Bool
source_exempt ip_address none src_ip = false
source_exempt ip_address (some l) src_ip =
    not (same_string src_ip "") && SourceExemptions.is_exempt ip_address l src_ip

module _ {Name : Type 0} (d : DnsPython Name) (identity : Identity Name) where
  open identity use {
    ns_hosts, hostmaster, txt_calling_card, version_bind_txt, public_a, public_aaaa, sinkhole_a,
    sinkhole_aaaa,
  }

  unfoldable pub attach_glue : Message Name → Result (Message Name)
  attach_glue response = do
    rrsets ← Base.ns_glue_rrsets d Base.ttl_ns ns_hosts public_a public_aaaa
    ok (record response { additional = response.additional ++ rrsets })

  unfoldable pub attach_authority_ns : Name → Message Name → Message Name
  attach_authority_ns zone_name response = record response {
    authority = response.authority ++ Base.synth_ns_rrset d zone_name Base.ttl_ns ns_hosts ∷ [];
  }

  -- `response.answer.append(rrset)`
  unfoldable pub append_answer : RRset Name → Message Name → Message Name
  append_answer rrset response = record response { answer = response.answer ++ rrset ∷ [] }

  -- The last two lines of the A, AAAA, SOA and TXT branches.
  unfoldable pub delegated : Name → Message Name → Result (Message Name)
  delegated qname response = attach_glue (attach_authority_ns qname response)

  -- The branch `if question.rdclass == dns.rdataclass.CH`; `version_bind` is `_VERSION_BIND`.
  unfoldable pub dispatch_ch : Name → Message Name → Name → ℕ → Message Name × Handler
  dispatch_ch version_bind query qname qtype =
      let response = Base.make_response d query in
      if qtype == Code.type_txt
      then if not (is_empty version_bind_txt) && decide (d.name_discrete qname version_bind)
        then (
          append_answer (Base.synth_txt_rrset d qname Base.ttl_txt version_bind_txt Code.class_ch)
              response,
          Handler.synth_txt_ch_version_bind,
        )
        else (
          append_answer (Base.synth_txt_rrset d qname Base.ttl_txt txt_calling_card Code.class_ch)
              response,
          Handler.synth_txt_ch,
        )
      else if qtype == Code.type_any
      then (
        append_answer (Base.synth_hinfo_rrset d qname Base.ttl_negative Code.class_ch) response,
        Handler.minimal_any_hinfo_ch,
      )
      else (response, Handler.ch_nodata)

  unfoldable pub answer_a : Message Name → Name → Result (Message Name)
  answer_a query qname = do
    rrset ← Base.synth_a_rrset d qname Base.ttl_sinkhole sinkhole_a
    delegated qname (append_answer rrset (Base.make_response d query))

  unfoldable pub answer_v6 : Message Name → Name → Result (Message Name)
  answer_v6 query qname = do
    rrset ← Base.synth_aaaa_rrset d qname Base.ttl_sinkhole sinkhole_aaaa
    delegated qname (append_answer rrset (Base.make_response d query))

  unfoldable pub answer_aaaa : Message Name → Name → Result (Message Name × Handler)
  answer_aaaa query qname =
      if same_string sinkhole_aaaa ""
      then (do response ← Base.nodata d identity query; ok (response, Handler.nodata_no_v6))
      else (do response ← answer_v6 query qname; ok (response, Handler.synth_aaaa))

  unfoldable pub answer_ns : Message Name → Name → Result (Message Name)
  answer_ns query qname = attach_glue (
      append_answer (Base.synth_ns_rrset d qname Base.ttl_ns ns_hosts) (Base.make_response d query))

  unfoldable pub answer_soa : Message Name → Name → Result (Message Name)
  answer_soa query qname = do
    mname ← Base.first_host ns_hosts
    delegated qname (
        append_answer (Base.synth_soa_rrset d qname Base.ttl_soa mname hostmaster)
          (Base.make_response d query))

  -- The MX target's addresses.
  unfoldable pub attach_mx_glue : Name → Message Name → Result (Message Name)
  attach_mx_glue host response = do
    rrset ← Base.synth_a_rrset d host Base.ttl_ns public_a
    v6 ← Base.aaaa_glue d host Base.ttl_ns public_aaaa
    ok (record response { additional = response.additional ++ rrset ∷ v6 })

  unfoldable pub answer_mx : Message Name → Name → Result (Message Name)
  answer_mx query qname = do
    host ← Base.first_host ns_hosts
    attach_mx_glue host (
        append_answer (Base.synth_mx_rrset d qname Base.ttl_mx host 10)
          (Base.make_response d query))

  unfoldable pub answer_txt : Message Name → Name → Result (Message Name)
  answer_txt query qname = delegated qname (
      append_answer (Base.synth_txt_rrset d qname Base.ttl_txt txt_calling_card Code.class_in)
        (Base.make_response d query))

  -- The QTYPE switch of the IN class.
  unfoldable pub dispatch_in : Message Name → Name → ℕ → Result (Message Name × Handler)
  dispatch_in query qname qtype =
      if qtype == Code.type_any
      then ok (
        append_answer (Base.synth_hinfo_rrset d qname Base.ttl_negative Code.class_in)
            (Base.make_response d query),
        Handler.minimal_any_hinfo,
      )
      else if qtype == Code.type_a
      then (do response ← answer_a query qname; ok (response, Handler.synth_a))
      else if qtype == Code.type_aaaa
      then answer_aaaa query qname
      else if qtype == Code.type_ns
      then (do response ← answer_ns query qname; ok (response, Handler.synth_ns))
      else if qtype == Code.type_soa
      then (do response ← answer_soa query qname; ok (response, Handler.synth_soa))
      else if qtype == Code.type_mx
      then (do response ← answer_mx query qname; ok (response, Handler.synth_mx))
      else if qtype == Code.type_txt
      then (do response ← answer_txt query qname; ok (response, Handler.synth_txt))
      else (do response ← Base.nodata d identity query; ok (response, Handler.nodata))

  -- What follows the exemption checks of `dispatch`.
  unfoldable pub dispatch_question :
      Name → Message Name → Question Name → Result (Message Name × Handler)
  dispatch_question version_bind query question =
      let qtype = question.rdtype in
      if not (question.rdclass == Code.class_in || question.rdclass == Code.class_ch)
      then ok (Base.refused d query, Handler.refused_class)
      else if qtype == Code.type_axfr || qtype == Code.type_ixfr
      then ok (Base.refused d query, Handler.refused_xfr)
      else if is_meta qtype
      then ok (Base.formerr d query, Handler.formerr_meta_qtype)
      else if question.rdclass == Code.class_ch
      then ok (dispatch_ch version_bind query question.name qtype)
      else dispatch_in query question.name qtype

  module _ (ip_address : String → Option Address) where
    -- `dispatch` behind `question = query.question[0]`.
    unfoldable pub dispatch_first :
        Name
        → Message Name
        → ExemptionList Name
        → Option SourceExemptionList
        → String
        → Question Name
        → Result (Message Name × Handler)
    dispatch_first version_bind query exemptions source_exemptions src_ip question =
        if source_exempt ip_address source_exemptions src_ip
        then ok (Base.refused d query, Handler.exempt_source)
        else if Exemptions.is_exempt d.name_discrete d.is_subdomain exemptions question.name
        then ok (Base.refused d query, Handler.exempt)
        else dispatch_question version_bind query question

    unfoldable pub dispatch :
        Name
        → Message Name
        → ExemptionList Name
        → Option SourceExemptionList
        → String
        → Result (Message Name × Handler)
    dispatch version_bind query exemptions source_exemptions src_ip = do
      question ← question_or_raise query.question
      dispatch_first version_bind query exemptions source_exemptions src_ip question
