-- ===== src/Dispatch/Total.antt =====
-- `dispatch` as a whole: when it returns, and what it returns.
use honeycow.Prelude.{
  ℕ, ◌<◌, ◌≡◌, ◌≢◌, refl, sym, Bool, true, false, List, ◌∷◌, arith, ==_iff, subst, subst₂, is_empty,
  not, ◌&&◌, ◌||◌, if◌then◌else◌, ◌==◌, ok, Option, String,
}
use mathlib.Core.Bool.{decide}
use honeycow.Dns.{Question, Message, DnsPython}
use honeycow.Dns.Code
use honeycow.Dns.Laws.{Laws}
use honeycow.Base
use honeycow.Base.{Identity}
use honeycow.Base.Responses.{make_response-Answers, make_response-IsEmpty}
use honeycow.Exemptions
use honeycow.Exemptions.{ExemptionList}
use honeycow.SourceExemptions.{SourceExemptionList, Address}
use honeycow.Dispatch.Handlers.{Handler}
use honeycow.Dispatch.Place.{Place, dispatch_ch-Place, dispatch_in-Place}
use honeycow.Dispatch.Outcomes.{Yields, Yields-if, Yields-and, Yields-map}
use honeycow.Dispatch.Replies.{
  Reply, error_code, C, synth_owner, error-Reply, positive, answered, nodata-Reply, Yields-then,
  answer_a-Reply, answer_ns-Reply, answer_txt-Reply, answer_soa-Reply, answer_mx-Reply,
  answer_aaaa-Reply,
}
use honeycow.Dispatch.{
  dispatch_ch, dispatch_in, dispatch_question, dispatch_first, dispatch, question_or_raise,
  source_exempt, is_meta,
}

-- Where a handler is used: the exemptions come first, and everything else has its class and type.
abbrev pub Serves : Bool → Bool → ℕ → ℕ → Handler → Type 0
Serves source name c t Handler.exempt_source = source ≡ true
Serves source name c t Handler.exempt = (source ≡ false) × (name ≡ true)
Serves source name c t h = (source ≡ false) × (name ≡ false) × Place c t h

-- Behind the exemption checks a handler is told by its class and type.
Serves-Place : (c t : ℕ) (h : Handler) → Place c t h → Serves false false c t h
Serves-Place c t Handler.exempt_source p = absurd p
Serves-Place c t Handler.exempt p = absurd p
Serves-Place c t _ p = (refl, refl, p)

module _ {Name : Type 0} (d : DnsPython Name) (laws : Laws d) (identity : Identity Name)
    (q : Message Name) where
  module _ (owner : Name) where
    dispatch_ch-Reply :
        (version_bind : Name) (t : ℕ)
        → (λ (r : Message Name × Handler). Reply d q owner r.0 r.1)
            (dispatch_ch d identity version_bind q owner t)
    unfolding dispatch_ch Base.synth_txt_rrset Base.synth_hinfo_rrset
    dispatch_ch-Reply version_bind t =
        if_rule P (t == 16) _ _
          (if_rule P
            (not (is_empty identity.version_bind_txt)
              && decide (d.name_discrete owner version_bind))
            _ _ (answered d laws identity q owner _ (synth_owner d laws owner _ _ _ _) _ refl)
            (answered d laws identity q owner _ (synth_owner d laws owner _ _ _ _) _ refl))
          (if_rule P (t == 255) _ _
            (answered d laws identity q owner _ (synth_owner d laws owner _ _ _ _) _ refl)
            (positive d laws identity q owner _ (make_response-Answers d laws q)
              (rw (make_response-IsEmpty d laws q).answer tt) Handler.ch_nodata refl))
      where
        P : Message Name × Handler → Type 0
        P r = Reply d q owner r.0 r.1

        if_rule :
            (P : Message Name × Handler → Type 0) (b : Bool) (x y : Message Name × Handler)
            → P x
            → P y
            → P (if b then x else y)
        if_rule P true x y f g = f
        if_rule P false x y f g = g

    module _ (host : Name) (some_host : Base.first_host identity.ns_hosts ≡ ok host)
        (zone_name : Name) (asked : Base.first_name d q.question ≡ ok zone_name) where
      dispatch_in-Reply :
          (t : ℕ)
          → Yields
              (C d laws identity q owner)
              (dispatch_in d identity q owner t)
              (λ r. Reply d q owner r.0 r.1)
      unfolding dispatch_in Base.synth_hinfo_rrset
      dispatch_in-Reply t =
          Yields-if (C d laws identity q owner) P (t == 255) _ _
            (λ _.
              answered d laws identity q owner _ (synth_owner d laws owner _ _ _ _)
                Handler.minimal_any_hinfo refl)
            λ _.
              Yields-if (C d laws identity q owner) P (t == 1) _ _
                (λ _.
                  Yields-then d laws identity q owner _ Handler.synth_a
                    (answer_a-Reply d laws identity q owner))
                λ _.
                  Yields-if (C d laws identity q owner) P (t == 28) _ _
                    (λ _. answer_aaaa-Reply d laws identity q owner host some_host zone_name asked)
                    λ _.
                      Yields-if (C d laws identity q owner) P (t == 2) _ _
                        (λ _.
                          Yields-then d laws identity q owner _ Handler.synth_ns
                            (answer_ns-Reply d laws identity q owner))
                        λ _.
                          Yields-if (C d laws identity q owner) P (t == 6) _ _
                            (λ _.
                              Yields-then d laws identity q owner _ Handler.synth_soa
                                (answer_soa-Reply d laws identity q owner host some_host))
                            λ _.
                              Yields-if (C d laws identity q owner) P (t == 15) _ _
                                (λ _.
                                  Yields-then d laws identity q owner _ Handler.synth_mx
                                    (answer_mx-Reply d laws identity q owner host some_host))
                                λ _.
                                  Yields-if (C d laws identity q owner) P (t == 16) _ _
                                    (λ _.
                                      Yields-then d laws identity q owner _ Handler.synth_txt
                                        (answer_txt-Reply d laws identity q owner))
                                    λ _. Yields-then d laws identity q owner _ Handler.nodata (
                                      nodata-Reply d laws identity q owner host some_host
                                        Handler.nodata zone_name refl asked)
        where
          P : Message Name × Handler → Type 0
          P r = Reply d q owner r.0 r.1

  module _ (question : Question Name) (rest : List (Question Name))
      (asked : q.question ≡ question ∷ rest) (host : Name) (hosts : List Name)
      (some_host : identity.ns_hosts ≡ host ∷ hosts) where
    the_name : Base.first_name d q.question ≡ ok question.name
    unfolding Base.first_name
    the_name = rw asked

    the_host : Base.first_host identity.ns_hosts ≡ ok host
    unfolding Base.first_host
    the_host = rw some_host

    abbrev Good : Message Name × Handler → Type 0
    Good r = Reply d q question.name r.0 r.1 × Place question.rdclass question.rdtype r.1

    dispatch_question-Good :
        (version_bind : Name)
        → Yields
            (C d laws identity q question.name)
            (dispatch_question d identity version_bind q question)
            Good
    unfolding dispatch_question Base.refused Base.formerr
    dispatch_question-Good version_bind =
        Yields-if (C d laws identity q question.name) Good
          (not (c == Code.class_in || c == Code.class_ch)) _ _
          (λ e. (error Handler.refused_class (omega arith) (omega arith), ground arith))
          λ served.
            Yields-if (C d laws identity q question.name) Good
              (t == Code.type_axfr || t == Code.type_ixfr) _ _
              (λ e. (error Handler.refused_xfr (omega arith) (omega arith), ground arith))
              λ _.
                Yields-if (C d laws identity q question.name) Good (is_meta t) _ _
                  (λ e. (
                    error Handler.formerr_meta_qtype (omega arith) (omega arith),
                    (ground arith, e),
                  ))
                  λ _.
                    Yields-if (C d laws identity q question.name) Good (c == Code.class_ch) _ _
                      (λ e. (
                        dispatch_ch-Reply question.name version_bind t,
                        subst
                            (λ x.
                              Place x t (dispatch_ch d identity version_bind q question.name t).1)
                            (sym ((==_iff c 3).0 e))
                            (dispatch_ch-Place d laws identity q question.name version_bind t),
                      ))
                      λ not_ch.
                        Yields-and (C d laws identity q question.name)
                          (λ r. Reply d q question.name r.0 r.1) (λ r. Place 1 t r.1) Good _
                          (λ r reply place.
                            (reply, subst (λ x. Place x t r.1) (sym (is_in served not_ch)) place))
                          (dispatch_in-Reply question.name host the_host question.name the_name t)
                          (dispatch_in-Place d laws identity q question.name host the_host
                            question.name the_name t)
      where
        open question use {rdclass as c, rdtype as t}

        error :
            (h : Handler)
            → error_code h < 16
            → error_code h ≢ 0
            → Reply d q question.name (Base.error_response d q (error_code h)) h
        error = error-Reply d laws identity q question.name

        is_in :
            not (c == Code.class_in || c == Code.class_ch) ≡ false
            → (c == Code.class_ch) ≡ false
            → c ≡ 1
        is_in served not_ch = ground arith

    module _ (ip_address : String → Option Address) (version_bind : Name)
        (exemptions : ExemptionList Name) (sources : Option SourceExemptionList)
        (src_ip : String) where
      abbrev from_source : Bool
      from_source = source_exempt ip_address sources src_ip

      abbrev name_exempt : Bool
      name_exempt = Exemptions.is_exempt d.name_discrete d.is_subdomain exemptions question.name

      -- What holds of the value of `dispatch`, if there is one, and what makes one.
      pub dispatch-Yields :
          Yields
            (C d laws identity q question.name)
            (dispatch d identity ip_address version_bind q exemptions sources src_ip)
            (λ r.
              Reply d q question.name r.0 r.1
              × Serves
                  (source_exempt ip_address sources src_ip)
                  (Exemptions.is_exempt d.name_discrete d.is_subdomain exemptions question.name)
                  question.rdclass
                  question.rdtype
                  r.1)
      unfolding dispatch dispatch_first question_or_raise Base.refused
      dispatch-Yields = rw the_question (
          Yields-if (C d laws identity q question.name) All_good from_source _ _
            (λ e. (error Handler.exempt_source (omega arith) (omega arith), e))
            λ no_source.
              Yields-if (C d laws identity q question.name) All_good name_exempt _ _
                (λ e. (error Handler.exempt (omega arith) (omega arith), (no_source, e)))
                λ no_name.
                  Yields-map (C d laws identity q question.name) Good All_good _
                    (λ r good. (
                      good.0,
                      subst₂ (λ s n. Serves s n question.rdclass question.rdtype r.1)
                          (sym no_source) (sym no_name)
                          (Serves-Place question.rdclass question.rdtype r.1 good.1),
                    ))
                    (dispatch_question-Good version_bind))
        where
          All_good : Message Name × Handler → Type 0
          All_good r =
              Reply d q question.name r.0 r.1
              × Serves from_source name_exempt question.rdclass question.rdtype r.1

          the_question : question_or_raise q.question ≡ ok question
          the_question = rw asked

          error :
              (h : Handler)
              → error_code h < 16
              → error_code h ≢ 0
              → Reply d q question.name (Base.error_response d q (error_code h)) h
          error = error-Reply d laws identity q question.name
