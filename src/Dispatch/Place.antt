-- ===== src/Dispatch/Place.antt =====
-- Which questions a handler of `dispatch` serves.
use honeycow.Prelude.{
  ℕ, ◌≡◌, ◌≢◌, ◌⊎◌, refl, true, arith, same_string, ◌==◌, Result, ok, raise, ◌>>=◌,
}
use honeycow.Dns.{Message, DnsPython}
use honeycow.Dns.Laws.{Laws}
use honeycow.Base
use honeycow.Base.{Identity}
use honeycow.Dispatch.Handlers.{Handler}
use honeycow.Dispatch.Outcomes.{Yields, Yields-if}
use honeycow.Dispatch.Replies.{
  C, answer_a-Reply, answer_v6-Reply, answer_ns-Reply, answer_txt-Reply, nodata-Reply,
  answer_soa-Reply, answer_mx-Reply,
}
use honeycow.Dispatch.{dispatch_ch, dispatch_in, is_meta, answer_aaaa}

-- The types with a branch of their own in the IN class.
abbrev pub IsPlain : ℕ → Type 0
IsPlain t = (t ≢ 255) × (t ≢ 1) × (t ≢ 28) × (t ≢ 2) × (t ≢ 6) × (t ≢ 15) × (t ≢ 16)

-- The class and the type of the questions behind the exemption checks that a handler serves.
abbrev pub Place : ℕ → ℕ → Handler → Type 0
Place c t Handler.refused_class = (c ≢ 1) × (c ≢ 3)
Place c t Handler.refused_xfr = ((c ≡ 1) ⊎ (c ≡ 3)) × ((t ≡ 252) ⊎ (t ≡ 251))
Place c t Handler.formerr_meta_qtype = ((c ≡ 1) ⊎ (c ≡ 3)) × (is_meta t ≡ true)
Place c t Handler.synth_txt_ch_version_bind = (c ≡ 3) × (t ≡ 16)
Place c t Handler.synth_txt_ch = (c ≡ 3) × (t ≡ 16)
Place c t Handler.minimal_any_hinfo_ch = (c ≡ 3) × (t ≡ 255)
Place c t Handler.ch_nodata = (c ≡ 3) × (t ≢ 16) × (t ≢ 255)
Place c t Handler.minimal_any_hinfo = (c ≡ 1) × (t ≡ 255)
Place c t Handler.synth_a = (c ≡ 1) × (t ≡ 1)
Place c t Handler.nodata_no_v6 = (c ≡ 1) × (t ≡ 28)
Place c t Handler.synth_aaaa = (c ≡ 1) × (t ≡ 28)
Place c t Handler.synth_ns = (c ≡ 1) × (t ≡ 2)
Place c t Handler.synth_soa = (c ≡ 1) × (t ≡ 6)
Place c t Handler.synth_mx = (c ≡ 1) × (t ≡ 15)
Place c t Handler.synth_txt = (c ≡ 1) × (t ≡ 16)
Place c t Handler.nodata = (c ≡ 1) × IsPlain t
Place c t _ = ⊥

-- A name for the result of a branch that may raise.
Yields-named {ℓ} :
    {A : Type ℓ} (C : Type 0) (Q : A → Type 0) (P : Handler → Type 0) (r : Result A) (h : Handler)
    → Yields C r Q
    → P h
    → Yields C {A = A × Handler} (r >>= λ a. ok (a, h)) (λ p. P p.1)
Yields-named C Q P (ok a) h k p = p
Yields-named C Q P (raise e) h k p = k

module _ {Name : Type 0} (d : DnsPython Name) (laws : Laws d) (identity : Identity Name)
    (q : Message Name) (owner : Name) where
  pub dispatch_ch-Place :
      (version_bind : Name) (t : ℕ) → Place 3 t (dispatch_ch d identity version_bind q owner t).1
  unfolding dispatch_ch
  dispatch_ch-Place version_bind t = ground arith

  module _ (host : Name) (some_host : Base.first_host identity.ns_hosts ≡ ok host)
      (zone_name : Name) (asked : Base.first_name d q.question ≡ ok zone_name) where
    pub dispatch_in-Place :
        (t : ℕ)
        → Yields (C d laws identity q owner) (dispatch_in d identity q owner t) (λ r. Place 1 t r.1)
    unfolding dispatch_in answer_aaaa
    dispatch_in-Place t =
        Yields-if (C d laws identity q owner) P (t == 255) _ _ (λ e. ground arith)
          λ n255.
            Yields-if (C d laws identity q owner) P (t == 1) _ _
              (λ e.
                Yields-named (C d laws identity q owner) _ (Place 1 t) _ Handler.synth_a
                  (answer_a-Reply d laws identity q owner) (ground arith))
              λ n1.
                Yields-if (C d laws identity q owner) P (t == 28) _ _
                  (λ e.
                    Yields-if (C d laws identity q owner) P (same_string identity.sinkhole_aaaa "")
                      _ _
                      (λ _.
                        Yields-named (C d laws identity q owner) _ (Place 1 t) _
                          Handler.nodata_no_v6
                          (nodata-Reply d laws identity q owner host some_host Handler.nodata_no_v6
                            zone_name refl asked)
                          (ground arith))
                      (λ v6.
                        Yields-named (C d laws identity q owner) _ (Place 1 t) _ Handler.synth_aaaa
                          (answer_v6-Reply d laws identity q owner v6) (ground arith)))
                  λ n28.
                    Yields-if (C d laws identity q owner) P (t == 2) _ _
                      (λ e.
                        Yields-named (C d laws identity q owner) _ (Place 1 t) _ Handler.synth_ns
                          (answer_ns-Reply d laws identity q owner) (ground arith))
                      λ n2.
                        Yields-if (C d laws identity q owner) P (t == 6) _ _
                          (λ e.
                            Yields-named (C d laws identity q owner) _ (Place 1 t) _
                              Handler.synth_soa
                              (answer_soa-Reply d laws identity q owner host some_host)
                              (ground arith))
                          λ n6.
                            Yields-if (C d laws identity q owner) P (t == 15) _ _
                              (λ e.
                                Yields-named (C d laws identity q owner) _ (Place 1 t) _
                                  Handler.synth_mx
                                  (answer_mx-Reply d laws identity q owner host some_host)
                                  (ground arith))
                              λ n15.
                                Yields-if (C d laws identity q owner) P (t == 16) _ _
                                  (λ e.
                                    Yields-named (C d laws identity q owner) _ (Place 1 t) _
                                      Handler.synth_txt (answer_txt-Reply d laws identity q owner)
                                      (ground arith))
                                  λ n16.
                                    Yields-named (C d laws identity q owner) _ (Place 1 t) _
                                      Handler.nodata
                                      (nodata-Reply d laws identity q owner host some_host
                                        Handler.nodata zone_name refl asked)
                                      (ground arith)
      where
        P : Message Name × Handler → Type 0
        P r = Place 1 t r.1
