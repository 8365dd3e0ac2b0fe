-- ===== src/Digest/Research.antt =====
-- The research scanners of a digest of tools/honeycow_digest.py: what a number of an organization
-- gains from each event, and what merging does to it.
use mathlib.Core.Logic.{ite}
use honeycow.Prelude.{
  ℕ, ◌+◌, ◌≡◌, refl, ◌∙◌, Option, none, some, List, [], ◌∷◌, ◌++◌, map, Text, codes, All, arith,
  if◌then◌else◌, Text_discrete,
}
use honeycow.Dict.{get, put, count}
use honeycow.Dict.Laws.{Unique, count-bump, count-update, get-put}
use honeycow.Digest.{Event, or_default}
use honeycow.Digest.Classify.{Org, classify_research_scanner}
use honeycow.Digest.Merge.{merge_org, merge_research}
use honeycow.Digest.Parts.{IsAdditive, appends, external, of_description}
use honeycow.Digest.Slots.{Org-discrete}
use honeycow.Digest.Window.{
  OrgStats, new_org, holds, org_stats, research_step, research_loop, org_json, summarize_window,
}
use honeycow.Ip.{IpAddress}
use honeycow.SourceExemptions.{Network}

-- What is counted for an organization.
abbrev pub org_of : Org → List (Org × OrgStats) → OrgStats
org_of o research = or_default (get Org-discrete o research) new_org

-- The source addresses of an organization are a dictionary.
abbrev pub AreOrgs : List (Org × OrgStats) → Type 0
AreOrgs research = All (λ (p : Org × OrgStats). Unique Text_discrete p.1.src_ips) research

-- A number of an organization: what it gains from an event, and that merging adds it up.
pub record OrgGains (h : OrgStats → ℕ) : Type 0 where
  pub new : h new_org ≡ 0
  pub weight : Event → ℕ
  pub gain : (e : Event) (s : OrgStats) → h (org_stats e s) ≡ h s + weight e
  pub sorted : (s : OrgStats) (qnames : List Text) → h (record s { qnames = qnames }) ≡ h s
  pub merged : (s t : OrgStats) → Unique Text_discrete t.src_ips → h (merge_org s t) ≡ h s + h t

-- The weight of an event with this label.
abbrev labelled : Org → Option Org → ℕ → ℕ
labelled o none w = 0
labelled o (some label) w = ite (Org-discrete label o) w 0

abbrev label : Event → Option Org
label e = classify_research_scanner (or_default e.qname [])

module _ (h : OrgStats → ℕ) (gains : OrgGains h) where
  unfoldable weigh_org : Org → List Event → ℕ
  weigh_org o [] = 0
  weigh_org o (e ∷ es) = labelled o (label e) (gains.weight e) + weigh_org o es

  weigh_org-append :
      (o : Org) (es es' : List Event) → weigh_org o (es ++ es') ≡ weigh_org o es + weigh_org o es'
  unfolding weigh_org
  weigh_org-append o [] es' = omega arith
  weigh_org-append o (e ∷ es) es' = omega (arith, weigh_org-append o es es')

  org-put :
      (l o : Org) (v : OrgStats) (r : List (Org × OrgStats)) (w : ℕ)
      → h v ≡ h (org_of l r) + w
      → h (org_of o (put Org-discrete l v r)) ≡ h (org_of o r) + ite (Org-discrete l o) w 0
  org-put l o v r w k = ground (arith, get-put Org-discrete l o v r)

  research_step-gain :
      (o : Org) (l : Option Org) (e : Event) (r : List (Org × OrgStats))
      → h (org_of o (research_step l e r)) ≡ h (org_of o r) + labelled o l (gains.weight e)
  unfolding research_step
  research_step-gain o none e r = omega arith
  research_step-gain o (some l) e r =
      org-put l o (org_stats e (org_of l r)) r (gains.weight e) (gains.gain e (org_of l r))

  research_loop-gain :
      (o : Org) (es : List Event) (r : List (Org × OrgStats))
      → h (org_of o (research_loop es r)) ≡ h (org_of o r) + weigh_org o es
  unfolding research_loop weigh_org
  research_loop-gain o [] r = omega arith
  research_loop-gain o (e ∷ es) r = omega (
    arith,
    research_loop-gain o es (research_step (label e) e r),
    research_step-gain o (label e) e r,
  )

  org_json-keeps :
      (o : Org) (r : List (Org × OrgStats)) → h (org_of o (map org_json r)) ≡ h (org_of o r)
  unfolding get org_json
  org_json-keeps o [] = refl
  org_json-keeps o ((l, v) ∷ r) = pick (Org-discrete l o) (org_json-keeps o r)
    where
      pick :
          {P : Type 0} (same : Dec P)
          → h (org_of o (map org_json r)) ≡ h (org_of o r)
          → h (
              or_default
                (ite same (some (org_json (l, v)).1) (get Org-discrete o (map org_json r)))
                new_org)
            ≡ h (or_default (ite same (some v) (get Org-discrete o r)) new_org)
      pick (yes p) rest = gains.sorted v _
      pick (no n) rest = rest

  org-cons :
      (l o : Org) (v : OrgStats) (r : List (Org × OrgStats))
      → get Org-discrete l r ≡ none
      → h (org_of o ((l, v) ∷ r)) ≡ ite (Org-discrete l o) (h v) 0 + h (org_of o r)
  unfolding get
  org-cons l o v r fresh = ground (arith, gains.new)

  -- Merging adds up the number of each organization.
  pub merge_research-sum :
      (o : Org) (entries r : List (Org × OrgStats))
      → Unique Org-discrete entries
      → AreOrgs entries
      → h (org_of o (merge_research r entries)) ≡ h (org_of o r) + h (org_of o entries)
  unfolding merge_research get
  merge_research-sum o [] r u a = omega (arith, gains.new)
  merge_research-sum o ((l, v) ∷ rest) r u a =
      let v' = merge_org (org_of l r) v in
      omega (
        arith,
        merge_research-sum o rest (put Org-discrete l v' r) u.1 a.1,
        org-put l o v' r (h v) (gains.merged (org_of l r) v a.0),
        org-cons l o v rest u.0,
      )

  org_of-nil : (o : Org) → h (org_of o []) ≡ 0
  unfolding get
  org_of-nil o = gains.new

  module _ (ip : IpAddress) (nets : List Network) where
    external-append :
        (es es' : List Event)
        → external ip nets (es ++ es') ≡ external ip nets es ++ external ip nets es'
    external-append es es' = simp appends

    -- The number of an organization is additive.
    pub research-IsAdditive : (o : Org) → IsAdditive ip nets (λ d. h (org_of o d.research_scanners))
    unfolding summarize_window weigh_org
    research-IsAdditive o =
        of_description ip nets (λ d. h (org_of o d.research_scanners))
          (λ es us. weigh_org o (external ip nets es))
          (λ es us site hour.
            org_json-keeps o (research_loop (external ip nets es) [])
            ∙ omega (arith, research_loop-gain o (external ip nets es) [], org_of-nil o))
          refl
          λ es es' us us'.
            rw (external-append es es')
              (weigh_org-append o (external ip nets es) (external ip nets es'))

pub hits-OrgGains : OrgGains (λ s. s.hits)
unfolding org_stats merge_org
hits-OrgGains = record {
  new = refl;
  weight = λ e. 1;
  gain = λ e s. refl;
  sorted = λ s q. refl;
  merged = λ s t u. refl;
}

pub refused-OrgGains : OrgGains (λ s. s.refused)
unfolding org_stats merge_org
refused-OrgGains = record {
  new = refl;
  weight = λ e. if holds e.response_kind (codes "REFUSED") then 1 else 0;
  gain = λ e s. ground arith;
  sorted = λ s q. refl;
  merged = λ s t u. refl;
}

pub src_ips-OrgGains : (k : Text) → OrgGains (λ s. count Text_discrete k s.src_ips)
unfolding org_stats merge_org count get
src_ips-OrgGains k = record {
  new = refl;
  weight = λ e. ite (Text_discrete e.src_ip k) 1 0;
  gain = λ e s. omega (arith, count-bump Text_discrete e.src_ip k 1 s.src_ips);
  sorted = λ s q. refl;
  merged = λ s t u. count-update Text_discrete k t.src_ips s.src_ips u;
}
