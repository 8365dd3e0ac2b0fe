-- ===== src/Digest/Organizations.antt =====
-- The research scanners that `summarize_window` of tools/honeycow_digest.py reports are a dictionary of
-- dictionaries.
use honeycow.Prelude.{◌≡◌, refl, Option, none, some, List, [], ◌∷◌, map, Text_discrete, arith}
use honeycow.Dict.{get, put}
use honeycow.Dict.Laws.{Unique, bump-Unique, put-Unique}
use honeycow.Digest.{Event, or_default}
use honeycow.Digest.Classify.{Org}
use honeycow.Digest.Counters.{ite_rule}
use honeycow.Digest.Research.{org_of, AreOrgs}
use honeycow.Digest.Slots.{Org-discrete}
use honeycow.Digest.Window.{OrgStats, new_org, org_stats, research_step, research_loop, org_json}

abbrev IsOrg : OrgStats → Type 0
IsOrg s = Unique Text_discrete s.src_ips

AreOrgs-org_of : (o : Org) (r : List (Org × OrgStats)) → AreOrgs r → IsOrg (org_of o r)
unfolding get
AreOrgs-org_of o [] a = tt
AreOrgs-org_of o ((l, v) ∷ r) a =
    ite_rule (λ s. IsOrg (or_default s new_org)) (Org-discrete l o) (some v) (get Org-discrete o r)
      a.0 (AreOrgs-org_of o r a.1)

AreOrgs-put :
    (o : Org) (v : OrgStats) (r : List (Org × OrgStats))
    → IsOrg v
    → AreOrgs r
    → AreOrgs (put Org-discrete o v r)
unfolding put
AreOrgs-put o v [] h a = (h, tt)
AreOrgs-put o v ((l, w) ∷ r) h a =
    ite_rule AreOrgs (Org-discrete l o) ((o, v) ∷ r) ((l, w) ∷ put Org-discrete o v r) (h, a.1)
      (a.0, AreOrgs-put o v r h a.1)

-- A dictionary of dictionaries.
abbrev pub IsResearch : List (Org × OrgStats) → Type 0
IsResearch r = Unique Org-discrete r × AreOrgs r

research_step-IsResearch :
    (l : Option Org) (e : Event) (r : List (Org × OrgStats))
    → IsResearch r
    → IsResearch (research_step l e r)
unfolding research_step org_stats
research_step-IsResearch none e r h = h
research_step-IsResearch (some l) e r h = (
  put-Unique Org-discrete l _ r h.0,
  AreOrgs-put l _ r (bump-Unique Text_discrete e.src_ip 1 _ (AreOrgs-org_of l r h.1)) h.1,
)

pub research_loop-IsResearch :
    (es : List Event) (r : List (Org × OrgStats)) → IsResearch r → IsResearch (research_loop es r)
unfolding research_loop
research_loop-IsResearch [] r h = h
research_loop-IsResearch (e ∷ es) r h =
    research_loop-IsResearch es _ (research_step-IsResearch _ e r h)

get-org_json :
    (o : Org) (r : List (Org × OrgStats))
    → get Org-discrete o r ≡ none
    → get Org-discrete o (map org_json r) ≡ none
unfolding get org_json
get-org_json o [] e = refl
get-org_json o ((l, v) ∷ r) e = ground (arith, get-org_json o r)

pub org_json-IsResearch : (r : List (Org × OrgStats)) → IsResearch r → IsResearch (map org_json r)
unfolding org_json
org_json-IsResearch [] h = h
org_json-IsResearch ((l, v) ∷ r) h =
    let rest = org_json-IsResearch r (h.0.1, h.1.1) in
    ((get-org_json l r h.0.0, rest.0), (h.1.0, rest.1))
