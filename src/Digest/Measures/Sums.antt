-- ===== src/Digest/Measures/Sums.antt =====
-- `merge_digests` of tools/honeycow_digest.py and the sums of the measures of the digests.
use mathlib.Core.List.{Perm, Permᴰ}
use mathlib.Core.Logic.{ite, ∥∥₁_elim}
use native.Mathlib.Nat.{ℕ_set}
use honeycow.Prelude.{
  ℕ, ◌+◌, ◌≡◌, refl, sym, ◌∙◌, ap, subst, List, [], ◌∷◌, Text, All, arith, Text_discrete, none,
}
use honeycow.Dict.{get, put, count}
use honeycow.Dict.Laws.{Unique, get-put, count-update}
use honeycow.Digest.Classify.{Family}
use honeycow.Digest.Counters.{IsSlot, AreSlots}
use honeycow.Digest.Organizations.{IsResearch}
use honeycow.Digest.Research.{merge_research-sum, hits-OrgGains, refused-OrgGains, src_ips-OrgGains}
use honeycow.Digest.Slots.{Family-discrete, Option_text_discrete, Slot, new_slot, slot}
use honeycow.Digest.Window.{Digest}
use honeycow.Digest.Merge.{
  MergedSlot, Merged, new_merged, merge_totals, merge_inbound, merge_slot, src_slot, merge_by_src,
  site_name, merge_digest, merge_loop, merge_digests,
}
use honeycow.Digest.Measures.{Measure, of_digest, of_merged}

-- The counters of a digest are dictionaries: no key occurs twice.
pub record IsDictionary (d : Digest) : Type 0 where
  pub families : Unique Family-discrete d.families
  pub http_paths : Unique Option_text_discrete d.http_paths
  pub http_user_agents : Unique Option_text_discrete d.http_user_agents
  pub ufw_ports : Unique Text_discrete d.ufw_ports
  pub source_exempt : Unique Text_discrete d.source_exempt
  pub by_ip : Unique Text_discrete d.inbound_qr.by_ip
  pub oversized_by_ip : Unique Text_discrete d.inbound_qr.oversized_by_ip
  pub by_src : Unique Text_discrete d.by_src
  pub slots : AreSlots d.by_src
  pub research : IsResearch d.research_scanners

unfoldable pub sum_of {ℓ} : {A : Type ℓ} → (A → ℕ) → List A → ℕ
sum_of f [] = 0
sum_of f (a ∷ rest) = f a + sum_of f rest

-- A number of a slot that merging adds up.
pub record AddsUp (g : Slot → ℕ) : Type 0 where
  pub new : g new_slot ≡ 0
  pub merged :
      (site : Text) (m : MergedSlot) (s : Slot)
      → IsSlot s
      → g (merge_slot site m s).counts ≡ g m.counts + g s

module _ (g : Slot → ℕ) (adds : AddsUp g) where
  src_slot-put :
      (s t : Text) (v : MergedSlot) (b : List (Text × MergedSlot)) (w : ℕ)
      → g v.counts ≡ g (src_slot s b).counts + w
      → g (src_slot t (put Text_discrete s v b)).counts
        ≡ g (src_slot t b).counts + ite (Text_discrete s t) w 0
  src_slot-put s t v b w h = ground (arith, get-put Text_discrete s t v b)

  slot-cons :
      (s t : Text) (v : Slot) (b : List (Text × Slot))
      → get Text_discrete s b ≡ none
      → g (slot t ((s, v) ∷ b)) ≡ ite (Text_discrete s t) (g v) 0 + g (slot t b)
  unfolding get
  slot-cons s t v b fresh = ground (arith, adds.new)

  slot-nil : (t : Text) → g (slot t []) ≡ 0
  unfolding get
  slot-nil t = adds.new

  merge_by_src-sum :
      (site t : Text) (entries : List (Text × Slot)) (b : List (Text × MergedSlot))
      → Unique Text_discrete entries
      → AreSlots entries
      → g (src_slot t (merge_by_src site b entries)).counts
        ≡ g (src_slot t b).counts + g (slot t entries)
  unfolding merge_by_src
  merge_by_src-sum site t [] b u h = omega (arith, slot-nil t)
  merge_by_src-sum site t ((s, v) ∷ rest) b u h =
      let v' = merge_slot site (src_slot s b) v in
      omega (
        arith,
        merge_by_src-sum site t rest (put Text_discrete s v' b) u.1 h.1,
        src_slot-put s t v' b (g v) (adds.merged site (src_slot s b) v h.0),
        slot-cons s t v rest u.0,
      )

dns-AddsUp : AddsUp (λ s. s.dns)
unfolding merge_slot
dns-AddsUp = record { new = refl; merged = λ site m s h. refl }

http-AddsUp : AddsUp (λ s. s.http)
unfolding merge_slot
http-AddsUp = record { new = refl; merged = λ site m s h. refl }

ufw-AddsUp : AddsUp (λ s. s.ufw)
unfolding merge_slot
ufw-AddsUp = record { new = refl; merged = λ site m s h. refl }

qtypes-AddsUp : (k : Text) → AddsUp (λ s. count Text_discrete k s.qtypes)
unfolding merge_slot count get
qtypes-AddsUp k = record {
  new = refl;
  merged = λ site m s h. count-update Text_discrete k s.qtypes m.counts.qtypes h.qtypes;
}

qclasses-AddsUp : (k : Text) → AddsUp (λ s. count Text_discrete k s.qclasses)
unfolding merge_slot count get
qclasses-AddsUp k = record {
  new = refl;
  merged = λ site m s h. count-update Text_discrete k s.qclasses m.counts.qclasses h.qclasses;
}

handlers-AddsUp : (k : Text) → AddsUp (λ s. count Text_discrete k s.handlers)
unfolding merge_slot count get
handlers-AddsUp k = record {
  new = refl;
  merged = λ site m s h. count-update Text_discrete k s.handlers m.counts.handlers h.handlers;
}

ports-AddsUp : (k : Text) → AddsUp (λ s. count Text_discrete k s.ufw_ports)
unfolding merge_slot count get
ports-AddsUp k = record {
  new = refl;
  merged = λ site m s h. count-update Text_discrete k s.ufw_ports m.counts.ufw_ports h.ufw_ports;
}

families-AddsUp : (k : Family) → AddsUp (λ s. count Family-discrete k s.families)
unfolding merge_slot count get
families-AddsUp k = record {
  new = refl;
  merged = λ site m s h. count-update Family-discrete k s.families m.counts.families h.families;
}

-- One round of the merge adds the number of the digest.
of_merged-merge_digest :
    (x : Measure) (m : Merged) (d : Digest)
    → IsDictionary d
    → of_merged x (merge_digest m d) ≡ of_merged x m + of_digest x d
unfolding merge_digest merge_totals merge_inbound
of_merged-merge_digest (Measure.family k) m d u =
    count-update Family-discrete k d.families m.families u.families
of_merged-merge_digest (Measure.http_path k) m d u =
    count-update Option_text_discrete k d.http_paths m.http_paths u.http_paths
of_merged-merge_digest (Measure.user_agent k) m d u =
    count-update Option_text_discrete k d.http_user_agents m.http_user_agents u.http_user_agents
of_merged-merge_digest (Measure.ufw_port k) m d u =
    count-update Text_discrete k d.ufw_ports m.ufw_ports u.ufw_ports
of_merged-merge_digest (Measure.source_exempt k) m d u =
    count-update Text_discrete k d.source_exempt m.source_exempt u.source_exempt
of_merged-merge_digest (Measure.inbound_by_ip k) m d u =
    count-update Text_discrete k d.inbound_qr.by_ip m.inbound_qr.by_ip u.by_ip
of_merged-merge_digest (Measure.inbound_oversized_by_ip k) m d u =
    count-update Text_discrete k d.inbound_qr.oversized_by_ip m.inbound_qr.oversized_by_ip
      u.oversized_by_ip
of_merged-merge_digest (Measure.src_dns s) m d u =
    merge_by_src-sum (λ s. s.dns) dns-AddsUp (site_name d.site_id) s d.by_src m.by_src u.by_src
      u.slots
of_merged-merge_digest (Measure.src_http s) m d u =
    merge_by_src-sum (λ s. s.http) http-AddsUp (site_name d.site_id) s d.by_src m.by_src u.by_src
      u.slots
of_merged-merge_digest (Measure.src_ufw s) m d u =
    merge_by_src-sum (λ s. s.ufw) ufw-AddsUp (site_name d.site_id) s d.by_src m.by_src u.by_src
      u.slots
of_merged-merge_digest (Measure.src_qtype s k) m d u =
    merge_by_src-sum (λ s. count Text_discrete k s.qtypes) (qtypes-AddsUp k) (site_name d.site_id) s
      d.by_src m.by_src u.by_src u.slots
of_merged-merge_digest (Measure.src_qclass s k) m d u =
    merge_by_src-sum (λ s. count Text_discrete k s.qclasses) (qclasses-AddsUp k)
      (site_name d.site_id) s d.by_src m.by_src u.by_src u.slots
of_merged-merge_digest (Measure.src_handler s k) m d u =
    merge_by_src-sum (λ s. count Text_discrete k s.handlers) (handlers-AddsUp k)
      (site_name d.site_id) s d.by_src m.by_src u.by_src u.slots
of_merged-merge_digest (Measure.src_port s k) m d u =
    merge_by_src-sum (λ s. count Text_discrete k s.ufw_ports) (ports-AddsUp k) (site_name d.site_id)
      s d.by_src m.by_src u.by_src u.slots
of_merged-merge_digest (Measure.src_family s k) m d u =
    merge_by_src-sum (λ s. count Family-discrete k s.families) (families-AddsUp k)
      (site_name d.site_id) s d.by_src m.by_src u.by_src u.slots
of_merged-merge_digest (Measure.org_hits o) m d u =
    merge_research-sum (λ s. s.hits) hits-OrgGains o d.research_scanners m.research_scanners
      u.research.0 u.research.1
of_merged-merge_digest (Measure.org_refused o) m d u =
    merge_research-sum (λ s. s.refused) refused-OrgGains o d.research_scanners m.research_scanners
      u.research.0 u.research.1
of_merged-merge_digest (Measure.org_src_ip o k) m d u =
    merge_research-sum (λ s. count Text_discrete k s.src_ips) (src_ips-OrgGains k) o
      d.research_scanners m.research_scanners u.research.0 u.research.1
of_merged-merge_digest _ m d u = refl

of_merged-merge_loop :
    (x : Measure) (ds : List Digest) (m : Merged)
    → All IsDictionary ds
    → of_merged x (merge_loop m ds) ≡ of_merged x m + sum_of (of_digest x) ds
unfolding merge_loop sum_of
of_merged-merge_loop x [] m u = omega arith
of_merged-merge_loop x (d ∷ ds) m u =
    omega
      (arith, of_merged-merge_loop x ds (merge_digest m d) u.1, of_merged-merge_digest x m d u.0)

of_merged-new : (x : Measure) → of_merged x new_merged ≡ 0
unfolding count get
of_merged-new (Measure.family k) = refl
of_merged-new _ = refl

-- Every measure of the merged digests is the sum of theirs.
pub of_merged-merge_digests :
    (x : Measure) (ds : List Digest)
    → All IsDictionary ds
    → of_merged x (merge_digests ds) ≡ sum_of (of_digest x) ds
unfolding merge_digests
of_merged-merge_digests x ds u =
    omega (arith, of_merged-merge_loop x ds new_merged u, of_merged-new x)

sum_of-permutation {ℓ} :
    {A : Type ℓ} (f : A → ℕ) {xs ys : List A} → Permᴰ xs ys → sum_of f xs ≡ sum_of f ys
unfolding sum_of
sum_of-permutation f Permᴰ.nil = refl
sum_of-permutation f (Permᴰ.cons e p) = omega (arith, ap f e, sum_of-permutation f p)
sum_of-permutation f (Permᴰ.swap {l = l} e e') = omega (arith, ap f e, ap f e')
sum_of-permutation f (Permᴰ.trans p q) = sum_of-permutation f p ∙ sum_of-permutation f q

All-permutation {ℓ κ} :
    {A : Type ℓ} (P : A → Type κ) {xs ys : List A} → Permᴰ xs ys → All P xs → All P ys
All-permutation P Permᴰ.nil h = h
All-permutation P (Permᴰ.cons e p) h = (subst P e h.0, All-permutation P p h.1)
All-permutation P (Permᴰ.swap e e') h = (subst P e' h.1.0, (subst P e h.0, h.1.1))
All-permutation P (Permᴰ.trans p q) h = All-permutation P q (All-permutation P p h)

-- The order of the digests does not matter to any measure of the merged digests: the totals, the counts
-- of families, paths, user agents, ports, exempt sources and inbound responses, and of each source the
-- DNS, HTTP and firewall counts and the counts of its types, classes, families, handlers and ports, and
-- of each research scanner the hits, the refused queries and the counts of its sources. No key occurs
-- twice in a counter of a digest.
pub merge_digests-Perm :
    (x : Measure) (ds ds' : List Digest)
    → Perm ds ds'
    → All IsDictionary ds
    → of_merged x (merge_digests ds) ≡ of_merged x (merge_digests ds')
merge_digests-Perm x ds ds' perm u = ∥∥₁_elim perm (ℕ_set _ _) λ p.
    of_merged-merge_digests x ds u
    ∙ sum_of-permutation (of_digest x) p
    ∙ sym (of_merged-merge_digests x ds' (All-permutation IsDictionary p u))
