-- ===== src/Digest/Merge.antt =====
-- `merge_digests` of tools/honeycow_digest.py: the digests of all sites and hours as one.
use honeycow.Prelude.{
  ◌+◌, Option, none, some, List, [], ◌∷◌, ◌++◌, Text, codes, is_empty, if◌then◌else◌, Text_discrete,
}
use honeycow.Dict.{get, put, bump, update}
use honeycow.Digest.{or_default}
use honeycow.Digest.Classify.{Family, Org}
use honeycow.Digest.Slots.{
  Family-discrete, Org-discrete, Option_text_discrete, Counter, Slot, new_slot, earlier, later,
}
use honeycow.Digest.Window.{OrgStats, new_org, add_text, Inbound, Exemplar, Totals, Digest}

pub record MergedSlot : Type 0 where
  pub counts : Slot
  pub sites : List Text

pub record Merged : Type 0 where
  pub sites : Counter Text
  pub totals : Totals
  pub families : Counter Family
  pub http_paths : Counter (Option Text)
  pub http_user_agents : Counter (Option Text)
  pub ufw_ports : Counter Text
  pub source_exempt : Counter Text
  pub research_scanners : List (Org × OrgStats)
  pub inbound_qr : Inbound
  pub cve_exemplars : List Exemplar
  pub qr_exemplars : List Exemplar
  pub by_src : List (Text × MergedSlot)

abbrev pub new_totals : Totals
new_totals = record {
  events = 0;
  dns_queries = 0;
  dns_external = 0;
  dns_drops = 0;
  http = 0;
  ufw = 0;
}

abbrev pub new_inbound : Inbound
new_inbound = record {
  total = 0;
  research = 0;
  unknown = 0;
  oversized_total = 0;
  oversized_unknown = 0;
  by_ip = [];
  oversized_by_ip = [];
}

abbrev pub new_merged : Merged
new_merged = record {
  sites = [];
  totals = new_totals;
  families = [];
  http_paths = [];
  http_user_agents = [];
  ufw_ports = [];
  source_exempt = [];
  research_scanners = [];
  inbound_qr = new_inbound;
  cve_exemplars = [];
  qr_exemplars = [];
  by_src = [];
}

-- `d.get("site_id", "") or "(unset)"`
unfoldable pub site_name : Text → Text
site_name site = if is_empty site then codes "(unset)" else site

-- `_merge_counter(totals, …)`; the keys are those of the record.
unfoldable pub merge_totals : Totals → Totals → Totals
merge_totals a b = record {
  events = a.events + b.events;
  dns_queries = a.dns_queries + b.dns_queries;
  dns_external = a.dns_external + b.dns_external;
  dns_drops = a.dns_drops + b.dns_drops;
  http = a.http + b.http;
  ufw = a.ufw + b.ufw;
}

-- `set.update(texts)`
unfoldable pub add_texts : List Text → List Text → List Text
add_texts set [] = set
add_texts set (t ∷ ts) = add_texts (add_text t set) ts

unfoldable pub merge_org : OrgStats → OrgStats → OrgStats
merge_org tgt od = record {
  hits = tgt.hits + od.hits;
  refused = tgt.refused + od.refused;
  src_ips = update Text_discrete tgt.src_ips od.src_ips;
  qnames = add_texts tgt.qnames od.qnames;
}

unfoldable pub merge_research :
    List (Org × OrgStats) → List (Org × OrgStats) → List (Org × OrgStats)
merge_research research [] = research
merge_research research ((org, od) ∷ rest) =
    merge_research
      (put Org-discrete org (merge_org (or_default (get Org-discrete org research) new_org) od)
        research)
      rest

unfoldable pub merge_inbound : Inbound → Inbound → Inbound
merge_inbound inbound iq = record {
  total = inbound.total + iq.total;
  research = inbound.research + iq.research;
  unknown = inbound.unknown + iq.unknown;
  oversized_total = inbound.oversized_total + iq.oversized_total;
  oversized_unknown = inbound.oversized_unknown + iq.oversized_unknown;
  by_ip = update Text_discrete inbound.by_ip iq.by_ip;
  oversized_by_ip = update Text_discrete inbound.oversized_by_ip iq.oversized_by_ip;
}

-- `if f and (slot["first"] is None or f < slot["first"])`, and the same for the last.
unfoldable pub merge_first : Option Text → Option Text → Option Text
merge_first first none = first
merge_first first (some f) = if is_empty f then first else earlier f first

unfoldable pub merge_last : Option Text → Option Text → Option Text
merge_last last none = last
merge_last last (some l) = if is_empty l then last else later l last

unfoldable pub merge_slot : Text → MergedSlot → Slot → MergedSlot
merge_slot site m s = record {
  counts = record {
    dns = m.counts.dns + s.dns;
    http = m.counts.http + s.http;
    ufw = m.counts.ufw + s.ufw;
    qtypes = update Text_discrete m.counts.qtypes s.qtypes;
    qclasses = update Text_discrete m.counts.qclasses s.qclasses;
    families = update Family-discrete m.counts.families s.families;
    handlers = update Text_discrete m.counts.handlers s.handlers;
    ufw_ports = update Text_discrete m.counts.ufw_ports s.ufw_ports;
    first = merge_first m.counts.first s.first;
    last = merge_last m.counts.last s.last;
  };
  sites = add_text site m.sites;
}

-- `_src_slot`
abbrev pub src_slot : Text → List (Text × MergedSlot) → MergedSlot
src_slot s by_src =
    or_default (get Text_discrete s by_src) (record { counts = new_slot; sites = [] })

unfoldable pub merge_by_src :
    Text → List (Text × MergedSlot) → List (Text × Slot) → List (Text × MergedSlot)
merge_by_src site by_src [] = by_src
merge_by_src site by_src ((s, counts) ∷ rest) =
    merge_by_src site (put Text_discrete s (merge_slot site (src_slot s by_src) counts) by_src) rest

-- One round of the loop over the digests.
unfoldable pub merge_digest : Merged → Digest → Merged
merge_digest m d =
    let site = site_name d.site_id in
    record {
      sites = bump Text_discrete site 1 m.sites;
      totals = merge_totals m.totals d.totals;
      families = update Family-discrete m.families d.families;
      http_paths = update Option_text_discrete m.http_paths d.http_paths;
      http_user_agents = update Option_text_discrete m.http_user_agents d.http_user_agents;
      ufw_ports = update Text_discrete m.ufw_ports d.ufw_ports;
      source_exempt = update Text_discrete m.source_exempt d.source_exempt;
      research_scanners = merge_research m.research_scanners d.research_scanners;
      inbound_qr = merge_inbound m.inbound_qr d.inbound_qr;
      cve_exemplars = m.cve_exemplars ++ d.cve_exemplars;
      qr_exemplars = m.qr_exemplars ++ d.qr_exemplars;
      by_src = merge_by_src site m.by_src d.by_src;
    }

unfoldable pub merge_loop : Merged → List Digest → Merged
merge_loop m [] = m
merge_loop m (d ∷ ds) = merge_loop (merge_digest m d) ds

unfoldable pub merge_digests : List Digest → Merged
merge_digests = merge_loop new_merged
