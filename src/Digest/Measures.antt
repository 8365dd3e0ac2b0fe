-- ===== src/Digest/Measures.antt =====
-- Numbers that a digest and a merged digest of tools/honeycow_digest.py report: the totals, the
-- counts of the families, paths, user agents, ports, exempt sources and inbound responses, and of each
-- source its DNS, HTTP and firewall counts and its counters of types, classes, families, handlers and
-- ports, and of each research scanner its hits, its refused queries and its source addresses. The names
-- that a scanner asked for, the exemplars and the times of a source are no counts.
pub mod Sums
pub mod Whole
use honeycow.Prelude.{ℕ, Option, Text, Text_discrete}
use honeycow.Dict.{count}
use honeycow.Digest.Classify.{Family, Org}
use honeycow.Digest.Research.{org_of}
use honeycow.Digest.Slots.{Family-discrete, Option_text_discrete, slot}
use honeycow.Digest.Window.{Digest}
use honeycow.Digest.Merge.{Merged, src_slot}

-- One of these numbers.
pub data Measure : Type 0 where
  events dns_queries dns_external dns_drops http ufw : Measure
  inbound_total inbound_research inbound_unknown : Measure
  inbound_oversized inbound_oversized_unknown : Measure
  family : Family → Measure
  http_path user_agent : Option Text → Measure
  ufw_port source_exempt inbound_by_ip inbound_oversized_by_ip : Text → Measure
  src_dns src_http src_ufw : Text → Measure
  src_qtype src_qclass src_handler src_port : Text → Text → Measure
  src_family : Text → Family → Measure
  org_hits org_refused : Org → Measure
  org_src_ip : Org → Text → Measure

abbrev pub of_digest : Measure → Digest → ℕ
of_digest Measure.events d = d.totals.events
of_digest Measure.dns_queries d = d.totals.dns_queries
of_digest Measure.dns_external d = d.totals.dns_external
of_digest Measure.dns_drops d = d.totals.dns_drops
of_digest Measure.http d = d.totals.http
of_digest Measure.ufw d = d.totals.ufw
of_digest Measure.inbound_total d = d.inbound_qr.total
of_digest Measure.inbound_research d = d.inbound_qr.research
of_digest Measure.inbound_unknown d = d.inbound_qr.unknown
of_digest Measure.inbound_oversized d = d.inbound_qr.oversized_total
of_digest Measure.inbound_oversized_unknown d = d.inbound_qr.oversized_unknown
of_digest (Measure.family k) d = count Family-discrete k d.families
of_digest (Measure.http_path k) d = count Option_text_discrete k d.http_paths
of_digest (Measure.user_agent k) d = count Option_text_discrete k d.http_user_agents
of_digest (Measure.ufw_port k) d = count Text_discrete k d.ufw_ports
of_digest (Measure.source_exempt k) d = count Text_discrete k d.source_exempt
of_digest (Measure.inbound_by_ip k) d = count Text_discrete k d.inbound_qr.by_ip
of_digest (Measure.inbound_oversized_by_ip k) d = count Text_discrete k d.inbound_qr.oversized_by_ip
of_digest (Measure.src_dns s) d = (slot s d.by_src).dns
of_digest (Measure.src_http s) d = (slot s d.by_src).http
of_digest (Measure.src_ufw s) d = (slot s d.by_src).ufw
of_digest (Measure.org_hits o) d = (org_of o d.research_scanners).hits
of_digest (Measure.org_refused o) d = (org_of o d.research_scanners).refused
of_digest (Measure.org_src_ip o k) d = count Text_discrete k (org_of o d.research_scanners).src_ips
of_digest (Measure.src_qtype s k) d = count Text_discrete k (slot s d.by_src).qtypes
of_digest (Measure.src_qclass s k) d = count Text_discrete k (slot s d.by_src).qclasses
of_digest (Measure.src_handler s k) d = count Text_discrete k (slot s d.by_src).handlers
of_digest (Measure.src_port s k) d = count Text_discrete k (slot s d.by_src).ufw_ports
of_digest (Measure.src_family s k) d = count Family-discrete k (slot s d.by_src).families

abbrev pub of_merged : Measure → Merged → ℕ
of_merged Measure.events m = m.totals.events
of_merged Measure.dns_queries m = m.totals.dns_queries
of_merged Measure.dns_external m = m.totals.dns_external
of_merged Measure.dns_drops m = m.totals.dns_drops
of_merged Measure.http m = m.totals.http
of_merged Measure.ufw m = m.totals.ufw
of_merged Measure.inbound_total m = m.inbound_qr.total
of_merged Measure.inbound_research m = m.inbound_qr.research
of_merged Measure.inbound_unknown m = m.inbound_qr.unknown
of_merged Measure.inbound_oversized m = m.inbound_qr.oversized_total
of_merged Measure.inbound_oversized_unknown m = m.inbound_qr.oversized_unknown
of_merged (Measure.family k) m = count Family-discrete k m.families
of_merged (Measure.http_path k) m = count Option_text_discrete k m.http_paths
of_merged (Measure.user_agent k) m = count Option_text_discrete k m.http_user_agents
of_merged (Measure.ufw_port k) m = count Text_discrete k m.ufw_ports
of_merged (Measure.source_exempt k) m = count Text_discrete k m.source_exempt
of_merged (Measure.inbound_by_ip k) m = count Text_discrete k m.inbound_qr.by_ip
of_merged (Measure.inbound_oversized_by_ip k) m = count Text_discrete k m.inbound_qr.oversized_by_ip
of_merged (Measure.src_dns s) m = (src_slot s m.by_src).counts.dns
of_merged (Measure.src_http s) m = (src_slot s m.by_src).counts.http
of_merged (Measure.src_ufw s) m = (src_slot s m.by_src).counts.ufw
of_merged (Measure.src_qtype s k) m = count Text_discrete k (src_slot s m.by_src).counts.qtypes
of_merged (Measure.src_qclass s k) m = count Text_discrete k (src_slot s m.by_src).counts.qclasses
of_merged (Measure.src_handler s k) m = count Text_discrete k (src_slot s m.by_src).counts.handlers
of_merged (Measure.src_port s k) m = count Text_discrete k (src_slot s m.by_src).counts.ufw_ports
of_merged (Measure.src_family s k) m = count Family-discrete k (src_slot s m.by_src).counts.families
of_merged (Measure.org_hits o) m = (org_of o m.research_scanners).hits
of_merged (Measure.org_refused o) m = (org_of o m.research_scanners).refused
of_merged (Measure.org_src_ip o k) m = count Text_discrete k (org_of o m.research_scanners).src_ips
