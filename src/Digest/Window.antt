-- ===== src/Digest/Window.antt =====
-- `summarize_window` of tools/honeycow_digest.py: the digest of one window of events.
use honeycow.Prelude.{
  ℕ, ◌+◌, ◌-◌, Bool, true, false, not, ◌&&◌, ◌||◌, Option, none, some, List, [], ◌∷◌, ◌++◌, map,
  Text, codes, length, take, any, keep_if, ◌==◌, ltb, if◌then◌else◌, same_text, Text_discrete,
  sort_texts,
}
use honeycow.Dict.{get, put, bump, tally}
use honeycow.Digest.{Event, Ufw, or_default}
use honeycow.Digest.Classify.{Family, Org, classify_query, classify_research_scanner}
use honeycow.Digest.Slots.{
  Org-discrete, Option_text_discrete, Counter, Slot, ext_loop, http_loop, ufw_loop, ufw_port,
}
use honeycow.Ip.{IpAddress}
use honeycow.Digest.Sources.{is_private_or_loopback, ip_in_nets}
use honeycow.SourceExemptions.{Network}

-- The values of those that have one.
unfoldable pub present {ℓ} : {A : Type ℓ} → List (Option A) → List A
present [] = []
present (none ∷ rest) = present rest
present (some a ∷ rest) = a ∷ present rest

-- `e.get(key) == text`
abbrev pub holds : Option Text → Text → Bool
holds none t = false
holds (some s) t = same_text s t

pub record OrgStats : Type 0 where
  pub hits : ℕ
  pub refused : ℕ
  pub src_ips : Counter Text
  pub qnames : List Text

abbrev pub new_org : OrgStats
new_org = record { hits = 0; refused = 0; src_ips = []; qnames = [] }

-- A set of texts.
unfoldable pub add_text : Text → List Text → List Text
add_text t set = if any set (same_text t) then set else set ++ t ∷ []

abbrev pub max_qnames_per_org : ℕ
max_qnames_per_org = 10

unfoldable pub org_stats : Event → OrgStats → OrgStats
org_stats e org = record {
  hits = org.hits + 1;
  refused = if holds e.response_kind (codes "REFUSED") then org.refused + 1 else org.refused;
  src_ips = bump Text_discrete e.src_ip 1 org.src_ips;
  qnames =
      if ltb (length org.qnames) max_qnames_per_org
      then add_text (or_default e.qname []) org.qnames
      else org.qnames;
}

-- The loop over `ext` for one label; a label that is none is skipped.
unfoldable pub research_step : Option Org → Event → List (Org × OrgStats) → List (Org × OrgStats)
research_step none e research = research
research_step (some label) e research =
    put Org-discrete label (org_stats e (or_default (get Org-discrete label research) new_org))
      research

unfoldable pub research_loop : List Event → List (Org × OrgStats) → List (Org × OrgStats)
research_loop [] research = research
research_loop (e ∷ rest) research =
    research_loop rest
      (research_step (classify_research_scanner (or_default e.qname [])) e research)

-- `sorted(d["qnames"])`
unfoldable pub org_json : Org × OrgStats → Org × OrgStats
org_json (org, d) = (org, record d { qnames = sort_texts d.qnames })

pub record Inbound : Type 0 where
  pub total : ℕ
  pub research : ℕ
  pub unknown : ℕ
  pub oversized_total : ℕ
  pub oversized_unknown : ℕ
  pub by_ip : Counter Text
  pub oversized_by_ip : Counter Text

pub record Exemplar : Type 0 where
  pub ts : Option Text
  pub src_ip : Text
  pub src_port : Option ℕ
  pub qname : Option Text
  pub qtype_name : Option Text
  pub qclass_name : Option Text
  pub opcode : Option Text
  pub flags : Option ℕ
  pub drop_reason : Option Text
  pub response_kind : Option Text
  pub response_bytes : Option ℕ

unfoldable pub exemplar : Event → Exemplar
exemplar e = record {
  ts = e.ts;
  src_ip = e.src_ip;
  src_port = e.src_port;
  qname = e.qname;
  qtype_name = e.qtype_name;
  qclass_name = e.qclass_name;
  opcode = e.opcode;
  flags = e.flags;
  drop_reason = e.drop_reason;
  response_kind = e.response_kind;
  response_bytes = e.response_bytes;
}

abbrev pub max_cve_exemplars : ℕ
max_cve_exemplars = 50

abbrev pub max_qr_exemplars : ℕ
max_qr_exemplars = 50

pub record Totals : Type 0 where
  pub events : ℕ
  pub dns_queries : ℕ
  pub dns_external : ℕ
  pub dns_drops : ℕ
  pub http : ℕ
  pub ufw : ℕ

pub record Digest : Type 0 where
  pub site_id : Text
  pub hour : Text
  pub totals : Totals
  pub families : Counter Family
  pub http_paths : Counter (Option Text)
  pub http_user_agents : Counter (Option Text)
  pub ufw_ports : Counter Text
  pub source_exempt : Counter Text
  pub research_scanners : List (Org × OrgStats)
  pub inbound_qr : Inbound
  pub cve_exemplars : List Exemplar
  pub qr_exemplars : List Exemplar
  pub by_src : List (Text × Slot)

-- The tests of the comprehensions.
unfoldable pub is_query : Event → Bool
is_query e = holds e.event (codes "query")

unfoldable pub is_drop : Event → Bool
is_drop e = holds e.event (codes "query_drop")

unfoldable pub is_http : Event → Bool
is_http e = holds e.event (codes "http_closer")

unfoldable pub is_source_exempt : Event → Bool
is_source_exempt e = holds e.handler (codes "exempt_source")

abbrev has_port : Option ℕ → ℕ → Bool
has_port none n = false
has_port (some p) n = p == n

unfoldable pub is_oversized : Event → Bool
is_oversized e = holds e.drop_reason (codes "oversized_datagram")

unfoldable pub is_inbound_qr : Event → Bool
unfolding is_oversized
is_inbound_qr e =
    has_port e.src_port 53 && (holds e.drop_reason (codes "DROPPED_QR") || is_oversized e)

unfoldable pub is_trigger : Event → Bool
is_trigger e = elim (classify_query e) [ Family.cve_2026_5946_trigger ↦ true | _ ↦ false ]

module _ (ip : IpAddress) where
  unfoldable pub is_external : Event → Bool
  is_external e = not (is_private_or_loopback ip e.src_ip)

  unfoldable pub inbound : List Event → List Network → Inbound
  inbound inbound_qr research_nets =
      let known = λ (e : Event). ip_in_nets ip e.src_ip research_nets in
      let research = length (keep_if known inbound_qr) in
      let qr_oversized = keep_if is_oversized inbound_qr in
      record {
        total = length inbound_qr;
        research = research;
        unknown = length inbound_qr - research;
        oversized_total = length qr_oversized;
        oversized_unknown = length (keep_if (λ (e : Event). not (known e)) qr_oversized);
        by_ip = tally Text_discrete [] (map (λ (e : Event). e.src_ip) inbound_qr);
        oversized_by_ip = tally Text_discrete [] (map (λ (e : Event). e.src_ip) qr_oversized);
      }

  unfoldable pub summarize_window : List Event → List Ufw → Text → Text → List Network → Digest
  summarize_window events ufw site_id hour_iso research_nets =
      let queries = keep_if is_query events in
      let drops = keep_if is_drop events in
      let http = keep_if is_http events in
      let ext = keep_if is_external queries in
      let counted = ext_loop ext ([], []) in
      let inbound_qr = keep_if is_inbound_qr drops in
      record {
        site_id = site_id;
        hour = hour_iso;
        totals = record {
          events = length events;
          dns_queries = length queries;
          dns_external = length ext;
          dns_drops = length drops;
          http = length http;
          ufw = length ufw;
        };
        families = counted.1;
        http_paths = tally Option_text_discrete [] (map (λ (e : Event). e.path) http);
        http_user_agents = tally Option_text_discrete [] (map (λ (e : Event). e.user_agent) http);
        ufw_ports = tally Text_discrete [] (present (map ufw_port ufw));
        source_exempt =
            tally Text_discrete [] (map (λ (e : Event). e.src_ip) (keep_if is_source_exempt ext));
        research_scanners = map org_json (research_loop ext []);
        inbound_qr = inbound inbound_qr research_nets;
        cve_exemplars = take max_cve_exemplars (map exemplar (keep_if is_trigger ext));
        qr_exemplars = take max_qr_exemplars (map exemplar (keep_if is_oversized inbound_qr));
        by_src = ufw_loop ufw (http_loop http counted.0);
      }
