-- ===== src/Digest/Measures/Whole.antt =====
-- The measures of the digests of parts, merged, against those of one digest of the whole log, for
-- `summarize_window` and `merge_digests` of tools/honeycow_digest.py.
use honeycow.Prelude.{
  ◌+◌, ◌≡◌, refl, sym, ◌∙◌, List, [], ◌∷◌, ◌++◌, map, Text, All, arith, Text_discrete, Option, none,
  some,
}
use honeycow.Dict.Laws.{Unique, put-Unique, tally-Unique}
use honeycow.Digest.{Event, Ufw}
use honeycow.Digest.Additive.{
  families-IsAdditive, http_paths-IsAdditive, http_user_agents-IsAdditive, ufw_ports-IsAdditive,
  source_exempt-IsAdditive, inbound_by_ip-IsAdditive, inbound_oversized_by_ip-IsAdditive,
  events-IsAdditive, dns_queries-IsAdditive, dns_external-IsAdditive, dns_drops-IsAdditive,
  http-IsAdditive, ufw-IsAdditive, inbound_total-IsAdditive, inbound_research-IsAdditive,
  inbound_unknown-IsAdditive, inbound_oversized-IsAdditive, inbound_oversized_unknown-IsAdditive,
  slot-IsAdditive,
}
use honeycow.Digest.Classify.{Family}
use honeycow.Digest.Counters.{ext_loop-AreSlots, http_loop-AreSlots, ufw_loop-AreSlots}
use honeycow.Digest.CounterGains.{
  qtypes-Gains, qclasses-Gains, families-Gains, handlers-Gains, ports-Gains,
}
use honeycow.Dict.{count}
use honeycow.Digest.Organizations.{research_loop-IsResearch, org_json-IsResearch}
use honeycow.Digest.Research.{
  research-IsAdditive, hits-OrgGains, refused-OrgGains, src_ips-OrgGains,
}
use honeycow.Digest.Gains.{Gains}
use honeycow.Digest.Merge.{merge_digests}
use honeycow.Digest.Measures.{Measure, of_digest, of_merged}
use honeycow.Digest.Measures.Sums.{IsDictionary, sum_of, of_merged-merge_digests}
use honeycow.Digest.Parts.{IsAdditive, ext_loop-families}
use honeycow.Digest.Slots.{
  Family-discrete, Counter, Slot, stamp, dns_slot, ext_loop, http_ip, http_loop, ufw_loop,
}
use honeycow.Ip.{IpAddress}
use honeycow.Digest.Window.{Digest, inbound, summarize_window}
use honeycow.SourceExemptions.{Network}

stamp_counts :
    (ts : Option Text) (s : Slot)
    → ((stamp ts s).dns ≡ s.dns) × ((stamp ts s).http ≡ s.http) × ((stamp ts s).ufw ≡ s.ufw)
unfolding stamp
stamp_counts none s = (refl, refl, refl)
stamp_counts (some ts) s = ground arith

dns-Gains : Gains (λ s. s.dns)
unfolding dns_slot
dns-Gains = record {
  new = refl;
  of_dns = λ e. 1;
  of_http = λ e. 0;
  of_ufw = λ u. 0;
  dns_gain = λ e s. (stamp_counts e.ts _).0;
  http_gain = λ e s. omega (arith, (stamp_counts e.ts (record s { http = s.http + 1 })).0);
  ufw_gain = λ u s. omega arith;
}

http-Gains : Gains (λ s. s.http)
unfolding dns_slot
http-Gains = record {
  new = refl;
  of_dns = λ e. 0;
  of_http = λ e. 1;
  of_ufw = λ u. 0;
  dns_gain = λ e s. (stamp_counts e.ts _).1 ∙ omega arith;
  http_gain = λ e s. (stamp_counts e.ts _).1;
  ufw_gain = λ u s. omega arith;
}

ufw-Gains : Gains (λ s. s.ufw)
unfolding dns_slot
ufw-Gains = record {
  new = refl;
  of_dns = λ e. 0;
  of_http = λ e. 0;
  of_ufw = λ u. 1;
  dns_gain = λ e s. (stamp_counts e.ts _).2 ∙ omega arith;
  http_gain = λ e s. (stamp_counts e.ts _).2 ∙ omega arith;
  ufw_gain = λ u s. refl;
}

ext_loop-Unique :
    (es : List Event) (b : List (Text × Slot)) (f : Counter Family)
    → Unique Text_discrete b
    → Unique Text_discrete (ext_loop es (b, f)).0
unfolding ext_loop
ext_loop-Unique [] b f u = u
ext_loop-Unique (e ∷ es) b f u = ext_loop-Unique es _ _ (put-Unique Text_discrete e.src_ip _ b u)

http_loop-Unique :
    (es : List Event) (b : List (Text × Slot))
    → Unique Text_discrete b
    → Unique Text_discrete (http_loop es b)
unfolding http_loop
http_loop-Unique [] b u = u
http_loop-Unique (e ∷ es) b u = http_loop-Unique es _ (put-Unique Text_discrete (http_ip e) _ b u)

ufw_loop-Unique :
    (us : List Ufw) (b : List (Text × Slot))
    → Unique Text_discrete b
    → Unique Text_discrete (ufw_loop us b)
unfolding ufw_loop
ufw_loop-Unique [] b u = u
ufw_loop-Unique (l ∷ us) b u = ufw_loop-Unique us _ (put-Unique Text_discrete l.src _ b u)

module _ (ip : IpAddress) (nets : List Network) where
  pub of_digest-IsAdditive : (x : Measure) → IsAdditive ip nets (of_digest x)
  of_digest-IsAdditive Measure.events = events-IsAdditive ip nets
  of_digest-IsAdditive Measure.dns_queries = dns_queries-IsAdditive ip nets
  of_digest-IsAdditive Measure.dns_external = dns_external-IsAdditive ip nets
  of_digest-IsAdditive Measure.dns_drops = dns_drops-IsAdditive ip nets
  of_digest-IsAdditive Measure.http = http-IsAdditive ip nets
  of_digest-IsAdditive Measure.ufw = ufw-IsAdditive ip nets
  of_digest-IsAdditive Measure.inbound_total = inbound_total-IsAdditive ip nets
  of_digest-IsAdditive Measure.inbound_research = inbound_research-IsAdditive ip nets
  of_digest-IsAdditive Measure.inbound_unknown = inbound_unknown-IsAdditive ip nets
  of_digest-IsAdditive Measure.inbound_oversized = inbound_oversized-IsAdditive ip nets
  of_digest-IsAdditive Measure.inbound_oversized_unknown =
      inbound_oversized_unknown-IsAdditive ip nets
  of_digest-IsAdditive (Measure.family k) = families-IsAdditive ip nets k
  of_digest-IsAdditive (Measure.http_path k) = http_paths-IsAdditive ip nets k
  of_digest-IsAdditive (Measure.user_agent k) = http_user_agents-IsAdditive ip nets k
  of_digest-IsAdditive (Measure.ufw_port k) = ufw_ports-IsAdditive ip nets k
  of_digest-IsAdditive (Measure.source_exempt k) = source_exempt-IsAdditive ip nets k
  of_digest-IsAdditive (Measure.inbound_by_ip k) = inbound_by_ip-IsAdditive ip nets k
  of_digest-IsAdditive (Measure.inbound_oversized_by_ip k) =
      inbound_oversized_by_ip-IsAdditive ip nets k
  of_digest-IsAdditive (Measure.src_dns s) = slot-IsAdditive ip nets (λ t. t.dns) dns-Gains s
  of_digest-IsAdditive (Measure.src_http s) = slot-IsAdditive ip nets (λ t. t.http) http-Gains s
  of_digest-IsAdditive (Measure.src_ufw s) = slot-IsAdditive ip nets (λ t. t.ufw) ufw-Gains s
  of_digest-IsAdditive (Measure.org_hits o) =
      research-IsAdditive (λ s. s.hits) hits-OrgGains ip nets o
  of_digest-IsAdditive (Measure.org_refused o) =
      research-IsAdditive (λ s. s.refused) refused-OrgGains ip nets o
  of_digest-IsAdditive (Measure.org_src_ip o k) =
      research-IsAdditive (λ s. count Text_discrete k s.src_ips) (src_ips-OrgGains k) ip nets o
  of_digest-IsAdditive (Measure.src_qtype s k) =
      slot-IsAdditive ip nets (λ t. count Text_discrete k t.qtypes) (qtypes-Gains k) s
  of_digest-IsAdditive (Measure.src_qclass s k) =
      slot-IsAdditive ip nets (λ t. count Text_discrete k t.qclasses) (qclasses-Gains k) s
  of_digest-IsAdditive (Measure.src_handler s k) =
      slot-IsAdditive ip nets (λ t. count Text_discrete k t.handlers) (handlers-Gains k) s
  of_digest-IsAdditive (Measure.src_port s k) =
      slot-IsAdditive ip nets (λ t. count Text_discrete k t.ufw_ports) (ports-Gains k) s
  of_digest-IsAdditive (Measure.src_family s k) =
      slot-IsAdditive ip nets (λ t. count Family-discrete k t.families) (families-Gains k) s

  pub summarize_window-IsDictionary :
      (es : List Event) (us : List Ufw) (site hour : Text)
      → IsDictionary (summarize_window ip es us site hour nets)
  unfolding summarize_window inbound
  summarize_window-IsDictionary es us site hour = record {
    families = rw (ext_loop-families _ [] []) (tally-Unique Family-discrete _ [] tt);
    http_paths = tally-Unique _ _ [] tt;
    http_user_agents = tally-Unique _ _ [] tt;
    ufw_ports = tally-Unique _ _ [] tt;
    source_exempt = tally-Unique _ _ [] tt;
    by_ip = tally-Unique _ _ [] tt;
    oversized_by_ip = tally-Unique _ _ [] tt;
    by_src = ufw_loop-Unique us _ (http_loop-Unique _ _ (ext_loop-Unique _ [] [] tt));
    research = org_json-IsResearch _ (research_loop-IsResearch _ [] (tt, tt));
    slots = ufw_loop-AreSlots us _ (http_loop-AreSlots _ _ (ext_loop-AreSlots _ [] [] tt));
  }

  -- What one site saw in one window.
  pub record Window : Type 0 where
    pub site : Text
    pub hour : Text
    pub events : List Event
    pub ufw : List Ufw

  abbrev pub digest_of : Window → Digest
  digest_of w = summarize_window ip w.events w.ufw w.site w.hour nets

  abbrev pub all_events : List Window → List Event
  all_events [] = []
  all_events (w ∷ ws) = w.events ++ all_events ws

  abbrev pub all_ufw : List Window → List Ufw
  all_ufw [] = []
  all_ufw (w ∷ ws) = w.ufw ++ all_ufw ws

  All-digest_of : (ws : List Window) → All IsDictionary (map digest_of ws)
  All-digest_of [] = tt
  All-digest_of (w ∷ ws) =
      (summarize_window-IsDictionary w.events w.ufw w.site w.hour, All-digest_of ws)

  sum_of-digest_of :
      (x : Measure) (ws : List Window) (site hour : Text)
      → sum_of (of_digest x) (map digest_of ws)
        ≡ of_digest x (summarize_window ip (all_events ws) (all_ufw ws) site hour nets)
  unfolding sum_of
  sum_of-digest_of x [] site hour = sym ((of_digest-IsAdditive x).empty site hour)
  sum_of-digest_of x (w ∷ ws) site hour = omega (
    arith,
    sum_of-digest_of x ws site hour,
    (of_digest-IsAdditive x).parts w.events (all_events ws) w.ufw (all_ufw ws) site hour w.site
        w.hour site hour,
  )

  -- The digests of any windows of any sites, merged, report of every measure (the totals, the counts of
  -- families, paths, user agents, ports, exempt sources and inbound responses, and of each source the
  -- DNS, HTTP and firewall counts and the counts of its types, classes, families, handlers and ports,
  -- and of each research scanner the hits, the refused queries and the counts of its sources) the number that one digest of all their events and firewall lines reports.
  pub merge_digests-summarize_window :
      (x : Measure) (ws : List Window) (site hour : Text)
      → of_merged x (merge_digests (map digest_of ws))
        ≡ of_digest x (summarize_window ip (all_events ws) (all_ufw ws) site hour nets)
  merge_digests-summarize_window x ws site hour =
      of_merged-merge_digests x (map digest_of ws) (All-digest_of ws)
      ∙ sum_of-digest_of x ws site hour
