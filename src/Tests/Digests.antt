-- ===== src/Tests/Digests.antt =====
-- The digest tool at a concrete log.
use mathlib.Core.List.{perm_append_comm}
use honeycow.Prelude.{
  ℕ, ◌≡◌, refl, false, none, some, List, [], ◌∷◌, map, Text, codes, Text_discrete, ℕ_discrete,
  same_text, lower, has_part, has_suffix, starts_with, lstrip_code, before,
}
use honeycow.Digest.{Event, Ufw}
use honeycow.Digest.Classify
use honeycow.Digest.Classify.{Family, HttpFamily, Org}
use honeycow.Digest.Classify.Case.{lowered, without_case, classify-lower}
use honeycow.Digest.Hourly
use honeycow.Digest.Hourly.Whole.{stamped, merge_digests-iter_hourly_digests}
use honeycow.Digest.Measures.{Measure, of_digest, of_merged}
use honeycow.Digest.Measures.Sums.{merge_digests-Perm}
use honeycow.Digest.Measures.Whole.{
  Window, digest_of, all_events, all_ufw, summarize_window-IsDictionary,
  merge_digests-summarize_window,
}
use honeycow.Digest.Merge
use honeycow.Ip.{IpAddress}
use honeycow.Digest.Window

-- No address parses, so every source is external.
abbrev ip : IpAddress
ip = record {
  ip_address = λ s. none;
  ip_network = λ s. none;
  is_private = λ a. false;
  is_loopback = λ a. false;
  is_link_local = λ a. false;
}

abbrev probe : Text → Text → Event
probe qname qclass = record {
  event = some (codes "query");
  ts = some (codes "2026-05-20T00:00:00");
  src_ip = codes "192.0.2.7";
  src_port = some 4000;
  client_ip = none;
  qname = some qname;
  qtype_name = some (codes "A");
  qclass_name = some qclass;
  opcode = some (codes "QUERY");
  flags = some 0;
  handler = none;
  response_kind = some (codes "NOERROR");
  response_bytes = some 40;
  drop_reason = none;
  path = none;
  user_agent = none;
}

abbrev first : Event
first = probe (codes "Example.org.") (codes "IN")

abbrev second : Event
second = probe (codes "a.") (codes "CH")

abbrev blocked : Ufw
blocked = record { src = codes "192.0.2.8"; proto = codes "TCP"; dpt = some (codes "23") }

program : Unit {0}
unfolding Classify.is_in Classify.classify_in_query Classify.classify_query Classify.match_suffix
    Classify.classify_research_scanner Classify.first_label Classify.classify_http same_text lower
    has_part has_suffix starts_with lstrip_code before Text_discrete ℕ_discrete
program = tt

case_mix : Classify.classify_query first ≡ Family.case_mix_0x20
unfolding program
case_mix = refl

trigger : Classify.classify_query second ≡ Family.cve_2026_5946_trigger
unfolding program
trigger = refl

harvest : Classify.classify_http (codes "/.ENV.local?x") ≡ HttpFamily.env_harvest
unfolding program
harvest = refl

research : Classify.classify_research_scanner (codes "a.Shadowserver.org.") ≡ some Org.shadowserver
unfolding program
research = refl

classify-lower_example :
    (Classify.classify_query (lowered first) ≡ without_case (Classify.classify_query first))
    × (Classify.classify_research_scanner (lower (codes "a.Shadowserver.org."))
        ≡ Classify.classify_research_scanner (codes "a.Shadowserver.org."))
    × (Classify.classify_http (lower (codes "a.Shadowserver.org."))
        ≡ Classify.classify_http (codes "a.Shadowserver.org."))
classify-lower_example = classify-lower first (codes "a.Shadowserver.org.")

abbrev isoformat : ℕ → Text
isoformat h = h ∷ []

merge_digests-iter_hourly_digests_example :
    of_merged (Measure.src_dns (codes "192.0.2.7")) (
      Merge.merge_digests (
        Hourly.iter_hourly_digests ip isoformat
          ((some 10, first) ∷ (some 4000, second) ∷ [])
          ((some 20, blocked) ∷ [])
          (codes "ams-01")
          []))
    ≡ of_digest (Measure.src_dns (codes "192.0.2.7")) (
        Window.summarize_window ip
          (stamped {A = Event} ((some 10, first) ∷ (some 4000, second) ∷ []))
          (stamped {A = Ufw} ((some 20, blocked) ∷ []))
          (codes "ams-01")
          []
          [])
merge_digests-iter_hourly_digests_example =
    merge_digests-iter_hourly_digests ip isoformat (codes "ams-01") []
      (Measure.src_dns (codes "192.0.2.7")) ((some 10, first) ∷ (some 4000, second) ∷ [])
      ((some 20, blocked) ∷ []) []

abbrev windows : List (Window ip [])
windows =
    record { site = codes "ams-01"; hour = []; events = first ∷ []; ufw = [] }
    ∷ record { site = codes "fra-01"; hour = []; events = second ∷ []; ufw = blocked ∷ [] }
    ∷ []

merge_digests-summarize_window_example :
    of_merged
      (Measure.family Family.case_mix_0x20)
      (Merge.merge_digests (map (digest_of ip []) windows))
    ≡ of_digest
        (Measure.family Family.case_mix_0x20)
        (Window.summarize_window ip (all_events ip [] windows) (all_ufw ip [] windows) [] [] [])
merge_digests-summarize_window_example =
    merge_digests-summarize_window ip [] (Measure.family Family.case_mix_0x20) windows [] []

abbrev digest : Event → Text → Window.Digest
digest e site = Window.summarize_window ip (e ∷ []) [] site [] []

merge_digests-Perm_example :
    of_merged Measure.dns_queries
      (Merge.merge_digests (digest first (codes "ams-01") ∷ digest second (codes "fra-01") ∷ []))
    ≡ of_merged Measure.dns_queries
        (Merge.merge_digests (digest second (codes "fra-01") ∷ digest first (codes "ams-01") ∷ []))
merge_digests-Perm_example =
    merge_digests-Perm Measure.dns_queries
      (digest first (codes "ams-01") ∷ digest second (codes "fra-01") ∷ [])
      (digest second (codes "fra-01") ∷ digest first (codes "ams-01") ∷ [])
      (perm_append_comm (digest first (codes "ams-01") ∷ []) (digest second (codes "fra-01") ∷ []))
      (
        summarize_window-IsDictionary ip [] (first ∷ []) [] (codes "ams-01") [],
        (summarize_window-IsDictionary ip [] (second ∷ []) [] (codes "fra-01") [], tt),
      )
