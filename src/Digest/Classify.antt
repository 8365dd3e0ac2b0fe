-- ===== src/Digest/Classify.antt =====
-- The classifiers of tools/honeycow_digest.py: queries, research scanners, HTTP requests.
--
-- Texts are of code points below 256, which is what dnspython prints and what the HTTP closer logs.
pub mod Case
use honeycow.Prelude.{
  Bool, true, false, not, ◌&&◌, ◌||◌, Option, none, some, List, [], ◌∷◌, Text, codes, is_empty, any,
  before, if◌then◌else◌, same_text, is_upper, lower, starts_with, has_suffix, has_part, lstrip_code,
}
use honeycow.Digest.{Event, or_default}

pub data Family : Type 0 where
  empty chaos_banner cve_2026_5946_trigger asert_netscout shadowserver : Family
  open_resolver_test open_resolver_canary case_mix_0x20 other : Family

abbrev pub bind_chaos : List Text
bind_chaos =
    codes "version.bind."
    ∷ codes "hostname.bind."
    ∷ codes "id.server."
    ∷ codes "authors.bind."
    ∷ codes "version.server."
    ∷ codes "hostname.server."
    ∷ codes "id.bind."
    ∷ []

abbrev pub open_resolver_canaries : List Text
open_resolver_canaries = codes "google.com." ∷ []

-- `text in set`
unfoldable pub is_in : Text → List Text → Bool
is_in s set = any set (λ t. same_text s t)

-- `classify_query` behind the class, for a name and the name in lower case.
unfoldable pub classify_in_query : Text → Text → Family
unfolding is_in
classify_in_query qname low =
    if is_in low bind_chaos
    then chaos_banner
    else if has_part (codes "asertdnsresearch") low
    then asert_netscout
    else if has_part (codes "shadowserver") low
    then shadowserver
    else if has_suffix (codes ".cybergreen.net.") low
        || has_suffix (codes ".cyberresilience.io.") low
    then open_resolver_test
    else if is_in low open_resolver_canaries
    then open_resolver_canary
    else if not (same_text qname low) && any qname is_upper
    then case_mix_0x20
    else other

unfoldable pub classify_query : Event → Family
unfolding classify_in_query is_in
classify_query event =
    let qname = or_default event.qname [] in
    let qclass = or_default event.qclass_name (codes "IN") in
    let opcode = or_default event.opcode (codes "QUERY") in
    let low = lower qname in
    if is_empty qname
    then empty
    else if is_in qclass (codes "CH" ∷ codes "HS" ∷ [])
    then if is_in low bind_chaos && same_text opcode (codes "QUERY")
      then chaos_banner
      else cve_2026_5946_trigger
    else classify_in_query qname low

pub data Org : Type 0 where
  shadowserver cybergreen cyber_resilience driftnet_p25499 internet_census asert_netscout : Org

abbrev pub research_scanner_suffixes : List (Text × Org)
research_scanner_suffixes =
    (codes ".shadowserver.org.", Org.shadowserver)
    ∷ (codes ".cybergreen.net.", Org.cybergreen)
    ∷ (codes ".cyberresilience.io.", Org.cyber_resilience)
    ∷ (codes ".internet-measurement.com.", Org.driftnet_p25499)
    ∷ (codes ".internet-census.org.", Org.internet_census)
    ∷ (codes ".asertdnsresearch.com.", Org.asert_netscout)
    ∷ (codes ".asertdnsresearch.net.", Org.asert_netscout)
    ∷ []

unfoldable pub match_suffix : Text → List (Text × Org) → Option Org
match_suffix low [] = none
match_suffix low ((suffix, label) ∷ rest) =
    if same_text low (lstrip_code b'.' suffix) || has_suffix suffix low
    then some label
    else match_suffix low rest

unfoldable pub classify_research_scanner : Text → Option Org
unfolding match_suffix
classify_research_scanner qname =
    if is_empty qname then none else match_suffix (lower qname) research_scanner_suffixes

pub data HttpFamily : Type 0 where
  empty hikvision_web_language git_config_leak env_harvest php_cgi_rce phpunit_rce : HttpFamily
  apache_traversal other : HttpFamily

abbrev pub http_probe_signatures : List (Text × HttpFamily)
http_probe_signatures =
    (codes "/sdk/weblanguage", HttpFamily.hikvision_web_language)
    ∷ (codes "/.git/config", HttpFamily.git_config_leak)
    ∷ []

abbrev pub http_probe_substrings : List (Text × HttpFamily)
http_probe_substrings =
    (codes "auto_prepend_file", HttpFamily.php_cgi_rce)
    ∷ (codes "eval-stdin.php", HttpFamily.phpunit_rce)
    ∷ (codes "/cgi-bin/.%2e", HttpFamily.apache_traversal)
    ∷ []

-- The loops over the two tables: the label of the first needle that the test accepts.
unfoldable pub first_label : (Text → Bool) → List (Text × HttpFamily) → Option HttpFamily
first_label test [] = none
first_label test ((needle, label) ∷ rest) =
    if test needle then some label else first_label test rest

unfoldable pub classify_http : Text → HttpFamily
unfolding first_label
classify_http path =
    let full = lower path in
    let bare = before b'#' (before b'?' full) in
    let substring =
      or_default (first_label (λ needle. has_part needle full) http_probe_substrings)
        HttpFamily.other in
    let harvest =
      if same_text bare (codes "/.env") || starts_with (codes "/.env.") bare
      then HttpFamily.env_harvest
      else substring in
    if is_empty path
    then HttpFamily.empty
    else or_default (first_label (same_text bare) http_probe_signatures) harvest
