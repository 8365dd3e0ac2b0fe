-- ===== src/Digest/Additive.antt =====
-- The numbers of a digest that are additive.
use mathlib.Core.List.{map-append}
use honeycow.Prelude.{
  ℕ, ◌+◌, ◌-◌, ◌≡◌, refl, Bool, not, Option, List, [], ◌++◌, map, Text, length, length-append,
  keep_if, keep_if-append, length-keep_if-le, arith, Text_discrete,
}
use honeycow.Dict.{count}
use honeycow.Digest.{Event, Ufw}
use honeycow.Digest.Classify.{Family, classify_query}
use honeycow.Digest.Slots.{Family-discrete, Option_text_discrete, Slot, slot, http_ip, ufw_port}
use honeycow.Ip.{IpAddress}
use honeycow.Digest.Sources.{ip_in_nets}
use honeycow.Digest.Window.{
  present, is_query, is_drop, is_http, is_source_exempt, is_oversized, inbound, summarize_window,
}
use honeycow.Digest.Gains.{Gains, weigh, weigh-append, slot-summarize_window}
use honeycow.Digest.Parts.{
  IsAdditive, appends, present-append, ext_loop-families, external, inbound_qr, of_description,
  of_length, of_tally,
}
use honeycow.SourceExemptions.{Network}

module _ (ip : IpAddress) (nets : List Network) where
  pub families-IsAdditive :
      (k : Family) → IsAdditive ip nets (λ d. count Family-discrete k d.families)
  unfolding summarize_window
  families-IsAdditive k =
      of_tally ip nets Family-discrete k (λ d. d.families)
        (λ es us. map classify_query (external ip nets es))
        (λ es us site hour. ext_loop-families (external ip nets es) [] []) refl
        (λ es es' us us'. simp appends)

  pub http_paths-IsAdditive :
      (k : Option Text) → IsAdditive ip nets (λ d. count Option_text_discrete k d.http_paths)
  unfolding summarize_window
  http_paths-IsAdditive k =
      of_tally ip nets Option_text_discrete k (λ d. d.http_paths)
        (λ es us. map (λ (e : Event). e.path) (keep_if is_http es)) (λ es us site hour. refl) refl
        (λ es es' us us'. simp appends)

  pub http_user_agents-IsAdditive :
      (k : Option Text) → IsAdditive ip nets (λ d. count Option_text_discrete k d.http_user_agents)
  unfolding summarize_window
  http_user_agents-IsAdditive k =
      of_tally ip nets Option_text_discrete k (λ d. d.http_user_agents)
        (λ es us. map (λ (e : Event). e.user_agent) (keep_if is_http es)) (λ es us site hour. refl)
        refl (λ es es' us us'. simp appends)

  pub ufw_ports-IsAdditive :
      (k : Text) → IsAdditive ip nets (λ d. count Text_discrete k d.ufw_ports)
  unfolding summarize_window present
  ufw_ports-IsAdditive k =
      of_tally ip nets Text_discrete k (λ d. d.ufw_ports) (λ es us. present (map ufw_port us))
        (λ es us site hour. refl) refl
        (λ es es' us us'.
          rw (map-append ufw_port us us') (present-append (map ufw_port us) (map ufw_port us')))

  pub source_exempt-IsAdditive :
      (k : Text) → IsAdditive ip nets (λ d. count Text_discrete k d.source_exempt)
  unfolding summarize_window
  source_exempt-IsAdditive k =
      of_tally ip nets Text_discrete k (λ d. d.source_exempt)
        (λ es us. map (λ (e : Event). e.src_ip) (keep_if is_source_exempt (external ip nets es)))
        (λ es us site hour. refl) refl (λ es es' us us'. simp appends)

  pub inbound_by_ip-IsAdditive :
      (k : Text) → IsAdditive ip nets (λ d. count Text_discrete k d.inbound_qr.by_ip)
  unfolding summarize_window inbound
  inbound_by_ip-IsAdditive k =
      of_tally ip nets Text_discrete k (λ d. d.inbound_qr.by_ip)
        (λ es us. map (λ (e : Event). e.src_ip) (inbound_qr ip nets es)) (λ es us site hour. refl)
        refl (λ es es' us us'. simp appends)

  inbound_qr-append :
      (es es' : List Event)
      → inbound_qr ip nets (es ++ es') ≡ inbound_qr ip nets es ++ inbound_qr ip nets es'
  inbound_qr-append es es' = simp appends

  pub inbound_unknown-IsAdditive : IsAdditive ip nets (λ d. d.inbound_qr.unknown)
  unfolding summarize_window inbound
  inbound_unknown-IsAdditive =
      let known : Event → Bool = λ e. ip_in_nets ip e.src_ip nets in
      of_description ip nets (λ d. d.inbound_qr.unknown)
        (λ es us. length (inbound_qr ip nets es) - length (keep_if known (inbound_qr ip nets es)))
        (λ es us site hour. refl) refl
        λ es es' us us'.
          let a = inbound_qr ip nets es in
          let b = inbound_qr ip nets es' in
          rw
            (
              inbound_qr-append es es',
              keep_if-append known a b,
              length-append a b,
              length-append (keep_if known a) (keep_if known b),
            )
            (omega (arith, length-keep_if-le known a, length-keep_if-le known b))

  pub events-IsAdditive : IsAdditive ip nets (λ d. d.totals.events)
  unfolding summarize_window inbound
  events-IsAdditive =
      of_length ip nets (λ d. d.totals.events) (λ es us. es) (λ es us site hour. refl) refl
        (λ es es' us us'. refl)

  pub dns_queries-IsAdditive : IsAdditive ip nets (λ d. d.totals.dns_queries)
  unfolding summarize_window inbound
  dns_queries-IsAdditive =
      of_length ip nets (λ d. d.totals.dns_queries) (λ es us. keep_if is_query es)
        (λ es us site hour. refl) refl (λ es es' us us'. simp appends)

  pub dns_external-IsAdditive : IsAdditive ip nets (λ d. d.totals.dns_external)
  unfolding summarize_window inbound
  dns_external-IsAdditive =
      of_length ip nets (λ d. d.totals.dns_external) (λ es us. external ip nets es)
        (λ es us site hour. refl) refl (λ es es' us us'. simp appends)

  pub dns_drops-IsAdditive : IsAdditive ip nets (λ d. d.totals.dns_drops)
  unfolding summarize_window inbound
  dns_drops-IsAdditive =
      of_length ip nets (λ d. d.totals.dns_drops) (λ es us. keep_if is_drop es)
        (λ es us site hour. refl) refl (λ es es' us us'. simp appends)

  pub http-IsAdditive : IsAdditive ip nets (λ d. d.totals.http)
  unfolding summarize_window inbound
  http-IsAdditive =
      of_length ip nets (λ d. d.totals.http) (λ es us. keep_if is_http es) (λ es us site hour. refl)
        refl (λ es es' us us'. simp appends)

  pub ufw-IsAdditive : IsAdditive ip nets (λ d. d.totals.ufw)
  unfolding summarize_window inbound
  ufw-IsAdditive =
      of_length ip nets (λ d. d.totals.ufw) (λ es us. us) (λ es us site hour. refl) refl
        (λ es es' us us'. refl)

  pub inbound_total-IsAdditive : IsAdditive ip nets (λ d. d.inbound_qr.total)
  unfolding summarize_window inbound
  inbound_total-IsAdditive =
      of_length ip nets (λ d. d.inbound_qr.total) (λ es us. inbound_qr ip nets es)
        (λ es us site hour. refl) refl (λ es es' us us'. simp appends)

  pub inbound_research-IsAdditive : IsAdditive ip nets (λ d. d.inbound_qr.research)
  unfolding summarize_window inbound
  inbound_research-IsAdditive =
      of_length ip nets (λ d. d.inbound_qr.research)
        (λ es us. keep_if (λ (e : Event). ip_in_nets ip e.src_ip nets) (inbound_qr ip nets es))
        (λ es us site hour. refl) refl (λ es es' us us'. simp appends)

  pub inbound_oversized-IsAdditive : IsAdditive ip nets (λ d. d.inbound_qr.oversized_total)
  unfolding summarize_window inbound
  inbound_oversized-IsAdditive =
      of_length ip nets (λ d. d.inbound_qr.oversized_total)
        (λ es us. keep_if is_oversized (inbound_qr ip nets es)) (λ es us site hour. refl) refl
        (λ es es' us us'. simp appends)

  pub inbound_oversized_unknown-IsAdditive :
      IsAdditive ip nets (λ d. d.inbound_qr.oversized_unknown)
  unfolding summarize_window inbound
  inbound_oversized_unknown-IsAdditive =
      of_length ip nets (λ d. d.inbound_qr.oversized_unknown)
        (λ es us.
          keep_if (λ (e : Event). not (ip_in_nets ip e.src_ip nets))
            (keep_if is_oversized (inbound_qr ip nets es)))
        (λ es us site hour. refl) refl (λ es es' us us'. simp appends)

  pub inbound_oversized_by_ip-IsAdditive :
      (k : Text) → IsAdditive ip nets (λ d. count Text_discrete k d.inbound_qr.oversized_by_ip)
  unfolding summarize_window inbound
  inbound_oversized_by_ip-IsAdditive k =
      of_tally ip nets Text_discrete k (λ d. d.inbound_qr.oversized_by_ip)
        (λ es us. map (λ (e : Event). e.src_ip) (keep_if is_oversized (inbound_qr ip nets es)))
        (λ es us site hour. refl) refl (λ es es' us us'. simp appends)

  external-append :
      (es es' : List Event)
      → external ip nets (es ++ es') ≡ external ip nets es ++ external ip nets es'
  external-append es es' = simp appends

  -- What a number in a slot gains is additive, for each source.
  pub slot-IsAdditive :
      (g : Slot → ℕ) → Gains g → (t : Text) → IsAdditive ip nets (λ d. g (slot t d.by_src))
  unfolding weigh
  slot-IsAdditive g gains t =
      of_description ip nets (λ d. g (slot t d.by_src))
        (λ es us.
          weigh (λ (e : Event). e.src_ip) gains.of_dns t (external ip nets es)
          + weigh http_ip gains.of_http t (keep_if is_http es)
          + weigh (λ (u : Ufw). u.src) gains.of_ufw t us)
        (slot-summarize_window g gains ip nets t) (omega arith)
        λ es es' us us'.
          rw
            (
              external-append es es',
              keep_if-append is_http es es',
              weigh-append (λ (e : Event). e.src_ip) gains.of_dns t (external ip nets es)
                  (external ip nets es'),
              weigh-append http_ip gains.of_http t (keep_if is_http es) (keep_if is_http es'),
              weigh-append (λ (u : Ufw). u.src) gains.of_ufw t us us',
            )
            (omega arith)
