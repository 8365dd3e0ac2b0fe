-- ===== src/Dashboard/Earned.antt =====
-- The colour that `grade_day` of tools/dashboard.py gives a day, and its reasons.
use honeycow.Prelude.{
  ℕ, zero, suc, ◌*◌, ◌≡◌, refl, ap, ◌∙◌, true, false, ◌&&◌, ◌||◌, Option, none, some, List, [], ◌∷◌,
  ◌++◌, map, Text, length, take, ltb, leb, Bool-cases, inl, inr, arith, All,
}
use honeycow.Dashboard.Grade.{
  Colour, green, yellow, red, worst, status_rank, Burst, Day, Baseline, Protocol, http, dns, Reason,
  http_volume, dns_volume, exploit_shaped, new_source, cve_trigger, oversized, burst, one_source,
  own_hosts, Grade, reaches, spike, spike_why, grade_day, http_spike_red, dns_spike_red,
  exploit_spike_yellow, cve_trigger_yellow, qr_oversized_nonresearch_red, new_source_spike_yellow,
  http_spike_yellow, dns_spike_yellow, answered_bursts, refused_bursts, burst_colour, burst_lines,
  more_lines, single_source, report_own_hosts, or_within_band, grade_http, grade_dns, grade_exploit,
  grade_cve, grade_oversized, grade_bursts, grade_new_sources,
}
use honeycow.Dashboard.Worst.{
  worst_of, worst-green, green-worst, red-worst, worst_of-append, IsEarned, raise_to-IsEarned,
  reported, rule-IsEarned,
}

http-spike :
    (n base : ℕ)
    → worst_of (spike_why http_spike_yellow n base (http_volume n base))
      ≡ spike http_spike_yellow http_spike_red n base
unfolding spike spike_why reaches worst status_rank
http-spike n base = ground arith

dns-spike :
    (n base : ℕ)
    → worst_of (spike_why dns_spike_yellow n base (dns_volume n base))
      ≡ spike dns_spike_yellow dns_spike_red n base
unfolding spike spike_why reaches worst status_rank
dns-spike n base = ground arith

refused-green :
    (k : ℕ) (bursts : List Burst)
    → All (λ b. b.answered ≡ false) bursts
    → worst_of (map burst (take k bursts)) ≡ green
refused-green zero bursts h = refl
refused-green (suc k) [] h = refl
refused-green (suc k) (b ∷ bursts) h =
    rw h.0 (worst-green (worst_of (map burst (take k bursts))) ∙ refused-green k bursts h.1)

refused_bursts-refused :
    (bursts : List Burst) → All (λ b. b.answered ≡ false) (refused_bursts bursts)
unfolding refused_bursts
refused_bursts-refused [] = tt
refused_bursts-refused (b ∷ bursts) = elim (Bool-cases b.answered) [
  | inl e ↦ rw e (refused_bursts-refused bursts)
  | inr e ↦ rw e (refl, refused_bursts-refused bursts)
]

answered_bursts-answered :
    (bursts : List Burst) → All (λ b. b.answered ≡ true) (answered_bursts bursts)
unfolding answered_bursts
answered_bursts-answered [] = tt
answered_bursts-answered (b ∷ bursts) = elim (Bool-cases b.answered) [
  | inl e ↦ rw e (refl, answered_bursts-answered bursts)
  | inr e ↦ rw e (answered_bursts-answered bursts)
]

-- An answered burst leads the lines, so one of the three that are shown.
burst_lines-earned :
    (answered refused : List Burst)
    → All (λ b. b.answered ≡ true) answered
    → All (λ b. b.answered ≡ false) refused
    → worst_of (burst_lines answered refused) ≡ burst_colour answered
unfolding burst_lines burst_colour
burst_lines-earned [] refused h k = refused-green 3 refused k
burst_lines-earned (b ∷ answered) refused h k =
    rw h.0 (red-worst (worst_of (map burst (take 2 (answered ++ refused)))) ∙ ground arith)

more_lines-green : (bursts : List Burst) → worst_of (more_lines bursts) ≡ green
unfolding more_lines
more_lines-green bursts = elim (Bool-cases (ltb 3 (length bursts))) [
  | inl e ↦ rw e (worst-green green)
  | inr e ↦ rw e refl
]

single_source-IsEarned :
    (proto : Protocol) (total : ℕ) (top : Option (Text × ℕ)) (g : Grade)
    → IsEarned g
    → IsEarned (single_source proto total top g)
unfolding single_source
single_source-IsEarned proto total none g h = h
single_source-IsEarned proto total (some (ip, n)) g h =
    elim (Bool-cases (ltb 0 total && leb total (2 * n))) [
      | inl e ↦ rw e (reported (one_source proto ip n total) g refl h)
      | inr e ↦ rw e h
    ]

report_own_hosts-IsEarned : (day : Day) (g : Grade) → IsEarned g → IsEarned (report_own_hosts day g)
unfolding report_own_hosts
report_own_hosts-IsEarned day g h = elim (Bool-cases (ltb 0 day.self_dns || ltb 0 day.self_http)) [
  | inl e ↦ rw e (reported (own_hosts day.self_dns day.self_http) g refl h)
  | inr e ↦ rw e h
]

empty_why :
    (status : Colour) (why : List Reason)
    → status ≡ worst_of why
    → IsEarned (or_within_band (record { status = status; why = why }))
unfolding or_within_band worst status_rank
empty_why status [] h = h
empty_why status (r ∷ why) h = h

grade_bursts-IsEarned : (day : Day) (g : Grade) → IsEarned g → IsEarned (grade_bursts day g)
unfolding grade_bursts
grade_bursts-IsEarned day g =
    let answered = answered_bursts day.reflection_bursts in
    let refused = refused_bursts day.reflection_bursts in
    raise_to-IsEarned (burst_colour answered)
      (burst_lines answered refused ++ more_lines day.reflection_bursts) g
      (worst_of-append (burst_lines answered refused) (more_lines day.reflection_bursts)
        ∙ ap (worst (worst_of (burst_lines answered refused)))
            (more_lines-green day.reflection_bursts)
        ∙ green-worst (worst_of (burst_lines answered refused))
        ∙ burst_lines-earned answered refused (answered_bursts-answered day.reflection_bursts)
            (refused_bursts-refused day.reflection_bursts))

volumes-IsEarned :
    (day : Day) (baseline : Baseline) (g : Grade)
    → IsEarned g
    → IsEarned (grade_dns day baseline (grade_http day baseline g))
unfolding grade_dns grade_http
volumes-IsEarned day baseline g h =
    let g' = grade_http day baseline g in
    raise_to-IsEarned (spike dns_spike_yellow dns_spike_red day.dns_ex_top baseline.dns)
      (spike_why dns_spike_yellow day.dns_ex_top baseline.dns
        (dns_volume day.dns_ex_top baseline.dns))
      g' (dns-spike day.dns_ex_top baseline.dns)
      (raise_to-IsEarned (spike http_spike_yellow http_spike_red day.http_ex_top baseline.http)
        (spike_why http_spike_yellow day.http_ex_top baseline.http
          (http_volume day.http_ex_top baseline.http))
        g (http-spike day.http_ex_top baseline.http) h)

exploit-IsEarned :
    (day : Day) (baseline : Baseline) (g : Grade)
    → IsEarned g
    → IsEarned (grade_exploit day baseline g)
unfolding grade_exploit
exploit-IsEarned day baseline g h =
    rule-IsEarned (ltb 0 day.exploit && reaches day.exploit baseline.exploit exploit_spike_yellow)
      yellow (exploit_shaped day.exploit baseline.exploit) g refl h

cve-IsEarned : (day : Day) (g : Grade) → IsEarned g → IsEarned (grade_cve day g)
unfolding grade_cve
cve-IsEarned day g h =
    rule-IsEarned (leb cve_trigger_yellow day.cve_trigger) yellow (cve_trigger day.cve_trigger) g
      refl h

oversized-IsEarned : (day : Day) (g : Grade) → IsEarned g → IsEarned (grade_oversized day g)
unfolding grade_oversized
oversized-IsEarned day g h =
    rule-IsEarned (leb qr_oversized_nonresearch_red day.qr_oversized_nonresearch) red
      (oversized day.qr_oversized_nonresearch) g refl h

new_sources-IsEarned :
    (day : Day) (baseline : Baseline) (g : Grade)
    → IsEarned g
    → IsEarned (grade_new_sources day baseline g)
unfolding grade_new_sources
new_sources-IsEarned day baseline g h =
    rule-IsEarned
      (ltb 0 day.new_sources
        && reaches day.new_sources baseline.new_sources new_source_spike_yellow)
      yellow (new_source day.new_sources baseline.new_sources) g refl h

-- The colour of a day is the worst that its reasons earn, each by itself: so a day that is not green has
-- a reason for it, and the refused bursts, the share of one source and the own hosts earn nothing.
pub grade_day-earned :
    (day : Day) (baseline : Baseline)
    → (grade_day day baseline).status ≡ worst_of (grade_day day baseline).why
unfolding grade_day
grade_day-earned day baseline =
    let start : Grade = record { status = green; why = [] } in
    let g1 = grade_dns day baseline (grade_http day baseline start) in
    let g2 = grade_exploit day baseline g1 in
    let g3 = grade_cve day g2 in
    let g4 = grade_oversized day g3 in
    let g5 = grade_bursts day g4 in
    let g6 = grade_new_sources day baseline g5 in
    let g7 = single_source http day.http day.http_top g6 in
    let g8 = single_source dns day.dns_queries day.dns_top g7 in
    let g9 = report_own_hosts day g8 in
    let e1 : IsEarned g1 = volumes-IsEarned day baseline start refl in
    let e4 : IsEarned g4 =
      oversized-IsEarned day g3 (cve-IsEarned day g2 (exploit-IsEarned day baseline g1 e1)) in
    let e6 : IsEarned g6 = new_sources-IsEarned day baseline g5 (grade_bursts-IsEarned day g4 e4) in
    let e8 : IsEarned g8 =
      single_source-IsEarned dns day.dns_queries day.dns_top g7
        (single_source-IsEarned http day.http day.http_top g6 e6) in
    empty_why g9.status g9.why (report_own_hosts-IsEarned day g8 e8)
