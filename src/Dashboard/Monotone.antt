-- ===== src/Dashboard/Monotone.antt =====
-- The colours that `grade_day` of tools/dashboard.py gives to two days of which one has more evidence.
use honeycow.Prelude.{
  ℕ, ◌*◌, ◌≤◌, ◌≡◌, refl, sym, ap, subst₂, ◌∙◌, Bool, true, false, ◌&&◌, ◌||◌, Option, none, some,
  List, [], Text, length, is_empty, ltb, leb, if◌then◌else◌, Bool-cases, inl, inr, arith,
}
use honeycow.Dashboard.Grade.{
  Colour, green, yellow, red, worst, status_rank, Burst, Day, Baseline, Protocol, http, dns, Reason,
  exploit_shaped, cve_trigger, oversized, new_source, Grade, reaches, spike, rule, burst_colour,
  answered_bursts, single_source, report_own_hosts, or_within_band, grade_day, http_spike_yellow,
  http_spike_red, dns_spike_yellow, dns_spike_red, exploit_spike_yellow, cve_trigger_yellow,
  qr_oversized_nonresearch_red, new_source_spike_yellow, grade_http, grade_dns, grade_exploit,
  grade_cve, grade_oversized, grade_bursts, grade_new_sources,
}

-- A rule's colour, by itself.
abbrev when : Bool → Colour → Colour
when holds colour = if holds then colour else green

worst-green : (a : Colour) → a ≡ worst a green
unfolding worst status_rank
worst-green green = refl
worst-green yellow = refl
worst-green red = refl

rule-status :
    (holds : Bool) (colour : Colour) (reason : Reason) (g : Grade)
    → (rule holds colour reason g).status ≡ worst g.status (when holds colour)
unfolding rule
rule-status true colour reason g = refl
rule-status false colour reason g = worst-green g.status

single_source-status :
    (proto : Protocol) (total : ℕ) (top : Option (Text × ℕ)) (g : Grade)
    → (single_source proto total top g).status ≡ g.status
unfolding single_source
single_source-status proto total none g = refl
single_source-status proto total (some (ip, n)) g =
    elim (Bool-cases (ltb 0 total && leb total (2 * n))) [ inl e ↦ rw e refl | inr e ↦ rw e refl ]

report_own_hosts-status : (day : Day) (g : Grade) → (report_own_hosts day g).status ≡ g.status
unfolding report_own_hosts
report_own_hosts-status day g = elim (Bool-cases (ltb 0 day.self_dns || ltb 0 day.self_http)) [
  | inl e ↦ rw e refl
  | inr e ↦ rw e refl
]

or_within_band-status : (g : Grade) → (or_within_band g).status ≡ g.status
unfolding or_within_band
or_within_band-status g = elim (Bool-cases (is_empty g.why)) [
  | inl e ↦ rw e refl
  | inr e ↦ rw e refl
]

-- What the rules on a day come to, in their order.
colour : Day → Baseline → Colour
colour day baseline =
    worst
      (worst
        (worst
          (worst
            (worst
              (worst
                (worst green (spike http_spike_yellow http_spike_red day.http_ex_top baseline.http))
                (spike dns_spike_yellow dns_spike_red day.dns_ex_top baseline.dns))
              (when (ltb 0 day.exploit && reaches day.exploit baseline.exploit exploit_spike_yellow)
                yellow))
            (when (leb cve_trigger_yellow day.cve_trigger) yellow))
          (when (leb qr_oversized_nonresearch_red day.qr_oversized_nonresearch) red))
        (burst_colour (answered_bursts day.reflection_bursts)))
      (when
        (ltb 0 day.new_sources
          && reaches day.new_sources baseline.new_sources new_source_spike_yellow)
        yellow)

grade_day-colour :
    (day : Day) (baseline : Baseline) → (grade_day day baseline).status ≡ colour day baseline
unfolding grade_day colour grade_http grade_dns grade_exploit grade_cve grade_oversized grade_bursts
    grade_new_sources
grade_day-colour day baseline =
    let g1 =
      grade_dns day baseline (grade_http day baseline (record { status = green; why = [] })) in
    let g2 = grade_exploit day baseline g1 in
    let g3 = grade_cve day g2 in
    let g4 = grade_oversized day g3 in
    let g5 = grade_bursts day g4 in
    let g6 = grade_new_sources day baseline g5 in
    let g7 = single_source http day.http day.http_top g6 in
    let g8 = single_source dns day.dns_queries day.dns_top g7 in
    let exploit = ltb 0 day.exploit && reaches day.exploit baseline.exploit exploit_spike_yellow in
    let cve = leb cve_trigger_yellow day.cve_trigger in
    let over = leb qr_oversized_nonresearch_red day.qr_oversized_nonresearch in
    let fresh =
      ltb 0 day.new_sources
      && reaches day.new_sources baseline.new_sources new_source_spike_yellow in
    let bursts = burst_colour (answered_bursts day.reflection_bursts) in
    let e2 = rule-status exploit yellow (exploit_shaped day.exploit baseline.exploit) g1 in
    let e3 =
      rule-status cve yellow (cve_trigger day.cve_trigger) g2
      ∙ ap (λ c. worst c (when cve yellow)) e2 in
    let e4 =
      rule-status over red (oversized day.qr_oversized_nonresearch) g3
      ∙ ap (λ c. worst c (when over red)) e3 in
    let e6 =
      rule-status fresh yellow (new_source day.new_sources baseline.new_sources) g5
      ∙ ap (λ c. worst (worst c bursts) (when fresh yellow)) e4 in
    or_within_band-status (report_own_hosts day g8)
    ∙ report_own_hosts-status day g8
    ∙ single_source-status dns day.dns_queries day.dns_top g7
    ∙ single_source-status http day.http day.http_top g6
    ∙ e6

-- A colour that is no better.
abbrev pub IsAtLeast : Colour → Colour → Type 0
IsAtLeast a b = status_rank b ≤ status_rank a

worst-rank :
    (a b : Colour)
    → status_rank (worst a b)
      ≡ (if leb (status_rank b) (status_rank a) then status_rank a else status_rank b)
unfolding worst
worst-rank a b = elim (Bool-cases (leb (status_rank b) (status_rank a))) [
  | inl e ↦ rw e refl
  | inr e ↦ rw e refl
]

worst-IsAtLeast :
    (a b c d : Colour) → IsAtLeast a c → IsAtLeast b d → IsAtLeast (worst a b) (worst c d)
worst-IsAtLeast a b c d h k = ground (arith, worst-rank a b, worst-rank c d, h, k)

spike-IsAtLeast :
    (yellow_times red_times n m base : ℕ)
    → m ≤ n
    → IsAtLeast (spike yellow_times red_times n base) (spike yellow_times red_times m base)
unfolding spike reaches status_rank
spike-IsAtLeast yellow_times red_times n m base h = ground (arith, h)

when-IsAtLeast : (p q : Bool) (c : Colour) → (q ≡ true → p ≡ true) → IsAtLeast (when p c) (when q c)
unfolding status_rank
when-IsAtLeast true true c h = omega arith
when-IsAtLeast true false c h = omega arith
when-IsAtLeast false true c h = ground (arith, h refl)
when-IsAtLeast false false c h = omega arith

-- The counts of a day that are graded are at least those of another.
abbrev pub IsNoQuieter : Day → Day → Type 0
IsNoQuieter day other =
    (other.http_ex_top ≤ day.http_ex_top)
    × (other.dns_ex_top ≤ day.dns_ex_top)
    × (other.exploit ≤ day.exploit)
    × (other.cve_trigger ≤ day.cve_trigger)
    × (other.qr_oversized_nonresearch ≤ day.qr_oversized_nonresearch)
    × (length (answered_bursts other.reflection_bursts)
        ≤ length (answered_bursts day.reflection_bursts))
    × (other.new_sources ≤ day.new_sources)

threshold :
    (times n m base : ℕ)
    → m ≤ n
    → (ltb 0 m && reaches m base times) ≡ true
    → (ltb 0 n && reaches n base times) ≡ true
unfolding reaches
threshold times n m base h e = ground (arith, h, e)

at_least : (k n m : ℕ) → m ≤ n → leb k m ≡ true → leb k n ≡ true
at_least k n m h e = ground (arith, h, e)

bursts-IsAtLeast :
    (xs ys : List Burst) → length ys ≤ length xs → IsAtLeast (burst_colour xs) (burst_colour ys)
unfolding burst_colour status_rank
bursts-IsAtLeast xs ys h = ground (arith, h)

-- Of two days that are judged against the same medians, one with at least the graded counts of the
-- other has a colour that is no better.
pub grade_day-IsAtLeast :
    (day other : Day) (baseline : Baseline)
    → IsNoQuieter day other
    → IsAtLeast (grade_day day baseline).status (grade_day other baseline).status
unfolding colour
grade_day-IsAtLeast day other baseline (h, d, e, c, q, b, n) =
    subst₂ IsAtLeast (sym (grade_day-colour day baseline)) (sym (grade_day-colour other baseline)) (
      worst-IsAtLeast _ _ _ _
        (worst-IsAtLeast _ _ _ _
          (worst-IsAtLeast _ _ _ _
            (worst-IsAtLeast _ _ _ _
              (worst-IsAtLeast _ _ _ _
                (worst-IsAtLeast _ _ _ _
                  (worst-IsAtLeast green _ green _ (omega arith) (
                    spike-IsAtLeast http_spike_yellow http_spike_red day.http_ex_top
                      other.http_ex_top baseline.http h))
                  (spike-IsAtLeast dns_spike_yellow dns_spike_red day.dns_ex_top other.dns_ex_top
                    baseline.dns d))
                (when-IsAtLeast _ _ yellow
                  (threshold exploit_spike_yellow day.exploit other.exploit baseline.exploit e)))
              (when-IsAtLeast _ _ yellow
                (at_least cve_trigger_yellow day.cve_trigger other.cve_trigger c)))
            (when-IsAtLeast _ _ red (
              at_least qr_oversized_nonresearch_red day.qr_oversized_nonresearch
                other.qr_oversized_nonresearch q)))
          (bursts-IsAtLeast (answered_bursts day.reflection_bursts)
            (answered_bursts other.reflection_bursts) b))
        (when-IsAtLeast _ _ yellow (
          threshold new_source_spike_yellow day.new_sources other.new_sources baseline.new_sources
            n)))
