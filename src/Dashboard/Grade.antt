-- ===== src/Dashboard/Grade.antt =====
-- `grade_day` of tools/dashboard.py: the colour of a day and what it is for.
--
-- A reason stands for the line of text with its numbers. A median of counts is a number of halves,
-- and a quotient is compared by multiplying, so without the rounding of floats.
use honeycow.Prelude.{
  ℕ, ◌-◌, ◌*◌, Bool, not, ◌&&◌, ◌||◌, Option, none, some, List, [], ◌∷◌, ◌++◌, map, Text, length,
  take, keep_if, is_empty, ltb, leb, if◌then◌else◌,
}

-- The thresholds of `RUBRIC`; the share of `single_source_report` is a half.
abbrev pub http_spike_yellow : ℕ
http_spike_yellow = 3

abbrev pub http_spike_red : ℕ
http_spike_red = 10

abbrev pub dns_spike_yellow : ℕ
dns_spike_yellow = 2

abbrev pub dns_spike_red : ℕ
dns_spike_red = 4

abbrev pub exploit_spike_yellow : ℕ
exploit_spike_yellow = 3

abbrev pub cve_trigger_yellow : ℕ
cve_trigger_yellow = 3

abbrev pub qr_oversized_nonresearch_red : ℕ
qr_oversized_nonresearch_red = 1

abbrev pub reflection_burst_red : ℕ
reflection_burst_red = 1

abbrev pub new_source_spike_yellow : ℕ
new_source_spike_yellow = 4

pub data Colour : Type 0 where
  green yellow red : Colour

unfoldable pub status_rank : Colour → ℕ
status_rank green = 0
status_rank yellow = 1
status_rank red = 2

unfoldable pub worst : Colour → Colour → Colour
unfolding status_rank
worst a b = if leb (status_rank b) (status_rank a) then a else b

pub record Burst : Type 0 where
  pub n : ℕ
  pub answered : Bool
  pub qtype : Option Text
  pub src_ip : Text
  pub out_bytes : ℕ

pub record Day : Type 0 where
  pub http : ℕ
  pub http_ex_top : ℕ
  pub http_top : Option (Text × ℕ)
  pub dns_queries : ℕ
  pub dns_ex_top : ℕ
  pub dns_top : Option (Text × ℕ)
  pub exploit : ℕ
  pub cve_trigger : ℕ
  pub qr_oversized_nonresearch : ℕ
  pub reflection_bursts : List Burst
  pub new_sources : ℕ
  pub self_dns : ℕ
  pub self_http : ℕ

-- The medians, in halves.
pub record Baseline : Type 0 where
  pub http : ℕ
  pub dns : ℕ
  pub exploit : ℕ
  pub new_sources : ℕ

pub data Protocol : Type 0 where
  http dns : Protocol

pub data Reason : Type 0 where
  http_volume dns_volume : ℕ → ℕ → Reason
  exploit_shaped new_source : ℕ → ℕ → Reason
  cve_trigger oversized : ℕ → Reason
  burst : Burst → Reason
  more_bursts : ℕ → Reason
  one_source : Protocol → Text → ℕ → ℕ → Reason
  own_hosts : ℕ → ℕ → Reason
  within_band : Reason

pub record Grade : Type 0 where
  pub status : Colour
  pub why : List Reason

-- `ratio(n, base) >= times`, for a threshold above 0
unfoldable pub reaches : ℕ → ℕ → ℕ → Bool
reaches n base times = ltb 0 base && leb (times * base) (2 * n)

abbrev pub raise_to : Colour → List Reason → Grade → Grade
raise_to colour reasons g = record { status = worst g.status colour; why = g.why ++ reasons }

-- The rules on HTTP and DNS volume, with their yellow and red thresholds.
unfoldable pub spike : ℕ → ℕ → ℕ → ℕ → Colour
spike yellow_times red_times n base =
    if reaches n base red_times then red else if reaches n base yellow_times then yellow else green

unfoldable pub spike_why : ℕ → ℕ → ℕ → Reason → List Reason
spike_why yellow_times n base reason = if reaches n base yellow_times then reason ∷ [] else []

unfoldable pub grade_http : Day → Baseline → Grade → Grade
unfolding spike spike_why
grade_http day baseline =
    raise_to (spike http_spike_yellow http_spike_red day.http_ex_top baseline.http) (
      spike_why http_spike_yellow day.http_ex_top baseline.http
        (http_volume day.http_ex_top baseline.http))

unfoldable pub grade_dns : Day → Baseline → Grade → Grade
unfolding spike spike_why
grade_dns day baseline =
    raise_to (spike dns_spike_yellow dns_spike_red day.dns_ex_top baseline.dns) (
      spike_why dns_spike_yellow day.dns_ex_top baseline.dns
        (dns_volume day.dns_ex_top baseline.dns))

-- A rule that holds or not, with one colour and one line.
unfoldable pub rule : Bool → Colour → Reason → Grade → Grade
rule holds colour reason g = if holds then raise_to colour (reason ∷ []) g else g

unfoldable pub grade_exploit : Day → Baseline → Grade → Grade
unfolding rule reaches
grade_exploit day baseline =
    rule (ltb 0 day.exploit && reaches day.exploit baseline.exploit exploit_spike_yellow) yellow
      (exploit_shaped day.exploit baseline.exploit)

unfoldable pub grade_cve : Day → Grade → Grade
unfolding rule
grade_cve day = rule (leb cve_trigger_yellow day.cve_trigger) yellow (cve_trigger day.cve_trigger)

unfoldable pub grade_oversized : Day → Grade → Grade
unfolding rule
grade_oversized day =
    rule (leb qr_oversized_nonresearch_red day.qr_oversized_nonresearch) red
      (oversized day.qr_oversized_nonresearch)

unfoldable pub answered_bursts : List Burst → List Burst
answered_bursts = keep_if (λ b. b.answered)

unfoldable pub refused_bursts : List Burst → List Burst
refused_bursts = keep_if (λ b. not b.answered)

unfoldable pub burst_colour : List Burst → Colour
burst_colour answered = if leb reflection_burst_red (length answered) then red else green

unfoldable pub burst_lines : List Burst → List Burst → List Reason
burst_lines answered refused = map burst (take 3 (answered ++ refused))

unfoldable pub more_lines : List Burst → List Reason
more_lines bursts = if ltb 3 (length bursts) then more_bursts (length bursts - 3) ∷ [] else []

unfoldable pub grade_bursts : Day → Grade → Grade
unfolding burst_colour burst_lines answered_bursts refused_bursts more_lines
grade_bursts day =
    let answered = answered_bursts day.reflection_bursts in
    let refused = refused_bursts day.reflection_bursts in
    raise_to (burst_colour answered)
      (burst_lines answered refused ++ more_lines day.reflection_bursts)

unfoldable pub grade_new_sources : Day → Baseline → Grade → Grade
unfolding rule reaches
grade_new_sources day baseline =
    rule
      (ltb 0 day.new_sources
        && reaches day.new_sources baseline.new_sources new_source_spike_yellow)
      yellow (new_source day.new_sources baseline.new_sources)

-- One source's share of at least a half.
unfoldable pub single_source : Protocol → ℕ → Option (Text × ℕ) → Grade → Grade
single_source proto total none g = g
single_source proto total (some (ip, n)) g =
    if ltb 0 total && leb total (2 * n)
    then record g { why = g.why ++ one_source proto ip n total ∷ [] }
    else g

unfoldable pub report_own_hosts : Day → Grade → Grade
report_own_hosts day g =
    if ltb 0 day.self_dns || ltb 0 day.self_http
    then record g { why = g.why ++ own_hosts day.self_dns day.self_http ∷ [] }
    else g

unfoldable pub or_within_band : Grade → Grade
or_within_band g = if is_empty g.why then record g { why = within_band ∷ [] } else g

unfoldable pub grade_day : Day → Baseline → Grade
unfolding grade_http grade_dns grade_exploit grade_cve grade_oversized grade_bursts
    grade_new_sources single_source report_own_hosts or_within_band
grade_day day baseline =
    let g = grade_http day baseline (record { status = green; why = [] }) in
    let g = grade_exploit day baseline (grade_dns day baseline g) in
    let g = grade_bursts day (grade_oversized day (grade_cve day g)) in
    let g = grade_new_sources day baseline g in
    let g = single_source http day.http day.http_top g in
    let g = single_source dns day.dns_queries day.dns_top g in
    or_within_band (report_own_hosts day g)
