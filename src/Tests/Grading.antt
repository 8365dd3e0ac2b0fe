-- ===== src/Tests/Grading.antt =====
-- A day with one answered burst, and a share of more than half for one source.
use honeycow.Prelude.{◌≡◌, refl, true, none, some, [], ◌∷◌, codes, arith}
use honeycow.Dashboard.Grade
use honeycow.Dashboard.Grade.{
  Colour, red, Burst, Day, Baseline, Protocol, http, burst, one_source, http_volume, grade_day,
}
use honeycow.Dashboard.Worst.{worst_of}
use honeycow.Dashboard.Earned.{grade_day-earned}
use honeycow.Dashboard.Monotone.{IsAtLeast, grade_day-IsAtLeast}

abbrev answered : Burst
answered = record {
  n = 831;
  answered = true;
  qtype = some (codes "ANY");
  src_ip = codes "192.0.2.1";
  out_bytes = 4096;
}

abbrev day : Day
day = record {
  http = 100;
  http_ex_top = 40;
  http_top = some (codes "192.0.2.9", 60);
  dns_queries = 10;
  dns_ex_top = 10;
  dns_top = none;
  exploit = 0;
  cve_trigger = 2;
  qr_oversized_nonresearch = 0;
  reflection_bursts = answered ∷ [];
  new_sources = 5;
  self_dns = 0;
  self_http = 0;
}

abbrev baseline : Baseline
baseline = record { http = 20; dns = 20; exploit = 0; new_sources = 10 }

grade_day_test : grade_day day baseline ≡ record {
  status = red;
  why = http_volume 40 20 ∷ burst answered ∷ one_source http (codes "192.0.2.9") 60 100 ∷ [];
}
unfolding Grade.grade_day Grade.grade_http Grade.grade_dns Grade.grade_exploit Grade.grade_cve
    Grade.grade_oversized Grade.grade_bursts Grade.grade_new_sources Grade.single_source
    Grade.report_own_hosts Grade.or_within_band Grade.spike Grade.spike_why Grade.rule Grade.reaches
    Grade.worst Grade.status_rank Grade.answered_bursts Grade.refused_bursts Grade.burst_colour
    Grade.burst_lines Grade.more_lines
grade_day_test = refl

grade_day-earned_example : (grade_day day baseline).status ≡ worst_of (grade_day day baseline).why
grade_day-earned_example = grade_day-earned day baseline

abbrev quieter : Day
quieter = record day { http_ex_top = 20; reflection_bursts = []; cve_trigger = 0 }

grade_day-IsAtLeast_example :
    IsAtLeast (grade_day day baseline).status (grade_day quieter baseline).status
unfolding Grade.answered_bursts
grade_day-IsAtLeast_example =
    grade_day-IsAtLeast day quieter baseline
      (omega arith, omega arith, omega arith, omega arith, omega arith, omega arith, omega arith)
