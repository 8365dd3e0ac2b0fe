-- ===== src/Dashboard/Worst.antt =====
-- What the reasons of `grade_day` of tools/dashboard.py earn, and the laws of `_worst`.
use honeycow.Prelude.{
  ◌≡◌, refl, sym, ap, ◌∙◌, Bool, true, false, List, [], ◌∷◌, ◌++◌, if◌then◌else◌,
}
use honeycow.Dashboard.Grade.{
  Colour, green, yellow, red, worst, status_rank, Reason, http_volume, dns_volume, exploit_shaped,
  new_source, cve_trigger, oversized, burst, more_bursts, one_source, own_hosts, within_band, Grade,
  reaches, raise_to, rule, http_spike_red, dns_spike_red,
}

-- What a reason is worth, by itself.
abbrev pub earned : Reason → Colour
earned (http_volume n base) = if reaches n base http_spike_red then red else yellow
earned (dns_volume n base) = if reaches n base dns_spike_red then red else yellow
earned (exploit_shaped n base) = yellow
earned (new_source n base) = yellow
earned (cve_trigger n) = yellow
earned (oversized n) = red
earned (burst b) = if b.answered then red else green
earned (more_bursts n) = green
earned (one_source proto ip n total) = green
earned (own_hosts d h) = green
earned within_band = green

abbrev pub worst_of : List Reason → Colour
worst_of [] = green
worst_of (r ∷ why) = worst (earned r) (worst_of why)

pub worst-green : (a : Colour) → worst green a ≡ a
unfolding worst status_rank
worst-green green = refl
worst-green yellow = refl
worst-green red = refl

pub green-worst : (a : Colour) → worst a green ≡ a
unfolding worst status_rank
green-worst green = refl
green-worst yellow = refl
green-worst red = refl

pub red-worst : (a : Colour) → worst red a ≡ red
unfolding worst status_rank
red-worst green = refl
red-worst yellow = refl
red-worst red = refl

worst_assoc : (a b c : Colour) → worst (worst a b) c ≡ worst a (worst b c)
unfolding worst status_rank
worst_assoc green b c = ap (λ a. worst a c) (worst-green b) ∙ sym (worst-green (worst b c))
worst_assoc yellow green c = ap (worst yellow) (sym (worst-green c))
worst_assoc yellow yellow green = refl
worst_assoc yellow yellow yellow = refl
worst_assoc yellow yellow red = refl
worst_assoc yellow red c = red-worst c ∙ sym (ap (worst yellow) (red-worst c))
worst_assoc red b c = ap (λ a. worst a c) (red-worst b) ∙ red-worst c ∙ sym (red-worst (worst b c))

pub worst_of-append :
    (xs ys : List Reason) → worst_of (xs ++ ys) ≡ worst (worst_of xs) (worst_of ys)
worst_of-append [] ys = sym (worst-green (worst_of ys))
worst_of-append (x ∷ xs) ys =
    ap (worst (earned x)) (worst_of-append xs ys)
    ∙ sym (worst_assoc (earned x) (worst_of xs) (worst_of ys))

-- A grade whose colour is what its reasons earn.
abbrev pub IsEarned : Grade → Type 0
IsEarned g = g.status ≡ worst_of g.why

pub raise_to-IsEarned :
    (colour : Colour) (reasons : List Reason) (g : Grade)
    → worst_of reasons ≡ colour
    → IsEarned g
    → IsEarned (raise_to colour reasons g)
raise_to-IsEarned colour reasons g e h =
    (λ i. worst (h i) (sym e i)) ∙ sym (worst_of-append g.why reasons)

-- A line that earns nothing.
pub reported :
    (reason : Reason) (g : Grade)
    → earned reason ≡ green
    → IsEarned g
    → g.status ≡ worst_of (g.why ++ reason ∷ [])
reported reason g e h =
    h
    ∙ sym (green-worst (worst_of g.why))
    ∙ (λ i. worst (worst_of g.why) (sym (green-worst (earned reason) ∙ e) i))
    ∙ sym (worst_of-append g.why (reason ∷ []))

pub rule-IsEarned :
    (holds : Bool) (colour : Colour) (reason : Reason) (g : Grade)
    → earned reason ≡ colour
    → IsEarned g
    → IsEarned (rule holds colour reason g)
unfolding rule
rule-IsEarned true colour reason g e h =
    raise_to-IsEarned colour (reason ∷ []) g (green-worst (earned reason) ∙ e) h
rule-IsEarned false colour reason g e h = h
