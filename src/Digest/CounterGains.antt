-- ===== src/Digest/CounterGains.antt =====
-- What an event or a firewall line adds to the counters of a slot of tools/honeycow_digest.py.
use mathlib.Core.Logic.{ite}
use honeycow.Prelude.{
  ℕ, ◌+◌, ◌≡◌, refl, ◌∙◌, Option, none, some, Text, codes, is_empty, arith, if◌then◌else◌,
  Text_discrete, Bool-cases, inl, inr,
}
use honeycow.Dict.{get, count}
use honeycow.Dict.Laws.{count-bump}
use honeycow.Digest.{or_default}
use honeycow.Digest.Classify.{Family, classify_query}
use honeycow.Digest.Gains.{Gains}
use honeycow.Digest.Slots.{Family-discrete, Counter, Slot, stamp, dns_slot, bump_present, ufw_port}

-- A number that does not depend on the times is not changed by a stamp.
stamp_keeps :
    (g : Slot → ℕ)
    → ((s : Slot) (first last : Option Text) → g (record s { first = first; last = last }) ≡ g s)
    → (ts : Option Text) (s : Slot) → g (stamp ts s) ≡ g s
unfolding stamp
stamp_keeps g same none s = refl
stamp_keeps g same (some ts) s = elim (Bool-cases (is_empty ts)) [
  | inl e ↦ rw e refl
  | inr e ↦ rw e (same s _ _)
]

-- What a text adds to the count of a key, if there is one that is not empty.
abbrev named : Text → Option Text → ℕ
named k none = 0
named k (some t) = if is_empty t then 0 else ite (Text_discrete t k) 1 0

count-bump_present :
    (k : Text) (o : Option Text) (c : Counter Text)
    → count Text_discrete k (bump_present o c) ≡ count Text_discrete k c + named k o
unfolding bump_present
count-bump_present k none c = omega arith
count-bump_present k (some t) c = elim (Bool-cases (is_empty t)) [
  | inl e ↦ rw e (omega arith)
  | inr e ↦ rw e (omega (arith, count-bump Text_discrete t k 1 c))
]

pub qtypes-Gains : (k : Text) → Gains (λ s. count Text_discrete k s.qtypes)
unfolding dns_slot count get
qtypes-Gains k =
    let g : Slot → ℕ = λ s. count Text_discrete k s.qtypes in
    record {
      new = refl;
      of_dns = λ e. ite (Text_discrete (or_default e.qtype_name (codes "?")) k) 1 0;
      of_http = λ e. 0;
      of_ufw = λ u. 0;
      dns_gain = λ e s.
          stamp_keeps g (λ t f l. refl) e.ts _
          ∙ omega
              (arith, count-bump Text_discrete (or_default e.qtype_name (codes "?")) k 1 s.qtypes);
      http_gain = λ e s. stamp_keeps g (λ t f l. refl) e.ts _ ∙ omega arith;
      ufw_gain = λ u s. omega arith;
    }

pub qclasses-Gains : (k : Text) → Gains (λ s. count Text_discrete k s.qclasses)
unfolding dns_slot count get
qclasses-Gains k =
    let g : Slot → ℕ = λ s. count Text_discrete k s.qclasses in
    record {
      new = refl;
      of_dns = λ e. ite (Text_discrete (or_default e.qclass_name (codes "?")) k) 1 0;
      of_http = λ e. 0;
      of_ufw = λ u. 0;
      dns_gain = λ e s.
          stamp_keeps g (λ t f l. refl) e.ts _
          ∙ omega (
            arith,
            count-bump Text_discrete (or_default e.qclass_name (codes "?")) k 1 s.qclasses,
          );
      http_gain = λ e s. stamp_keeps g (λ t f l. refl) e.ts _ ∙ omega arith;
      ufw_gain = λ u s. omega arith;
    }

pub families-Gains : (k : Family) → Gains (λ s. count Family-discrete k s.families)
unfolding dns_slot count get
families-Gains k =
    let g : Slot → ℕ = λ s. count Family-discrete k s.families in
    record {
      new = refl;
      of_dns = λ e. ite (Family-discrete (classify_query e) k) 1 0;
      of_http = λ e. 0;
      of_ufw = λ u. 0;
      dns_gain = λ e s.
          stamp_keeps g (λ t f l. refl) e.ts _
          ∙ omega (arith, count-bump Family-discrete (classify_query e) k 1 s.families);
      http_gain = λ e s. stamp_keeps g (λ t f l. refl) e.ts _ ∙ omega arith;
      ufw_gain = λ u s. omega arith;
    }

pub handlers-Gains : (k : Text) → Gains (λ s. count Text_discrete k s.handlers)
unfolding dns_slot count get
handlers-Gains k =
    let g : Slot → ℕ = λ s. count Text_discrete k s.handlers in
    record {
      new = refl;
      of_dns = λ e. named k e.handler;
      of_http = λ e. 0;
      of_ufw = λ u. 0;
      dns_gain =
          λ e s. stamp_keeps g (λ t f l. refl) e.ts _ ∙ count-bump_present k e.handler s.handlers;
      http_gain = λ e s. stamp_keeps g (λ t f l. refl) e.ts _ ∙ omega arith;
      ufw_gain = λ u s. omega arith;
    }

pub ports-Gains : (k : Text) → Gains (λ s. count Text_discrete k s.ufw_ports)
unfolding dns_slot count get
ports-Gains k =
    let g : Slot → ℕ = λ s. count Text_discrete k s.ufw_ports in
    record {
      new = refl;
      of_dns = λ e. 0;
      of_http = λ e. 0;
      of_ufw = λ u. named k (ufw_port u);
      dns_gain = λ e s. stamp_keeps g (λ t f l. refl) e.ts _ ∙ omega arith;
      http_gain = λ e s. stamp_keeps g (λ t f l. refl) e.ts _ ∙ omega arith;
      ufw_gain = λ u s. count-bump_present k (ufw_port u) s.ufw_ports;
    }
