-- ===== src/IngestNs/Spans.antt =====
-- The span of days that `_copy_rows` of tools/ingest_ns.py finds for a file.
use honeycow.Prelude.{
  ℕ, Option-cases, subst, Bool, true, false, Option, none, some, List, [], ◌∷◌, Text, is_empty, inl,
  inr, All, ◌≡◌, refl, sym, text_lt, if◌then◌else◌, arith,
}
use honeycow.IngestNs.{
  Row, LogFile, Patterns, Query, read_rows, read_lines, add_line, parse_line, parse_body, iso_day,
  month, months, two_digits, is_query_line, bind_query, pdns_query,
}
use honeycow.IngestNs.Store.{Span, day_of, or_no_day}
use honeycow.IngestNs.Host.{copy_rows, span_loop, widen, within, if_lo}
use honeycow.IngestNs.Copies.{Covers}

text_lt_irrefl : (s : Text) → text_lt s s ≡ false
unfolding text_lt
text_lt_irrefl [] = refl
text_lt_irrefl (c ∷ s) = ground (arith, text_lt_irrefl s)

text_lt_trans : (s t r : Text) → text_lt s t ≡ true → text_lt t r ≡ true → text_lt s r ≡ true
unfolding text_lt
text_lt_trans s t [] h k = k
text_lt_trans [] t (e ∷ r) h k = refl
text_lt_trans (c ∷ s) [] (e ∷ r) h k = cc h
text_lt_trans (c ∷ s) (d ∷ t) (e ∷ r) h k = ground (arith, h, k, text_lt_trans s t r)

-- A day that is in a span is in the wider one, and the new day is too.
within-widen :
    (lo hi day e : Text)
    → within (lo, hi) e ≡ true
    → within ((if text_lt day lo then day else lo), (if text_lt hi day then day else hi)) e ≡ true
unfolding within
within-widen lo hi day e h = ground (arith, text_lt_trans e day lo, text_lt_trans hi day e)

within-new :
    (lo hi day : Text)
    → within ((if text_lt day lo then day else lo), (if text_lt hi day then day else hi)) day ≡ true
unfolding within
within-new lo hi day = ground (arith, text_lt_irrefl day)

within_self : (day : Text) → within (day, day) day ≡ true
unfolding within
within_self day = ground (arith, text_lt_irrefl day)

-- What a span comes to over more rows: it has a first day, and holds what it held and the rows.
abbrev Grown : Span → List Row → Option Span → Type 0
Grown s rows none = ⊥
Grown s rows (some t) =
    (is_empty t.0 ≡ false)
    × ((e : Text) → within s e ≡ true → within t e ≡ true)
    × All (λ r. within t (day_of r) ≡ true) rows

pub span_loop-Grown :
    (s : Span) (rows : List Row)
    → is_empty s.0 ≡ false
    → All (λ r. is_empty (day_of r) ≡ false) rows
    → Grown s rows (span_loop (some s) rows)
unfolding span_loop widen
span_loop-Grown s [] n h = (n, λ e k. k, tt)
span_loop-Grown (lo, hi) (r ∷ rows) n h =
    let lo' = if text_lt (day_of r) lo then day_of r else lo in
    let hi' = if text_lt hi (day_of r) then day_of r else hi in
    let n' : is_empty lo' ≡ false = ground (arith, n, h.0) in
    grow (span_loop (some (lo', hi')) rows) (span_loop-Grown (lo', hi') rows n' (h.1))
  where
    grow :
        (o : Option Span)
        → Grown
            (
              (if text_lt (day_of r) lo then day_of r else lo),
              (if text_lt hi (day_of r) then day_of r else hi),
            )
            rows
            o
        → Grown (lo, hi) (r ∷ rows) o
    grow none g = g
    grow (some t) (a, b, c) =
        (a, λ e k. b e (within-widen lo hi (day_of r) e k), (b _ (within-new lo hi (day_of r)), c))

-- The days that `parse_line` makes are not empty.
iso_day-not_empty : (y mo d : Text) → is_empty (iso_day y mo d) ≡ false
unfolding iso_day
iso_day-not_empty [] mo d = refl
iso_day-not_empty (c ∷ y) mo d = refl

parse_body-day :
    (re : Patterns) (day hms frac line : Text) (q : Query)
    → parse_body re day hms frac line ≡ some q
    → q.day ≡ day
unfolding parse_body bind_query pdns_query
parse_body-day re day hms frac line q h = ground arith

parse_line-day :
    (re : Patterns) (line : Text) (q : Query) → parse_line re line ≡ some q → is_empty q.day ≡ false
unfolding parse_line
parse_line-day re line q h = elim (Option-cases (re.file_ts line)) [
  | inr (m, e) ↦ elim (Option-cases (month 1 months m.mon)) [
    | inr (n, k) ↦
        (let b : parse_body re (iso_day m.y (two_digits n) m.d) m.hms m.frac line ≡ some q =
            ground (arith, h, e, k) in
          cc (parse_body-day re _ m.hms m.frac line q b, iso_day-not_empty m.y (two_digits n) m.d))
    | inl k ↦ ground (arith, h, e, k)
  ]
  | inl e ↦ elim (Option-cases (re.syslog_ts line)) [
    | inr (m, k) ↦
        (let b : parse_body re (iso_day m.y m.mon m.d) m.hms m.frac line ≡ some q =
            ground (arith, h, e, k) in
          cc (parse_body-day re _ m.hms m.frac line q b, iso_day-not_empty m.y m.mon m.d))
    | inl k ↦ ground (arith, h, e, k)
  ]
]

add_line-day :
    (host : Text) (o : Option Query) (rows : List Row × ℕ)
    → ((q : Query) → o ≡ some q → is_empty q.day ≡ false)
    → All (λ r. is_empty (day_of r) ≡ false) rows.0
    → All (λ r. is_empty (day_of r) ≡ false) (add_line host o rows).0
unfolding add_line
add_line-day host none (rows, bad) d h = h
add_line-day host (some q) (rows, bad) d h = (d q refl, h)

All-if :
    (P : Row → Type 0) (b : Bool) (x y : List Row × ℕ)
    → All P x.0
    → All P y.0
    → All P (if b then x else y).0
All-if P true x y h k = h
All-if P false x y h k = k

read_lines-day :
    (re : Patterns) (host : Text) (lines : List Text)
    → All (λ r. is_empty (day_of r) ≡ false) (read_lines re host lines).0
unfolding read_lines add_line
read_lines-day re host [] = tt
read_lines-day re host (line ∷ lines) =
    let r = read_lines re host lines in
    let h = read_lines-day re host lines in
    All-if (λ r'. is_empty (day_of r') ≡ false) (is_query_line re line)
      (add_line host (parse_line re line) r) r
      (add_line-day host (parse_line re line) r (parse_line-day re line) h) h

span_loop-Covers :
    (rows : List Row)
    → All (λ r. is_empty (day_of r) ≡ false) rows
    → Covers (some (or_no_day (if_lo (span_loop none rows)))) rows
unfolding span_loop widen if_lo or_no_day
span_loop-Covers [] h = tt
span_loop-Covers (r ∷ rows) h =
    found (span_loop (some (day_of r, day_of r)) rows)
      (span_loop-Grown (day_of r, day_of r) rows (h.0) (h.1))
  where
    found :
        (o : Option Span)
        → Grown (day_of r, day_of r) rows o
        → Covers (some (or_no_day (if_lo o))) (r ∷ rows)
    found none g = absurd g
    found (some (lo, hi)) (a, b, c) =
        let k : or_no_day (if_lo (some (lo, hi))) ≡ (lo, hi) = ground (arith, a) in
        subst (λ s. Covers (some s) (r ∷ rows)) (sym k) (b (day_of r) (within_self (day_of r)), c)

-- The span that is remembered for a file holds the days of its rows.
pub copy_rows-Covers :
    (re : Patterns) (host : Text) (only : Option (List Text)) (q : LogFile)
    → Covers (some (or_no_day (copy_rows re host only q).span)) (read_rows re host q).0
unfolding copy_rows read_rows
copy_rows-Covers re host only q =
    span_loop-Covers (read_rows re host q).0 (read_lines-day re host q.lines)
