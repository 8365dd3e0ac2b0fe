-- ===== src/IngestNs/Copies.antt =====
-- The two passes of tools/ingest_ns.py over one host's files, for the rows of one day.
use mathlib.Core.List.{append_assoc}
use honeycow.Prelude.{
  ◌+◌, Bool, true, false, Option, none, some, List, [], ◌∷◌, ◌++◌, map, Text, Bool-cases, inl, inr,
  keep_if, concat, All, All-map, All-zip, ◌≡◌, refl, sym, ap, subst, same_text, same_text_iff,
  arith,
}
use honeycow.IngestNs.{Row, LogFile, Patterns, read_rows}
use honeycow.IngestNs.Store.{Db, Span, stored_span, in_days, day_of}
use honeycow.IngestNs.Host.{
  Copied, copy_rows, copy_neighbours, first_pass, is_in, is_near, is_wanted, within, staged_rows,
}
use honeycow.IngestNs.Numbers.{number, number-append, number-none, number-keep_if, any-in_days}

pub staged_rows-append :
    (xs ys : List Copied) → staged_rows (xs ++ ys) ≡ staged_rows xs ++ staged_rows ys
staged_rows-append [] ys = refl
staged_rows-append (x ∷ xs) ys =
    cc (append_assoc x.rows (staged_rows xs) (staged_rows ys), staged_rows-append xs ys)

-- The files of one directory differ in their names.
abbrev pub Distinct : List LogFile → Type 0
Distinct [] = Unit
Distinct (q ∷ paths) = All (λ x. same_text x.name q.name ≡ false) paths × Distinct paths

-- A recorded span holds the days of all rows; a span that is not recorded says nothing.
abbrev pub Covers : Option Span → List Row → Type 0
Covers none rows = Unit
Covers (some s) rows = All (λ r. within s (day_of r) ≡ true) rows

differ_sym : (s t : Text) → same_text s t ≡ false → same_text t s ≡ false
differ_sym s t h = elim (Bool-cases (same_text t s)) [
  | inl e ↦
      (let k : same_text s t ≡ true = (same_text_iff s t).1 (sym ((same_text_iff t s).0 e)) in
        cc (h, k))
  | inr e ↦ e
]

is_in-none :
    (f : LogFile → Bool) (q : LogFile) (paths : List LogFile)
    → All (λ x. same_text x.name q.name ≡ false) paths
    → is_in q (keep_if f paths) ≡ false
unfolding is_in
is_in-none f q [] h = refl
is_in-none f q (x ∷ paths) h =
    ground (arith, differ_sym x.name q.name (h.0), is_in-none f q paths (h.1))

-- A path is among those that a test keeps exactly if the test keeps it.
pub is_in-keep_if :
    (f : LogFile → Bool) (paths : List LogFile)
    → Distinct paths
    → All (λ q. is_in q (keep_if f paths) ≡ f q) paths
unfolding is_in
is_in-keep_if f [] u = tt
is_in-keep_if f (q ∷ paths) u = (
  ground (arith, same_text_iff q.name q.name, is_in-none f q paths (u.0)),
  All-zip (λ x e k. ground (arith, e, k)) paths (u.0) (is_in-keep_if f paths (u.1)),
)

is_in-more :
    (f : LogFile → Bool) (q : LogFile) (spans paths : List LogFile)
    → All (λ x. same_text x.name q.name ≡ false) paths
    → All (λ x. is_in x spans ≡ f x) paths
    → All (λ x. is_in x (q ∷ spans) ≡ f x) paths
unfolding is_in
is_in-more f q spans paths = All-zip (λ x e k. ground (arith, e, k)) paths

module _ (re : Patterns) (host : Text) where
  abbrev pub rows_of : LogFile → List Row
  rows_of q = (read_rows re host q).0

  abbrev pub all_rows : List LogFile → List Row
  all_rows paths = concat (map rows_of paths)

  module _ (p : Row → Bool) (d : Text) (on_day : (r : Row) → p r ≡ true → day_of r ≡ d) where
    pub number-first_pass :
        (fresh : List LogFile)
        → number p (staged_rows (first_pass re host fresh)) ≡ number p (all_rows fresh)
    unfolding first_pass copy_rows is_wanted
    number-first_pass [] = refl
    number-first_pass (q ∷ fresh) = omega (
      arith,
      number-append p (keep_if (is_wanted none) (rows_of q))
          (staged_rows (first_pass re host fresh)),
      number-append p (rows_of q) (all_rows fresh),
      number-keep_if p (is_wanted none) (λ r e. refl) (rows_of q),
      number-first_pass fresh,
    )

    number-near :
        (days : List Text)
        → in_days days d ≡ true
        → (rows : List Row) → number p (keep_if (is_wanted (some days)) rows) ≡ number p rows
    unfolding is_wanted
    number-near days h =
        number-keep_if p _ (λ r e. subst (λ x. in_days days x ≡ true) (sym (on_day r e)) h)

    off_day : (s : Span) (r : Row) → within s d ≡ false → within s (day_of r) ≡ true → p r ≡ false
    off_day s r out w = elim (Bool-cases (p r)) [
      | inl e ↦
          (let k : within s (day_of r) ≡ within s d = ap (within s) (on_day r e) in cc (out, w, k))
      | inr e ↦ e
    ]

    number-far :
        (days : List Text)
        → in_days days d ≡ true
        → (span : Option Span) (rows : List Row) → Covers span rows
        → is_near span days ≡ false
        → number p rows ≡ 0
    unfolding is_near
    number-far days h none rows c far = cc far
    number-far days h (some s) rows c far =
        number-none p rows
          (All-map (λ r w. off_day s r (any-in_days days (within s) d h far) w) rows c)

    pub number-copy_neighbours :
        (con : Db) (days : List Text) (f : LogFile → Bool)
        → in_days days d ≡ true
        → (spans paths : List LogFile) → Distinct paths
        → All (λ q. is_in q spans ≡ f q) paths
        → All (λ q. f q ≡ false → Covers (stored_span con host q) (rows_of q)) paths
        → number p (staged_rows (copy_neighbours re con host days spans paths))
            + number p (all_rows (keep_if f paths))
          ≡ number p (all_rows paths)
    unfolding copy_neighbours copy_rows is_in
    number-copy_neighbours con days f h spans [] u i c = refl
    number-copy_neighbours con days f h spans (q ∷ paths) u i c = ground (
      arith,
      i.0,
      number-append p (keep_if (is_wanted (some days)) (rows_of q))
          (staged_rows (copy_neighbours re con host days (q ∷ spans) paths)),
      number-append p (rows_of q) (all_rows paths),
      number-append p (rows_of q) (all_rows (keep_if f paths)),
      number-near days h (rows_of q),
      number-far days h (stored_span con host q) (rows_of q),
      c.0,
      number-copy_neighbours con days f h spans paths (u.1) (i.1) (c.1),
      number-copy_neighbours con days f h (q ∷ spans) paths (u.1)
          (is_in-more f q spans paths (u.0) (i.1)) (c.1),
    )
