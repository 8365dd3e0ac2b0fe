-- ===== src/IngestNs/Days.antt =====
-- The days of what tools/ingest_ns.py stages, and those of the changed files.
use honeycow.Prelude.{
  true, false, ◌||◌, some, List, [], ◌∷◌, ◌++◌, map, Text, is_empty, Bool-cases, inl, inr, keep_if,
  ◌≡◌, refl, sym, ap, same_text, same_text_iff, arith,
}
use honeycow.IngestNs.{Row, LogFile, Patterns, read_rows}
use honeycow.IngestNs.Store.{Db, in_days, day_of}
use honeycow.IngestNs.Host.{
  copy_rows, copy_neighbours, first_pass, both_passes, days_written, is_wanted, staged_rows,
}
use honeycow.IngestNs.Copies.{staged_rows-append}

abbrev pub days_of : List Row → List Text
days_of = map day_of

in_days-append :
    (xs ys : List Row) (d : Text)
    → in_days (days_of (xs ++ ys)) d ≡ (in_days (days_of xs) d || in_days (days_of ys) d)
unfolding in_days
in_days-append [] ys d = refl
in_days-append (x ∷ xs) ys d = ground (arith, in_days-append xs ys d)

in_days-wanted :
    (days : List Text) (d : Text)
    → in_days days d ≡ false
    → (rows : List Row) → in_days (days_of (keep_if (is_wanted (some days)) rows)) d ≡ false
unfolding in_days is_wanted
in_days-wanted days d h [] = refl
in_days-wanted days d h (r ∷ rows) = elim (Bool-cases (same_text d (day_of r))) [
  | inl e ↦
      (let k : in_days days (day_of r) ≡ false =
          cc (h, ap (in_days days) ((same_text_iff d (day_of r)).0 e)) in
        ground (arith, k, in_days-wanted days d h rows))
  | inr e ↦ ground (arith, e, in_days-wanted days d h rows)
]

in_days-neighbours :
    (re : Patterns) (con : Db) (host : Text) (days : List Text) (d : Text)
    → in_days days d ≡ false
    → (spans paths : List LogFile)
    → in_days (days_of (staged_rows (copy_neighbours re con host days spans paths))) d ≡ false
unfolding copy_neighbours copy_rows in_days
in_days-neighbours re con host days d h spans [] = refl
in_days-neighbours re con host days d h spans (q ∷ paths) =
    let rows = keep_if (is_wanted (some days)) (read_rows re host q).0 in
    ground (
      arith,
      in_days-append rows (staged_rows (copy_neighbours re con host days (q ∷ spans) paths)) d,
      in_days-wanted days d h (read_rows re host q).0,
      in_days-neighbours re con host days d h spans paths,
      in_days-neighbours re con host days d h (q ∷ spans) paths,
    )

days_of-stored :
    (stored : Row → Row)
    → ((r : Row) → day_of (stored r) ≡ day_of r)
    → (rows : List Row) → days_of (map stored rows) ≡ days_of rows
days_of-stored stored keeps_day [] = refl
days_of-stored stored keeps_day (r ∷ rows) = cc (keeps_day r, days_of-stored stored keeps_day rows)

pub in_days-both_passes :
    (re : Patterns) (stored : Row → Row)
    → ((r : Row) → day_of (stored r) ≡ day_of r)
    → (con : Db) (host d : Text) (fresh paths : List LogFile)
    → in_days (days_of (map stored (staged_rows (both_passes re con host fresh paths)))) d
      ≡ in_days (days_written re host fresh) d
unfolding both_passes
in_days-both_passes re stored keeps_day con host d fresh paths =
    let days = days_written re host fresh in
    let near = copy_neighbours re con host days fresh paths in
    let split : in_days (days_of (map stored (staged_rows (first_pass re host fresh ++ near)))) d
        ≡ (in_days days d || in_days (days_of (staged_rows near)) d) =
      cc (
        ap (λ x. in_days x d)
            (days_of-stored stored keeps_day (staged_rows (first_pass re host fresh ++ near))),
        ap (λ x. in_days (days_of x) d) (staged_rows-append (first_pass re host fresh) near),
        in_days-append (staged_rows (first_pass re host fresh)) (staged_rows near) d,
      ) in
    elim (Bool-cases (in_days days d)) [
      | inl e ↦ ground (arith, split, e)
      | inr e ↦ ground (arith, split, e, in_days-neighbours re con host days d e fresh paths)
    ]

pub in_days-not_empty :
    (rows : List Row) (d : Text) → in_days (days_of rows) d ≡ true → is_empty rows ≡ false
unfolding in_days
in_days-not_empty [] d h = sym h
in_days-not_empty (r ∷ rows) d h = refl
