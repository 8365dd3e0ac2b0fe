-- ===== src/IngestNs/Again.antt =====
-- A second run of tools/ingest_ns.py over the same files.
use honeycow.Prelude.{
  All-map, All-zip, ℕ, Bool, true, false, not, List, [], ◌∷◌, ◌++◌, map, Text, is_empty, Bool-cases,
  inl, inr, keep_if, All, All-append, ◌≡◌, refl, sym, ap, subst, ◌∙◌, same_text, if◌then◌else◌,
  arith,
}
use honeycow.IngestNs.{Row, LogFile, Patterns}
use honeycow.IngestNs.Store.{Db, seen}
use honeycow.IngestNs.Host.{
  Copied, Report, replaced, no_changes, no_logs, no_rows, copy_rows, copy_neighbours, first_pass,
  both_passes, fresh_files, replace_days, ingest_fresh, ingest_host, staged_rows, days_written,
}
use honeycow.IngestNs.Copies.{Distinct}
use honeycow.IngestNs.Records.{IsCopy}
use honeycow.IngestNs.Truth.{unambiguous, All-first_pass, All-copy_neighbours}
use honeycow.IngestNs.Seen.{IsOneOf, remember_all-IsSeen, seen_or_not, IsSeen-seen}

IsOneOf-append : (q : LogFile) (xs ys : List Copied) → IsOneOf q xs → IsOneOf q (xs ++ ys)
IsOneOf-append q [] ys o = absurd o
IsOneOf-append q (c ∷ xs) ys (inl p) = inl p
IsOneOf-append q (c ∷ xs) ys (inr o) = inr (IsOneOf-append q xs ys o)

is_empty-keep_if :
    (p : LogFile → Bool) (paths : List LogFile)
    → All (λ q. p q ≡ false) paths
    → is_empty (keep_if p paths) ≡ true
is_empty-keep_if p [] h = refl
is_empty-keep_if p (q ∷ paths) h = ground (arith, h.0, is_empty-keep_if p paths (h.1))

module _ (re : Patterns) (host : Text) (f : LogFile → Bool) where
  first_pass-IsOneOf :
      (paths : List LogFile)
      → All (λ q. f q ≡ true → IsOneOf q (first_pass re host (keep_if f paths))) paths
  unfolding first_pass copy_rows
  first_pass-IsOneOf [] = tt
  first_pass-IsOneOf (q ∷ paths) = taken (f q) (first_pass-IsOneOf paths)
    where
      taken :
          (b : Bool)
          → All (λ x. f x ≡ true → IsOneOf x (first_pass re host (keep_if f paths))) paths
          → (b ≡ true
              → IsOneOf q (first_pass re host (if b then q ∷ keep_if f paths else keep_if f paths)))
            × All
                (λ x.
                  f x ≡ true
                  → IsOneOf x
                      (first_pass re host (if b then q ∷ keep_if f paths else keep_if f paths)))
                paths
      taken true h = (λ e. inl refl, All-map (λ x o e. inr (o e)) paths h)
      taken false h = (λ e. cc e, h)

no_change :
    (re : Patterns) (stored : Row → Row) (host : Text) (con : Db) (paths : List LogFile)
    → is_empty paths ≡ false
    → All (λ q. not (seen con host q false) ≡ false) paths
    → ingest_host re stored con host false paths ≡ (con, no_changes)
unfolding ingest_host fresh_files
no_change re stored host con paths e h =
    let k : is_empty (fresh_files con host false paths) ≡ true =
      is_empty-keep_if (λ q. not (seen con host q false)) paths h in
    ap
      (λ b.
        if b
        then (con, no_logs)
        else if is_empty (fresh_files con host false paths)
        then (con, no_changes)
        else ingest_fresh re stored con host (fresh_files con host false paths) paths)
      e
    ∙ ap
        (λ b.
          if b
          then (con, no_changes)
          else ingest_fresh re stored con host (fresh_files con host false paths) paths)
        k

-- The four ends of a run.
abbrev one_of : Db → Db → Bool → Bool → Bool → Report → Db × Report
one_of con new b b' b'' r =
    if b
    then (con, no_logs)
    else if b'
    then (con, no_changes)
    else if b''
    then (con, no_rows)
    else (new, r)

replaced_case :
    (con new : Db) (b b' b'' : Bool) (r : Report) (rows bad changed all near : ℕ)
    → (one_of con new b b' b'' r).1 ≡ replaced rows bad changed all near
    → (b ≡ false) × ((one_of con new b b' b'' r).0 ≡ new)
replaced_case con new true b' b'' r rows bad changed all near e = cc e
replaced_case con new false true b'' r rows bad changed all near e = cc e
replaced_case con new false false true r rows bad changed all near e = cc e
replaced_case con new false false false r rows bad changed all near e = (refl, refl)

module _ (re : Patterns) (stored : Row → Row) (host : Text) (con : Db) (force : Bool) where
  replace_days-seen :
      (paths : List LogFile)
      → Distinct paths
      → All
          (λ q.
            not (
              seen
                (replace_days stored con host
                  (both_passes re con host (fresh_files con host force paths) paths))
                host
                q
                false)
            ≡ false)
          paths
  unfolding replace_days both_passes fresh_files
  replace_days-seen paths u =
      let f : LogFile → Bool = λ q. not (seen con host q force) in
      let fresh = keep_if f paths in
      let first = first_pass re host fresh in
      let near = copy_neighbours re con host (days_written re host fresh) fresh paths in
      All-zip
        (λ q one taken.
          let P : LogFile → Type 0 = λ x. same_text q.name x.name ≡ true → x ≡ q in
          let same =
            All-append (λ c. P c.path × IsCopy re host c) first near
              (All-first_pass re host P f paths one)
              (All-copy_neighbours re host P con (days_written re host fresh) fresh paths one) in
          IsSeen-seen (replace_days stored con host (first ++ near)) host q (
            remember_all-IsSeen host q (first ++ near) con.ns_files
              (All-map (λ c h. h.0) (first ++ near) same)
              (elim (Bool-cases (seen con host q force)) [
                | inl e ↦ inr (seen_or_not con host q force e)
                | inr e ↦ inl (IsOneOf-append q first near (taken (ground (arith, e))))
              ])))
        paths (unambiguous paths u) (first_pass-IsOneOf re host f paths)

  -- A second run over the same files of a host, not forced, finds no changed file and leaves both tables
  -- as they are, if the first run replaced rows and the files have different names.
  pub ingest_host-again :
      (paths : List LogFile) (rows bad changed all near : ℕ)
      → Distinct paths
      → (ingest_host re stored con host force paths).1 ≡ replaced rows bad changed all near
      → ingest_host re stored (ingest_host re stored con host force paths).0 host false paths
        ≡ ((ingest_host re stored con host force paths).0, no_changes)
  unfolding ingest_host ingest_fresh
  ingest_host-again paths rows bad changed all near u e =
      let fresh = fresh_files con host force paths in
      let copies = both_passes re con host fresh paths in
      let new = replace_days stored con host copies in
      let first =
        replaced_case con new (is_empty paths) (is_empty fresh)
          (is_empty (map stored (staged_rows copies))) _ rows bad changed all near e in
      subst (λ c. ingest_host re stored c host false paths ≡ (c, no_changes)) (sym (first.1))
        (no_change re stored host new paths (first.0) (replace_days-seen paths u))
