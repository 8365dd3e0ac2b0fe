-- ===== src/IngestNs/Truth.antt =====
-- The spans that tools/ingest_ns.py records, before and after a run.
use honeycow.Prelude.{
  All-map, All-zip, Bool, true, false, not, Option, none, some, List, [], ◌∷◌, ◌++◌, map, Text,
  is_empty, Option-cases, inl, inr, keep_if, All, All-append, ◌≡◌, refl, sym, subst, same_text,
  same_text_iff, if◌then◌else◌, arith,
}
use honeycow.IngestNs.{Row, LogFile, Patterns}
use honeycow.IngestNs.Store.{Db, fetch, seen, row_span, stored_span}
use honeycow.IngestNs.Host.{
  copy_rows, copy_neighbours, first_pass, both_passes, fresh_files, replace_days, ingest_fresh,
  ingest_host, is_in, is_near, staged_rows, days_written, Report,
}
use honeycow.IngestNs.Copies.{Distinct, Covers, rows_of}
use honeycow.IngestNs.Records.{IsKnown, IsCopy, remember_all-IsKnown}
use honeycow.IngestNs.Spans.{copy_rows-Covers}
use honeycow.IngestNs.Whole.{IsTruthful}

not_same : (s t : Text) → same_text t s ≡ false → same_text s t ≡ true → ⊥
not_same s t n e =
    let k : same_text t s ≡ true = (same_text_iff t s).1 (sym ((same_text_iff s t).0 e)) in
    cc (n, k)

All-if {ℓ} :
    {A : Type ℓ} (P : A → Type 0) (b : Bool) (xs ys : List A)
    → All P xs
    → All P ys
    → All P (if b then xs else ys)
All-if P true xs ys h k = h
All-if P false xs ys h k = k

-- In one directory a name is one file's.
pub unambiguous :
    (paths : List LogFile)
    → Distinct paths
    → All (λ q. All (λ x. same_text q.name x.name ≡ true → x ≡ q) paths) paths
unambiguous [] u = tt
unambiguous (p ∷ paths) u = (
  (λ _. refl, All-map (λ x n e. ground (arith, not_same p.name x.name n e)) paths (u.0)),
  All-zip (λ q n h. (λ e. ground (arith, n, e), h)) paths (u.0) (unambiguous paths (u.1)),
)

module _ (re : Patterns) (host : Text) (P : LogFile → Type 0) where
  copy_rows-IsCopy :
      (only : Option (List Text)) (q : LogFile)
      → P q
      → P (copy_rows re host only q).path × IsCopy re host (copy_rows re host only q)
  unfolding copy_rows
  copy_rows-IsCopy only q h = (h, copy_rows-Covers re host only q)

  pub All-first_pass :
      (f : LogFile → Bool) (paths : List LogFile)
      → All P paths
      → All (λ c. P c.path × IsCopy re host c) (first_pass re host (keep_if f paths))
  unfolding first_pass
  All-first_pass f [] h = tt
  All-first_pass f (q ∷ paths) h = first_pass-if (f q) (All-first_pass f paths (h.1))
    where
      first_pass-if :
          (b : Bool)
          → All (λ c. P c.path × IsCopy re host c) (first_pass re host (keep_if f paths))
          → All
              (λ c. P c.path × IsCopy re host c)
              (first_pass re host (if b then q ∷ keep_if f paths else keep_if f paths))
      first_pass-if true k = (copy_rows-IsCopy none q (h.0), k)
      first_pass-if false k = k

  pub All-copy_neighbours :
      (con : Db) (days : List Text) (spans paths : List LogFile)
      → All P paths
      → All (λ c. P c.path × IsCopy re host c) (copy_neighbours re con host days spans paths)
  unfolding copy_neighbours
  All-copy_neighbours con days spans [] h = tt
  All-copy_neighbours con days spans (q ∷ paths) h =
      let skip = copy_neighbours re con host days spans paths in
      let more = copy_neighbours re con host days (q ∷ spans) paths in
      let far = All-copy_neighbours con days spans paths (h.1) in
      let near = All-copy_neighbours con days (q ∷ spans) paths (h.1) in
      All-if (λ c. P c.path × IsCopy re host c) (is_in q spans) skip _ far
        (All-if (λ c. P c.path × IsCopy re host c) (is_near (stored_span con host q) days)
          (copy_rows re host (some days) q ∷ more) skip (copy_rows-IsCopy (some days) q (h.0), near)
          far)

module _ (re : Patterns) (host : Text) where
  known-Covers :
      (con : Db) (q : LogFile)
      → IsKnown re host q con.ns_files
      → not (seen con host q false) ≡ false
      → Covers (stored_span con host q) (rows_of re host q)
  unfolding seen stored_span
  known-Covers con q known e = elim (Option-cases (fetch host q.name con.ns_files)) [
    | inl n ↦
        (let k : stored_span con host q ≡ none = ground (arith, n) in
          subst (λ s. Covers s (rows_of re host q)) (sym k) tt)
    | inr (f, n) ↦
        (let k : stored_span con host q ≡ row_span f.min_day f.max_day = ground (arith, n) in
          subst (λ s. Covers s (rows_of re host q)) (sym k) (known f n (ground (arith, n, e))))
  ]

  seen-IsKnown :
      (con : Db) (q : LogFile)
      → (not (seen con host q false) ≡ false → Covers (stored_span con host q) (rows_of re host q))
      → IsKnown re host q con.ns_files
  unfolding seen stored_span
  seen-IsKnown con q t f e fp =
      let k : stored_span con host q ≡ row_span f.min_day f.max_day = ground (arith, e) in
      subst (λ s. Covers s (rows_of re host q)) k (t (ground (arith, e, fp)))

  known-IsTruthful :
      (con : Db) (paths : List LogFile)
      → All (λ q. IsKnown re host q con.ns_files) paths
      → IsTruthful re con host false paths
  known-IsTruthful con paths = All-map (known-Covers con) paths

  truthful-IsKnown :
      (con : Db) (paths : List LogFile)
      → IsTruthful re con host false paths
      → All (λ q. IsKnown re host q con.ns_files) paths
  truthful-IsKnown con paths = All-map (seen-IsKnown con) paths

Db-if : (P : Db → Type 0) (b : Bool) (x y : Db × Report) → P x.0 → P y.0 → P (if b then x else y).0
Db-if P true x y h k = h
Db-if P false x y h k = k

module _ (re : Patterns) (stored : Row → Row) (host : Text) (con : Db) (force : Bool) where
  both_passes-IsTruthful :
      (paths : List LogFile) (f : LogFile → Bool)
      → Distinct paths
      → IsTruthful re con host false paths
      → IsTruthful re
          (replace_days stored con host (both_passes re con host (keep_if f paths) paths))
          host
          false
          paths
  unfolding replace_days both_passes
  both_passes-IsTruthful paths f u t =
      let fresh = keep_if f paths in
      let first = first_pass re host fresh in
      let near = copy_neighbours re con host (days_written re host fresh) fresh paths in
      known-IsTruthful re host (replace_days stored con host (first ++ near)) paths (
        All-zip
          (λ q one known.
            let P : LogFile → Type 0 = λ x. same_text q.name x.name ≡ true → x ≡ q in
            remember_all-IsKnown re host q (first ++ near) con.ns_files
              (All-append (λ c. P c.path × IsCopy re host c) first near
                (All-first_pass re host P f paths one)
                (All-copy_neighbours re host P con (days_written re host fresh) fresh paths one))
              known)
          paths (unambiguous paths u) (truthful-IsKnown re host con paths t))

  -- Whether it is forced or not, a run over one host leaves the recorded spans of the unchanged files
  -- true, if the files have different names and the recorded spans were true before.
  pub ingest_host-IsTruthful :
      (paths : List LogFile)
      → Distinct paths
      → IsTruthful re con host false paths
      → IsTruthful re (ingest_host re stored con host force paths).0 host false paths
  unfolding ingest_host ingest_fresh fresh_files
  ingest_host-IsTruthful paths u t =
      let P : Db → Type 0 = λ c. IsTruthful re c host false paths in
      let fresh = fresh_files con host force paths in
      let new = both_passes-IsTruthful paths (λ q. not (seen con host q force)) u t in
      Db-if P (is_empty paths) _ _ t (
        Db-if P (is_empty fresh) _ _ t (
          Db-if P (is_empty (map stored (staged_rows (both_passes re con host fresh paths)))) _ _ t
            new))
