-- ===== src/IngestNs/Records.antt =====
-- `remember` of tools/ingest_ns.py: what is on record for a file after others are remembered.
use honeycow.Prelude.{
  Bool, true, false, not, Option, none, some, List, [], ◌∷◌, ◌++◌, Text, is_empty, Bool-cases, inl,
  inr, keep_if, All, ◌≡◌, refl, sym, subst, same_text, same_text_iff, if◌then◌else◌, arith, ◌∙◌,
}
use honeycow.IngestNs.{Row, LogFile, Patterns}
use honeycow.IngestNs.Store.{FileRow, Span, is_row_of, fetch, remember, row_span, or_no_day}
use honeycow.IngestNs.Host.{Copied, remember_all}
use honeycow.IngestNs.Copies.{Covers, rows_of}

fetch-behind :
    (host name : Text) (xs ys : List FileRow)
    → fetch host name xs ≡ none
    → fetch host name (xs ++ ys) ≡ fetch host name ys
unfolding fetch
fetch-behind host name [] ys h = refl
fetch-behind host name (x ∷ xs) ys h = ground (arith, h, fetch-behind host name xs ys)

fetch-not_last :
    (host name : Text) (xs : List FileRow) (y : FileRow)
    → is_row_of host name y ≡ false
    → fetch host name (xs ++ y ∷ []) ≡ fetch host name xs
unfolding fetch
fetch-not_last host name [] y h = ground (arith, h)
fetch-not_last host name (x ∷ xs) y h = ground (arith, fetch-not_last host name xs y h)

fetch-forgotten :
    (host name : Text) (files : List FileRow)
    → fetch host name (keep_if (λ f. not (is_row_of host name f)) files) ≡ none
unfolding fetch
fetch-forgotten host name [] = refl
fetch-forgotten host name (f ∷ files) = ground (arith, fetch-forgotten host name files)

fetch-other :
    (host name other : Text)
    → same_text name other ≡ false
    → (files : List FileRow)
    → fetch host name (keep_if (λ f. not (is_row_of host other f)) files) ≡ fetch host name files
unfolding fetch is_row_of
fetch-other host name other n [] = refl
fetch-other host name other n (f ∷ files) = ground (
  arith,
  n,
  same_text_iff f.name name,
  same_text_iff f.name other,
  same_text_iff name other,
  fetch-other host name other n files,
)

-- What is on record for a file: its fingerprint and its span.
abbrev pub record_of : Text → LogFile → Option Span → FileRow
record_of host path span = record {
  host = host;
  name = path.name;
  fingerprint = path.fingerprint;
  min_day = some ((or_no_day span).0);
  max_day = some ((or_no_day span).1);
}

pub fetch-remembered :
    (host : Text) (path : LogFile) (span : Option Span) (files : List FileRow)
    → fetch host path.name (remember host path span files) ≡ some (record_of host path span)
unfolding remember fetch is_row_of
fetch-remembered host path span files =
    fetch-behind host path.name (keep_if (λ f. not (is_row_of host path.name f)) files)
      (record_of host path span ∷ []) (fetch-forgotten host path.name files)
    ∙ ground (arith, same_text_iff host host, same_text_iff path.name path.name)

pub fetch-remember-other :
    (host : Text) (path q : LogFile) (span : Option Span) (files : List FileRow)
    → same_text q.name path.name ≡ false
    → fetch host q.name (remember host path span files) ≡ fetch host q.name files
unfolding remember is_row_of
fetch-remember-other host path q span files n =
    fetch-not_last host q.name (keep_if (λ f. not (is_row_of host path.name f)) files)
      (record_of host path span)
      (ground (arith, n, same_text_iff path.name q.name, same_text_iff q.name path.name))
    ∙ fetch-other host q.name path.name n files

-- A file that counts as unchanged has a true span on record.
abbrev pub IsKnown : Patterns → Text → LogFile → List FileRow → Type 0
IsKnown re host q files =
    (f : FileRow)
    → fetch host q.name files ≡ some f
    → same_text f.fingerprint q.fingerprint ≡ true
    → Covers (row_span f.min_day f.max_day) (rows_of re host q)

module _ (re : Patterns) (host : Text) where
  abbrev pub IsCopy : Copied → Type 0
  IsCopy c = Covers (some (or_no_day c.span)) (rows_of re host c.path)

  row_span-Covers :
      (span : Option Span) (rows : List Row)
      → Covers (some (or_no_day span)) rows
      → Covers (row_span (some ((or_no_day span).0)) (some ((or_no_day span).1))) rows
  unfolding row_span
  row_span-Covers span rows h = if_Covers (is_empty (or_no_day span).0)
    where
      if_Covers : (b : Bool) → Covers (if b then none else some (or_no_day span)) rows
      if_Covers true = tt
      if_Covers false = h

  copied-Covers :
      (c : Copied) (f : FileRow)
      → IsCopy c
      → record_of host c.path c.span ≡ f
      → Covers (row_span f.min_day f.max_day) (rows_of re host c.path)
  copied-Covers c f copy e =
      subst (λ x. Covers (row_span x.min_day x.max_day) (rows_of re host c.path)) e
        (row_span-Covers c.span (rows_of re host c.path) copy)

  remember-IsKnown :
      (q : LogFile) (c : Copied) (files : List FileRow)
      → (same_text q.name c.path.name ≡ true → c.path ≡ q)
      → IsCopy c
      → IsKnown re host q files
      → IsKnown re host q (remember host c.path c.span files)
  remember-IsKnown q c files same copy known f e fp =
      elim (Bool-cases (same_text q.name c.path.name)) [
        | inl y ↦
            subst
              (λ x.
                fetch host x.name (remember host c.path c.span files) ≡ some f
                → Covers (row_span f.min_day f.max_day) (rows_of re host x))
              (same y)
              (λ k. copied-Covers c f copy (cc (k, fetch-remembered host c.path c.span files))) e
        | inr n ↦ known f (sym (fetch-remember-other host c.path q c.span files n) ∙ e) fp
      ]

  pub remember_all-IsKnown :
      (q : LogFile) (copies : List Copied) (files : List FileRow)
      → All (λ c. (same_text q.name c.path.name ≡ true → c.path ≡ q) × IsCopy c) copies
      → IsKnown re host q files
      → IsKnown re host q (remember_all host copies files)
  unfolding remember_all
  remember_all-IsKnown q [] files h known = known
  remember_all-IsKnown q (c ∷ copies) files h known =
      remember_all-IsKnown q copies (remember host c.path c.span files) (h.1)
        (remember-IsKnown q c files (h.0.0) (h.0.1) known)
