-- ===== src/IngestNs/Seen.antt =====
-- `seen` of tools/ingest_ns.py after files are remembered.
use honeycow.Prelude.{
  Bool, true, false, not, Option, some, List, [], ◌∷◌, Text, Bool-cases, Option-cases, inl, inr,
  All, ◌≡◌, ◌⊎◌, refl, subst, ◌∙◌, same_text, same_text_iff, arith,
}
use honeycow.IngestNs.{LogFile}
use honeycow.IngestNs.Store.{Db, FileRow, Span, fetch, seen, remember}
use honeycow.IngestNs.Host.{Copied, remember_all}
use honeycow.IngestNs.Records.{record_of, fetch-remembered, fetch-remember-other}

-- The file is on record as it is.
abbrev pub IsSeen : Text → LogFile → List FileRow → Type 0
IsSeen host q files =
    (f : FileRow) × (fetch host q.name files ≡ some f)
    × (same_text f.fingerprint q.fingerprint ≡ true)

remembered-IsSeen :
    (host : Text) (q : LogFile) (span : Option Span) (files : List FileRow)
    → IsSeen host q (remember host q span files)
remembered-IsSeen host q span files = (
  record_of host q span,
  fetch-remembered host q span files,
  (same_text_iff q.fingerprint q.fingerprint).1 refl,
)

abbrev pub Same : LogFile → Copied → Type 0
Same q c = same_text q.name c.path.name ≡ true → c.path ≡ q

remember-IsSeen :
    (host : Text) (q : LogFile) (c : Copied) (files : List FileRow)
    → Same q c
    → IsSeen host q files
    → IsSeen host q (remember host c.path c.span files)
remember-IsSeen host q c files same s = elim (Bool-cases (same_text q.name c.path.name)) [
  | inl y ↦
      subst (λ x. IsSeen host x (remember host c.path c.span files)) (same y)
        (remembered-IsSeen host c.path c.span files)
  | inr n ↦ (s.0, fetch-remember-other host c.path q c.span files n ∙ s.1, s.2)
]

-- One of the copies is of the file.
abbrev pub IsOneOf : LogFile → List Copied → Type 0
IsOneOf q [] = ⊥
IsOneOf q (c ∷ copies) = (c.path ≡ q) ⊎ IsOneOf q copies

pub remember_all-IsSeen :
    (host : Text) (q : LogFile) (copies : List Copied) (files : List FileRow)
    → All (Same q) copies
    → IsOneOf q copies ⊎ IsSeen host q files
    → IsSeen host q (remember_all host copies files)
unfolding remember_all
remember_all-IsSeen host q [] files h (inl o) = absurd o
remember_all-IsSeen host q [] files h (inr s) = s
remember_all-IsSeen host q (c ∷ copies) files h (inl (inl p)) =
    remember_all-IsSeen host q copies (remember host c.path c.span files) (h.1) (
      inr (
        subst (λ x. IsSeen host x (remember host c.path c.span files)) p
          (remembered-IsSeen host c.path c.span files)))
remember_all-IsSeen host q (c ∷ copies) files h (inl (inr o)) =
    remember_all-IsSeen host q copies (remember host c.path c.span files) (h.1) (inl o)
remember_all-IsSeen host q (c ∷ copies) files h (inr s) =
    remember_all-IsSeen host q copies (remember host c.path c.span files) (h.1)
      (inr (remember-IsSeen host q c files (h.0) s))

pub seen_or_not :
    (con : Db) (host : Text) (q : LogFile) (force : Bool)
    → seen con host q force ≡ true
    → IsSeen host q con.ns_files
unfolding seen
seen_or_not con host q true e = cc e
seen_or_not con host q false e = elim (Option-cases (fetch host q.name con.ns_files)) [
  | inl n ↦ ground (arith, n, e)
  | inr (f, n) ↦ (f, n, ground (arith, n, e))
]

pub IsSeen-seen :
    (con : Db) (host : Text) (q : LogFile)
    → IsSeen host q con.ns_files
    → not (seen con host q false) ≡ false
unfolding seen
IsSeen-seen con host q (f, e, fp) = ground (arith, e, fp)
