-- ===== src/Digest/Classify/Case.antt =====
-- Letter case and the classifiers of tools/honeycow_digest.py.
use honeycow.Prelude.{
  ◌≡◌, refl, some, [], ◌∷◌, Text, is_empty, same_text_iff, lower, lower_idem, arith,
}
use honeycow.Digest.{Event, or_default}
use honeycow.Digest.Classify.{
  Family, classify_in_query, classify_query, classify_research_scanner, classify_http,
}

is_empty-lower : (s : Text) → is_empty (lower s) ≡ is_empty s
unfolding lower
is_empty-lower [] = refl
is_empty-lower (c ∷ s) = refl

-- The event with its name in lower case.
abbrev pub lowered : Event → Event
lowered e = record e { qname = some (lower (or_default e.qname [])) }

-- What is left of a family when case is gone.
abbrev pub without_case : Family → Family
without_case Family.case_mix_0x20 = Family.other
without_case f = f

classify_in_query-lower :
    (s low : Text) → classify_in_query low low ≡ without_case (classify_in_query s low)
unfolding classify_in_query
classify_in_query-lower s low = ground (arith, same_text_iff low low)

classify_query-lower : (e : Event) → classify_query (lowered e) ≡ without_case (classify_query e)
unfolding classify_query
classify_query-lower e =
    let q = or_default e.qname [] in
    rw (lower_idem q, is_empty-lower q) (ground (arith, classify_in_query-lower q (lower q)))

-- A query with its name in lower case is in the same family, but for a mere case mix, which is then in
-- no family; the scanner behind a name and the family of an HTTP request do not depend on letter case.
pub classify-lower :
    (e : Event) (s : Text)
    → (classify_query (lowered e) ≡ without_case (classify_query e))
      × (classify_research_scanner (lower s) ≡ classify_research_scanner s)
      × (classify_http (lower s) ≡ classify_http s)
unfolding classify_research_scanner classify_http
classify-lower e s = (
  classify_query-lower e,
  rw (is_empty-lower s, lower_idem s),
  rw (is_empty-lower s, lower_idem s),
)
