-- ===== src/Digest/Parts.antt =====
-- The counts of a window of tools/honeycow_digest.py in two parts, against those of the parts.
use mathlib.Core.List.{map-append, append-nil}
use honeycow.Prelude.{
  ℕ, ◌+◌, ◌-◌, ◌≤◌, ◌≡◌, refl, sym, ◌∙◌, ap, Bool, true, false, not, Option, none, some, List, [],
  ◌∷◌, ◌++◌, map, Text, length, length-append, keep_if, keep_if-append, length-keep_if-le, arith,
  Text_discrete,
}
use honeycow.Dict.{get, count, tally}
use honeycow.Dict.Laws.{occurrences, occurrences-append, count-tally}
use honeycow.Digest.{Event, Ufw}
use honeycow.Digest.Classify.{Family, classify_query}
use honeycow.Digest.Slots.{Family-discrete, Counter, Slot, ext_loop}
use honeycow.Ip.{IpAddress}
use honeycow.Digest.Window.{
  present, Digest, is_query, is_drop, is_external, is_inbound_qr, summarize_window,
}
use honeycow.SourceExemptions.{Network}

pub present-append {ℓ} :
    {A : Type ℓ} (xs ys : List (Option A)) → present (xs ++ ys) ≡ present xs ++ present ys
unfolding present
present-append [] ys = refl
present-append (none ∷ xs) ys = present-append xs ys
present-append (some x ∷ xs) ys = ap (◌∷◌ x) (present-append xs ys)

-- A number that is read off a digest is additive: nothing at an empty window, and the sum at a
-- window in two parts, whatever the sites and the hours.
pub record IsAdditive (ip : IpAddress) (nets : List Network) (q : Digest → ℕ) : Type 0 where
  pub empty : (site hour : Text) → q (summarize_window ip [] [] site hour nets) ≡ 0
  pub parts :
      (es es' : List Event) (us us' : List Ufw) (site hour site1 hour1 site2 hour2 : Text)
      → q (summarize_window ip (es ++ es') (us ++ us') site hour nets)
        ≡ q (summarize_window ip es us site1 hour1 nets)
          + q (summarize_window ip es' us' site2 hour2 nets)

pub ext_loop-families :
    (es : List Event) (b : List (Text × Slot)) (f : Counter Family)
    → (ext_loop es (b, f)).1 ≡ tally Family-discrete f (map classify_query es)
unfolding ext_loop tally
ext_loop-families [] b f = refl
ext_loop-families (e ∷ es) b f = ext_loop-families es _ _

pub ruleset appends = (keep_if-append, map-append, present-append, append-nil)

module _ (ip : IpAddress) (nets : List Network) where
  -- The lists that the loops go over.
  abbrev pub external : List Event → List Event
  external es = keep_if (is_external ip) (keep_if is_query es)

  abbrev pub inbound_qr : List Event → List Event
  inbound_qr es = keep_if is_inbound_qr (keep_if is_drop es)

  -- A number that a description of the window gives, which is additive.
  pub of_description :
      (q : Digest → ℕ) (f : List Event → List Ufw → ℕ)
      → ((es : List Event) (us : List Ufw) (site hour : Text)
          → q (summarize_window ip es us site hour nets) ≡ f es us)
      → f [] [] ≡ 0
      → ((es es' : List Event) (us us' : List Ufw)
          → f (es ++ es') (us ++ us') ≡ f es us + f es' us')
      → IsAdditive ip nets q
  of_description q f value zero sum = record {
    empty = λ site hour. value [] [] site hour ∙ zero;
    parts = λ es es' us us' site hour site1 hour1 site2 hour2.
        rw
          (
            value (es ++ es') (us ++ us') site hour,
            value es us site1 hour1,
            value es' us' site2 hour2,
          )
          (sum es es' us us');
  }

  pub of_length :
      {A : Type 0} (q : Digest → ℕ) (f : List Event → List Ufw → List A)
      → ((es : List Event) (us : List Ufw) (site hour : Text)
          → q (summarize_window ip es us site hour nets) ≡ length (f es us))
      → f [] [] ≡ []
      → ((es es' : List Event) (us us' : List Ufw)
          → f (es ++ es') (us ++ us') ≡ f es us ++ f es' us')
      → IsAdditive ip nets q
  of_length {A} q f value nil parts =
      of_description q (λ es us. length (f es us)) value (ap (length {A = A}) nil)
        λ es es' us us'. rw (parts es es' us us') (length-append (f es us) (f es' us'))

  pub of_tally :
      {K : Type 0} (dec : Discrete K) (k : K) (c : Digest → Counter K)
      (f : List Event → List Ufw → List K)
      → ((es : List Event) (us : List Ufw) (site hour : Text)
          → c (summarize_window ip es us site hour nets) ≡ tally dec [] (f es us))
      → f [] [] ≡ []
      → ((es es' : List Event) (us us' : List Ufw)
          → f (es ++ es') (us ++ us') ≡ f es us ++ f es' us')
      → IsAdditive ip nets (λ d. count dec k (c d))
  unfolding count get occurrences
  of_tally dec k c f value nil parts =
      of_description (λ d. count dec k (c d)) (λ es us. occurrences dec k (f es us))
        (λ es us site hour.
          rw (value es us site hour) (omega (arith, count-tally dec k (f es us) [])))
        (rw nil refl)
        λ es es' us us'. rw (parts es es' us us') (occurrences-append dec k (f es us) (f es' us'))
