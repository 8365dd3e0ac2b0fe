-- ===== src/Ingest/Honest.antt =====
-- What a dry run of tools/ingest.py reports against what a run inserts.
use mathlib.Core.List.{map-append}
use honeycow.Prelude.{
  ℕ, ◌+◌, ◌≤◌, ◌≡◌, refl, ap, Bool, true, false, not, Option, none, some, List, [], ◌∷◌, ◌++◌, map,
  Text, length, length-append, keep_if, Bool-cases, inl, inr, arith,
}
use honeycow.Ingest.{Python}
use honeycow.Ingest.Tables.{is_in, insert_row, insert_rows}
use honeycow.Ingest.Insert.{is_in-append}
use honeycow.Ingest.Preview.{ingest_events-dry_run}
use honeycow.Ingest.Ufw.{Packet, UfwRow, ingest_ufw, not_yet, ufw_hash, ufw_row}
use honeycow.Ingest.Run.{Index, Options, Totals, opened, add_packets, add_events, totals, ingest}

module _ {Real : Type 0} where
  abbrev unknown_in : List Text → List (UfwRow Real) → List (UfwRow Real)
  unknown_in hs = keep_if (λ row. not (is_in hs row.rowhash))

  unknown_in-grown :
      (hs : List Text) (h : Text) (rows : List (UfwRow Real))
      → length (unknown_in (hs ++ h ∷ []) rows) ≤ length (unknown_in hs rows)
  unknown_in-grown hs h [] = omega arith
  unknown_in-grown hs h (row ∷ rows) =
      ground (arith, is_in-append hs (h ∷ []) row.rowhash, unknown_in-grown hs h rows)

  length-insert_rows-unknown :
      (rows table : List (UfwRow Real))
      → length (insert_rows ufw_hash rows table)
        ≤ length table + length (unknown_in (map ufw_hash table) rows)
  unfolding insert_rows insert_row
  length-insert_rows-unknown [] table = omega arith
  length-insert_rows-unknown (row ∷ rows) table =
      elim (Bool-cases (is_in (map ufw_hash table) row.rowhash)) [
        | inl e ↦ rw e (length-insert_rows-unknown rows table)
        | inr e ↦ rw e (
            omega (
              arith,
              length-insert_rows-unknown rows (table ++ row ∷ []),
              length-append table (row ∷ []),
              unknown_in-grown (map ufw_hash table) row.rowhash rows,
              ap (λ hs. length (unknown_in hs rows)) (map-append ufw_hash table (row ∷ [])),
            ))
      ]

-- The packets that a dry run reports against those that are inserted: as many are seen, and at least as
-- many are new.
abbrev pub IsPreview : Option (ℕ × ℕ) → Option (ℕ × ℕ) → Type 0
IsPreview none none = Unit
IsPreview none (some stored) = ⊥
IsPreview (some preview) none = ⊥
IsPreview (some (seen, new)) (some (seen', new')) = (seen ≡ seen') × (new' ≤ new)

module _ {Real : Type 0} where
  abbrev pub IsHonest : Index Real → Option (Totals Real) → Option (Totals Real) → Type 0
  IsHonest index none none = Unit
  IsHonest index none (some t) = ⊥
  IsHonest index (some t) none = ⊥
  IsHonest index (some preview) (some t) =
      (preview.index ≡ index) × (preview.events ≡ t.events) × IsPreview preview.packets t.packets

  abbrev pub run_of : Option Real → Bool → Options Real
  run_of since dry_run = record { since = since; rebuild = false; dry_run = dry_run }

module _ {Real : Type 0} (py : Python Real) (int : Text → Option ℕ) where
  ingest_ufw-new :
      (table : List (UfwRow Real)) (parsed : List (Packet Real))
      → (ingest_ufw py int false table parsed).ufw_new
        ≤ (ingest_ufw py int true table parsed).ufw_new
  unfolding ingest_ufw not_yet
  ingest_ufw-new table parsed =
      omega (arith, length-insert_rows-unknown (map (ufw_row py int) parsed) table)

  -- A dry run leaves the index as it is, reports of the events the counts that a run would report, and
  -- of the packets as many that are seen and at least as many that are new. Neither run rebuilds.
  pub ingest-dry_run :
      (since : Option Real) (events : Option (Option (List Text)))
      (ufw : Option (List (Packet Real))) (index : Index Real)
      → IsHonest index
          (ingest py int (run_of since true) events ufw index)
          (ingest py int (run_of since false) events ufw index)
  unfolding ingest totals add_packets add_events opened ingest_ufw
  ingest-dry_run since none none index = tt
  ingest-dry_run since none (some parsed) index =
      (refl, refl, (refl, ingest_ufw-new index.ufw parsed))
  ingest-dry_run since (some file) none index =
      let (counts, con) = ingest_events-dry_run py since index.tables file in
      ((λ i. record { tables = con i; ufw = index.ufw }), ap some counts, tt)
  ingest-dry_run since (some file) (some parsed) index =
      let (counts, con) = ingest_events-dry_run py since index.tables file in
      (
        (λ i. record { tables = con i; ufw = index.ufw }),
        ap some counts,
        (refl, ingest_ufw-new index.ufw parsed),
      )
