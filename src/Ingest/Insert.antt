-- ===== src/Ingest/Insert.antt =====
-- The laws of `INSERT OR IGNORE`.
use mathlib.Core.List.{map-append}
use honeycow.Prelude.{
  ◌≤◌, ◌≡◌, refl, ap, ◌∙◌, true, ◌||◌, List, [], ◌∷◌, ◌++◌, map, Text, length, length-append,
  same_text, same_text_iff, arith, All,
}
use honeycow.Ingest.Tables.{is_in, insert_row, insert_rows}

pub is_in-append : (hs ks : List Text) (h : Text) → is_in (hs ++ ks) h ≡ (is_in hs h || is_in ks h)
is_in-append [] ks h = refl
is_in-append (j ∷ hs) ks h = ground (arith, is_in-append hs ks h)

same_text_refl : (s : Text) → same_text s s ≡ true
same_text_refl s = (same_text_iff s s).1 refl

pub map_same : (hs : List Text) → map (λ h. h) hs ≡ hs
map_same [] = refl
map_same (h ∷ hs) = ap (λ ks. h ∷ ks) (map_same hs)

module _ {Row : Type 0} (rowhash : Row → Text) where
  pub insert_rows-append :
      (xs ys table : List Row)
      → insert_rows rowhash (xs ++ ys) table ≡ insert_rows rowhash ys (insert_rows rowhash xs table)
  unfolding insert_rows
  insert_rows-append [] ys table = refl
  insert_rows-append (x ∷ xs) ys table = insert_rows-append xs ys (insert_row rowhash x table)

  pub length-insert_rows :
      (xs table : List Row) → length table ≤ length (insert_rows rowhash xs table)
  unfolding insert_rows insert_row
  length-insert_rows [] table = omega arith
  length-insert_rows (x ∷ xs) table =
      let k = length-insert_rows xs (insert_row rowhash x table) in
      ground (arith, k, length-append table (x ∷ []))

  -- The table holds each of the rows.
  abbrev pub IsHeld : List Row → Row → Type 0
  IsHeld table x = is_in (map rowhash table) (rowhash x) ≡ true

  insert_row-IsHeld :
      (x y : Row) (table : List Row) → IsHeld table y → IsHeld (insert_row rowhash x table) y
  unfolding insert_row
  insert_row-IsHeld x y table h = ground (
    arith,
    map-append rowhash table (x ∷ []),
    is_in-append (map rowhash table) (rowhash x ∷ []) (rowhash y),
    h,
  )

  insert_row-holds : (x : Row) (table : List Row) → IsHeld (insert_row rowhash x table) x
  unfolding insert_row
  insert_row-holds x table = ground (
    arith,
    map-append rowhash table (x ∷ []),
    is_in-append (map rowhash table) (rowhash x ∷ []) (rowhash x),
    same_text_refl (rowhash x),
  )

  insert_rows-IsHeld :
      (xs table : List Row) (y : Row) → IsHeld table y → IsHeld (insert_rows rowhash xs table) y
  unfolding insert_rows
  insert_rows-IsHeld [] table y h = h
  insert_rows-IsHeld (x ∷ xs) table y h =
      insert_rows-IsHeld xs (insert_row rowhash x table) y (insert_row-IsHeld x y table h)

  insert_rows-holds : (xs table : List Row) → All (IsHeld (insert_rows rowhash xs table)) xs
  unfolding insert_rows
  insert_rows-holds [] table = tt
  insert_rows-holds (x ∷ xs) table = (
    insert_rows-IsHeld xs (insert_row rowhash x table) x (insert_row-holds x table),
    insert_rows-holds xs (insert_row rowhash x table),
  )

  insert_row-known :
      (x : Row) (table : List Row) → IsHeld table x → insert_row rowhash x table ≡ table
  unfolding insert_row
  insert_row-known x table h = rw h refl

  insert_rows-known :
      (xs table : List Row) → All (IsHeld table) xs → insert_rows rowhash xs table ≡ table
  unfolding insert_rows insert_row
  insert_rows-known [] table h = refl
  insert_rows-known (x ∷ xs) table h =
      rw (insert_row-known x table h.0) (insert_rows-known xs table h.1)

  -- Inserting rows a second time changes nothing.
  pub insert_rows_again :
      (xs table : List Row)
      → insert_rows rowhash xs (insert_rows rowhash xs table) ≡ insert_rows rowhash xs table
  insert_rows_again xs table =
      insert_rows-known xs (insert_rows rowhash xs table) (insert_rows-holds xs table)

  map-insert_row :
      (x : Row) (table : List Row)
      → map rowhash (insert_row rowhash x table)
        ≡ insert_row (λ h. h) (rowhash x) (map rowhash table)
  unfolding insert_row
  map-insert_row x table =
      ground (arith, map-append rowhash table (x ∷ []), map_same (map rowhash table))

  -- The hashes of the table grow as the set of hashes does.
  pub map-insert_rows :
      (xs table : List Row)
      → map rowhash (insert_rows rowhash xs table)
        ≡ insert_rows (λ h. h) (map rowhash xs) (map rowhash table)
  unfolding insert_rows insert_row
  map-insert_rows [] table = refl
  map-insert_rows (x ∷ xs) table =
      map-insert_rows xs (insert_row rowhash x table)
      ∙ ap (insert_rows (λ h. h) (map rowhash xs)) (map-insert_row x table)
