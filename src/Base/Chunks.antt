-- ===== src/Base/Chunks.antt =====
-- The character-strings of a TXT record.
use honeycow.Prelude.{
  ℕ, zero, suc, ◌≤◌, ◌<◌, ◌≡◌, refl, ◌∙◌, ap, List, [], ◌∷◌, ◌++◌, arith, ltb, length, take, drop,
  concat, All, take-append-drop, length-take, length-drop, inl, inr, Bool-cases,
}
use mathlib.Core.List.{append-nil}
use native.Mathlib.Nat.{le_refl}
use honeycow.Base.{slices, chunks, txt_chunk_limit}

module _ (limit : ℕ) (positive : 0 < limit) where
  -- With fuel for every byte the slices make up the text.
  concat-slices :
      (fuel : ℕ) (encoded : List ℕ)
      → length encoded ≤ fuel
      → concat (slices fuel limit encoded) ≡ encoded
  unfolding slices
  concat-slices zero [] h = refl
  concat-slices zero (b ∷ encoded) h = absurd (omega arith)
  concat-slices (suc fuel) [] h = refl
  concat-slices (suc fuel) (b ∷ encoded) h =
      ap (λ rest. take limit (b ∷ encoded) ++ rest)
        (concat-slices fuel (drop limit (b ∷ encoded))
          (omega (arith, length-drop limit (b ∷ encoded))))
      ∙ take-append-drop limit (b ∷ encoded)

  slices_bounded :
      (fuel : ℕ) (encoded : List ℕ)
      → All (λ chunk. (0 < length chunk) × (length chunk ≤ limit)) (slices fuel limit encoded)
  unfolding slices
  slices_bounded zero encoded = tt
  slices_bounded (suc fuel) [] = tt
  slices_bounded (suc fuel) (b ∷ encoded) = (
    omega (arith, length-take limit (b ∷ encoded)),
    slices_bounded fuel (drop limit (b ∷ encoded)),
  )

-- The chunks in their order are the text.
concat-chunks : (encoded : List ℕ) → concat (chunks encoded) ≡ encoded
unfolding chunks
concat-chunks encoded = elim (Bool-cases (ltb txt_chunk_limit (length encoded))) [
  | inl long ↦ rw long (
      concat-slices txt_chunk_limit (omega arith) (length encoded) encoded
        (le_refl (length encoded)))
  | inr short ↦ rw short (append-nil encoded)
]

-- Each is a character-string of at most 255 bytes.
chunks_bounded : (encoded : List ℕ) → All (λ chunk. length chunk ≤ 255) (chunks encoded)
unfolding chunks
chunks_bounded encoded = elim (Bool-cases (ltb txt_chunk_limit (length encoded))) [
  | inl long ↦ rw long (
      All_right (slices (length encoded) 255 encoded)
        (slices_bounded txt_chunk_limit (omega arith) (length encoded) encoded))
  | inr short ↦ rw short (ground arith, tt)
]
  where
    All_right :
        (l : List (List ℕ))
        → All (λ chunk. (0 < length chunk) × (length chunk ≤ 255)) l
        → All (λ chunk. length chunk ≤ 255) l
    All_right [] h = tt
    All_right (c ∷ l) h = (h.0.1, All_right l h.1)

-- The chunks of a TXT record in their order make up the encoded text, and each is at most 255 bytes.
pub chunks_lem :
    (encoded : List ℕ)
    → (concat (chunks encoded) ≡ encoded) × All (λ chunk. length chunk ≤ 255) (chunks encoded)
chunks_lem encoded = (concat-chunks encoded, chunks_bounded encoded)
