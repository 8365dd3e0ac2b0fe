-- ===== src/Prelude/Match.antt =====
-- Comparing and searching texts, and `str.lower` on the first 256 code points.
use Prim.Native.Nat.{ℕ, ◌+◌}
use mathlib.Core.Bool.{Bool, true, false, not, ◌&&◌, ◌||◌}
use mathlib.Core.List.{List, [], ◌∷◌, map, reverse}
use mathlib.Core.Logic.{ite, if_pos, if_neg, ◌↔◌}
use mathlib.Core.Path.{◌≡◌, refl}
use native.Mathlib.Decide.{ℕ_discrete}
use native.Mathlib.Omega.{arith}
use honeycow.Prelude.Str.{Text}
use honeycow.Prelude.Tests.{leb, ltb, ◌==◌, if◌then◌else◌}

unfoldable pub Text_discrete : Discrete Text
unfolding ℕ_discrete
Text_discrete = hlevel ℕ_discrete

-- `s == t`
unfoldable pub same_text : Text → Text → Bool
unfolding Text_discrete
same_text s t = ite (Text_discrete s t) true false

pub same_text_iff : (s t : Text) → (same_text s t ≡ true) ↔ (s ≡ t)
unfolding same_text
same_text_iff s t = elim (Text_discrete s t) [
  | yes p ↦ (λ _. p, λ _. if_pos (Text_discrete s t) p true false)
  | no n ↦ (
    λ e.
        let e' : ite (Text_discrete s t) true false ≡ true = e in
        cc (if_neg (Text_discrete s t) n true false, e'),
    λ p. absurd (n p),
  )
]

-- A to Z, and the letters from U+00C0 to U+00DE.
abbrev pub is_upper : ℕ → Bool
is_upper c = leb 65 c && leb c 90 || leb 0xc0 c && leb c 0xde && not (c == 0xd7)

unfoldable pub lower_code : ℕ → ℕ
lower_code c = if is_upper c then c + 32 else c

unfoldable pub lower : Text → Text
unfolding lower_code
lower = map lower_code

lower_code_idem : (c : ℕ) → lower_code (lower_code c) ≡ lower_code c
unfolding lower_code
lower_code_idem c = ground arith

pub lower_idem : (s : Text) → lower (lower s) ≡ lower s
unfolding lower
lower_idem [] = refl
lower_idem (c ∷ s) = cc (lower_code_idem c, lower_idem s)

-- `s.startswith(part)`, `s.endswith(part)` and `part in s`
unfoldable pub starts_with : Text → Text → Bool
starts_with [] s = true
starts_with (c ∷ part) [] = false
starts_with (c ∷ part) (e ∷ s) = c == e && starts_with part s

unfoldable pub has_suffix : Text → Text → Bool
unfolding starts_with
has_suffix part s = starts_with (reverse part) (reverse s)

unfoldable pub has_part : Text → Text → Bool
unfolding starts_with
has_part part [] = starts_with part []
has_part part (c ∷ s) = starts_with part (c ∷ s) || has_part part s

-- `s.lstrip(sep)` for one character.
unfoldable pub lstrip_code : ℕ → Text → Text
lstrip_code sep [] = []
lstrip_code sep (c ∷ s) = if c == sep then lstrip_code sep s else c ∷ s

-- `s < t`
unfoldable pub text_lt : Text → Text → Bool
text_lt s [] = false
text_lt [] (e ∷ t) = true
text_lt (c ∷ s) (e ∷ t) = ltb c e || c == e && text_lt s t

insert_text : Text → List Text → List Text
unfolding text_lt
insert_text s [] = s ∷ []
insert_text s (t ∷ rest) = if text_lt t s then t ∷ insert_text s rest else s ∷ t ∷ rest

-- `sorted(texts)`
unfoldable pub sort_texts : List Text → List Text
unfolding insert_text
sort_texts [] = []
sort_texts (s ∷ rest) = insert_text s (sort_texts rest)
