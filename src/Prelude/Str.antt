-- ===== src/Prelude/Str.antt =====
-- Python's `str` as the list of its code points, and the methods that the source calls.
use Prim.Native.Char.{code}
use Prim.Native.String.{String}
use mathlib.Core.Bool.{Bool, true, false, ◌&&◌, ◌||◌}
use mathlib.Core.List.{List, [], ◌∷◌, ◌++◌, reverse, append-nil, append_assoc}
use mathlib.Core.Path.{◌≡◌, refl, ap, sym, ◌∙◌}
use text.Mathlib.Text.{◌==◌ as str_eq}
use text.Mathlib.TextEquality.{eq_iff}
use Prim.Native.Nat.{ℕ}
use honeycow.Prelude.Tests.{leb, ◌==◌, if◌then◌else◌}

abbrev pub Text : Type 0
Text = List ℕ

abbrev pub codes : String → Text
codes String.[] = []
codes (String.◌∷◌ c s) = code c ∷ codes s

abbrev pub same_string : String → String → Bool
same_string = str_eq

-- `not s`
abbrev pub is_empty {ℓ} : {A : Type ℓ} → List A → Bool
is_empty [] = true
is_empty (x ∷ xs) = false

str_decide : (s t : String) (b : Bool) → str_eq s t ≡ b → Dec (s ≡ t)
str_decide s t true e = yes ((eq_iff s t).0 e)
str_decide s t false e = no (λ p. cc (e, (eq_iff s t).1 p))

unfoldable pub String_discrete : Discrete String
unfolding str_decide
String_discrete s t = str_decide s t (str_eq s t) refl

between : ℕ → ℕ → ℕ → Bool
between lo hi c = leb lo c && leb c hi

-- `str.isspace` of one character: what `strip` takes off.
unfoldable pub is_space : ℕ → Bool
unfolding between
is_space c =
    between 9 13 c
    || between 28 32 c
    || c == 0x85
    || c == 0xa0
    || c == 0x1680
    || between 0x2000 0x200a c
    || c == 0x2028
    || c == 0x2029
    || c == 0x202f
    || c == 0x205f
    || c == 0x3000

-- The characters at which `splitlines` breaks.
unfoldable pub is_break : ℕ → Bool
unfolding between
is_break c = between 10 13 c || between 28 30 c || c == 0x85 || c == 0x2028 || c == 0x2029

unfoldable pub lstrip : Text → Text
lstrip [] = []
lstrip (c ∷ s) = if is_space c then lstrip s else c ∷ s

unfoldable pub strip : Text → Text
unfolding lstrip is_space
strip s = reverse (lstrip (reverse (lstrip s)))

-- `s.split(sep, 1)[0]`, and `s.partition(sep)[0]`
unfoldable pub before : ℕ → Text → Text
before sep [] = []
before sep (c ∷ s) = if c == sep then [] else c ∷ before sep s

-- The loop of `splitlines`: the line so far, and whether the last character was a carriage
-- return, whose line feed belongs to the same break.
lines_from : Bool → Text → Text → List Text
lines_from cr line [] = if is_empty line then [] else line ∷ []
lines_from cr line (c ∷ s) = elim (cr && c == 10) [
  | true ↦ lines_from false [] s
  | false ↦ elim (is_break c) [
    | true ↦ line ∷ lines_from (c == 13) [] s
    | false ↦ lines_from false (line ++ c ∷ []) s
  ]
]

unfoldable pub splitlines : Text → List Text
unfolding lines_from is_break
splitlines = lines_from false []

unfoldable pub ends_with : ℕ → Text → Bool
ends_with d [] = false
ends_with d (c ∷ []) = c == d
ends_with d (c ∷ e ∷ s) = ends_with d (e ∷ s)

-- `s.split(sep)` for a separator of one character.
split_from : ℕ → Text → Text → List Text
split_from sep part [] = part ∷ []
split_from sep part (c ∷ s) = elim (c == sep) [
  | true ↦ part ∷ split_from sep [] s
  | false ↦ split_from sep (part ++ c ∷ []) s
]

unfoldable pub split : ℕ → Text → List Text
unfolding split_from
split sep = split_from sep []

-- A text without a line break.
abbrev pub IsOneLine : Text → Type 0
IsOneLine [] = Unit
IsOneLine (c ∷ s) = (is_break c ≡ false) × IsOneLine s

lines_from-newline :
    (line rest : Text) → lines_from false line (b'\n' ∷ rest) ≡ line ∷ lines_from false [] rest
unfolding lines_from is_break
lines_from-newline line rest = refl

lines_from-other :
    (line s : Text) (c : ℕ)
    → is_break c ≡ false
    → lines_from false line (c ∷ s) ≡ lines_from false (line ++ c ∷ []) s
unfolding lines_from
lines_from-other line s c h = rw (lines_from, h) refl

lines_from-line :
    (line s rest : Text)
    → IsOneLine s
    → lines_from false line (s ++ b'\n' ∷ rest) ≡ (line ++ s) ∷ lines_from false [] rest
lines_from-line line [] rest h =
    lines_from-newline line rest ∙ ap (λ l. l ∷ lines_from false [] rest) (sym (append-nil line))
lines_from-line line (c ∷ s) rest h =
    lines_from-other line (s ++ b'\n' ∷ rest) c (h.0)
    ∙ lines_from-line (line ++ c ∷ []) s rest (h.1)
    ∙ ap (λ l. l ∷ lines_from false [] rest) (append_assoc line (c ∷ []) s)

-- A line and its end stand in front of the lines of the rest.
pub splitlines-line :
    (s rest : Text) → IsOneLine s → splitlines (s ++ b'\n' ∷ rest) ≡ s ∷ splitlines rest
unfolding splitlines
splitlines-line s rest = lines_from-line [] s rest
