-- ===== src/Dict.antt =====
-- Python's dictionaries and `collections.Counter` as lists of entries, oldest key first.
pub mod Laws
use mathlib.Core.Logic.{ite}
use honeycow.Prelude.{ℕ, ◌+◌, Option, none, some, List, [], ◌∷◌}

-- `o or 0` for a count that may be missing.
abbrev pub or_zero : Option ℕ → ℕ
or_zero none = 0
or_zero (some n) = n

module _ {K : Type 0} (dec : Discrete K) where
  -- `m.get(k)` and `m[k] = v`
  unfoldable pub get : {V : Type 0} → K → List (K × V) → Option V
  get k [] = none
  get k ((j, v) ∷ m) = ite (dec j k) (some v) (get k m)

  unfoldable pub put : {V : Type 0} → K → V → List (K × V) → List (K × V)
  put k v [] = (k, v) ∷ []
  put k v ((j, w) ∷ m) = let r = put k v m in ite (dec j k) ((k, v) ∷ m) ((j, w) ∷ r)

  -- `c[k]` and `c[k] += n` for a counter
  unfoldable pub count : K → List (K × ℕ) → ℕ
  unfolding get
  count k c = or_zero (get k c)

  unfoldable pub bump : K → ℕ → List (K × ℕ) → List (K × ℕ)
  unfolding count put
  bump k n c = put k (count k c + n) c

  -- `Counter(ks)`, onto a counter
  unfoldable pub tally : List (K × ℕ) → List K → List (K × ℕ)
  unfolding bump
  tally c [] = c
  tally c (k ∷ ks) = tally (bump k 1 c) ks

  -- `dst.update(src)`
  unfoldable pub update : List (K × ℕ) → List (K × ℕ) → List (K × ℕ)
  unfolding bump
  update dst [] = dst
  update dst ((k, n) ∷ src) = update (bump k n dst) src
