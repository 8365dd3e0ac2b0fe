-- ===== src/Dict/Laws.antt =====
-- The laws of dictionaries and counters, at a key.
use mathlib.Core.Logic.{ite}
use honeycow.Prelude.{ℕ, ◌+◌, ◌≡◌, refl, none, some, List, [], ◌∷◌, ◌++◌, arith}
use honeycow.Dict.{get, put, count, bump, tally, update}

-- How often a key occurs.
module _ {K : Type 0} (dec : Discrete K) where
  unfoldable pub occurrences : K → List K → ℕ
  occurrences k [] = 0
  occurrences k (j ∷ js) = ite (dec j k) 1 0 + occurrences k js

  pub occurrences-append :
      (k : K) (xs ys : List K) → occurrences k (xs ++ ys) ≡ occurrences k xs + occurrences k ys
  unfolding occurrences
  occurrences-append k [] ys = omega arith
  occurrences-append k (x ∷ xs) ys = omega (arith, occurrences-append k xs ys)

  pub get-put :
      {V : Type 0} (k j : K) (v : V) (m : List (K × V))
      → get dec j (put dec k v m) ≡ ite (dec k j) (some v) (get dec j m)
  unfolding get put
  get-put k j v [] = refl
  get-put k j v ((i, w) ∷ m) = ground (arith, get-put k j v m)

  pub count-bump :
      (k j : K) (n : ℕ) (c : List (K × ℕ))
      → count dec j (bump dec k n c) ≡ ite (dec k j) n 0 + count dec j c
  unfolding count bump
  count-bump k j n c = ground (arith, get-put k j (count dec k c + n) c)

  pub count-tally :
      (k : K) (ks : List K) (c : List (K × ℕ))
      → count dec k (tally dec c ks) ≡ count dec k c + occurrences k ks
  unfolding tally occurrences
  count-tally k [] c = omega arith
  count-tally k (j ∷ ks) c = omega (arith, count-bump j k 1 c, count-tally k ks (bump dec j 1 c))

  -- No key occurs twice, as in a dictionary.
  abbrev pub Unique : {V : Type 0} → List (K × V) → Type 0
  Unique [] = Unit
  Unique ((k, v) ∷ m) = (get dec k m ≡ none) × Unique m

  pub put-Unique :
      {V : Type 0} (k : K) (v : V) (m : List (K × V)) → Unique m → Unique (put dec k v m)
  unfolding put get
  put-Unique k v [] u = (refl, tt)
  put-Unique k v ((j, w) ∷ m) u = ground (arith, get-put k j v m, put-Unique k v m u.1)

  pub bump-Unique : (k : K) (n : ℕ) (c : List (K × ℕ)) → Unique c → Unique (bump dec k n c)
  unfolding bump
  bump-Unique k n c u = put-Unique k _ c u

  pub tally-Unique : (ks : List K) (c : List (K × ℕ)) → Unique c → Unique (tally dec c ks)
  unfolding tally
  tally-Unique [] c u = u
  tally-Unique (k ∷ ks) c u = tally-Unique ks _ (bump-Unique k 1 c u)

  pub update-Unique : (src dst : List (K × ℕ)) → Unique dst → Unique (update dec dst src)
  unfolding update
  update-Unique [] dst u = u
  update-Unique ((k, n) ∷ src) dst u = update-Unique src _ (bump-Unique k n dst u)

  pub count-update :
      (k : K) (src dst : List (K × ℕ))
      → Unique src
      → count dec k (update dec dst src) ≡ count dec k dst + count dec k src
  unfolding update count get
  count-update k [] dst u = omega arith
  count-update k ((j, n) ∷ src) dst u =
      ground (arith, count-bump j k n dst, count-update k src (bump dec j n dst) u.1)
