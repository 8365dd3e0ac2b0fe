-- ===== src/IngestNs/Numbers.antt =====
-- How many rows of a list pass a test, and membership in a set of days.
use honeycow.Prelude.{
  ℕ, ◌+◌, Bool, true, false, List, [], ◌∷◌, ◌++◌, map, Text, length, any, Bool-cases, inl, inr,
  keep_if, All, ◌≡◌, refl, sym, subst, same_text, same_text_iff, arith,
}
use honeycow.IngestNs.Store.{in_days}

abbrev pub number {ℓ} : {A : Type ℓ} → (A → Bool) → List A → ℕ
number p xs = length (keep_if p xs)

module _ {ℓ} {A : Type ℓ} (p : A → Bool) where
  pub number-append : (xs ys : List A) → number p (xs ++ ys) ≡ number p xs + number p ys
  number-append [] ys = omega arith
  number-append (x ∷ xs) ys = ground (arith, number-append xs ys)

  pub number-none : (xs : List A) → All (λ x. p x ≡ false) xs → number p xs ≡ 0
  number-none [] h = refl
  number-none (x ∷ xs) h = ground (arith, h.0, number-none xs h.1)

  -- A test that follows from `p` takes nothing that `p` counts.
  pub number-keep_if :
      (q : A → Bool)
      → ((x : A) → p x ≡ true → q x ≡ true)
      → (xs : List A) → number p (keep_if q xs) ≡ number p xs
  number-keep_if q imp [] = refl
  number-keep_if q imp (x ∷ xs) = ground (arith, imp x, number-keep_if q imp xs)

  pub number-drop_if :
      (q : A → Bool)
      → ((x : A) → p x ≡ true → q x ≡ false)
      → (xs : List A) → number p (keep_if q xs) ≡ 0
  number-drop_if q imp [] = refl
  number-drop_if q imp (x ∷ xs) = ground (arith, imp x, number-drop_if q imp xs)

pub number-map :
    {A B : Type 0} (f : A → B) (p : B → Bool) (xs : List A)
    → number p (map f xs) ≡ number (λ x. p (f x)) xs
number-map f p [] = refl
number-map f p (x ∷ xs) = ground (arith, number-map f p xs)

-- What `any` says of a day in the set.
pub any-in_days :
    (days : List Text) (f : Text → Bool) (d : Text)
    → in_days days d ≡ true
    → any days f ≡ false
    → f d ≡ false
unfolding in_days
any-in_days [] f d h k = cc h
any-in_days (e ∷ days) f d h k = elim (Bool-cases (same_text d e)) [
  | inl p ↦
      (let q : f e ≡ false = ground (arith, k) in
        subst (λ x. f x ≡ false) (sym ((same_text_iff d e).0 p)) q)
  | inr p ↦ any-in_days days f d (ground (arith, p, h)) (ground (arith, k))
]
