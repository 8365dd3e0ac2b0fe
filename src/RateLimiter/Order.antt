-- ===== src/RateLimiter/Order.antt =====
-- The dictionary of the limiter: what stands where after a call, and what an eviction drops.
use honeycow.Prelude.{
  ℕ, zero, suc, ◌-◌, ◌≤◌, ◌≡◌, ◌≢◌, refl, Option, none, some, List, [], ◌∷◌, ◌++◌, arith, ltb,
  length, drop, inl, inr, Bool-cases,
}
use honeycow.RateLimiter.{Bucket, evict, get, without, move_to_end, assign, touch}

module _ {ℓ} {E : Type ℓ} where
  pub length-evict : (m : ℕ) (l : List E) → length (evict m l) ≤ m
  unfolding evict
  length-evict m [] = omega arith
  length-evict m (e ∷ l) = ground (arith, length-evict m l)

  -- An eviction drops the oldest entries, and no more than it must.
  pub evict-drop : (m : ℕ) (l : List E) → evict m l ≡ drop (length l - m) l
  unfolding evict
  evict-drop m [] = drop_nil (0 - m)
    where
      drop_nil : (n : ℕ) → ◌≡◌ {A = List E} [] (drop n [])
      drop_nil zero = refl
      drop_nil (suc n) = refl
  evict-drop m (e ∷ l) = elim (Bool-cases (ltb m (length (e ∷ l)))) [
    | inl over ↦
        let e' : length (e ∷ l) - m ≡ suc (length l - m) = ground arith in
        rw over (rw e' (evict-drop m l))
    | inr fits ↦ let e' : length (e ∷ l) - m ≡ 0 = ground arith in rw fits (rw e')
  ]

  pub evict_none : (m : ℕ) (l : List E) → length l ≤ m → evict m l ≡ l
  unfolding evict
  evict_none m [] h = refl
  evict_none m (e ∷ l) h = ground arith

module _ {K : Type 0} (dec : Discrete K) where
  pub get-without_self : (k : K) (l : List (K × Bucket)) → get dec k (without dec k l) ≡ none
  unfolding get without
  get-without_self k [] = refl
  get-without_self k ((j, v) ∷ l) = ground (arith, get-without_self k l)

  pub get-without_ne :
      (k q : K) (l : List (K × Bucket)) → q ≢ k → get dec q (without dec k l) ≡ get dec q l
  unfolding get without
  get-without_ne k q [] h = refl
  get-without_ne k q ((j, v) ∷ l) h = ground (arith, get-without_ne k q l h)

  pub without_absent : (k : K) (l : List (K × Bucket)) → get dec k l ≡ none → without dec k l ≡ l
  unfolding get without
  without_absent k [] h = refl
  without_absent k ((j, v) ∷ l) h = ground (arith, without_absent k l)

  assign_absent :
      (k : K) (v : Bucket) (l : List (K × Bucket))
      → get dec k l ≡ none
      → assign dec k v l ≡ l ++ (k, v) ∷ []
  unfolding get assign
  assign_absent k v [] h = refl
  assign_absent k v ((j, u) ∷ l) h = ground (arith, assign_absent k v l)

  assign_last :
      (k : K) (u v : Bucket) (l : List (K × Bucket))
      → get dec k l ≡ none
      → assign dec k v (l ++ (k, u) ∷ []) ≡ l ++ (k, v) ∷ []
  unfolding get assign
  assign_last k u v [] h = ground arith
  assign_last k u v ((j, t) ∷ l) h = ground (arith, assign_last k u v l)

  -- A call stores the key's bucket at the end, as the most recently used.
  pub assign-touch :
      (k : K) (v : Bucket) (o : Option Bucket) (l : List (K × Bucket))
      → get dec k l ≡ o
      → assign dec k v (touch dec k o l) ≡ without dec k l ++ (k, v) ∷ []
  unfolding touch move_to_end
  assign-touch k v none l h = rw (without_absent k l h) (assign_absent k v l h)
  assign-touch k v (some u) l h = assign_last k u v (without dec k l) (get-without_self k l)

  pub get-append_self :
      (k : K) (v : Bucket) (l : List (K × Bucket))
      → get dec k l ≡ none
      → get dec k (l ++ (k, v) ∷ []) ≡ some v
  unfolding get
  get-append_self k v [] h = ground arith
  get-append_self k v ((j, u) ∷ l) h = ground (arith, get-append_self k v l)

  pub get-append_ne :
      (k q : K) (v : Bucket) (l : List (K × Bucket))
      → q ≢ k
      → get dec q (l ++ (k, v) ∷ []) ≡ get dec q l
  unfolding get
  get-append_ne k q v [] h = ground arith
  get-append_ne k q v ((j, u) ∷ l) h = ground (arith, get-append_ne k q v l h)
