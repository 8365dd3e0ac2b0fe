-- ===== src/Annotate/Sublists.antt =====
-- Days with different dates, and the days that a test keeps of them.
use honeycow.Prelude.{
  ltb, ℕ, ◌-◌, Bool, true, false, List, [], ◌∷◌, ◌++◌, Text, length, take, drop, keep_if, All,
  All-zip, ◌≡◌, ◌≢◌, refl, sym, ap, if◌then◌else◌, Bool-cases, inl, inr, zero, suc,
}
use honeycow.Annotate.{Day}
use honeycow.Annotate.Run.{last_days}
use honeycow.Annotate.Dates.{Distinct}

module _ {ℓ} {A : Type ℓ} where
  pub All-keep_if_of :
      (P : A → Type 0) (p : A → Bool) (xs : List A) → All P xs → All P (keep_if p xs)
  All-keep_if_of P p [] h = tt
  All-keep_if_of P p (x ∷ xs) h = elim (Bool-cases (p x)) [
    | inl e ↦ rw e (h.0, All-keep_if_of P p xs (h.1))
    | inr e ↦ rw e (All-keep_if_of P p xs (h.1))
  ]

  pub All-take : (P : A → Type 0) (n : ℕ) (xs : List A) → All P xs → All P (take n xs)
  All-take P zero xs h = tt
  All-take P (suc n) [] h = tt
  All-take P (suc n) (x ∷ xs) h = (h.0, All-take P n xs (h.1))

  pub keep_if-All : (q : A → Bool) (xs : List A) → All (λ x. q x ≡ true) xs → keep_if q xs ≡ xs
  keep_if-All q [] h = refl
  keep_if-All q (x ∷ xs) h = rw (h.0) (ap (◌∷◌ x) (keep_if-All q xs (h.1)))

  pub keep_if_none : (q : A → Bool) (xs : List A) → All (λ x. q x ≡ false) xs → keep_if q xs ≡ []
  keep_if_none q [] h = refl
  keep_if_none q (x ∷ xs) h = rw (h.0) (keep_if_none q xs (h.1))

  -- What a weaker test has left out need not be tested again.
  pub keep_if-keep_if :
      (p q : A → Bool) (xs : List A)
      → All (λ x. p x ≡ false → q x ≡ false) xs
      → keep_if q xs ≡ keep_if q (keep_if p xs)
  keep_if-keep_if p q [] h = refl
  keep_if-keep_if p q (x ∷ xs) h = elim (Bool-cases (p x)) [
    | inl e ↦ rw e (ap (λ r. if q x then x ∷ r else r) (keep_if-keep_if p q xs (h.1)))
    | inr e ↦ rw (e, h.0 e) (keep_if-keep_if p q xs (h.1))
  ]

  pub keep_if_same :
      (p q : A → Bool) (xs : List A) → All (λ x. p x ≡ q x) xs → keep_if p xs ≡ keep_if q xs
  keep_if_same p q [] h = refl
  keep_if_same p q (x ∷ xs) h =
      rw (h.0) (ap (λ r. if q x then x ∷ r else r) (keep_if_same p q xs (h.1)))

pub All-keep_if {ℓ} :
    {A : Type ℓ} (p : A → Bool) (xs : List A) → All (λ x. p x ≡ true) (keep_if p xs)
All-keep_if p [] = tt
All-keep_if p (x ∷ xs) = elim (Bool-cases (p x)) [
  | inl e ↦ rw e (e, All-keep_if p xs)
  | inr e ↦ rw e (All-keep_if p xs)
]

pub All-drop {ℓ} :
    {A : Type ℓ} (P : A → Type 0) (n : ℕ) (xs : List A) → All P xs → All P (drop n xs)
All-drop P zero xs h = h
All-drop P (suc n) [] h = h
All-drop P (suc n) (x ∷ xs) h = All-drop P n xs (h.1)

pub All-last_days :
    (P : Day → Type 0) (max_days : ℕ) (days : List Day)
    → All P days
    → All P (last_days max_days days)
unfolding last_days
All-last_days P max_days days h = elim (Bool-cases (ltb 0 max_days)) [
  | inl e ↦ rw e (All-drop P (length days - max_days) days h)
  | inr e ↦ rw e h
]

-- The days of a list all lie off a date.
abbrev pub Off : Text → List Day → Type 0
Off date = All (λ c. c.date ≢ date)

pub keep_if-Distinct :
    (p : Day → Bool) (days : List Day) → Distinct days → Distinct (keep_if p days)
keep_if-Distinct p [] u = tt
keep_if-Distinct p (day ∷ days) u = elim (Bool-cases (p day)) [
  | inl e ↦
      rw e (All-keep_if_of (λ c. c.date ≢ day.date) p days (u.0), keep_if-Distinct p days (u.1))
  | inr e ↦ rw e (keep_if-Distinct p days (u.1))
]

pub Distinct-append :
    (xs ys : List Day) → Distinct (xs ++ ys) → All (λ x. Off x.date ys) xs × Distinct ys
Distinct-append [] ys u = (tt, u)
Distinct-append (x ∷ xs) ys u =
    let rest = Distinct-append xs ys (u.1) in ((All-behind xs ys (u.0), rest.0), rest.1)
  where
    All-behind : (xs ys : List Day) → Off x.date (xs ++ ys) → Off x.date ys
    All-behind [] ys h = h
    All-behind (z ∷ zs) ys h = All-behind zs ys (h.1)

-- A day that the test leaves out lies off the dates of those that it keeps.
pub keep_if-Off :
    (p : Day → Bool) (days : List Day)
    → Distinct days
    → All (λ d. p d ≡ false → Off d.date (keep_if p days)) days
keep_if-Off p [] u = tt
keep_if-Off p (day ∷ days) u = (
  (λ f. rw f (All-keep_if_of (λ c. c.date ≢ day.date) p days (u.0))),
  All-zip (λ d n off f. Off-if d (p day) (λ q. n (sym q)) (off f)) days (u.0)
      (keep_if-Off p days (u.1)),
)
  where
    Off-if :
        (d : Day) (b : Bool)
        → day.date ≢ d.date
        → Off d.date (keep_if p days)
        → Off d.date (if b then day ∷ keep_if p days else keep_if p days)
    Off-if d true n h = (n, h)
    Off-if d false n h = h
