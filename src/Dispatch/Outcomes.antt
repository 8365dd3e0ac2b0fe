-- ===== src/Dispatch/Outcomes.antt =====
-- What holds of a result of `dispatch` of squatter/dispatch.py and of what calls it: a value or an
-- exception.
use honeycow.Prelude.{◌≡◌, refl, Bool, true, false, if◌then◌else◌, Result, ok, raise, ◌>>=◌}

-- The result is a value, and the value has the property.
abbrev pub Returns {ℓ} : {A : Type ℓ} → Result A → (A → Type 0) → Type 0
Returns (ok a) P = P a
Returns (raise e) P = ⊥

pub Returns-if {ℓ} :
    {A : Type ℓ} (P : A → Type 0) (b : Bool) (x y : Result A)
    → (b ≡ true → Returns x P)
    → (b ≡ false → Returns y P)
    → Returns (if b then x else y) P
Returns-if P true x y f g = f refl
Returns-if P false x y f g = g refl

pub Returns-map {ℓ} :
    {A : Type ℓ} (P Q : A → Type 0) (r : Result A)
    → ((a : A) → P a → Q a)
    → Returns r P
    → Returns r Q
Returns-map P Q (ok a) f p = f a p
Returns-map P Q (raise e) f p = p

-- What holds of the value, if there is one; with the assumption there is one.
abbrev pub Yields {ℓ} : Type 0 → {A : Type ℓ} → Result A → (A → Type 0) → Type 0
Yields C (ok a) P = P a
Yields C (raise e) P = C → ⊥

pub Returns-Yields {ℓ} :
    {A : Type ℓ} (C : Type 0) (P : A → Type 0) (r : Result A) → C → Yields C r P → Returns r P
Returns-Yields C P (ok a) c p = p
Returns-Yields C P (raise e) c p = p c

pub Yields-if {ℓ} :
    {A : Type ℓ} (C : Type 0) (P : A → Type 0) (b : Bool) (x y : Result A)
    → (b ≡ true → Yields C x P)
    → (b ≡ false → Yields C y P)
    → Yields C (if b then x else y) P
Yields-if C P true x y f g = f refl
Yields-if C P false x y f g = g refl

pub Yields-bind {ℓ κ} :
    {A : Type ℓ} {B : Type κ} (C : Type 0) (P : A → Type 0) (Q : B → Type 0) (r : Result A)
    (f : A → Result B)
    → Yields C r P
    → ((a : A) → P a → Yields C (f a) Q)
    → Yields C (r >>= f) Q
Yields-bind C P Q (ok a) f p k = k a p
Yields-bind C P Q (raise e) f p k = p

pub Yields-and {ℓ} :
    {A : Type ℓ} (C : Type 0) (P Q R : A → Type 0) (r : Result A)
    → ((a : A) → P a → Q a → R a)
    → Yields C r P
    → Yields C r Q
    → Yields C r R
Yields-and C P Q R (ok a) f p q = f a p q
Yields-and C P Q R (raise e) f p q = p

pub Yields-map {ℓ} :
    {A : Type ℓ} (C : Type 0) (P Q : A → Type 0) (r : Result A)
    → ((a : A) → P a → Q a)
    → Yields C r P
    → Yields C r Q
Yields-map C P Q (ok a) f p = f a p
Yields-map C P Q (raise e) f p = p
