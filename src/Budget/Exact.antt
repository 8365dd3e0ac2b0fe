-- ===== src/Budget/Exact.antt =====
-- What the methods of the budget answer, in terms of the bytes that the window holds.
use honeycow.Prelude.{ℕ, ◌+◌, ◌-◌, ◌≤◌, ◌≡◌, ◌||◌, arith, ltb, leb, ◌==◌, inl, inr, Bool-cases}
use honeycow.Budget.{prune, try_charge, remaining, total_used}
use honeycow.Budget.Buckets.{spent}
use honeycow.Budget.Window.{
  Ledger, IsValid, loop, after_prune, try_refused, try_granted, try_nothing,
}

module _ (cap w now now' : ℕ) (l : Ledger) (later : now ≤ now') (k : IsValid cap w now l) where
  try_charge-granted :
      (n : ℕ) → (try_charge now' n l.budget).1 ≡ ((n == 0) || leb (spent w now' l.charged + n) cap)
  try_charge-granted n = elim (Bool-cases (n == 0)) [
    | inl none ↦ rw (try_nothing cap w now now' n l later k none) (rw none)
    | inr some ↦
        elim (Bool-cases (ltb l.budget.max_bytes ((loop cap w now now' n l later k).1 + n))) [
          | inl over ↦
              rw (try_refused cap w now now' n l later k some over) (
                ground (arith, (after_prune cap w now now' n l later k).1, k.max_bytes, some, over))
          | inr fits ↦
              rw (try_granted cap w now now' n l later k some fits) (
                ground (arith, (after_prune cap w now now' n l later k).1, k.max_bytes, some, fits))
        ]
  ]

  remaining-spent :
      ((remaining now' l.budget).1 ≡ cap - spent w now' l.charged)
      × ((total_used now' l.budget).1 ≡ spent w now' l.charged)
  unfolding remaining total_used prune loop
  remaining-spent = ground (arith, (after_prune cap w now now' 0 l later k).1, k.max_bytes)

  -- `try_charge` answers True exactly when nothing is charged, or when what is charged in the
  -- window that ends now and the new bytes are at most `max_bytes`; `remaining` and `total_used` are
  -- the free and the used bytes of that window.
  pub try_charge-exact :
      (n : ℕ)
      → ((try_charge now' n l.budget).1 ≡ ((n == 0) || leb (spent w now' l.charged + n) cap))
        × ((remaining now' l.budget).1 ≡ cap - spent w now' l.charged)
        × ((total_used now' l.budget).1 ≡ spent w now' l.charged)
  try_charge-exact n = (try_charge-granted n, remaining-spent.0, remaining-spent.1)
