-- ===== src/Budget/Window.antt =====
-- Runs of charges on the budget, and the bytes that leave in a window.
use honeycow.Prelude.{
  ℕ, ◌+◌, ◌≤◌, ◌≡◌, refl, ◌∙◌, true, false, List, [], ◌∷◌, All, arith, ltb, ◌==◌, if◌then◌else◌,
  inl, inr, Bool-cases, ==_iff,
}
use honeycow.Budget.{
  OutboundBudget, init, prune_loop, prune, deposit, charge_pruned, try_charge, force_pruned,
  force_charge,
}
use honeycow.Budget.Buckets.{
  sum_sizes, spent, Ascends, Ascends-later, deposit-Ascends, sum_sizes-deposit, spent-deposit,
  Pruned, prune_loop-Pruned,
}

-- A call of a client, with the second at which it is made and the bytes.
pub data Call : Type 0 where
  try force : ℕ → ℕ → Call

-- The budget beside what it has let through: all charges, and the forced ones alone, newest first.
pub record Ledger : Type 0 where
  pub budget : OutboundBudget
  pub charged : List (ℕ × ℕ)
  pub forced : List (ℕ × ℕ)

abbrev pub start : ℕ → ℕ → Ledger
start max_bytes window = record { budget = init max_bytes window; charged = []; forced = [] }

-- One call: a charge that the budget refuses leaves no entry.
unfoldable pub step : Ledger → Call → Ledger
step l (try now n) =
    let (b, done) = try_charge now n l.budget in
    record l { budget = b; charged = if done then (now, n) ∷ l.charged else l.charged }
step l (force now n) = record {
  budget = force_charge now n l.budget;
  charged = (now, n) ∷ l.charged;
  forced = (now, n) ∷ l.forced;
}

unfoldable pub run : Ledger → List Call → Ledger
run l [] = l
run l (c ∷ cs) = run (step l c) cs

-- The clock does not run backwards: `time.monotonic`.
abbrev pub Monotone : ℕ → List Call → Type 0
Monotone now [] = Unit {0}
Monotone now (try t n ∷ cs) = (now ≤ t) × Monotone t cs
Monotone now (force t n ∷ cs) = (now ≤ t) × Monotone t cs

-- At second `now`: the buckets tell what every window from `now` on holds.
pub record Tracks (cap w now : ℕ) (buckets : List (ℕ × ℕ)) (total : ℕ)
    (charged forced : List (ℕ × ℕ)) : Type 0 where
  pub sum : total ≡ sum_sizes buckets
  pub ascends : Ascends 0 now buckets
  pub past : All (λ e. e.0 ≤ now) charged
  pub same : (t : ℕ) → now ≤ t → spent w t buckets ≡ spent w t charged
  pub bound : (t : ℕ) → spent w t charged ≤ cap + spent w t forced

pub record IsValid (cap w now : ℕ) (l : Ledger) : Type 0 where
  pub max_bytes : l.budget.max_bytes ≡ cap
  pub window : l.budget.window_seconds ≡ w
  pub tracks : Tracks cap w now l.budget.buckets l.budget.total l.charged l.forced

All-later :
    (now now' : ℕ) (h : List (ℕ × ℕ))
    → now ≤ now'
    → All (λ e. e.0 ≤ now) h
    → All (λ e. e.0 ≤ now') h
All-later now now' [] p a = tt
All-later now now' ((ts, sz) ∷ h) p a = (omega arith, All-later now now' h p a.1)

-- With no new entry a window that moves on holds no more.
spent_later :
    (w now t : ℕ) (h : List (ℕ × ℕ))
    → now ≤ t
    → All (λ e. e.0 ≤ now) h
    → spent w t h ≤ spent w now h
spent_later w now t [] p a = omega arith
spent_later w now t ((ts, sz) ∷ h) p a = ground (arith, spent_later w now t h p a.1)

pub start-IsValid : (cap w : ℕ) → IsValid cap w 0 (start cap w)
unfolding init
start-IsValid cap w = record {
  max_bytes = refl;
  window = refl;
  tracks = record {
    sum = refl;
    ascends = omega arith;
    past = tt;
    same = λ t h. refl;
    bound = λ t. omega arith;
  };
}

module _ (cap w now now' : ℕ) (bs : List (ℕ × ℕ)) (total : ℕ) (h f : List (ℕ × ℕ)) where
  -- Pruning loses nothing that a window from `now'` on could hold.
  Tracks-prune :
      (r : List (ℕ × ℕ) × ℕ)
      → now ≤ now'
      → Tracks cap w now bs total h f
      → Pruned w now' 0 bs r
      → Tracks cap w now' r.0 r.1 h f × (r.1 ≡ spent w now' h)
  Tracks-prune r later k p = (
    record {
      sum = p.total;
      ascends = p.ascends;
      past = All-later now now' h later k.past;
      same = λ t q. p.later t q ∙ k.same t (omega arith);
      bound = k.bound;
    },
    p.exact ∙ k.same now' later,
  )

module _ (cap w now : ℕ) (bs : List (ℕ × ℕ)) (total : ℕ) (h f : List (ℕ × ℕ)) (n : ℕ) where
  -- A charge that fits.
  Tracks-try :
      Tracks cap w now bs total h f
      → total ≡ spent w now h
      → total + n ≤ cap
      → Tracks cap w now (deposit now n bs) (total + n) ((now, n) ∷ h) f
  Tracks-try k exact fits = record {
    sum = omega (arith, k.sum, sum_sizes-deposit now n bs);
    ascends = deposit-Ascends 0 now n bs k.ascends;
    past = (omega arith, k.past);
    same = λ t q. ground (arith, spent-deposit w t now n bs, k.same t q);
    bound = λ t. ground (arith, k.bound t, spent_later w now t h);
  }

  -- A charge that is forced.
  Tracks-force :
      Tracks cap w now bs total h f
      → Tracks cap w now (deposit now n bs) (total + n) ((now, n) ∷ h) ((now, n) ∷ f)
  Tracks-force k = record {
    sum = omega (arith, k.sum, sum_sizes-deposit now n bs);
    ascends = deposit-Ascends 0 now n bs k.ascends;
    past = (omega arith, k.past);
    same = λ t q. ground (arith, spent-deposit w t now n bs, k.same t q);
    bound = λ t. ground (arith, k.bound t);
  }

-- A charge of no bytes changes nothing.
Tracks-zero :
    (cap w now now' : ℕ) (bs : List (ℕ × ℕ)) (total : ℕ) (h f : List (ℕ × ℕ)) (n : ℕ)
    → n ≡ 0
    → now ≤ now'
    → Tracks cap w now bs total h f
    → (g : List (ℕ × ℕ)) → ((t : ℕ) → spent w t g ≡ spent w t f)
    → Tracks cap w now' bs total ((now', n) ∷ h) g
Tracks-zero cap w now now' bs total h f n z later k g e = record {
  sum = k.sum;
  ascends = Ascends-later 0 now now' bs later k.ascends;
  past = (omega arith, All-later now now' h later k.past);
  same = λ t q. ground (arith, k.same t);
  bound = λ t. ground (arith, k.bound t, e t);
}

module _ (cap w now now' n : ℕ) (l : Ledger) (later : now ≤ now') (k : IsValid cap w now l) where
  unfoldable pub loop : List (ℕ × ℕ) × ℕ
  loop = prune_loop l.budget.window_seconds now' l.budget.buckets l.budget.total

  pub after_prune :
      Tracks cap w now' loop.0 loop.1 l.charged l.forced × (loop.1 ≡ spent w now' l.charged)
  unfolding loop
  after_prune =
      Tracks-prune cap w now now' l.budget.buckets l.budget.total l.charged l.forced loop later
        k.tracks
        (rw k.window (
          prune_loop-Pruned w now' 0 l.budget.buckets l.budget.total k.tracks.sum
            (Ascends-later 0 now now' l.budget.buckets later k.tracks.ascends)))

  pub try_refused :
      (n == 0) ≡ false
      → ltb l.budget.max_bytes (loop.1 + n) ≡ true
      → try_charge now' n l.budget ≡ (record l.budget { buckets = loop.0; total = loop.1 }, false)
  unfolding try_charge charge_pruned prune loop
  try_refused some over = rw some (rw over)

  pub try_granted :
      (n == 0) ≡ false
      → ltb l.budget.max_bytes (loop.1 + n) ≡ false
      → try_charge now' n l.budget
        ≡ (record l.budget { buckets = deposit now' n loop.0; total = loop.1 + n }, true)
  unfolding try_charge charge_pruned prune loop
  try_granted some fits = rw some (rw fits)

  pub try_nothing : (n == 0) ≡ true → try_charge now' n l.budget ≡ (l.budget, true)
  unfolding try_charge
  try_nothing none = rw none

  step_try-IsValid : IsValid cap w now' (step l (try now' n))
  unfolding step
  step_try-IsValid = elim (Bool-cases (n == 0)) [
    | inl none ↦ rw (try_nothing none) (record {
      max_bytes = k.max_bytes;
      window = k.window;
      tracks =
          Tracks-zero cap w now now' l.budget.buckets l.budget.total l.charged l.forced n
            ((==_iff n 0).0 none) later k.tracks l.forced (λ t. refl);
    })
    | inr some ↦ elim (Bool-cases (ltb l.budget.max_bytes (loop.1 + n))) [
      | inl over ↦
          rw (try_refused some over)
            (record { max_bytes = k.max_bytes; window = k.window; tracks = after_prune.0 })
      | inr fits ↦ rw (try_granted some fits) (record {
        max_bytes = k.max_bytes;
        window = k.window;
        tracks =
            Tracks-try cap w now' loop.0 loop.1 l.charged l.forced n after_prune.0 after_prune.1
              (ground (arith, k.max_bytes));
      })
    ]
  ]

  step_force-IsValid : IsValid cap w now' (step l (force now' n))
  unfolding step force_charge force_pruned prune loop
  step_force-IsValid = elim (Bool-cases (n == 0)) [
    | inl none ↦ rw none (record {
      max_bytes = k.max_bytes;
      window = k.window;
      tracks =
          Tracks-zero cap w now now' l.budget.buckets l.budget.total l.charged l.forced n
            ((==_iff n 0).0 none) later k.tracks ((now', n) ∷ l.forced)
            (λ t. ground (arith, (==_iff n 0).0 none));
    })
    | inr some ↦ rw some (record {
      max_bytes = k.max_bytes;
      window = k.window;
      tracks = Tracks-force cap w now' loop.0 loop.1 l.charged l.forced n after_prune.0;
    })
  ]

-- A run of calls on a clock that does not run backwards keeps the ledger valid.
run-IsValid :
    (cap w now : ℕ) (l : Ledger) (cs : List Call)
    → Monotone now cs
    → IsValid cap w now l
    → (last : ℕ) × IsValid cap w last (run l cs)
unfolding run
run-IsValid cap w now l [] m k = (now, k)
run-IsValid cap w now l (try t n ∷ cs) m k =
    run-IsValid cap w t (step l (try t n)) cs m.1 (step_try-IsValid cap w now t n l m.0 k)
run-IsValid cap w now l (force t n ∷ cs) m k =
    run-IsValid cap w t (step l (force t n)) cs m.1 (step_force-IsValid cap w now t n l m.0 k)

-- Whatever the calls, on a clock that does not run backwards, the bytes charged in any window of
-- `window_seconds` are at most `max_bytes` and the bytes that were forced in that window.
pub run-spent-le :
    (max_bytes window : ℕ) (cs : List Call) (t : ℕ)
    → Monotone 0 cs
    → spent window t (run (start max_bytes window) cs).charged
      ≤ max_bytes + spent window t (run (start max_bytes window) cs).forced
run-spent-le max_bytes window cs t m =
    (run-IsValid max_bytes window 0 (start max_bytes window) cs m
        (start-IsValid max_bytes window)).1.tracks.bound
      t
