-- ===== src/Budget.antt =====
-- squatter/budget.py: `OutboundBudget`, the byte budget over a rolling time window.
--
-- The clock is read by the caller of each method, so `now` (whole seconds, `int(self._clock())`)
-- is an argument. The deque of (second, bytes) pairs is a list, oldest pair first. Bytes, seconds
-- and limits are naturals; `ts <= now - window` is written `ts + window <= now`, which is the
-- same test on integers. `_total -= sz` stays above 0 where the total is the sum of the buckets,
-- which Budget/Buckets keeps. The lock makes each method one step.
pub mod Buckets
pub mod Window
pub mod Exact
use honeycow.Prelude.{ℕ, ◌+◌, ◌-◌, Bool, true, false, List, [], ◌∷◌, ltb, leb, ◌==◌, if◌then◌else◌}

pub record OutboundBudget : Type 0 where
  pub max_bytes : ℕ
  pub window_seconds : ℕ
  pub buckets : List (ℕ × ℕ)
  pub total : ℕ

-- `__init__`
unfoldable pub init : ℕ → ℕ → OutboundBudget
init max_bytes window_seconds = record {
  max_bytes = max_bytes;
  window_seconds = window_seconds;
  buckets = [];
  total = 0;
}

-- The `while` loop of `_prune`, over the buckets and the running total.
unfoldable pub prune_loop : ℕ → ℕ → List (ℕ × ℕ) → ℕ → List (ℕ × ℕ) × ℕ
prune_loop window now [] total = ([], total)
prune_loop window now ((ts, sz) ∷ rest) total =
    let pruned = prune_loop window now rest (total - sz) in
    if leb (ts + window) now then pruned else ((ts, sz) ∷ rest, total)

unfoldable pub prune : ℕ → OutboundBudget → OutboundBudget
prune now b =
    let (buckets, total) = prune_loop b.window_seconds now b.buckets b.total in
    record b { buckets = buckets; total = total }

-- The bytes go to the last bucket if that is of this second, and to a new one otherwise.
unfoldable pub deposit : ℕ → ℕ → List (ℕ × ℕ) → List (ℕ × ℕ)
deposit now n [] = (now, n) ∷ []
deposit now n ((ts, sz) ∷ []) = if ts == now then (ts, sz + n) ∷ [] else (ts, sz) ∷ (now, n) ∷ []
deposit now n (bucket ∷ next ∷ rest) = bucket ∷ deposit now n (next ∷ rest)

unfoldable pub remaining : ℕ → OutboundBudget → OutboundBudget × ℕ
remaining now b = let b' = prune now b in (b', b'.max_bytes - b'.total)

unfoldable pub total_used : ℕ → OutboundBudget → OutboundBudget × ℕ
total_used now b = let b' = prune now b in (b', b'.total)

-- The part of `try_charge` behind `_prune`.
unfoldable pub charge_pruned : ℕ → ℕ → OutboundBudget → OutboundBudget × Bool
charge_pruned now n b =
    if ltb b.max_bytes (b.total + n)
    then (b, false)
    else (record b { buckets = deposit now n b.buckets; total = b.total + n }, true)

unfoldable pub try_charge : ℕ → ℕ → OutboundBudget → OutboundBudget × Bool
try_charge now n b = if n == 0 then (b, true) else charge_pruned now n (prune now b)

-- The part of `force_charge` behind `_prune`.
unfoldable pub force_pruned : ℕ → ℕ → OutboundBudget → OutboundBudget
force_pruned now n b = record b { buckets = deposit now n b.buckets; total = b.total + n }

unfoldable pub force_charge : ℕ → ℕ → OutboundBudget → OutboundBudget
force_charge now n b = if n == 0 then b else force_pruned now n (prune now b)
