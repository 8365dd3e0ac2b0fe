-- ===== src/Tests/Limits.antt =====
-- The budget and the rate limiter at concrete inputs.
use honeycow.Prelude.{
  ℕ, ◌+◌, ◌-◌, ◌≤◌, ◌≡◌, ◌||◌, refl, true, List, [], ◌∷◌, arith, leb, ◌==◌, length, ℕ_discrete,
}
use honeycow.Budget
use honeycow.Budget.Buckets.{spent}
use honeycow.Budget.Exact.{try_charge-exact}
use honeycow.Budget.Window.{Call, try, force, start, run, step, start-IsValid, run-spent-le}
use honeycow.RateLimiter
use honeycow.RateLimiter.{Limiter}
use honeycow.RateLimiter.Bound.{granted, length-allow-le}

program : Unit {0}
unfolding Budget.init Budget.prune_loop Budget.prune Budget.deposit Budget.charge_pruned
    Budget.try_charge Budget.force_pruned Budget.force_charge Budget.remaining step run
    RateLimiter.evict RateLimiter.is_off RateLimiter.get RateLimiter.without RateLimiter.move_to_end
    RateLimiter.assign RateLimiter.refill RateLimiter.touch RateLimiter.settle RateLimiter.allow
    granted ℕ_discrete
program = tt

abbrev charges : List Call
charges = try 0 60 ∷ try 1 50 ∷ try 5 40 ∷ force 5 30 ∷ try 61 30 ∷ []

-- Of 100 bytes in 60 seconds, the second charge is refused and the last one fits again.
run-charges : (run (start 100 60) charges).charged ≡ (61, 30) ∷ (5, 30) ∷ (5, 40) ∷ (0, 60) ∷ []
unfolding program
run-charges = refl

run-spent-le_example :
    spent 60 40 (run (start 100 60) charges).charged
    ≤ 100 + spent 60 40 (run (start 100 60) charges).forced
run-spent-le_example = run-spent-le 100 60 charges 40 (omega arith)

try_charge-exact_example :
    ((Budget.try_charge 5 40 (start 100 60).budget).1
      ≡ ((40 == 0) || leb (spent 60 5 (start 100 60).charged + 40) 100))
    × ((Budget.remaining 5 (start 100 60).budget).1 ≡ 100 - spent 60 5 (start 100 60).charged)
    × ((Budget.total_used 5 (start 100 60).budget).1 ≡ spent 60 5 (start 100 60).charged)
try_charge-exact_example =
    try_charge-exact 100 60 0 5 (start 100 60) (omega arith) (start-IsValid 100 60) 40

-- 20 tokens per second, two at once, two keys.
abbrev limiter : Limiter ℕ
limiter = record { rate = 20_000; burst = 2; enabled = true; max_keys = 2; buckets = [] }

-- Calls of key 7 at 0 ms, 0 ms, 0 ms and 50 ms, and one of key 8 between.
abbrev calls : List (ℕ × ℕ)
calls = (0, 7) ∷ (0, 7) ∷ (0, 8) ∷ (0, 7) ∷ (50_000_000, 7) ∷ []

granted_run : granted ℕ_discrete 7 limiter 0 calls ≡ 3
unfolding program
granted_run = refl

length-allow-le_example :
    length (RateLimiter.allow ℕ_discrete limiter 9 0).0.buckets ≤ limiter.max_keys
unfolding program
length-allow-le_example = length-allow-le ℕ_discrete limiter 9 0 refl
