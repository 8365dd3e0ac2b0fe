-- ===== src/RateLimiter/Bound.antt =====
-- What the limiter promises: how many responses one key gets, and how many keys it holds.
use mathlib.Core.Logic.{ite}
use honeycow.Prelude.{
  ℕ, ◌+◌, ◌-◌, ◌≤◌, ◌<◌, ◌≡◌, refl, false, not, Option, none, some, List, [], ◌∷◌, ◌++◌, arith, ltb,
  if◌then◌else◌, length, length-append, inl, inr, Bool-cases,
}
use honeycow.RateLimiter.{
  Bucket, Limiter, token, evict, is_off, get, without, refill, settle, allow,
}
use honeycow.RateLimiter.Order.{length-evict, evict_none, assign-touch}

-- What a call leaves of the tokens that it found.
abbrev paid : ℕ → ℕ
paid tokens = if ltb tokens token then tokens else tokens - token

module _ {K : Type 0} (dec : Discrete K) where
  -- The tokens that a call for the key finds.
  abbrev pub level : Limiter K → K → ℕ → ℕ
  level l k now = refill dec l now (get dec k l.buckets)

  -- A limiter that is on stores the paid bucket at the end and evicts; it answers by the tokens.
  pub allow_on :
      (l : Limiter K) (k : K) (now : ℕ)
      → is_off l ≡ false
      → allow dec l k now ≡ (
        record l {
          buckets =
              evict l.max_keys (without dec k l.buckets ++ (k, (paid (level l k now), now)) ∷ []);
        },
        not (ltb (level l k now) token),
      )
  unfolding allow settle
  allow_on l k now on = elim (Bool-cases (ltb (level l k now) token)) [
    | inl dry ↦ rw on (rw dry (rw (assign-touch dec k _ _ l.buckets refl)))
    | inr wet ↦ rw on (rw wet (rw (assign-touch dec k _ _ l.buckets refl)))
  ]

  -- Whatever the limiter held before, after a call it holds at most `max_keys` buckets.
  pub length-allow-le :
      (l : Limiter K) (k : K) (now : ℕ)
      → is_off l ≡ false
      → length (allow dec l k now).0.buckets ≤ l.max_keys
  length-allow-le l k now on = rw (allow_on l k now on) (length-evict l.max_keys _)

  -- The bucket was last updated in the past.
  abbrev pub IsPast : ℕ → Option Bucket → Type 0
  IsPast now none = Unit {0}
  IsPast now (some (tokens, updated)) = updated ≤ now

  -- The responses that key `q` is granted when the calls come, each `d` ticks behind the last.
  unfoldable pub granted : K → Limiter K → ℕ → List (ℕ × K) → ℕ
  granted q l now [] = 0
  granted q l now ((d, k) ∷ calls) =
      let (l', allowed) = allow dec l k (now + d) in
      ite (dec k q) (if allowed then 1 else 0) 0 + granted q l' (now + d) calls

  abbrev pub elapsed : List (ℕ × K) → ℕ
  elapsed [] = 0
  elapsed ((d, k) ∷ calls) = d + elapsed calls

  -- No call finds the dictionary full of other keys, so nothing is evicted.
  abbrev pub IsRoomy : Limiter K → ℕ → List (ℕ × K) → Type 0
  IsRoomy l now [] = Unit {0}
  IsRoomy l now ((d, k) ∷ calls) =
      (length (without dec k l.buckets) < l.max_keys)
      × IsRoomy (allow dec l k (now + d)).0 (now + d) calls

  module _ (l : Limiter K) (k : K) (now : ℕ) (on : is_off l ≡ false)
      (room : length (without dec k l.buckets) < l.max_keys) where
    -- With room for the key nothing is evicted.
    pub allow_roomy : allow dec l k now ≡ (
      record l { buckets = without dec k l.buckets ++ (k, (paid (level l k now), now)) ∷ [] },
      not (ltb (level l k now) token),
    )
    allow_roomy = rw (allow_on l k now on) (
        rw (
          evict_none l.max_keys (without dec k l.buckets ++ (k, (paid (level l k now), now)) ∷ []) (
            omega (
              arith,
              room,
              length-append (without dec k l.buckets) ((k, (paid (level l k now), now)) ∷ []),
            ))))
