-- ===== src/RateLimiter.antt =====
-- `TokenBucketRateLimiter` of honey_ns.py, over keys with a decidable equality; the UDP listener
-- takes the pair of source address and response kind.
--
-- The source counts tokens in floats and reads `time.monotonic()`. Here a time is a number of
-- nanoseconds, a token is `token` = 10^12 units, and `rate` is in thousandths of a token per
-- second, so that a refill of `rate` units per nanosecond is exact; rounding is not modelled.
-- The OrderedDict is a list of entries, the least recently used first.
pub mod Order
pub mod Bound
use mathlib.Core.Logic.{ite}
use honeycow.Prelude.{
  ℕ, ◌+◌, ◌-◌, ◌*◌, ◌^◌, min, Bool, true, false, not, ◌||◌, Option, none, some, List, [], ◌∷◌, ◌++◌,
  ltb, ◌==◌, if◌then◌else◌, length,
}

abbrev pub token : ℕ
token = 10 ^ 12

-- Tokens in units, and the time of the last update.
abbrev pub Bucket : Type 0
Bucket = ℕ × ℕ

pub record Limiter (K : Type 0) : Type 0 where
  pub rate : ℕ
  pub burst : ℕ
  pub enabled : Bool
  pub max_keys : ℕ
  pub buckets : List (K × Bucket)

-- `_evict_if_needed`: `popitem(last=False)` while the dict holds too many keys.
unfoldable pub evict {ℓ} : {E : Type ℓ} → ℕ → List E → List E
evict max_keys [] = []
evict max_keys (e ∷ rest) =
    if ltb max_keys (length (e ∷ rest)) then evict max_keys rest else e ∷ rest

-- The guard of `allow`: the limiter is off.
unfoldable pub is_off : {K : Type 0} → Limiter K → Bool
is_off l = not l.enabled || l.rate == 0 || l.burst == 0

module _ {K : Type 0} (dec : Discrete K) where
  -- `self._buckets.get(key)`
  unfoldable pub get : K → List (K × Bucket) → Option Bucket
  get k [] = none
  get k ((j, v) ∷ rest) = ite (dec j k) (some v) (get k rest)

  unfoldable pub without : K → List (K × Bucket) → List (K × Bucket)
  without k [] = []
  without k ((j, v) ∷ rest) = let r = without k rest in ite (dec j k) r ((j, v) ∷ r)

  -- `self._buckets.move_to_end(key)` for the value that stands at the key
  unfoldable pub move_to_end : K → Bucket → List (K × Bucket) → List (K × Bucket)
  move_to_end k v l = without k l ++ (k, v) ∷ []

  -- `self._buckets[key] = v`: in place for a key that is there, at the end for a new one
  unfoldable pub assign : K → Bucket → List (K × Bucket) → List (K × Bucket)
  assign k v [] = (k, v) ∷ []
  assign k v ((j, u) ∷ rest) = let r = assign k v rest in ite (dec j k) ((k, v) ∷ rest) ((j, u) ∷ r)

  -- The tokens of a bucket at `now`: `min(float(self.burst), tokens + (now - updated) * self.rate)`.
  unfoldable pub refill : Limiter K → ℕ → Option Bucket → ℕ
  refill l now none = min (l.burst * token) (l.burst * token + (now - now) * l.rate)
  refill l now (some (tokens, updated)) = min (l.burst * token) (tokens + (now - updated) * l.rate)

  unfoldable pub touch : K → Option Bucket → List (K × Bucket) → List (K × Bucket)
  touch k none l = l
  touch k (some v) l = move_to_end k v l

  -- Both ends of `allow`: store the bucket, evict, answer.
  unfoldable pub settle : Limiter K → K → ℕ → ℕ → List (K × Bucket) → Limiter K × Bool
  settle l k now tokens buckets =
      if ltb tokens token
      then (record l { buckets = evict l.max_keys (assign k (tokens, now) buckets) }, false)
      else (record l { buckets = evict l.max_keys (assign k (tokens - token, now) buckets) }, true)

  unfoldable pub allow : Limiter K → K → ℕ → Limiter K × Bool
  allow l k now =
      let existing = get k l.buckets in
      if is_off l
      then (l, true)
      else settle l k now (refill l now existing) (touch k existing l.buckets)
