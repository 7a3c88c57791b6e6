-- ===== src/Api/RateLimiter.antt =====
-- The rate limiter of the API (internal/api/ratelimit.go): a token bucket for each key. Times are
-- nanoseconds; a whole number of requests per minute and units of 1 / `minute` of a token take the
-- place of Go's float64, so that every amount is exact. The lock of a bucket makes a call one step.
pub mod Retry
use ussycode.Base.{
  ℕ, zero, ◌+◌, ◌-◌, ◌*◌, ◌/◌, Bool, true, false, String, Option, none, some, List, [], ◌∷◌, ltb,
  leb, if◌then◌else◌, nat_eq, string_eq, ◌==◌, GoMap, lookup, insert, delete,
}

-- `time.Minute`, and a whole token in the units above.
abbrev pub minute : ℕ
minute = 60_000_000_000

abbrev pub millisecond : ℕ
millisecond = 1_000_000

pub record Bucket : Type 0 where
  pub tokens : ℕ
  pub max_burst : ℕ
  pub rate : ℕ
  pub last_time : ℕ

pub record RateLimiter : Type 0 where
  pub rate : ℕ
  pub burst : ℕ
  pub buckets : GoMap String Bucket
  pub cleanup : ℕ

-- `NewRateLimiter`; a number that is not positive stands for the default.
unfoldable pub new_rate_limiter : ℕ → ℕ → RateLimiter
new_rate_limiter rate_per_minute burst = record {
  rate = if rate_per_minute == 0 then 60 else rate_per_minute;
  burst = if burst == 0 then 10 else burst;
  buckets = [];
  cleanup = 10 * minute;
}

abbrev new_bucket : RateLimiter → ℕ → Bucket
new_bucket rl now = record {
  tokens = rl.burst * minute;
  max_burst = rl.burst;
  rate = rl.rate;
  last_time = now;
}

abbrev pub bucket_of : RateLimiter → ℕ → Option Bucket → Bucket
bucket_of rl now none = new_bucket rl now
bucket_of rl now (some b) = b

unfoldable pub get_bucket : RateLimiter → ℕ → String → Bucket
get_bucket rl now key = bucket_of rl now (lookup key rl.buckets)

-- The refill of `Allow`, up to the burst.
unfoldable pub refill : Bucket → ℕ → ℕ
refill b now =
    let full = b.max_burst * minute in
    let tokens = b.tokens + (now - b.last_time) * b.rate in if ltb full tokens then full else tokens

-- The rest of `Allow` on the bucket it found or made.
unfoldable pub take_token : Bucket → ℕ → Bool × Bucket
unfolding refill
take_token b now =
    let tokens = refill b now in
    if leb minute tokens
    then (true, record b { tokens = tokens - minute; last_time = now })
    else (false, record b { tokens = tokens; last_time = now })

unfoldable pub allow : ℕ → RateLimiter → String → Bool × RateLimiter
unfolding take_token get_bucket
allow now rl key =
    let (allowed, b) = take_token (get_bucket rl now key) now in
    (allowed, record rl { buckets = insert key b rl.buckets })

-- `RetryAfter`, in whole milliseconds; a bucket that it makes is kept.
unfoldable pub wait_for : Bucket → ℕ
wait_for b = if leb minute b.tokens then 0 else (minute - b.tokens) / b.rate / millisecond

unfoldable pub retry_after : ℕ → RateLimiter → String → ℕ × RateLimiter
unfolding wait_for get_bucket
retry_after now rl key =
    let b = get_bucket rl now key in (wait_for b, record rl { buckets = insert key b rl.buckets })

-- One round of the loop over the buckets: `Range` hands over the value that the key has then.
abbrev pub stale : RateLimiter → ℕ → Option Bucket → Bool
stale rl now none = false
stale rl now (some b) = ltb (2 * rl.cleanup) (now - b.last_time)

unfoldable pub clean_key : ℕ → RateLimiter → String → RateLimiter
clean_key now rl key =
    if stale rl now (lookup key rl.buckets)
    then record rl { buckets = delete key rl.buckets }
    else rl

unfoldable pub keys : GoMap String Bucket → List String
keys [] = []
keys ((key, b) ∷ rest) = key ∷ keys rest

unfoldable pub clean_each : ℕ → RateLimiter → List String → RateLimiter
clean_each now rl [] = rl
clean_each now rl (key ∷ rest) = clean_each now (clean_key now rl key) rest

-- One tick of `cleanupLoop`.
unfoldable pub clean : ℕ → RateLimiter → RateLimiter
clean now rl = clean_each now rl (keys rl.buckets)
