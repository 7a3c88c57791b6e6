-- ===== src/Gateway/Limiter.antt =====
-- The rate limiter of the LLM gateway (internal/gateway/llm.go: rateLimiterMap): a token bucket for
-- each user. Times are nanoseconds, the rate is a whole number of requests per minute, and tokens
-- are counted in units of 1 / `minute`, which takes the place of Go's float64. The lock makes a call
-- one step.
pub mod Rate
use ussycode.Base.{
  ℕ, ◌+◌, ◌-◌, ◌*◌, Bool, true, false, Option, none, some, [], ltb, if◌then◌else◌, nat_eq, GoMap,
  lookup, insert,
}
use ussycode.Api.RateLimiter.{minute}

pub record TokenBucket : Type 0 where
  pub tokens : ℕ
  pub last_time : ℕ

pub record RateLimiterMap : Type 0 where
  pub buckets : GoMap ℕ TokenBucket
  pub rate : ℕ
  pub capacity : ℕ

-- `newRateLimiterMap`: the burst is the rate.
unfoldable pub new_rate_limiter_map : ℕ → RateLimiterMap
new_rate_limiter_map rate_per_minute = record {
  buckets = [];
  rate = rate_per_minute;
  capacity = rate_per_minute;
}

unfoldable pub refilled : RateLimiterMap → ℕ → TokenBucket → ℕ
refilled m now b =
    let full = m.capacity * minute in
    let tokens = b.tokens + (now - b.last_time) * m.rate in if ltb full tokens then full else tokens

-- The answer of `allow`, and the user's bucket after it.
unfoldable pub spend : RateLimiterMap → ℕ → Option TokenBucket → Bool × TokenBucket
unfolding refilled
spend m now none = (true, record { tokens = m.capacity * minute - minute; last_time = now })
spend m now (some b) =
    let tokens = refilled m now b in
    if ltb tokens minute
    then (false, record { tokens = tokens; last_time = now })
    else (true, record { tokens = tokens - minute; last_time = now })

unfoldable pub allow : ℕ → RateLimiterMap → ℕ → Bool × RateLimiterMap
unfolding spend
allow now m user_id =
    let (allowed, b) = spend m now (lookup user_id m.buckets) in
    (allowed, record m { buckets = insert user_id b m.buckets })
