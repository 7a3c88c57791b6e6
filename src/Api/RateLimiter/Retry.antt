-- ===== src/Api/RateLimiter/Retry.antt =====
-- What `RetryAfter` promises to a client that was refused (internal/api/ratelimit.go).
use native.Mathlib.Nat.{mul-le-mul_right, add-mul, div-mul-le_self, lt-div-mul-add}
use ussycode.Base.{
  ℕ, ◌+◌, ◌-◌, ◌*◌, ◌/◌, ◌≤◌, ◌<◌, ◌≡◌, refl, ◌∙◌, ap, true, false, some, String, leb, string_eq,
  lookup, insert, arith, lookup-insert_self,
}
use ussycode.Api.RateLimiter.{
  minute, millisecond, Bucket, RateLimiter, get_bucket, refill, take_token, allow, wait_for,
  retry_after,
}

module _ (needed rate waited : ℕ) (h : 1 ≤ rate) where
  enough : (needed / rate / millisecond + 1) * millisecond ≤ waited → needed ≤ waited * rate
  enough k =
      let quotient = needed / rate in
      let past : quotient + 1 ≤ waited = omega arith in
      omega (
        arith,
        lt-div-mul-add {a = needed} {b = rate} h,
        mul-le-mul_right {m = quotient + 1} {n = waited} rate past,
        add-mul quotient 1 rate,
      )

  too_little : waited < needed / rate / millisecond * millisecond → waited * rate < needed
  too_little k =
      let quotient = needed / rate in
      let short : waited + 1 ≤ quotient = omega arith in
      omega (
        arith,
        div-mul-le_self needed rate,
        mul-le-mul_right {m = waited + 1} {n = quotient} rate short,
        add-mul waited 1 rate,
      )

get_bucket-insert :
    (rl : RateLimiter) (later : ℕ) (key : String) (b : Bucket)
    → get_bucket (record rl { buckets = insert key b rl.buckets }) later key ≡ b
unfolding get_bucket
get_bucket-insert rl later key b = rw (lookup-insert_self key b rl.buckets) refl

allow-answer :
    (now : ℕ) (rl : RateLimiter) (key : String)
    → (allow now rl key).0 ≡ (take_token (get_bucket rl now key) now).0
unfolding allow
allow-answer now rl key = refl

module _ (now later : ℕ) (rl : RateLimiter) (key : String) where
  -- The bucket after a request, and after `RetryAfter` too.
  abbrev asked : Bucket
  asked = (take_token (get_bucket rl now key) now).1

  allow-lookup : lookup key (allow now rl key).1.buckets ≡ some asked
  unfolding allow
  allow-lookup = lookup-insert_self key asked rl.buckets

  kept_bucket : get_bucket (allow now rl key).1 now key ≡ asked
  unfolding get_bucket
  kept_bucket = rw allow-lookup refl

  wait : (retry_after now (allow now rl key).1 key).0 ≡ wait_for asked
  unfolding retry_after
  wait = ap wait_for kept_bucket

  retry_after-lookup : get_bucket (retry_after now (allow now rl key).1 key).1 later key ≡ asked
  unfolding retry_after
  retry_after-lookup =
      get_bucket-insert (allow now rl key).1 later key (get_bucket (allow now rl key).1 now key)
      ∙ kept_bucket

  asked-refused : (allow now rl key).0 ≡ false → (asked.tokens < minute) × (asked.last_time ≡ now)
  unfolding allow take_token
  asked-refused h = ground arith

  asked-settings :
      (asked.rate ≡ (get_bucket rl now key).rate)
      × (asked.max_burst ≡ (get_bucket rl now key).max_burst)
  unfolding take_token
  asked-settings = ground arith

  later-answer :
      (allow later (retry_after now (allow now rl key).1 key).1 key).0 ≡ (take_token asked later).0
  later-answer =
      allow-answer later (retry_after now (allow now rl key).1 key).1 key
      ∙ ap (λ b. (take_token b later).0) retry_after-lookup

take_token-answer :
    (b : Bucket) (later : ℕ)
    → 1 ≤ b.max_burst
    → (take_token b later).0 ≡ leb minute (b.tokens + (later - b.last_time) * b.rate)
unfolding take_token refill
take_token-answer b later h = ground arith

wait_for-short :
    (b : Bucket) → b.tokens < minute → wait_for b ≡ (minute - b.tokens) / b.rate / millisecond
unfolding wait_for
wait_for-short b h = ground arith

waited_bucket :
    (b : Bucket) (now later : ℕ)
    → 1 ≤ b.rate
    → 1 ≤ b.max_burst
    → (b.tokens < minute) × (b.last_time ≡ now)
    → ((wait_for b + 1) * millisecond ≤ later - now → (take_token b later).0 ≡ true)
      × (later - now < wait_for b * millisecond → (take_token b later).0 ≡ false)
waited_bucket b now later rate burst refused =
    let needed = minute - b.tokens in
    rw (take_token-answer b later burst, wait_for-short b refused.0, refused.1)
      (
        (λ k. let got = enough needed b.rate (later - now) rate k in ground arith),
        (λ k. let got = too_little needed b.rate (later - now) rate k in ground arith),
      )

-- The wait that `RetryAfter` states for a key that was just refused, and the limiter after it.
abbrev pub after_refusal : ℕ → RateLimiter → String → ℕ × RateLimiter
after_refusal now rl key = retry_after now (allow now rl key).1 key

-- After a refusal, a client that asks again before the wait that `RetryAfter` states is refused, and
-- one that waits a millisecond more than it states is let through, where it asks nothing in between,
-- and its bucket refills and can hold a token.
pub retry_after_exact :
    (now early later : ℕ) (rl : RateLimiter) (key : String)
    → 1 ≤ (get_bucket rl now key).rate
    → 1 ≤ (get_bucket rl now key).max_burst
    → (allow now rl key).0 ≡ false
    → early - now < (after_refusal now rl key).0 * millisecond
    → ((after_refusal now rl key).0 + 1) * millisecond ≤ later - now
    → ((allow early (after_refusal now rl key).1 key).0 ≡ false)
      × ((allow later (after_refusal now rl key).1 key).0 ≡ true)
retry_after_exact now early later rl key rate burst refused soon late =
    let b = asked now later rl key in
    let settings = asked-settings now later rl key in
    let rate' : 1 ≤ b.rate = rw settings.0 rate in
    let burst' : 1 ≤ b.max_burst = rw settings.1 burst in
    let held = asked-refused now later rl key refused in
    rw (later-answer now early rl key, later-answer now later rl key)
      (
        (waited_bucket b now early rate' burst' held).1 (rw (wait now early rl key) at soon),
        (waited_bucket b now later rate' burst' held).0 (rw (wait now later rl key) at late),
      )
