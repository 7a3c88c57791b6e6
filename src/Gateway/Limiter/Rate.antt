-- ===== src/Gateway/Limiter/Rate.antt =====
-- How many requests the limiter of the LLM gateway lets through, and when
-- (internal/gateway/llm.go: allow).
use ussycode.Base.{
  ℕ, suc, ◌+◌, ◌-◌, ◌*◌, ◌≤◌, ◌≡◌, ◌≢◌, refl, sym, ◌∙◌, ap, true, ◌&&◌, Option, none, some, List,
  [], ◌∷◌, if◌then◌else◌, nat_eq, ◌==◌, lookup, arith, Bool-cases, inl, inr, beq_iff,
  lookup-insert_self, lookup-insert_ne,
}
use native.Mathlib.Nat.{mul-le-mul_right, add-mul}
use ussycode.Api.RateLimiter.{minute}
use ussycode.Gateway.Limiter.{TokenBucket, RateLimiterMap, refilled, spend, allow}

-- A request: its time, and its user.
abbrev pub Ask : Type 0
Ask = ℕ × ℕ

-- The limiter after the requests.
unfoldable pub run : RateLimiterMap → List Ask → RateLimiterMap
run m [] = m
run m ((now, user) ∷ asks) = run (allow now m user).1 asks

-- How many requests of a user are let through.
unfoldable pub admitted : ℕ → RateLimiterMap → List Ask → ℕ
admitted user m [] = 0
admitted user m ((now, asker) ∷ asks) =
    let rest = admitted user (allow now m asker).1 asks in
    if asker == user && (allow now m asker).0 then suc rest else rest

-- The requests come one after the other, from `start` until `end`.
abbrev pub Between : ℕ → ℕ → List Ask → Type 0
Between start end [] = start ≤ end
Between start end ((now, user) ∷ asks) = (start ≤ now) × Between now end asks

-- What a user may still spend at once.
abbrev credit : RateLimiterMap → ℕ → Option TokenBucket → ℕ
credit m now none = m.capacity * minute
credit m now (some b) = refilled m now b

module _ (m : RateLimiterMap) (now : ℕ) where
  credit-le : (o : Option TokenBucket) → credit m now o ≤ m.capacity * minute
  unfolding refilled
  credit-le none = omega arith
  credit-le (some b) = ground arith

  spent :
      (o : Option TokenBucket)
      → 1 ≤ m.capacity
      → (if (spend m now o).0 then minute else 0) + (spend m now o).1.tokens ≤ credit m now o
  unfolding spend
  spent none h = omega arith
  spent (some b) h = ground arith

  spend-last_time : (o : Option TokenBucket) → (spend m now o).1.last_time ≡ now
  unfolding spend
  spend-last_time none = refl
  spend-last_time (some b) = ground arith

elapsed_mul :
    (t now later rate : ℕ)
    → now ≤ later
    → (later - t) * rate ≤ (now - t) * rate + (later - now) * rate
elapsed_mul t now later rate h = omega (
  arith,
  add-mul (now - t) (later - now) rate,
  mul-le-mul_right {m = later - t} {n = now - t + (later - now)} rate (omega arith),
)

credit-grows :
    (m : RateLimiterMap) (now later : ℕ) (o : Option TokenBucket)
    → now ≤ later
    → credit m later o ≤ credit m now o + (later - now) * m.rate
unfolding refilled
credit-grows m now later none h = omega arith
credit-grows m now later (some b) h = ground (arith, elapsed_mul b.last_time now later m.rate)

split_mul :
    (start now end rate : ℕ)
    → start ≤ now
    → now ≤ end
    → (now - start) * rate + (end - now) * rate ≡ (end - start) * rate
split_mul start now end rate h k =
    sym (add-mul (now - start) (end - now) rate) ∙ ap (λ (n : ℕ). n * rate) (omega arith)

start-le-end : (start end : ℕ) (asks : List Ask) → Between start end asks → start ≤ end
start-le-end start end [] h = h
start-le-end start end ((now, user) ∷ asks) h = omega (arith, h.0, start-le-end now end asks h.1)

-- The bucket of the user who asks, and of another.
module _ (now : ℕ) (m : RateLimiterMap) (asker user : ℕ) where
  allow-bucket :
      asker ≡ user
      → lookup user (allow now m asker).1.buckets ≡ some (spend m now (lookup user m.buckets)).1
  unfolding allow
  allow-bucket e = rw e (lookup-insert_self user _ m.buckets)

  allow-other : asker ≢ user → lookup user (allow now m asker).1.buckets ≡ lookup user m.buckets
  unfolding allow
  allow-other h = lookup-insert_ne asker user _ m.buckets h

  allow-answer : asker ≡ user → (allow now m asker).0 ≡ (spend m now (lookup user m.buckets)).0
  unfolding allow
  allow-answer e = rw e refl

  allow-capacity : (allow now m asker).1.capacity ≡ m.capacity
  unfolding allow
  allow-capacity = refl

  allow-rate : (allow now m asker).1.rate ≡ m.rate
  unfolding allow
  allow-rate = refl

refilled-at_once :
    (m : RateLimiterMap) (now : ℕ) (b : TokenBucket)
    → b.last_time ≡ now
    → refilled m now b ≤ b.tokens
unfolding refilled
refilled-at_once m now b h =
    let at_once : now - b.last_time ≡ 0 = omega arith in
    ground (arith, ap (λ (t : ℕ). t * m.rate) at_once)

-- What a user has after asking, with what was let through, is no more than before.
left_over :
    (m : RateLimiterMap) (now asker user : ℕ)
    → asker ≡ user
    → 1 ≤ m.capacity
    → (if (allow now m asker).0 then minute else 0)
        + credit (allow now m asker).1 now (lookup user (allow now m asker).1.buckets)
      ≤ credit m now (lookup user m.buckets)
left_over m now asker user e h =
    rw (allow-answer now m asker user e, allow-bucket now m asker user e)
      (omega (
        arith,
        spent m now (lookup user m.buckets) h,
        refilled-at_once (allow now m asker).1 now (spend m now (lookup user m.buckets)).1
            (spend-last_time m now (lookup user m.buckets)),
      ))

credit-allow :
    (m : RateLimiterMap) (now asker : ℕ) (o : Option TokenBucket)
    → credit (allow now m asker).1 now o ≡ credit m now o
unfolding allow refilled
credit-allow m now asker none = refl
credit-allow m now asker (some b) = refl

kept :
    (m : RateLimiterMap) (now asker user : ℕ)
    → asker ≢ user
    → credit (allow now m asker).1 now (lookup user (allow now m asker).1.buckets)
      ≡ credit m now (lookup user m.buckets)
kept m now asker user h =
    rw (allow-other now m asker user h) (credit-allow m now asker (lookup user m.buckets))

credited :
    (user start end : ℕ) (m : RateLimiterMap) (asks : List Ask)
    → 1 ≤ m.capacity
    → Between start end asks
    → admitted user m asks * minute
      ≤ credit m start (lookup user m.buckets) + (end - start) * m.rate
unfolding admitted
credited user start end m [] h k = omega arith
credited user start end m ((now, asker) ∷ asks) h k =
    let later =
      credited user now end (allow now m asker).1 asks (rw (allow-capacity now m asker user) h)
        k.1 in
    let later' = rw (allow-rate now m asker user) at later in
    let span = split_mul start now end m.rate k.0 (start-le-end now end asks k.1) in
    let grows = credit-grows m start now (lookup user m.buckets) k.0 in
    elim (Bool-cases (asker == user)) [
      | inl same ↦
          let spent = left_over m now asker user ((beq_iff asker user).0 same) h in
          elim (Bool-cases (allow now m asker).0) [
            | inl passed ↦
                rw (same, passed) (omega (arith, later', span, grows, rw passed at spent))
            | inr refused ↦
                rw (same, refused) (omega (arith, later', span, grows, rw refused at spent))
          ]
      | inr other ↦
          let still = kept m now asker user (λ e. absurd (cc ((beq_iff asker user).1 e))) in
          rw other (omega (arith, later', span, grows, still))
    ]

-- From any state of the limiter on, the requests of a user that it lets through within a span of
-- time are at most its capacity and what its rate gives in that span, whoever else asks in between.
pub admitted_bound :
    (user start end : ℕ) (m : RateLimiterMap) (asks : List Ask)
    → 1 ≤ m.capacity
    → Between start end asks
    → admitted user m asks * minute ≤ m.capacity * minute + (end - start) * m.rate
admitted_bound user start end m asks h k =
    omega (arith, credited user start end m asks h k, credit-le m start (lookup user m.buckets))

-- No request of a user.
abbrev pub Without : ℕ → List Ask → Type 0
Without user [] = Unit
Without user ((now, asker) ∷ asks) = (asker ≢ user) × Without user asks

run-other :
    (user : ℕ) (m : RateLimiterMap) (asks : List Ask)
    → Without user asks
    → (lookup user (run m asks).buckets ≡ lookup user m.buckets)
      × ((run m asks).capacity ≡ m.capacity)
      × ((run m asks).rate ≡ m.rate)
unfolding run
run-other user m [] h = (refl, refl, refl)
run-other user m ((now, asker) ∷ asks) h =
    let rest = run-other user (allow now m asker).1 asks h.1 in
    (
      rest.0 ∙ allow-other now m asker user h.0,
      rest.1 ∙ allow-capacity now m asker user,
      rest.2 ∙ allow-rate now m asker user,
    )

spend-waited :
    (m : RateLimiterMap) (later : ℕ) (b : TokenBucket)
    → 1 ≤ m.capacity
    → minute ≤ (later - b.last_time) * m.rate
    → (spend m later (some b)).0 ≡ true
unfolding spend
spend-waited m later b h k = ground arith

-- A user who waits, after any request, until the rate has given one token is let through at the next
-- one, whoever else asks in between.
pub allowed_again :
    (user now later : ℕ) (m : RateLimiterMap) (asks : List Ask)
    → 1 ≤ m.capacity
    → Without user asks
    → minute ≤ (later - now) * m.rate
    → (allow later (run (allow now m user).1 asks) user).0 ≡ true
allowed_again user now later m asks h others waited =
    let after = (allow now m user).1 in
    let b = (spend m now (lookup user m.buckets)).1 in
    let same = run-other user after asks others in
    let found = same.0 ∙ allow-bucket now m user user refl in
    let rate = same.2 ∙ allow-rate now m user user in
    let size = same.1 ∙ allow-capacity now m user user in
    allow-answer later (run after asks) user user refl
    ∙ rw found (
        spend-waited (run after asks) later b (rw size h)
          (rw (rate, spend-last_time m now (lookup user m.buckets)) waited))
