-- ===== src/Gateway/Burst/Refills.antt =====
-- What a refill adds to a bucket, in exact arithmetic and in doubles.
use hivepoint_backend.Common.{
  ℕ, ◌+◌, ◌-◌, ◌*◌, ◌≤◌, ◌≡◌, inl, inr, ap, ◌∙◌, Option, none, some, min, leb, arith, Bool-cases,
}
use native.Mathlib.Nat.{add-mul, mul-le-mul_right}
use hivepoint_backend.Schema.{GatewayBurstBucket}
use hivepoint_backend.Gateway.Burst.{BurstConfig, double, filled, refill_tokens}
use hivepoint_backend.Gateway.Burst.Buckets.{balance}

-- The bucket was not filled after `t`.
abbrev pub IsDatedBefore : ℕ → Option GatewayBurstBucket → Type 0
IsDatedBefore t none = Unit
IsDatedBefore t (some b) = b.last_refill_at ≤ t

pub dated_later :
    (t now : ℕ) (o : Option GatewayBurstBucket) → t ≤ now → IsDatedBefore t o → IsDatedBefore now o
dated_later t now none h d = tt
dated_later t now (some b) h d = omega arith

-- The refills of two stretches of time add up.
pub refill_add : (p q r m : ℕ) → p ≤ q → q ≤ r → (r - p) * m ≡ (q - p) * m + (r - q) * m
refill_add p q r m h k =
    let whole : r - p ≡ (q - p) + (r - q) = omega arith in
    ap (λ (t : ℕ). t * m) whole ∙ add-mul (q - p) (r - q) m

-- The rounding of doubles, for a burst limit: up to the limit, the tokens after a refill and after a
-- request are at most what exact arithmetic gives and an error of `e`, counted in parts of a token
-- of which it has `one * (1000 * window_seconds)`.
pub record HasError (c : BurstConfig) (burst_limit e : ℕ) : Type 0 where
  pub refilled :
      (tokens elapsed : ℕ)
      → tokens * (1000 * c.window_seconds) + elapsed * double c burst_limit
        ≤ double c burst_limit * (1000 * c.window_seconds)
      → filled c tokens elapsed burst_limit * (1000 * c.window_seconds)
        ≤ tokens * (1000 * c.window_seconds) + elapsed * double c burst_limit + e
  pub taken :
      (tokens n : ℕ)
      → double c n ≤ tokens
      → tokens ≤ double c burst_limit
      → c.doubles.minus tokens (double c n) * (1000 * c.window_seconds)
          + double c n * (1000 * c.window_seconds)
        ≤ tokens * (1000 * c.window_seconds) + e

pub double_add :
    (c : BurstConfig) (n m k : ℕ) → double c (n + m) * k ≡ double c n * k + double c m * k
double_add c n m k =
    ap (λ (x : ℕ). x * k) (add-mul n m c.doubles.one) ∙ add-mul (double c n) (double c m) k

module _ (c : BurstConfig) (burst_limit : ℕ) where
  -- The parts of a token that a bucket has at a date, in exact arithmetic.
  unfoldable pub potential : ℕ → Option GatewayBurstBucket → ℕ
  potential now none = double c burst_limit * (1000 * c.window_seconds)
  potential now (some b) =
      min (double c burst_limit * (1000 * c.window_seconds))
        (b.tokens * (1000 * c.window_seconds) + (now - b.last_refill_at) * double c burst_limit)

  pub potential-le :
      (now : ℕ) (o : Option GatewayBurstBucket)
      → potential now o ≤ double c burst_limit * (1000 * c.window_seconds)
  unfolding potential
  potential-le now none = omega arith
  potential-le now (some b) = omega arith

  -- Between two dates a bucket gains at most the refill of the time between.
  pub potential_grows :
      (t now : ℕ) (o : Option GatewayBurstBucket)
      → t ≤ now
      → IsDatedBefore t o
      → potential now o ≤ potential t o + (now - t) * double c burst_limit
  unfolding potential
  potential_grows t now none h k = omega arith
  potential_grows t now (some b) h k =
      omega (arith, refill_add b.last_refill_at t now (double c burst_limit) k h)

  pub balance-full :
      (now : ℕ) (o : Option GatewayBurstBucket) → balance c burst_limit now o ≤ double c burst_limit
  unfolding refill_tokens
  balance-full now none = omega arith
  balance-full now (some b) = omega arith

  module _ (e : ℕ) (rounding : HasError c burst_limit e) where
    refill_tokens-le :
        (tokens last now : ℕ)
        → refill_tokens c tokens last now burst_limit * (1000 * c.window_seconds)
          ≤ potential now (some (record { key = ""; tokens = tokens; last_refill_at = last })) + e
    unfolding refill_tokens potential
    refill_tokens-le tokens last now =
        let k = 1000 * c.window_seconds in
        let full = double c burst_limit in
        let reached = filled c tokens (now - last) burst_limit in
        let capped : min full reached * k ≤ full * k = mul-le-mul_right k (omega arith) in
        let below : min full reached * k ≤ reached * k = mul-le-mul_right k (omega arith) in
        elim (Bool-cases (leb (tokens * k + (now - last) * full) (full * k))) [
          | inl fits ↦
              let room : tokens * k + (now - last) * full ≤ full * k = ground (arith, fits) in
              omega (arith, below, room, rounding.refilled tokens (now - last) room)
          | inr over ↦
              let beyond : full * k ≤ tokens * k + (now - last) * full = ground (arith, over) in
              omega (arith, capped, beyond)
        ]

    pub balance-le :
        (now : ℕ) (o : Option GatewayBurstBucket)
        → balance c burst_limit now o * (1000 * c.window_seconds) ≤ potential now o + e
    unfolding potential
    balance-le now none = omega (arith, refill_tokens-le (double c burst_limit) now now)
    balance-le now (some b) = refill_tokens-le b.tokens b.last_refill_at now
