-- ===== src/Gateway/Burst.antt =====
-- src/modules/gateway/gateway-burst-limiter.service.ts: a token bucket for each key. The service
-- computes with doubles; their operations are a parameter.
pub mod Buckets
pub mod Refills
pub mod Rate
pub mod Fixtures
mod Tests
use hivepoint_backend.Common.{
  ℕ, zero, suc, ◌+◌, ◌-◌, ◌*◌, ◌/◌, String, Bool, true, false, Option, none, some, List, ◌==◌,
  str_eq, ltb, leb, min, max, not, ◌||◌, ◌&&◌, or_else, if◌then◌else◌,
}
use hivepoint_backend.Prisma.{PrismaError, p2002, p2034, other_error, Delegate}
use hivepoint_backend.Errors.{Failure, prisma_error, Result, ok, throw}
use hivepoint_backend.Schema.{GatewayBurstBucket, clash_bucket}
use hivepoint_backend.Usage.Overage.{ceil_div}

-- The platform's arithmetic on doubles that are not negative. Each of them is a whole number of the
-- smallest one, of which the double 1 has `one`.
pub record Doubles : Type 0 where
  pub one : ℕ
  pub plus : ℕ → ℕ → ℕ
  pub minus : ℕ → ℕ → ℕ
  pub times : ℕ → ℕ → ℕ
  pub divided : ℕ → ℕ → ℕ

-- The settings GATEWAY_BURST_*, with the platform's arithmetic; the multiplier is a double.
pub record BurstConfig : Type 0 where
  pub doubles : Doubles
  pub enabled : Bool
  pub window_seconds : ℕ
  pub multiplier : ℕ
  pub min_requests : ℕ
  pub max_requests : ℕ

-- The double of a whole number.
abbrev pub double : BurstConfig → ℕ → ℕ
double c n = n * c.doubles.one

-- `Math.ceil`
abbrev pub ceil : BurstConfig → ℕ → ℕ
ceil c x = ceil_div x c.doubles.one

-- `GatewayBurstLimitDecision`
pub record BurstDecision : Type 0 where
  pub allowed : Bool
  pub burst_limit : Option ℕ
  pub remaining_burst_requests : Option ℕ
  pub burst_window_seconds : Option ℕ
  pub retry_after_seconds : Option ℕ

-- MAX_TRANSACTION_RETRIES
abbrev pub max_transaction_retries : ℕ
max_transaction_retries = 3

-- `refillRatePerSecond`
abbrev pub refill_rate_per_second : BurstConfig → ℕ → ℕ
refill_rate_per_second c burst_limit =
    c.doubles.divided (double c burst_limit) (double c c.window_seconds)

unfoldable pub resolve_burst_limit : BurstConfig → Option ℕ → Option ℕ
resolve_burst_limit c none = none
resolve_burst_limit c (some rpm) =
    if not c.enabled || rpm == 0
    then none
    else some (
        min c.max_requests (
          max c.min_requests (
            ceil c (
              c.doubles.divided
                (c.doubles.times (c.doubles.times (double c rpm) (double c c.window_seconds))
                  c.multiplier)
                (double c 60)))))

-- `tokens + (elapsedMilliseconds / 1000) * refillRatePerSecond`
abbrev pub filled : BurstConfig → ℕ → ℕ → ℕ → ℕ
filled c tokens elapsed_milliseconds burst_limit = c.doubles.plus tokens (
    c.doubles.times (c.doubles.divided (double c elapsed_milliseconds) (double c 1000))
      (refill_rate_per_second c burst_limit))

-- The minimum of this and the burst limit.
unfoldable pub refill_tokens : BurstConfig → ℕ → ℕ → ℕ → ℕ → ℕ
refill_tokens c tokens last_refill_at now burst_limit =
    let elapsed_milliseconds = now - last_refill_at in
    min (double c burst_limit) (filled c tokens elapsed_milliseconds burst_limit)

abbrev pub has_key : String → GatewayBurstBucket → Bool
has_key key b = str_eq b.key key

-- `Math.max(1, Math.ceil((requestCount - refilledTokens) / refillRatePerSecond))`
abbrev pub retry_after : BurstConfig → ℕ → ℕ → ℕ → ℕ
retry_after c burst_limit request_count refilled = max 1 (
    ceil c (
      c.doubles.divided (c.doubles.minus (double c request_count) refilled)
        (refill_rate_per_second c burst_limit)))

abbrev pub set_bucket : ℕ → ℕ → GatewayBurstBucket → GatewayBurstBucket
set_bucket tokens now b = record b { tokens = tokens; last_refill_at = now }

module _ (c : BurstConfig) (client : Delegate clash_bucket) where
  -- The row of the key, created full where there is none; a P2002 of the creation is ignored. The
  -- two attempts are `fuel`, and the last resort is a bucket that is not in the table.
  unfoldable pub lock_bucket_row :
      ℕ → String → ℕ → ℕ → List GatewayBurstBucket → GatewayBurstBucket × List GatewayBurstBucket
  lock_bucket_row zero key burst_limit now rows =
      (record { key = key; tokens = double c burst_limit; last_refill_at = now }, rows)
  lock_bucket_row (suc fuel) key burst_limit now rows =
      let fresh : GatewayBurstBucket = record {
        key = key;
        tokens = double c burst_limit;
        last_refill_at = now;
      } in
      let present : List GatewayBurstBucket = elim (client.find_unique (has_key key) rows) [
        | some existing ↦ rows
        | none ↦ elim (client.create fresh rows) [ none ↦ rows | some created ↦ created ]
      ] in
      elim (client.find_unique (has_key key) present) [
        | some locked ↦ (locked, present)
        | none ↦ lock_bucket_row fuel key burst_limit now present
      ]

  -- The body of the transaction.
  unfoldable pub transact :
      String → ℕ → ℕ → ℕ → List GatewayBurstBucket → BurstDecision × List GatewayBurstBucket
  transact key request_count burst_limit now rows =
      let (bucket, locked) = lock_bucket_row 2 key burst_limit now rows in
      let refilled = refill_tokens c bucket.tokens bucket.last_refill_at now burst_limit in
      if ltb refilled (double c request_count)
      then (
        record {
          allowed = false;
          burst_limit = some burst_limit;
          remaining_burst_requests = some (refilled / c.doubles.one);
          burst_window_seconds = some c.window_seconds;
          retry_after_seconds = some (retry_after c burst_limit request_count refilled);
        },
        client.update (has_key key) (set_bucket refilled now) locked,
      )
      else (let remaining = c.doubles.minus refilled (double c request_count) in
          (
            record {
              allowed = true;
              burst_limit = some burst_limit;
              remaining_burst_requests = some (remaining / c.doubles.one);
              burst_window_seconds = some c.window_seconds;
              retry_after_seconds = none;
            },
            client.update (has_key key) (set_bucket remaining now) locked,
          ))

  abbrev pub is_retryable : Failure → Bool
  is_retryable (prisma_error p2034) = true
  is_retryable _ = false

  -- The attempts from `attempt` on. `faults` says which of them the database aborts, and how; an
  -- aborted transaction writes nothing. What stands last is the return behind the loop.
  unfoldable pub run_attempts :
      (ℕ → Option Failure)
      → ℕ
      → ℕ
      → String
      → ℕ
      → ℕ
      → ℕ
      → List GatewayBurstBucket
      → Result (BurstDecision × List GatewayBurstBucket)
  run_attempts faults zero attempt key request_count burst_limit now rows = ok (
    record {
      allowed = false;
      burst_limit = some burst_limit;
      remaining_burst_requests = some 0;
      burst_window_seconds = some c.window_seconds;
      retry_after_seconds = some 1;
    },
    rows,
  )
  run_attempts faults (suc fuel) attempt key request_count burst_limit now rows =
      let next = run_attempts faults fuel (attempt + 1) key request_count burst_limit now rows in
      elim (faults attempt) [
        | none ↦ ok (transact key request_count burst_limit now rows)
        | some e ↦
            if is_retryable e && ltb attempt (max_transaction_retries - 1) then next else throw e
      ]

  unfoldable pub check_and_consume :
      (ℕ → Option Failure)
      → String
      → ℕ
      → Option ℕ
      → ℕ
      → List GatewayBurstBucket
      → Result (BurstDecision × List GatewayBurstBucket)
  check_and_consume faults key request_count rate_limit_rpm now rows =
      let burst_limit = or_else (resolve_burst_limit c rate_limit_rpm) 0 in
      if burst_limit == 0
      then ok (
        record {
          allowed = true;
          burst_limit = none;
          remaining_burst_requests = none;
          burst_window_seconds = none;
          retry_after_seconds = none;
        },
        rows,
      )
      else if ltb burst_limit request_count
      then ok (
        record {
          allowed = false;
          burst_limit = some burst_limit;
          remaining_burst_requests = some burst_limit;
          burst_window_seconds = some c.window_seconds;
          retry_after_seconds = none;
        },
        rows,
      )
      else run_attempts faults max_transaction_retries 0 key request_count burst_limit now rows
