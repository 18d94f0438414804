-- ===== src/Gateway/Burst/Rate.antt =====
-- The rate that the limiter enforces over any sequence of calls for one key.
use hivepoint_backend.Common.{ℕ, ◌+◌, ◌≤◌, String, Option, List, [], ◌∷◌, if◌then◌else◌}
use hivepoint_backend.Prisma.{Delegate}
use hivepoint_backend.Errors.{Failure, Result, ok, throw}
use hivepoint_backend.Schema.{GatewayBurstBucket, clash_bucket}
use hivepoint_backend.Gateway.Burst.{BurstConfig, BurstDecision, check_and_consume}

-- A call at a date, with the faults that the database has in store for it.
pub record Call : Type 0 where
  pub now : ℕ
  pub request_count : ℕ
  pub faults : ℕ → Option Failure

-- The requests that a call let through, and the table after it; a call that throws lets none
-- through and writes nothing.
abbrev granted :
    ℕ
    → List GatewayBurstBucket
    → Result (BurstDecision × List GatewayBurstBucket)
    → ℕ × List GatewayBurstBucket
granted n rows (ok (d, after)) = (if d.allowed then n else 0, after)
granted n rows (throw e) = (0, rows)

-- The dates of the calls never go back, from `t` on.
abbrev pub IsChronological : ℕ → List Call → Type 0
IsChronological t [] = Unit
IsChronological t (x ∷ xs) = (t ≤ x.now) × IsChronological x.now xs

-- The date of the last call.
abbrev pub last_date : ℕ → List Call → ℕ
last_date t [] = t
last_date t (x ∷ xs) = last_date x.now xs

module _ (c : BurstConfig) (client : Delegate clash_bucket) (key : String) (rpm : Option ℕ) where
  call : List GatewayBurstBucket → Call → ℕ × List GatewayBurstBucket
  call rows x =
      granted x.request_count rows
        (check_and_consume c client x.faults key x.request_count rpm x.now rows)

  -- The requests that a sequence of calls lets through.
  pub total_granted : List GatewayBurstBucket → List Call → ℕ
  unfolding call
  total_granted rows [] = 0
  total_granted rows (x ∷ xs) = (call rows x).0 + total_granted (call rows x).1 xs
