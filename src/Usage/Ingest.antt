-- ===== src/Usage/Ingest.antt =====
-- src/modules/usage/usage-ingest-worker.service.ts: the queue of usage records, its lease and its
-- retries.
pub mod Lease
mod Processed
pub mod Jobs
mod Tests
use hivepoint_backend.Common.{
  ℕ, ◌+◌, ◌*◌, String, Bool, true, false, Option, none, some, List, [], ◌∷◌, ◌&&◌, ◌||◌, ◌==◌, not,
  ltb, leb, str_eq, min, max, if◌then◌else◌,
}
use hivepoint_backend.Errors.{Failure, Result, ok, throw}
use hivepoint_backend.Prisma.{Delegate, OrderBy, asc}
use hivepoint_backend.Schema.{
  UsageTables, UsageIngestJob, UsageIngestJobStatus, BackgroundJobLease, clash_job, clash_lease,
}
use hivepoint_backend.Lease.{take_lease}
use hivepoint_backend.Usage.Aggregation.{
  UsageClient, UsageRecordWriteInput, record_usage_in_transaction,
}

pub record Db : Type 0 where
  pub usage : UsageTables
  pub jobs : List UsageIngestJob
  pub leases : List BackgroundJobLease

-- `find_many_jobs` is `usageIngestJob.findMany`, with the test, the order and the most rows that it
-- takes.
pub record Client : Type 0 where
  pub usage : UsageClient
  pub usage_ingest_job : Delegate clash_job
  pub background_job_lease : Delegate clash_lease
  pub find_many_jobs :
      (UsageIngestJob → Bool)
      → List (OrderBy UsageIngestJob)
      → ℕ
      → List UsageIngestJob
      → List UsageIngestJob

-- The settings USAGE_INGEST_QUEUE_*; `describe_error` is the message that is kept of an error.
pub record Config : Type 0 where
  pub usage_ingest_queue_enabled : Bool
  pub usage_ingest_queue_interval_seconds : ℕ
  pub usage_ingest_queue_batch_size : ℕ
  pub describe_error : Failure → String

abbrev pub lease_name : String
lease_name = "usage:ingest-queue"

abbrev pub max_retry_delay_seconds : ℕ
max_retry_delay_seconds = 300

abbrev pub min_retry_delay_seconds : ℕ
min_retry_delay_seconds = 30

unfoldable pub get_lease_duration_milliseconds : Config → ℕ
get_lease_duration_milliseconds config =
    max (config.usage_ingest_queue_interval_seconds * 2) 60 * 1000

unfoldable pub get_retry_delay_milliseconds : ℕ → ℕ
get_retry_delay_milliseconds attempts =
    min max_retry_delay_seconds (max min_retry_delay_seconds (attempts * min_retry_delay_seconds))
    * 1000

abbrev pub job_with_id : ℕ → UsageIngestJob → Bool
job_with_id id j = j.id == id

abbrev pub is_processed : UsageIngestJobStatus → Bool
is_processed s = elim s [ UsageIngestJobStatus.processed ↦ true | _ ↦ false ]

-- `{status: {in: [PENDING, FAILED]}, availableAt: {lte: now}}`
abbrev pub is_due : ℕ → UsageIngestJob → Bool
is_due now j = not (is_processed j.status) && leb j.available_at now

abbrev pub job_record : UsageIngestJob → UsageRecordWriteInput
job_record job = record {
  subscription_id = job.subscription_id;
  occurred_at = job.occurred_at;
  endpoint = job.endpoint;
  request_count = job.request_count;
  source_job_id = some job.id;
}

abbrev pub processed_job : ℕ → UsageIngestJob → UsageIngestJob
processed_job now j = record j {
  status = UsageIngestJobStatus.processed;
  processed_at = some now;
  last_error = none;
}

module _ (config : Config) (client : Client) where
  unfoldable pub try_acquire_lease :
      ℕ → ℕ → List BackgroundJobLease → Bool × List BackgroundJobLease
  try_acquire_lease now owner leases =
      take_lease client.background_job_lease lease_name (get_lease_duration_milliseconds config) now
        owner leases

  unfoldable pub mark_job_processed : ℕ → Db → ℕ → Db
  mark_job_processed now db id = record db {
    jobs = client.usage_ingest_job.update (job_with_id id) (processed_job now) db.jobs;
  }

  unfoldable pub mark_job_failed : ℕ → Db → ℕ → ℕ → Failure → Db
  mark_job_failed now db id attempts e = record db {
    jobs =
        client.usage_ingest_job.update (job_with_id id)
          (λ j. record j {
            status = UsageIngestJobStatus.failed;
            attempts = attempts;
            available_at = now + get_retry_delay_milliseconds attempts;
            last_error = some (config.describe_error e);
          })
          db.jobs;
  }

  -- `fault` is the error with which the database aborts the transaction, if it does; a source job
  -- that has its record already is refused by the record's unique column.
  unfoldable pub process_job : ℕ → Option Failure → Db → UsageIngestJob → Result (Unit {0}) × Db
  process_job now fault db job = elim fault [
    | some e ↦ (throw e, mark_job_failed now db job.id (job.attempts + 1) e)
    | none ↦ elim (record_usage_in_transaction client.usage now db.usage (job_record job)) [
      | none ↦ (ok tt, mark_job_processed now db job.id)
      | some usage ↦ (ok tt, mark_job_processed now (record db { usage = usage }) job.id)
    ]
  ]

  -- The loop: the jobs that were processed, the ones that failed, and the tables.
  unfoldable pub process_jobs : ℕ → (ℕ → Option Failure) → Db → List UsageIngestJob → ℕ × ℕ × Db
  process_jobs now faults db [] = (0, 0, db)
  process_jobs now faults db (job ∷ jobs) =
      let (answer, after) = process_job now (faults job.id) db job in
      let (processed, failed, last) = process_jobs now faults after jobs in
      elim answer [ ok _ ↦ (processed + 1, failed, last) | throw e ↦ (processed, failed + 1, last) ]

  unfoldable pub drain_queue : ℕ → ℕ → (ℕ → Option Failure) → Db → ℕ × ℕ × Db
  drain_queue now owner faults db =
      if not config.usage_ingest_queue_enabled
      then (0, 0, db)
      else (let (acquired, leases) = try_acquire_lease now owner db.leases in
          let jobs =
            client.find_many_jobs (is_due now)
              (asc (λ j. some j.available_at) ∷ asc (λ j. some j.created_at) ∷ [])
              config.usage_ingest_queue_batch_size db.jobs in
          if not acquired
          then (0, 0, db)
          else process_jobs now faults (record db { leases = leases }) jobs)
