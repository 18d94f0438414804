-- ===== src/Usage/Ingest/Tests.antt =====
-- A queue with one job that waits, and a worker that holds the lease until 70 seconds.
use hivepoint_backend.Common.{
  ℕ, ◌+◌, ◌≤◌, if◌then◌else◌, ◌≡◌, refl, true, false, none, some, List, [], ◌∷◌, length, take, find,
  suc, zero, arith,
}
use hivepoint_backend.Prisma.{p2034}
use hivepoint_backend.Prisma.Lists.{list_delegate}
use hivepoint_backend.Errors.{Failure, prisma_error, ok, throw}
use hivepoint_backend.Schema.{
  UsageIngestJob, UsageIngestJobStatus, BackgroundJobLease, clash_usage_record, clash_daily,
  clash_endpoint_daily, clash_job, clash_lease,
}
use hivepoint_backend.Usage.Aggregation.Invariant.{IsAggregated}
use hivepoint_backend.Usage.Aggregation.{new_record, raw_in}
use hivepoint_backend.Usage.Aggregation.Windows.{window_usage}
use hivepoint_backend.Lease.{take_lease}
use hivepoint_backend.Usage.Ingest.{
  Db, Client, Config, job_with_id, job_record, try_acquire_lease, process_job, drain_queue,
  get_lease_duration_milliseconds,
}
use hivepoint_backend.Usage.Ingest.Lease.{try_acquire_lease_excludes}
use hivepoint_backend.Usage.Ingest.Jobs.{
  process_job_aborted, process_job_twice, drain_queue-IsAggregated,
}

abbrev client : Client
client = record {
  usage = record {
    usage_record = list_delegate clash_usage_record;
    usage_daily_aggregate = list_delegate clash_daily;
    usage_endpoint_daily_aggregate = list_delegate clash_endpoint_daily;
  };
  usage_ingest_job = list_delegate clash_job;
  background_job_lease = list_delegate clash_lease;
  find_many_jobs = λ w o n rows. take n rows;
}

length-take : (n : ℕ) (rows : List UsageIngestJob) → length (take n rows) ≤ n
length-take zero rows = omega arith
length-take (suc n) [] = omega arith
length-take (suc n) (x ∷ rows) = omega (arith, length-take n rows)

abbrev config : Config
config = record {
  usage_ingest_queue_enabled = true;
  usage_ingest_queue_interval_seconds = 10;
  usage_ingest_queue_batch_size = 5;
  describe_error = λ e. "Unknown usage ingest error";
}

abbrev job : UsageIngestJob
job = record {
  id = 1;
  subscription_id = 7;
  occurred_at = 5000;
  endpoint = "/a";
  request_count = 3;
  status = UsageIngestJobStatus.pending;
  attempts = 0;
  available_at = 5000;
  processed_at = none;
  last_error = none;
  created_at = 5000;
}

abbrev lease : BackgroundJobLease
lease = record { name = "usage:ingest-queue"; owner_id = 1; expires_at = 70000 }

abbrev db : Db
db = record {
  usage = record { records = []; daily = []; endpoint_daily = [] };
  jobs = job ∷ [];
  leases = lease ∷ [];
}

empty-IsAggregated : IsAggregated db.usage
empty-IsAggregated = record { days = λ sub p. refl; endpoint_days = λ sub e p. refl }

abbrev aborted : Failure
aborted = prisma_error p2034

process_job_aborted_example :
    (j' : UsageIngestJob) × ((process_job config client 6000 (some aborted) db job).0
      ≡ throw aborted)
    × ((process_job config client 6000 (some aborted) db job).1.usage ≡ db.usage)
    × (find (job_with_id 1) (process_job config client 6000 (some aborted) db job).1.jobs ≡ some j')
    × (j'.status ≡ UsageIngestJobStatus.failed)
    × (j'.attempts ≡ 1)
    × (36000 ≤ j'.available_at)
    × (j'.available_at ≤ 306000)
process_job_aborted_example = process_job_aborted config client 6000 aborted db job job refl

process_job_twice_example :
    let first = process_job config client 6000 none db job in
    let rerun = process_job config client 9000 none first.1 job in
    (first.0 ≡ ok tt)
    × ((j' : UsageIngestJob) × (find (job_with_id 1) first.1.jobs ≡ some j')
        × (j'.status ≡ UsageIngestJobStatus.processed))
    × (first.1.usage.records
        ≡ record {
          subscription_id = 7;
          source_job_id = some 1;
          aggregated_at = some 6000;
          occurred_at = 5000;
          endpoint = "/a";
          request_count = 3;
        }
          ∷ [])
    × ((sub gte lt : ℕ)
        → window_usage first.1.usage sub gte lt
          ≡ (if raw_in sub gte lt (new_record 6000 (job_record job)) then 3 else 0)
            + window_usage db.usage sub gte lt)
    × (rerun.0 ≡ ok tt)
    × (rerun.1.usage ≡ first.1.usage)
process_job_twice_example = process_job_twice config client 6000 9000 db job job refl refl

drain_queue-IsAggregated_example :
    IsAggregated (drain_queue config client 6000 1 (λ id. none) db).2.usage
    × ((drain_queue config client 6000 1 (λ id. none) db).0
          + (drain_queue config client 6000 1 (λ id. none) db).1
        ≤ 5)
drain_queue-IsAggregated_example =
    drain_queue-IsAggregated config client 6000 1 (λ id. none) db (λ w o n rows. length-take n rows)
      empty-IsAggregated

try_acquire_lease_excludes_example :
    ((try_acquire_lease config client 7000 2 (try_acquire_lease config client 6000 1 []).1).0
      ≡ false)
    × ((try_acquire_lease config client 7000 1 (try_acquire_lease config client 6000 1 []).1).0
        ≡ true)
unfolding try_acquire_lease take_lease get_lease_duration_milliseconds
try_acquire_lease_excludes_example =
    try_acquire_lease_excludes config client 6000 7000 1 2 [] refl (omega arith)
      (λ e. ground (arith, e))
