-- ===== src/Usage/Recording/Tests.antt =====
-- Three requests that are reported for a running subscription, and queued as job 1.
use hivepoint_backend.Common.{◌≡◌, refl, true, false, none, some, List, [], ◌∷◌}
use hivepoint_backend.Prisma.Lists.{list_delegate}
use hivepoint_backend.Errors.{Result, ok, throw}
use hivepoint_backend.Schema.{
  SubscriptionStatus, BillingProvider, UsageIngestJob, clash_product, clash_plan, clash_api_key,
  clash_subscription, clash_usage_record, clash_daily, clash_endpoint_daily, clash_job, clash_lease,
}
use hivepoint_backend.Usage.Windows.{get_usage_window}
use hivepoint_backend.Usage.Store.{Db, Client, Config, RecordUsageInput}
use hivepoint_backend.Usage.Authorize.{assert_usage_secret}
use hivepoint_backend.Usage.Ingest as Ingest
use hivepoint_backend.Usage.Ingest.{process_job}
use hivepoint_backend.Usage.Recording.{
  ingest_usage, enqueue_usage_record, validate_usage_record_input,
}
use hivepoint_backend.Usage.Recording.Deferred.{IsSameUsage, worker_db, ingest_usage_deferred}

abbrev worker : Ingest.Client
worker = record {
  usage = record {
    usage_record = list_delegate clash_usage_record;
    usage_daily_aggregate = list_delegate clash_daily;
    usage_endpoint_daily_aggregate = list_delegate clash_endpoint_daily;
  };
  usage_ingest_job = list_delegate clash_job;
  background_job_lease = list_delegate clash_lease;
  find_many_jobs = λ w o n rows. rows;
}

abbrev client : Client
client = record {
  api_product = list_delegate clash_product;
  api_key = list_delegate clash_api_key;
  subscription = list_delegate clash_subscription;
  plan = list_delegate clash_plan;
  usage = worker.usage;
}

abbrev worker_config : Ingest.Config
worker_config = record {
  usage_ingest_queue_enabled = true;
  usage_ingest_queue_interval_seconds = 10;
  usage_ingest_queue_batch_size = 5;
  describe_error = λ e. "Unknown usage ingest error";
}

abbrev queue_on : Config
queue_on = record {
  usage_ingest_secret = "secret";
  api_key_salt = "salt";
  usage_ingest_queue_enabled = true;
  sha256 = λ s. s;
}

abbrev db : Db
db = record {
  products = [];
  plans = [];
  subscriptions =
      record {
        id = 7;
        user_id = 2;
        plan_id = 5;
        payment_provider = BillingProvider.mock;
        external_subscription_id = none;
        status = SubscriptionStatus.active;
        current_period_start = some 1000;
        current_period_end = some 864000000;
        grace_period_ends_at = none;
        cancel_at_period_end = false;
        created_at = 0;
      }
      ∷ [];
  api_keys = [];
  usage = record { records = []; daily = []; endpoint_daily = [] };
}

abbrev report : RecordUsageInput
report = record { subscription_id = 7; endpoint = "/a"; request_count = 3; occurred_at = some 5000 }

abbrev queued_of : Result (Db × List UsageIngestJob) → List UsageIngestJob
queued_of (ok (_, jobs)) = jobs
queued_of (throw e) = []

abbrev queued : List UsageIngestJob
queued =
    queued_of
      (ingest_usage queue_on client worker.usage_ingest_job 6000 1 db [] report (some "secret"))

ingest_usage_deferred_example :
    (job : UsageIngestJob) × (direct : Db) × (queued ≡ job ∷ [])
    × (db ≡ db)
    × (ingest_usage
          (record queue_on { usage_ingest_queue_enabled = false })
          client
          worker.usage_ingest_job
          6000
          1
          db
          []
          report
          (some "secret")
        ≡ ok (direct, []))
    × IsSameUsage
        (process_job worker_config worker 90000000 none (worker_db db queued []) job).1.usage
        direct.usage
unfolding ingest_usage assert_usage_secret enqueue_usage_record validate_usage_record_input
    get_usage_window
ingest_usage_deferred_example =
    ingest_usage_deferred queue_on client worker_config worker refl 6000 90000000 1 db db [] queued
      [] report (some "secret") refl refl
