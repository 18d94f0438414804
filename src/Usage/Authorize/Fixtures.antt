-- ===== src/Usage/Authorize/Fixtures.antt =====
-- One subscription with 8 of its 10 requests used, three of them in the last minute.
use hivepoint_backend.Common.{refl, true, false, none, some, [], ◌∷◌}
use hivepoint_backend.Prisma.Lists.{list_delegate}
use hivepoint_backend.Schema.{
  ProductStatus, Plan, PlanPeriod, Subscription, SubscriptionStatus, BillingProvider, UsageTables,
  clash_product, clash_plan, clash_api_key, clash_subscription, clash_usage_record, clash_daily,
  clash_endpoint_daily,
}
use hivepoint_backend.Usage.Aggregation.Invariant.{IsAggregated}
use hivepoint_backend.Usage.Store.{Db, Client, Config}

abbrev pub client : Client
client = record {
  api_product = list_delegate clash_product;
  api_key = list_delegate clash_api_key;
  subscription = list_delegate clash_subscription;
  plan = list_delegate clash_plan;
  usage = record {
    usage_record = list_delegate clash_usage_record;
    usage_daily_aggregate = list_delegate clash_daily;
    usage_endpoint_daily_aggregate = list_delegate clash_endpoint_daily;
  };
}

abbrev pub config : Config
config = record {
  usage_ingest_secret = "secret";
  api_key_salt = "salt";
  usage_ingest_queue_enabled = false;
  sha256 = λ s. s;
}

abbrev pub plan : Plan
plan = record {
  id = 5;
  product_id = 3;
  name = "basic";
  price_cents = 900;
  currency = "EUR";
  period = PlanPeriod.month;
  quota_requests = 10;
  rate_limit_rpm = some 4;
  allow_overage = false;
  overage_unit_requests = none;
  overage_price_cents = none;
  is_active = true;
}

abbrev pub subscription : Subscription
subscription = record {
  id = 7;
  user_id = 2;
  plan_id = 5;
  payment_provider = BillingProvider.mock;
  external_subscription_id = none;
  status = SubscriptionStatus.active;
  current_period_start = some 1000;
  current_period_end = some 864000000;
  grace_period_ends_at = none;
  cancel_at_period_end = false;
  created_at = 0;
}

abbrev pub usage : UsageTables
usage = record {
  records =
      record {
        subscription_id = 7;
        source_job_id = none;
        aggregated_at = some 180000;
        occurred_at = 180000;
        endpoint = "/a";
        request_count = 8;
      }
      ∷ [];
  daily = record { subscription_id = 7; bucket_date = 0; request_count = 8 } ∷ [];
  endpoint_daily =
      record { subscription_id = 7; bucket_date = 0; endpoint = "/a"; request_count = 8 } ∷ [];
}

abbrev pub db : Db
db = record {
  products =
      record {
        id = 3;
        owner_id = 1;
        title = "maps";
        description = "maps of towns";
        category = "geo";
        tags = [];
        status = ProductStatus.published;
      }
      ∷ [];
  plans = plan ∷ [];
  subscriptions = subscription ∷ [];
  api_keys = [];
  usage = usage;
}

pub usage-IsAggregated : IsAggregated usage
usage-IsAggregated = record { days = λ sub p. refl; endpoint_days = λ sub e p. refl }
