-- ===== src/Usage/Authorize/Tests.antt =====
-- Requests on the tables of Usage/Authorize/Fixtures.
use hivepoint_backend.Common.{◌+◌, ◌≤◌, ◌≡◌, ◌⊎◌, ◌↔◌, refl, true}
use hivepoint_backend.Errors.{Result, ok, throw}
use hivepoint_backend.Usage.Days.{full_days_start, is_utc_day_boundary}
use hivepoint_backend.Usage.Aggregation.{
  sum_usage_for_window, sum_raw_usage, sum_daily_aggregate_usage, record_usage_in_transaction,
}
use hivepoint_backend.Usage.Windows.{get_usage_window, get_rate_limit_window_start}
use hivepoint_backend.Usage.Overage.{get_overage_state}
use hivepoint_backend.Usage.Store.{Db}
use hivepoint_backend.Usage.Authorize.{
  Request, Decision, AuthorizeResponse, decided, preview, consume, find_subscription_plan,
  used_rate_limit_requests, authorize_request, authorize_usage_with_consumption,
}
use hivepoint_backend.Usage.Authorize.Charges.{
  IsRefused, IsCharged, authorize_usage_with_consumption_cases,
}
use hivepoint_backend.Usage.Authorize.Agreement.{
  authorize_request-agrees, authorize_request_allowed_iff,
}
use hivepoint_backend.Usage.Authorize.Fixtures.{
  client, config, plan, subscription, db, usage-IsAggregated,
}

abbrev request : Request
request = record {
  api_key_id = 1;
  user_id = 2;
  product_id = 3;
  endpoint = "/a";
  request_count = 2;
  occurred_at = 400000;
}

-- The answer to the request, without consumption and with it.
abbrev previewed : Decision
previewed =
    preview config client db request subscription plan (record { gte = 1000; lt = 864000000 })

authorize_request_allowed_iff_example :
    (previewed.allowed ≡ true) ↔ ((previewed.plan.allow_overage ≡ true) ⊎ (8 + 2 ≤ 10)) × (2 ≤ 4)
unfolding authorize_request find_subscription_plan get_usage_window preview sum_usage_for_window
    sum_raw_usage sum_daily_aggregate_usage full_days_start is_utc_day_boundary
    used_rate_limit_requests get_rate_limit_window_start get_overage_state
authorize_request_allowed_iff_example =
    authorize_request_allowed_iff config client 500000 db request previewed db usage-IsAggregated
      refl

abbrev answer : AuthorizeResponse → Decision
answer (decided d) = d
answer _ = previewed

-- The first value of a result that is there, and a default otherwise.
abbrev value_or : AuthorizeResponse × Db → Result (AuthorizeResponse × Db) → AuthorizeResponse × Db
value_or d (ok r) = r
value_or d (throw e) = d

abbrev consumed : AuthorizeResponse × Db
consumed =
    value_or (decided previewed, db)
      (authorize_usage_with_consumption config client 500000 db request)

authorize_usage_with_consumption_cases_example :
    IsRefused db consumed.1 (answer consumed.0)
    ⊎ IsCharged db consumed.1 request (answer consumed.0)
unfolding authorize_usage_with_consumption find_subscription_plan get_usage_window consume
    sum_usage_for_window sum_raw_usage sum_daily_aggregate_usage full_days_start is_utc_day_boundary
    used_rate_limit_requests get_rate_limit_window_start get_overage_state
    record_usage_in_transaction
authorize_usage_with_consumption_cases_example =
    authorize_usage_with_consumption_cases config client 500000 db request (answer consumed.0)
      consumed.1 usage-IsAggregated refl

authorize_request-agrees_example :
    (db ≡ db)
    × ((d' : Decision) × (db' : Db) × (authorize_request config client 500000 db true request
          ≡ ok (decided d', db'))
        × (d'.allowed ≡ previewed.allowed))
unfolding authorize_request find_subscription_plan get_usage_window preview sum_usage_for_window
    sum_raw_usage sum_daily_aggregate_usage full_days_start is_utc_day_boundary
    used_rate_limit_requests get_rate_limit_window_start get_overage_state
authorize_request-agrees_example =
    authorize_request-agrees config client 500000 db request previewed db refl

-- The request takes the last two of the quota, and is recorded.
consumed_last : (answer consumed.0).used_requests ≡ 10
unfolding authorize_usage_with_consumption find_subscription_plan get_usage_window consume
    sum_usage_for_window sum_raw_usage sum_daily_aggregate_usage full_days_start is_utc_day_boundary
    used_rate_limit_requests get_rate_limit_window_start get_overage_state
    record_usage_in_transaction
consumed_last = refl
