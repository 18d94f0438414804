-- ===== src/Usage/Authorize.antt =====
-- `authorizeUsageInternal` and `authorizeUsageWithConsumption` of src/modules/usage/usage.service.ts.
pub mod Charges
pub mod Agreement
pub mod Consumption
pub mod Fixtures
mod Tests
use hivepoint_backend.Common.{
  ℕ, ◌+◌, ◌-◌, String, Bool, true, false, Option, none, some, List, [], ◌∷◌, ◌&&◌, ◌==◌, str_eq,
  ltb, leb, not, is_some, is_truthy, or_else, ◌||◌, if◌then◌else◌,
}
use Prim.Native.String.{◌++◌}
use hivepoint_backend.Prisma.{OrderBy, asc, desc, p2002}
use hivepoint_backend.Errors.{
  Result, ok, throw, app_error, prisma_error, product_not_found, usage_ingest_forbidden, throw_if,
  ◌>>=◌, ◌>>◌,
}
use hivepoint_backend.Schema.{ApiProduct, Plan, Subscription, ApiKey, UsageRecord, UsageTables}
use hivepoint_backend.Usage.Aggregation.{
  UsageRecordWriteInput, sum_usage_for_window, record_usage_in_transaction,
}
use hivepoint_backend.Usage.Windows.{UsageWindow, get_usage_window, get_rate_limit_window_start}
use hivepoint_backend.Usage.Overage.{OverageState, get_overage_state}
use hivepoint_backend.Usage.Store.{
  Db, Client, Config, AuthorizeUsageInput, is_usable_at, plan_of, is_for_product,
}

pub data Reason : Type 0 where
  quota_exceeded rate_limit_exceeded : Reason

-- The answer about a subscription that was found, with its usage; `reason` is absent where the
-- request is allowed. The overage fields are those of `toAuthorizeOverageState`.
pub record Decision : Type 0 where
  pub allowed : Bool
  pub reason : Option Reason
  pub api_key_id : ℕ
  pub subscription_id : ℕ
  pub user_id : ℕ
  pub period_start : ℕ
  pub period_end : ℕ
  pub used_requests : ℕ
  pub requested_requests : ℕ
  pub quota_requests : ℕ
  pub remaining_requests : ℕ
  pub rate_limit_rpm : Option ℕ
  pub remaining_rate_limit_requests : Option ℕ
  pub overage_enabled : Bool
  pub overage_unit_requests : Option ℕ
  pub overage_price_cents : Option ℕ
  pub projected_overage_requests : ℕ
  pub projected_overage_amount_cents : ℕ
  pub usage_recorded : Bool
  pub plan : Plan

-- `AuthorizeUsageResponseDto`: the answers INVALID_API_KEY and NO_ACTIVE_SUBSCRIPTION know less.
pub data AuthorizeResponse : Type 0 where
  invalid_api_key : ℕ → ℕ → AuthorizeResponse
  no_active_subscription : ℕ → ℕ → ℕ → AuthorizeResponse
  decided : Decision → AuthorizeResponse

-- `{subscriptionId, occurredAt: {gte, lte}}`
abbrev pub raw_upto : ℕ → ℕ → ℕ → UsageRecord → Bool
raw_upto subscription_id gte lte r =
    r.subscription_id == subscription_id && (leb gte r.occurred_at && leb r.occurred_at lte)

-- `orderBy` of the subscription query
subscription_order : List (OrderBy Subscription)
subscription_order =
    desc (λ s. s.grace_period_ends_at)
    ∷ desc (λ s. s.current_period_end)
    ∷ desc (λ s. some s.created_at)
    ∷ []

-- What both transactions know of the request.
pub record Request : Type 0 where
  pub api_key_id : ℕ
  pub user_id : ℕ
  pub product_id : ℕ
  pub endpoint : String
  pub request_count : ℕ
  pub occurred_at : ℕ

-- The object that every answer about a subscription spells out.
decision :
    Request
    → Subscription
    → Plan
    → UsageWindow
    → Bool
    → Option Reason
    → ℕ
    → Option ℕ
    → OverageState
    → Bool
    → Decision
decision q s plan w allowed reason used remaining_rate overage recorded = record {
  allowed = allowed;
  reason = reason;
  api_key_id = q.api_key_id;
  subscription_id = s.id;
  user_id = s.user_id;
  period_start = w.gte;
  period_end = w.lt;
  used_requests = used;
  requested_requests = q.request_count;
  quota_requests = plan.quota_requests;
  remaining_requests = plan.quota_requests - used;
  rate_limit_rpm = plan.rate_limit_rpm;
  remaining_rate_limit_requests = remaining_rate;
  overage_enabled = overage.overage_enabled;
  overage_unit_requests = overage.overage_unit_requests;
  overage_price_cents = overage.overage_price_cents;
  projected_overage_requests = overage.overage_requests;
  projected_overage_amount_cents = overage.projected_overage_amount_cents;
  usage_recorded = recorded;
  plan = plan;
}

module _ (config : Config) (client : Client) where
  -- The usage that the rate limit counts: the last minute, from the period's start on.
  unfoldable pub used_rate_limit_requests : Db → ℕ → ℕ → ℕ → ℕ
  used_rate_limit_requests db subscription_id occurred_at period_start =
      or_else
        (client.usage.usage_record.sum
          (raw_upto subscription_id (get_rate_limit_window_start occurred_at period_start)
            occurred_at)
          (λ r. r.request_count) db.usage.records)
        0

  -- The subscription query of both paths, with the plan that it selects.
  find_subscription : Db → ℕ → ℕ → ℕ → Option Subscription
  unfolding subscription_order
  find_subscription db user_id product_id occurred_at =
      client.subscription.find_first
        (λ s.
          s.user_id == user_id
          && (is_for_product (plan_of db.plans s) product_id && is_usable_at occurred_at s))
        subscription_order db.subscriptions

  -- The answer without consumption, for a subscription with its plan and window.
  unfoldable pub preview : Db → Request → Subscription → Plan → UsageWindow → Decision
  unfolding decision
  preview db q s plan w =
      let used = sum_usage_for_window client.usage db.usage s.id w.gte w.lt in
      let next = used + q.request_count in
      let current = get_overage_state plan used in
      let projected = get_overage_state plan next in
      if not plan.allow_overage && ltb plan.quota_requests next
      then decision q s plan w false (some quota_exceeded) used none current false
      else elim plan.rate_limit_rpm [
        | none ↦ decision q s plan w true none used none projected false
        | some rpm ↦
            let used_rate = used_rate_limit_requests db s.id q.occurred_at w.gte in
            if ltb rpm (used_rate + q.request_count)
            then decision q s plan w false (some rate_limit_exceeded) used (some (rpm - used_rate))
                current false
            else decision q s plan w true none used (some (rpm - used_rate)) projected false
      ]

  -- The write of a request that is allowed, and the answer. `now` is the date of the write.
  record_request :
      ℕ
      → Db
      → Request
      → Subscription
      → Plan
      → UsageWindow
      → ℕ
      → Option ℕ
      → Result (AuthorizeResponse × Db)
  unfolding decision
  record_request now db q s plan w next remaining_rate =
      elim (record_usage_in_transaction client.usage now db.usage (record {
        subscription_id = s.id;
        occurred_at = q.occurred_at;
        endpoint = q.endpoint;
        request_count = q.request_count;
        source_job_id = none;
      })) [
        | none ↦ throw (prisma_error p2002)
        | some usage ↦ ok (
          decided (
              decision q s plan w true none next remaining_rate (get_overage_state plan next) true),
          record db { usage = usage },
        )
      ]

  -- The transaction of a consuming request, from the locked subscription on.
  unfoldable pub consume :
      ℕ → Db → Request → Subscription → Plan → UsageWindow → Result (AuthorizeResponse × Db)
  unfolding decision record_request
  consume now db q s plan w =
      let used = sum_usage_for_window client.usage db.usage s.id w.gte w.lt in
      let next = used + q.request_count in
      let current = get_overage_state plan used in
      if not plan.allow_overage && ltb plan.quota_requests next
      then ok
          (decided (decision q s plan w false (some quota_exceeded) used none current false), db)
      else elim plan.rate_limit_rpm [
        | none ↦ record_request now db q s plan w next none
        | some rpm ↦
            let used_rate = used_rate_limit_requests db s.id q.occurred_at w.gte in
            if ltb rpm (used_rate + q.request_count)
            then ok (
              decided (
                  decision q s plan w false (some rate_limit_exceeded) used (some (rpm - used_rate))
                    current false),
              db,
            )
            else record_request now db q s plan w next (some (rpm - used_rate - q.request_count))
      ]

  -- The subscription with the plan that the query selects.
  unfoldable pub find_subscription_plan : Db → Request → Option (Subscription × Plan)
  unfolding find_subscription
  find_subscription_plan db q = elim (find_subscription db q.user_id q.product_id q.occurred_at) [
    | none ↦ none
    | some s ↦ elim (plan_of db.plans s) [ none ↦ none | some plan ↦ some (s, plan) ]
  ]

  unfoldable pub authorize_usage_with_consumption :
      ℕ → Db → Request → Result (AuthorizeResponse × Db)
  authorize_usage_with_consumption now db q = elim (find_subscription_plan db q) [
    | none ↦ ok (no_active_subscription q.api_key_id q.user_id q.request_count, db)
    | some (s, plan) ↦ elim (get_usage_window s q.occurred_at) [
      | none ↦ ok (no_active_subscription q.api_key_id q.user_id q.request_count, db)
      | some w ↦ consume now db q s plan w
    ]
  ]

  -- From the API key on; `now` is the date of every `new Date()` of the request.
  unfoldable pub authorize_request : ℕ → Db → Bool → Request → Result (AuthorizeResponse × Db)
  authorize_request now db should_consume q = elim (find_subscription_plan db q) [
    | none ↦ ok (no_active_subscription q.api_key_id q.user_id q.request_count, db)
    | some (s, plan) ↦ elim (get_usage_window s q.occurred_at) [
      | none ↦ ok (no_active_subscription q.api_key_id q.user_id q.request_count, db)
      | some w ↦
          if should_consume
          then authorize_usage_with_consumption now db q
          else ok (decided (preview db q s plan w), db)
    ]
  ]

  -- `hashApiKey` of src/common/utils/crypto.ts
  pub hash_api_key : String → String → String
  hash_api_key raw_key salt = config.sha256 (raw_key ++ salt)

  unfoldable pub find_api_key : Db → String → Option ApiKey
  unfolding hash_api_key
  find_api_key db raw_key =
      client.api_key.find_first
        (λ k.
          str_eq k.key_hash (hash_api_key raw_key config.api_key_salt)
          && (k.is_active && not (is_some k.revoked_at)))
        [] db.api_keys

  unfoldable pub authorize_usage_internal :
      ℕ → Db → AuthorizeUsageInput → Result (AuthorizeResponse × Db)
  authorize_usage_internal now db input =
      elim (client.api_product.find_unique (λ p. p.id == input.product_id) db.products) [
        | none ↦ throw (app_error product_not_found 404)
        | some product ↦ elim (find_api_key db input.api_key) [
          | none ↦ ok (invalid_api_key product.id input.request_count, db)
          | some key ↦ authorize_request now db (or_else input.consume false) (record {
            api_key_id = key.id;
            user_id = key.user_id;
            product_id = input.product_id;
            endpoint = input.endpoint;
            request_count = input.request_count;
            occurred_at = or_else input.occurred_at now;
          })
        ]
      ]

  -- `assertUsageSecret`: `!provided || provided !== secret` is refused.
  unfoldable pub assert_usage_secret : Option String → Result (Unit {0})
  assert_usage_secret provided =
      throw_if
        (not (is_truthy provided) || not (str_eq (or_else provided "") config.usage_ingest_secret))
        (app_error usage_ingest_forbidden 403)

  unfoldable pub authorize_usage :
      ℕ → Db → AuthorizeUsageInput → Option String → Result (AuthorizeResponse × Db)
  unfolding assert_usage_secret
  authorize_usage now db input provided = do
    assert_usage_secret provided
    authorize_usage_internal now db input
