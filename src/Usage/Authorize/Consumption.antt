-- ===== src/Usage/Authorize/Consumption.antt =====
-- What the two kinds of authorization do to the tables: a preview nothing, and a consuming request
-- what it tells.
use hivepoint_backend.Common.{
  ℕ, ◌≡◌, ◌≢◌, ◌⊎◌, ◌+◌, ◌≤◌, ap, inl, inr, refl, subst, sym, ◌∙◌, true, false, some, arith,
  Option-cases, ◌==◌, or_else,
}
use hivepoint_backend.Errors.{ok}
use hivepoint_backend.Schema.{ApiKey, Plan, Subscription}
use hivepoint_backend.Usage.Windows.{UsageWindow, get_usage_window}
use hivepoint_backend.Usage.Aggregation.Invariant.{IsAggregated}
use hivepoint_backend.Usage.Aggregation.Windows.{window_usage}
use hivepoint_backend.Usage.Store.{Db, Client, Config, AuthorizeUsageInput}
use hivepoint_backend.Usage.Authorize.{
  Request, Decision, AuthorizeResponse, decided, consume, record_request, find_subscription_plan,
  find_api_key, authorize_request, authorize_usage_with_consumption, authorize_usage_internal,
}
use hivepoint_backend.Usage.Authorize.Charges.{
  IsRefused, IsCharged, IsWithin, minute_usage, authorize_usage_with_consumption_cases,
}

-- The request that the internal authorization makes, once it knows the key.
abbrev pub request : ℕ → AuthorizeUsageInput → ApiKey → Request
request now input key = record {
  api_key_id = key.id;
  user_id = key.user_id;
  product_id = input.product_id;
  endpoint = input.endpoint;
  request_count = input.request_count;
  occurred_at = or_else input.occurred_at now;
}

-- What was recorded of a request, told by the tables alone: the key that it gave, the subscription,
-- plan and period that this key has at its date, and the usage before and after.
pub record IsChargedFor (config : Config) (client : Client) (now : ℕ) (input : AuthorizeUsageInput)
    (db db' : Db) : Type 0 where
  pub key : ApiKey
  pub known : find_api_key config client db input.api_key ≡ some key
  pub subscription : Subscription
  pub plan : Plan
  pub found :
      find_subscription_plan config client db (request now input key) ≡ some (subscription, plan)
  pub window : UsageWindow
  pub opened : get_usage_window subscription (or_else input.occurred_at now) ≡ some window
  pub grown :
      window_usage db'.usage subscription.id window.gte window.lt
      ≡ window_usage db.usage subscription.id window.gte window.lt + input.request_count
  pub within_quota :
      plan.allow_overage ≡ false
      → window_usage db'.usage subscription.id window.gte window.lt ≤ plan.quota_requests
  pub within_rate :
      IsWithin plan.rate_limit_rpm
        (minute_usage db' subscription.id (or_else input.occurred_at now) window.gte)
  pub still_aggregated : IsAggregated db'.usage

-- The answer tells what was done: a decision that allows the request is about the subscription that
-- was charged for it, and every other answer leaves the tables as they are.
abbrev pub IsAccounted :
    Config → Client → ℕ → AuthorizeUsageInput → Db → Db → AuthorizeResponse → Type 0
IsAccounted config client now input db db' (decided d) =
    IsRefused db db' d
    ⊎ ((c : IsChargedFor config client now input db db') × (d.allowed ≡ true)
        × (d.subscription_id ≡ c.subscription.id))
IsAccounted config client now input db db' _ = db' ≡ db

module _ (config : Config) (client : Client) (now : ℕ) (db : Db) where
  -- A preview writes nothing.
  authorize_request_preview :
      (q : Request) (r : AuthorizeResponse) (db' : Db)
      → authorize_request config client now db false q ≡ ok (r, db')
      → db' ≡ db
  unfolding authorize_request
  authorize_request_preview q r db' e =
      elim (Option-cases (find_subscription_plan config client db q)) [
        | inl missing ↦ ground (arith, e, missing)
        | inr ((s, plan), found) ↦ elim (Option-cases (get_usage_window s q.occurred_at)) [
          | inl closed ↦ ground (arith, e, found, closed)
          | inr (w, opened) ↦ ground (arith, e, found, opened)
        ]
      ]

  pub authorize_usage_internal_preview :
      (input : AuthorizeUsageInput) (r : AuthorizeResponse) (db' : Db)
      → input.consume ≡ some false
      → authorize_usage_internal config client now db input ≡ ok (r, db')
      → db' ≡ db
  unfolding authorize_usage_internal
  authorize_usage_internal_preview input r db' dry e =
      elim (Option-cases
        (client.api_product.find_unique (λ p. p.id == input.product_id) db.products)) [
          | inl gone ↦ ground (arith, e, gone)
          | inr (product, listed) ↦
              elim (Option-cases (find_api_key config client db input.api_key)) [
                | inl unknown ↦ ground (arith, e, listed, unknown)
                | inr (key, known) ↦
                    authorize_request_preview (request now input key) r db'
                      (ground (arith, e, listed, known, dry))
              ]
        ]

  -- What a consuming request does is what the transaction of its charge does.
  authorize_request_consuming :
      (q : Request)
      → authorize_request config client now db true q
        ≡ authorize_usage_with_consumption config client now db q
  unfolding authorize_request authorize_usage_with_consumption
  authorize_request_consuming q = elim (Option-cases (find_subscription_plan config client db q)) [
    | inl missing ↦ ground (arith, missing)
    | inr ((s, plan), found) ↦ elim (Option-cases (get_usage_window s q.occurred_at)) [
      | inl closed ↦ ground (arith, found, closed)
      | inr (w, opened) ↦ ground (arith, found, opened)
    ]
  ]

  consume_decided :
      (q : Request) (s : Subscription) (plan : Plan) (w : UsageWindow) (r : AuthorizeResponse)
      (db' : Db)
      → consume config client now db q s plan w ≡ ok (r, db')
      → (d : Decision) × (r ≡ decided d)
  unfolding consume record_request
  consume_decided q s plan w (AuthorizeResponse.invalid_api_key p n) db' e =
      absurd (ground (arith, e))
  consume_decided q s plan w (AuthorizeResponse.no_active_subscription k u n) db' e =
      absurd (ground (arith, e))
  consume_decided q s plan w (decided d) db' e = (d, refl)

  -- An answer without a decision leaves the tables as they are.
  unanswered :
      (q : Request) (r : AuthorizeResponse) (db' : Db)
      → ((d : Decision) → r ≢ decided d)
      → authorize_request config client now db true q ≡ ok (r, db')
      → db' ≡ db
  unfolding authorize_request authorize_usage_with_consumption
  unanswered q r db' bare e = elim (Option-cases (find_subscription_plan config client db q)) [
    | inl missing ↦ ground (arith, e, missing)
    | inr ((s, plan), found) ↦ elim (Option-cases (get_usage_window s q.occurred_at)) [
      | inl closed ↦ ground (arith, e, found, closed)
      | inr (w, opened) ↦
          let (d, is) = consume_decided q s plan w r db' (ground (arith, e, found, opened)) in
          absurd (bare d is)
    ]
  ]

  -- A decision names the subscription, the plan and the period that it is about.
  consume_names :
      (q : Request) (s : Subscription) (plan : Plan) (w : UsageWindow) (d : Decision) (db' : Db)
      → consume config client now db q s plan w ≡ ok (decided d, db')
      → (d.subscription_id ≡ s.id)
        × (d.plan ≡ plan)
        × (d.period_start ≡ w.gte)
        × (d.period_end ≡ w.lt)
  unfolding consume record_request
  consume_names q s plan w d db' e = ground (arith, e)

  charged_for :
      (input : AuthorizeUsageInput) (key : ApiKey) (s : Subscription) (plan : Plan)
      (w : UsageWindow) (d : Decision) (db' : Db)
      → find_api_key config client db input.api_key ≡ some key
      → find_subscription_plan config client db (request now input key) ≡ some (s, plan)
      → get_usage_window s (or_else input.occurred_at now) ≡ some w
      → consume config client now db (request now input key) s plan w ≡ ok (decided d, db')
      → IsCharged db db' (request now input key) d
      → IsAccounted config client now input db db' (decided d)
  charged_for input key s plan w d db' known found opened e c =
      let (sub, planned, start, end) = consume_names (request now input key) s plan w d db' e in
      inr (
        record {
          key = key;
          known = known;
          subscription = s;
          plan = plan;
          found = found;
          window = w;
          opened = opened;
          grown = rw (← sub, ← start, ← end) (c.reported ∙ c.grown);
          within_quota = λ h.
              rw (← sub, ← start, ← end, ← planned, c.reported)
                (c.within_quota (ap (λ (p : Plan). p.allow_overage) planned ∙ h));
          within_rate = rw (← sub, ← start, ← planned) c.within_rate;
          still_aggregated = c.still_aggregated;
        },
        c.is_allowed,
        sub,
      )

  authorize_request-IsAccounted :
      (input : AuthorizeUsageInput) (key : ApiKey) (r : AuthorizeResponse) (db' : Db)
      → IsAggregated db.usage
      → find_api_key config client db input.api_key ≡ some key
      → authorize_request config client now db true (request now input key) ≡ ok (r, db')
      → IsAccounted config client now input db db' r
  unfolding authorize_usage_with_consumption
  authorize_request-IsAccounted input key (decided d) db' v known e =
      let q = request now input key in
      let charging : authorize_usage_with_consumption config client now db q ≡ ok (decided d, db') =
        sym (authorize_request_consuming q) ∙ e in
      elim (authorize_usage_with_consumption_cases config client now db q d db' v charging) [
        | inl refused ↦ inl refused
        | inr charged ↦ elim (Option-cases (find_subscription_plan config client db q)) [
          | inl missing ↦ absurd (ground (arith, charging, missing))
          | inr ((s, plan), found) ↦ elim (Option-cases (get_usage_window s q.occurred_at)) [
            | inl closed ↦ absurd (ground (arith, charging, found, closed))
            | inr (w, opened) ↦
                charged_for input key s plan w d db' known found opened
                  (ground (arith, charging, found, opened)) charged
          ]
        ]
      ]
  authorize_request-IsAccounted input key (AuthorizeResponse.invalid_api_key p n) db' v known e =
      unanswered (request now input key) _ db' (λ d. ground arith) e
  authorize_request-IsAccounted input key (AuthorizeResponse.no_active_subscription k u n) db' v
        known e =
      unanswered (request now input key) _ db' (λ d. ground arith) e

  pub authorize_usage_internal-IsAccounted :
      (input : AuthorizeUsageInput) (r : AuthorizeResponse) (db' : Db)
      → IsAggregated db.usage
      → input.consume ≡ some true
      → authorize_usage_internal config client now db input ≡ ok (r, db')
      → IsAccounted config client now input db db' r
  unfolding authorize_usage_internal
  authorize_usage_internal-IsAccounted input r db' v wet e =
      elim (Option-cases
        (client.api_product.find_unique (λ p. p.id == input.product_id) db.products)) [
          | inl gone ↦ absurd (ground (arith, e, gone))
          | inr (product, listed) ↦
              elim (Option-cases (find_api_key config client db input.api_key)) [
                | inl unknown ↦
                    let told : AuthorizeResponse.invalid_api_key product.id input.request_count
                        ≡ r =
                      ground (arith, e, listed, unknown) in
                    let kept : db' ≡ db = ground (arith, e, listed, unknown) in
                    subst (λ (x : AuthorizeResponse). IsAccounted config client now input db db' x)
                      told kept
                | inr (key, known) ↦
                    authorize_request-IsAccounted input key r db' v known
                      (ground (arith, e, listed, known, wet))
              ]
        ]
