-- ===== src/Usage/Authorize/Agreement.antt =====
-- The answer of an authorization without consumption: it is exact, and consumption agrees with it.
use hivepoint_backend.Common.{
  ℕ, ◌+◌, ◌-◌, ◌≤◌, ◌≡◌, ◌⊎◌, ◌↔◌, inl, inr, true, false, Option, none, some, List, [], ◌∷◌, any,
  arith, refl, sym, ap, ◌∙◌, Option-cases, Bool-cases, not, ◌&&◌, ltb,
}
use hivepoint_backend.Errors.{ok}
use hivepoint_backend.Schema.{Plan, Subscription, UsageRecord, clash_usage_record}
use hivepoint_backend.Usage.Aggregation.{
  UsageRecordWriteInput, new_record, sum_usage_for_window, record_usage_in_transaction,
}
use hivepoint_backend.Usage.Aggregation.Invariant.{IsAggregated, record_usage_refused_iff}
use hivepoint_backend.Usage.Aggregation.Windows.{window_usage, sum_usage_for_window-eq-window_usage}
use hivepoint_backend.Usage.Windows.{UsageWindow, get_usage_window}
use hivepoint_backend.Usage.Store.{Db, Client, Config}
use hivepoint_backend.Usage.Authorize.{
  Request, Decision, decided, consume, record_request, preview, used_rate_limit_requests,
  authorize_usage_with_consumption, find_subscription_plan, authorize_request,
}
use hivepoint_backend.Usage.Authorize.Charges.{
  IsWithin, minute_usage, used_rate_limit_requests-eq-minute_usage,
}

-- A record without a source job clashes with none.
any-clash_none :
    (r : UsageRecord) (rows : List UsageRecord)
    → r.source_job_id ≡ none
    → any (clash_usage_record r) rows ≡ false
any-clash_none r [] h = refl
any-clash_none r (x ∷ rows) h = ground (arith, any-clash_none r rows h)

module _ (config : Config) (client : Client) (now : ℕ) (db : Db) (q : Request) where
  module _ (s : Subscription) (plan : Plan) (w : UsageWindow) where
    -- Without consumption a request is allowed exactly where it would pass no limit.
    preview_allowed_iff :
        IsAggregated db.usage
        → ((preview config client db q s plan w).allowed ≡ true) ↔ (
            ((plan.allow_overage ≡ true)
              ⊎ (window_usage db.usage s.id w.gte w.lt + q.request_count ≤ plan.quota_requests))
            × IsWithin plan.rate_limit_rpm
                (minute_usage db s.id q.occurred_at w.gte + q.request_count))
    unfolding preview
    preview_allowed_iff v =
        let window = sum_usage_for_window-eq-window_usage db.usage s.id client.usage v w.gte w.lt in
        let minute = used_rate_limit_requests-eq-minute_usage config client now db q s.id w.gte in
        (grind (arith, window, minute), grind (arith, window, minute))

    preview_names :
        ((preview config client db q s plan w).subscription_id ≡ s.id)
        × ((preview config client db q s plan w).period_start ≡ w.gte)
        × ((preview config client db q s plan w).period_end ≡ w.lt)
        × ((preview config client db q s plan w).plan ≡ plan)
    unfolding preview
    preview_names = (ground arith, ground arith, ground arith, ground arith)

    record_request-total :
        (next : ℕ) (rate : Option ℕ)
        → (d : Decision) × (db' : Db) × (record_request config client now db q s plan w next rate
            ≡ ok (decided d, db'))
          × (d.allowed ≡ true)
    unfolding record_request
    record_request-total next rate =
        let input : UsageRecordWriteInput = record {
          subscription_id = s.id;
          occurred_at = q.occurred_at;
          endpoint = q.endpoint;
          request_count = q.request_count;
          source_job_id = none;
        } in
        elim (Option-cases (record_usage_in_transaction client.usage now db.usage input)) [
          | inl refused ↦ absurd (
              ground (
                arith,
                (record_usage_refused_iff client.usage now db.usage input).0 refused,
                any-clash_none (new_record now input) db.usage.records refl,
              ))
          | inr (usage, written) ↦ rw (written, record_request) (_, _, refl, refl)
        ]

    consume-preview :
        (d : Decision) × (db' : Db) × (consume config client now db q s plan w
          ≡ ok (decided d, db'))
        × (d.allowed ≡ (preview config client db q s plan w).allowed)
    unfolding consume preview
    consume-preview =
        let next = sum_usage_for_window client.usage db.usage s.id w.gte w.lt + q.request_count in
        elim (Bool-cases (not plan.allow_overage && ltb plan.quota_requests next)) [
          | inl over ↦ rw (over, consume, preview) (_, _, refl, refl)
          | inr fits ↦ elim (Option-cases plan.rate_limit_rpm) [
            | inl free ↦
                let (d, db', e, a) = record_request-total next none in
                (d, db', ground (arith, fits, free), ground (arith, fits, free))
            | inr (rpm, limited) ↦
                let minute = used_rate_limit_requests config client db s.id q.occurred_at w.gte in
                elim (Bool-cases (ltb rpm (minute + q.request_count))) [
                  | inl busy ↦ rw (fits, limited, busy, consume, preview) (_, _, refl, refl)
                  | inr calm ↦
                      let (d, db', e, a) =
                        record_request-total next (some (rpm - minute - q.request_count)) in
                      (
                        d,
                        db',
                        ground (arith, fits, limited, calm),
                        ground (arith, fits, limited, calm),
                      )
                ]
          ]
        ]

  -- An answer without consumption is a preview of one subscription with its plan and window.
  authorize_request-preview :
      (d : Decision) (db₁ : Db)
      → authorize_request config client now db false q ≡ ok (decided d, db₁)
      → (s : Subscription) × (plan : Plan) × (w : UsageWindow) × (find_subscription_plan config
            client db q
          ≡ some (s, plan))
        × (get_usage_window s q.occurred_at ≡ some w)
        × (d ≡ preview config client db q s plan w)
        × (db₁ ≡ db)
  unfolding authorize_request
  authorize_request-preview d db₁ e =
      elim (Option-cases (find_subscription_plan config client db q)) [
        | inl missing ↦ absurd (ground (arith, missing))
        | inr ((s, plan), found) ↦ elim (Option-cases (get_usage_window s q.occurred_at)) [
          | inl closed ↦ absurd (ground (arith, found, closed))
          | inr (w, opened) ↦ (
            s,
            plan,
            w,
            found,
            opened,
            ground (arith, found, opened),
            ground (arith, found, opened),
          )
        ]
      ]

  -- An authorization without consumption that is answered from a subscription writes nothing, and the same request with consumption, at
  -- the same state, is answered too and is allowed exactly where this one says so.
  pub authorize_request-agrees :
      (d : Decision) (db₁ : Db)
      → authorize_request config client now db false q ≡ ok (decided d, db₁)
      → (db₁ ≡ db)
        × ((d' : Decision) × (db' : Db) × (authorize_request config client now db true q
              ≡ ok (decided d', db'))
            × (d'.allowed ≡ d.allowed))
  unfolding authorize_request authorize_usage_with_consumption
  authorize_request-agrees d db₁ e =
      let (s, plan, w, found, opened, same, kept) = authorize_request-preview d db₁ e in
      let (d', db', consumed, agreed) = consume-preview s plan w in
      (
        kept,
        (
          d',
          db',
          ground (arith, found, opened, consumed),
          agreed ∙ ap (λ (x : Decision). x.allowed) (sym same),
        ),
      )

  -- Where the aggregates agree with the aggregated records, and a subscription answers:
  -- without consumption a request is allowed exactly where the usage recorded in the period that
  -- the answer names and the request together stay within the quota, or the plan allows overage,
  -- and those of the last minute stay within the rate limit, where there is one.
  pub authorize_request_allowed_iff :
      (d : Decision) (db₁ : Db)
      → IsAggregated db.usage
      → authorize_request config client now db false q ≡ ok (decided d, db₁)
      → (d.allowed ≡ true) ↔ (
          ((d.plan.allow_overage ≡ true)
            ⊎ (window_usage db.usage d.subscription_id d.period_start d.period_end + q.request_count
                ≤ d.plan.quota_requests))
          × IsWithin d.plan.rate_limit_rpm
              (minute_usage db d.subscription_id q.occurred_at d.period_start + q.request_count))
  authorize_request_allowed_iff d db₁ v e =
      let (s, plan, w, found, opened, same, kept) = authorize_request-preview d db₁ e in
      let (sub, start, end, plan_is) = preview_names s plan w in
      rw (same, sub, start, end, plan_is) (preview_allowed_iff s plan w v)
