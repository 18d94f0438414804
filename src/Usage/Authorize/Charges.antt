-- ===== src/Usage/Authorize/Charges.antt =====
-- What a consuming request does to the recorded usage.
use hivepoint_backend.Common.{
  ℕ, ◌+◌, ◌-◌, ◌≤◌, ◌<◌, ◌≡◌, ◌⊎◌, inl, inr, true, false, Option, none, some, Option-cases,
  Bool-cases, subst, not, ◌&&◌, ltb, ◌∷◌, sum_where, arith, refl,
}
use hivepoint_backend.Errors.{ok}
use hivepoint_backend.Schema.{Plan, Subscription}
use hivepoint_backend.Usage.Aggregation.{
  UsageRecordWriteInput, sum_usage_for_window, record_usage_in_transaction,
}
use hivepoint_backend.Usage.Aggregation.Invariant.{IsAggregated, record_usage-IsAggregated}
use hivepoint_backend.Usage.Aggregation.Windows.{window_usage, sum_usage_for_window-eq-window_usage}
use hivepoint_backend.Usage.Windows.{
  UsageWindow, get_usage_window, get_usage_window_bounds, get_rate_limit_window_start,
}
use hivepoint_backend.Usage.Store.{Db, Client, Config}
use hivepoint_backend.Usage.Authorize.{
  Request, Decision, decided, raw_upto, consume, record_request, used_rate_limit_requests,
  authorize_usage_with_consumption, find_subscription_plan,
}

-- The raw usage that the rate limit of a request counts.
abbrev pub minute_usage : Db → ℕ → ℕ → ℕ → ℕ
minute_usage db sub occurred_at period_start =
    sum_where (raw_upto sub (get_rate_limit_window_start occurred_at period_start) occurred_at)
      (λ r. r.request_count) db.usage.records

-- A count that passes no rate limit, where there is one.
abbrev pub IsWithin : Option ℕ → ℕ → Type 0
IsWithin none n = Unit
IsWithin (some rpm) n = n ≤ rpm

-- The request was recorded: its count is in the window that the answer names, and the limits of
-- the plan hold of what is recorded now.
pub record IsCharged (db db' : Db) (q : Request) (d : Decision) : Type 0 where
  pub is_allowed : d.allowed ≡ true
  pub is_recorded : d.usage_recorded ≡ true
  pub reported :
      window_usage db'.usage d.subscription_id d.period_start d.period_end ≡ d.used_requests
  pub grown :
      d.used_requests
      ≡ window_usage db.usage d.subscription_id d.period_start d.period_end + q.request_count
  pub within_quota : d.plan.allow_overage ≡ false → d.used_requests ≤ d.plan.quota_requests
  pub within_rate :
      IsWithin d.plan.rate_limit_rpm
        (minute_usage db' d.subscription_id q.occurred_at d.period_start)
  pub still_aggregated : IsAggregated db'.usage

-- The request was refused, and nothing was written.
pub record IsRefused (db db' : Db) (d : Decision) : Type 0 where
  pub not_allowed : d.allowed ≡ false
  pub not_recorded : d.usage_recorded ≡ false
  pub unchanged : db' ≡ db

-- What the write of a request that is allowed leaves behind.
record IsWritten (db db' : Db) (now : ℕ) (q : Request) (s : Subscription) (plan : Plan)
    (w : UsageWindow) (next : ℕ) (d : Decision) : Type 0 where
  passed : d.allowed ≡ true
  recorded : d.usage_recorded ≡ true
  sub : d.subscription_id ≡ s.id
  start : d.period_start ≡ w.gte
  end : d.period_end ≡ w.lt
  planned : d.plan ≡ plan
  used : d.used_requests ≡ next
  written :
      db'.usage.records
      ≡ record {
        subscription_id = s.id;
        source_job_id = none;
        aggregated_at = some now;
        occurred_at = q.occurred_at;
        endpoint = q.endpoint;
        request_count = q.request_count;
      }
        ∷ db.usage.records
  aggregated : IsAggregated db'.usage

module _ (config : Config) (client : Client) (now : ℕ) (db : Db) (q : Request) where
  pub used_rate_limit_requests-eq-minute_usage :
      (sub period_start : ℕ)
      → used_rate_limit_requests config client db sub q.occurred_at period_start
        ≡ minute_usage db sub q.occurred_at period_start
  unfolding used_rate_limit_requests
  used_rate_limit_requests-eq-minute_usage sub period_start =
      client.usage.usage_record.sum_lem _ _ db.usage.records

  module _ (s : Subscription) (plan : Plan) (w : UsageWindow) (v : IsAggregated db.usage) where
    record_request-IsWritten :
        (next : ℕ) (rate : Option ℕ) (d : Decision) (db' : Db)
        → record_request config client now db q s plan w next rate ≡ ok (decided d, db')
        → IsWritten db db' now q s plan w next d
    unfolding record_request
    record_request-IsWritten next rate d db' e =
        let input : UsageRecordWriteInput = record {
          subscription_id = s.id;
          occurred_at = q.occurred_at;
          endpoint = q.endpoint;
          request_count = q.request_count;
          source_job_id = none;
        } in
        elim (Option-cases (record_usage_in_transaction client.usage now db.usage input)) [
          | inl refused ↦ absurd (ground (arith, refused))
          | inr (usage, written) ↦
              let (kept, row) =
                record_usage-IsAggregated client.usage now db.usage input usage v written in
              ground (arith, kept, row, written)
        ]

    charged :
        (next : ℕ) (d : Decision) (db' : Db)
        → w.gte ≤ q.occurred_at
        → q.occurred_at < w.lt
        → next ≡ sum_usage_for_window client.usage db.usage s.id w.gte w.lt + q.request_count
        → (plan.allow_overage ≡ false → next ≤ plan.quota_requests)
        → IsWithin plan.rate_limit_rpm
            (used_rate_limit_requests config client db s.id q.occurred_at w.gte + q.request_count)
        → IsWritten db db' now q s plan w next d
        → IsCharged db db' q d
    unfolding get_rate_limit_window_start
    charged next d db' h k n quota rate z =
        let window = sum_usage_for_window-eq-window_usage db.usage s.id client.usage v w.gte w.lt in
        let minute = used_rate_limit_requests-eq-minute_usage s.id w.gte in
        record {
          is_allowed = z.passed;
          is_recorded = z.recorded;
          reported = rw (z.sub, z.start, z.end, z.used, z.written) (ground (arith, n, window));
          grown = rw (z.sub, z.start, z.end, z.used) (omega (arith, n, window));
          within_quota = λ e. rw z.used (ground (arith, z.planned, quota));
          within_rate =
              rw (z.sub, z.start, z.written, z.planned)
                (subst (IsWithin plan.rate_limit_rpm) (ground (arith, minute)) rate);
          still_aggregated = z.aggregated;
        }

    consume_cases :
        (d : Decision) (db' : Db)
        → w.gte ≤ q.occurred_at
        → q.occurred_at < w.lt
        → consume config client now db q s plan w ≡ ok (decided d, db')
        → IsRefused db db' d ⊎ IsCharged db db' q d
    unfolding consume
    consume_cases d db' h k e =
        let used = sum_usage_for_window client.usage db.usage s.id w.gte w.lt in
        let next = used + q.request_count in
        elim (Bool-cases (not plan.allow_overage && ltb plan.quota_requests next)) [
          | inl over ↦ inl (ground arith)
          | inr fits ↦ elim (Option-cases plan.rate_limit_rpm) [
            | inl free ↦ inr (
                charged next d db' h k refl (ground arith) (rw free tt)
                  (record_request-IsWritten next none d db' (ground arith)))
            | inr (rpm, limited) ↦
                let minute = used_rate_limit_requests config client db s.id q.occurred_at w.gte in
                elim (Bool-cases (ltb rpm (minute + q.request_count))) [
                  | inl busy ↦ inl (ground arith)
                  | inr calm ↦ inr (
                      charged next d db' h k refl (ground arith) (rw limited (ground arith)) (
                        record_request-IsWritten next (some (rpm - minute - q.request_count)) d db'
                          (ground arith)))
                ]
          ]
        ]

  -- Where the aggregates agree with the aggregated records, a consuming request that is answered
  -- from a subscription either is refused and writes nothing,
  -- or is recorded: the answer's usage is what is then recorded in its window, no plan without
  -- overage passes its quota, and no plan with a rate limit passes it in the last minute.
  pub authorize_usage_with_consumption_cases :
      (d : Decision) (db' : Db)
      → IsAggregated db.usage
      → authorize_usage_with_consumption config client now db q ≡ ok (decided d, db')
      → IsRefused db db' d ⊎ IsCharged db db' q d
  unfolding authorize_usage_with_consumption
  authorize_usage_with_consumption_cases d db' v e =
      elim (Option-cases (find_subscription_plan config client db q)) [
        | inl missing ↦ absurd (ground (arith, missing))
        | inr ((s, plan), found) ↦ elim (Option-cases (get_usage_window s q.occurred_at)) [
          | inl closed ↦ absurd (ground (arith, found, closed))
          | inr (w, opened) ↦
              let (_, after, before) = get_usage_window_bounds s q.occurred_at w opened in
              consume_cases s plan w v d db' after before (ground (arith, found, opened))
        ]
      ]
