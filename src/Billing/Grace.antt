-- ===== src/Billing/Grace.antt =====
-- `resolveGracePeriodEndsAt` of src/modules/billing/subscriptions.service.ts.
use hivepoint_backend.Common.{ℕ, ◌+◌, ◌*◌, Option, none, some, ltb, ◌==◌, if◌then◌else◌}
use hivepoint_backend.Schema.{SubscriptionStatus}
use hivepoint_backend.Usage.Days.{day_ms}
use hivepoint_backend.Usage.Store.{is_past_due}

-- `end && end > now ? end : now`
grace_base : Option ℕ → ℕ → ℕ
grace_base none now = now
grace_base (some end) now = if ltb now end then end else now

-- `existing && existing > computed ? existing : computed`
later_of : Option ℕ → ℕ → ℕ
later_of none computed = computed
later_of (some existing) computed = if ltb computed existing then existing else computed

grace_for : ℕ → ℕ → Option ℕ → Option ℕ → Option ℕ → Option ℕ
unfolding grace_base later_of
grace_for now grace_days none current_period_end existing = none
grace_for now grace_days (some start) current_period_end existing =
    if grace_days == 0
    then none
    else some (later_of existing (grace_base current_period_end now + grace_days * day_ms))

-- `now` is `new Date()`; `setUTCDate(getUTCDate() + n)` adds n days of UTC.
unfoldable pub resolve_grace_period_ends_at :
    ℕ → ℕ → SubscriptionStatus → Option ℕ → Option ℕ → Option ℕ → Option ℕ
unfolding grace_for
resolve_grace_period_ends_at now grace_days status current_period_start current_period_end
      existing =
    if is_past_due status
    then grace_for now grace_days current_period_start current_period_end existing
    else none
