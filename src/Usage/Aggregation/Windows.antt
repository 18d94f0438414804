-- ===== src/Usage/Aggregation/Windows.antt =====
-- The sum over a window, read partly from the aggregates, is the sum over the raw records.
use hivepoint_backend.Common.{
  ℕ, ◌+◌, ◌%◌, ◌≤◌, ◌<◌, ◌≡◌, sym, false, ◌&&◌, ltb, leb, is_some, sum_where, sum_where-split,
  sum_where-never, sum_where-congr, arith, if◌then◌else◌, Bool-cases, inl, inr,
}
use hivepoint_backend.Schema.{UsageRecord, UsageTables}
use hivepoint_backend.Usage.Days.{
  day_ms, get_utc_day_start, full_days_start, is_utc_day_boundary_iff,
}
use hivepoint_backend.Usage.Aggregation.{
  UsageClient, raw_in, unaggregated_in, days_in, sum_raw_usage, sum_daily_aggregate_usage,
  sum_usage_for_window,
}
use hivepoint_backend.Usage.Aggregation.Invariant.{IsAggregated, aggregated_on}

-- What the window should hold: every raw record of the subscription in it.
abbrev pub window_usage : UsageTables → ℕ → ℕ → ℕ → ℕ
window_usage db sub gte lt = sum_where (raw_in sub gte lt) (λ r. r.request_count) db.records

-- The first midnight at or after a date.
pub full_days_start_bounds :
    (date : ℕ) → (date ≤ full_days_start date) × (full_days_start date % day_ms ≡ 0)
unfolding full_days_start
full_days_start_bounds date = ground (arith, is_utc_day_boundary_iff date)

module _ (db : UsageTables) (sub : ℕ) where
  -- A window is cut at any date inside it.
  pub window_usage-cut :
      (a b c : ℕ)
      → a ≤ b
      → b ≤ c
      → window_usage db sub a c ≡ window_usage db sub a b + window_usage db sub b c
  window_usage-cut a b c h k =
      sum_where-split (λ r. r.request_count) (raw_in sub a c) (raw_in sub a b) (raw_in sub b c)
        db.records (λ r. ground arith)

  pub window_usage-empty : (a b : ℕ) → b ≤ a → window_usage db sub a b ≡ 0
  window_usage-empty a b h =
      sum_where-never (λ r. r.request_count) (raw_in sub a b) db.records (λ r. ground arith)

  -- The three parts of a window, in the two ways that the last midnight can fall.
  window_usage-parts :
      (p fs fe e : ℕ)
      → p ≤ fs
      → p < e
      → fe ≤ e
      → (fs < e → fs ≤ fe)
      → let sp = if ltb fs e then fs else e in
        let ep = if ltb sp fe then fe else sp in
        window_usage db sub p sp + window_usage db sub fs fe + window_usage db sub ep e
        ≡ window_usage db sub p e
  window_usage-parts p fs fe e h k l m = elim (Bool-cases (ltb fs e)) [
    | inl inside ↦
        let order : fs ≤ fe = m (ground arith) in
        rw inside (elim (Bool-cases (ltb fs fe)) [
          | inl apart ↦ rw apart (
              omega
                (arith, window_usage-cut p fs e h (omega arith), window_usage-cut fs fe e order l))
          | inr same ↦
              let meet : fe ≤ fs = ground arith in
              rw same (
                omega
                  (arith, window_usage-cut p fs e h (ground arith), window_usage-empty fs fe meet))
        ])
    | inr outside ↦
        let past : e ≤ fs = ground arith in
        let last : ltb e fe ≡ false = ground arith in
        rw (outside, last)
          (omega
            (arith, window_usage-empty fs fe (omega arith), window_usage-empty e e (omega arith)))
  ]

  -- Between two midnights a record's date can be read off its day.
  aggregated_window :
      (a b : ℕ)
      → a % day_ms ≡ 0
      → b % day_ms ≡ 0
      → (r : UsageRecord)
      → aggregated_on sub (λ d. leb a d && ltb d b) r
        ≡ (is_some r.aggregated_at && raw_in sub a b r)
  aggregated_window a b h k r = ground arith

  module _ (client : UsageClient) (v : IsAggregated db) where
    -- Whole days: the aggregates and the records that were never aggregated.
    pub whole_days :
        (a b : ℕ)
        → a % day_ms ≡ 0
        → b % day_ms ≡ 0
        → sum_daily_aggregate_usage client db (days_in sub a b)
            + sum_raw_usage client db (unaggregated_in sub a b)
          ≡ window_usage db sub a b
    unfolding sum_daily_aggregate_usage sum_raw_usage
    whole_days a b h k =
        let days = λ (d : ℕ). leb a d && ltb d b in
        let read =
          sum_where-congr (λ r. r.request_count) (aggregated_on sub days)
            (λ r. is_some r.aggregated_at && raw_in sub a b r) db.records
            (aggregated_window a b h k) in
        let cut =
          sum_where-split (λ r. r.request_count) (raw_in sub a b)
            (λ r. is_some r.aggregated_at && raw_in sub a b r) (unaggregated_in sub a b) db.records
            (λ r. ground arith) in
        rw (client.usage_daily_aggregate.sum_lem, client.usage_record.sum_lem)
          (omega (arith, v.days sub days, read, cut))

    whole_part :
        (a b : ℕ)
        → a % day_ms ≡ 0
        → b % day_ms ≡ 0
        → (if ltb a b
            then sum_daily_aggregate_usage client db (days_in sub a b)
              + sum_raw_usage client db (unaggregated_in sub a b)
            else 0)
          ≡ window_usage db sub a b
    whole_part a b h k = elim (Bool-cases (ltb a b)) [
      | inl e ↦ rw e (whole_days a b h k)
      | inr e ↦ rw e (sym (window_usage-empty a b (ground arith)))
    ]

    raw_part :
        (a b : ℕ)
        → (if ltb a b then sum_raw_usage client db (raw_in sub a b) else 0)
          ≡ window_usage db sub a b
    unfolding sum_raw_usage
    raw_part a b = elim (Bool-cases (ltb a b)) [
      | inl e ↦ rw (e, client.usage_record.sum_lem)
      | inr e ↦ rw e (sym (window_usage-empty a b (ground arith)))
    ]

    -- Where the aggregates agree with the aggregated records, the sum that the service computes
    -- for a window is the sum of the subscription's raw records in it, wherever its ends fall.
    pub sum_usage_for_window-eq-window_usage :
        (period_start period_end : ℕ)
        → sum_usage_for_window client db sub period_start period_end
          ≡ window_usage db sub period_start period_end
    unfolding sum_usage_for_window
    sum_usage_for_window-eq-window_usage p e = elim (Bool-cases (leb e p)) [
      | inl backwards ↦ rw backwards (sym (window_usage-empty p e (ground arith)))
      | inr forwards ↦
          let fs = full_days_start p in
          let fe = get_utc_day_start e in
          let sp = if ltb fs e then fs else e in
          let ep = if ltb sp fe then fe else sp in
          let (after, midnight) = full_days_start_bounds p in
          rw (forwards, raw_part p sp, whole_part fs fe midnight (omega arith), raw_part ep e)
            (window_usage-parts p fs fe e after (ground arith) (omega arith) (λ h. omega arith))
    ]
