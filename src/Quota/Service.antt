-- ===== src/Quota/Service.antt =====
-- `QuotaService` of app/limits/reservations.py over the in-memory store. The clock's reading, the
-- drawn identifier and the calendar of the Beijing zone are arguments.
pub mod Bounds
pub mod Runs
use weiquan_agent.Prelude.{
  ℕ, ◌+◌, ◌-◌, ◌≤◌, ◌<◌, String, Bool, true, false, ◌||◌, Option, some, none, List, [], ◌∷◌, ltb,
  leb, if◌then◌else◌, nat_eq, Result, ok, err, attempt, DateTime, aware, utc, ◌>>=◌, ◌>>◌, require,
  any,
}
use weiquan_agent.Quota.{
  Kind, trial, registered, Error, naive_time, invalid_limit, invalid_stale_after, invalid_record,
  BucketSpec, make_spec, Reservation,
}
use weiquan_agent.Quota.Store
use weiquan_agent.Quota.Store.{Store, LogicalKey}

-- What `_beijing_day` and `_beijing_month` take from the datetime library and the zone database.
pub record Calendar : Type 0 where
  -- The year, month and day of an instant on Beijing's calendar.
  pub year : ℕ → ℕ
  pub month : ℕ → ℕ
  -- `date().isoformat()`
  pub iso_date : ℕ → String
  -- The instant of the next Beijing midnight after the day of an instant.
  pub next_midnight : ℕ → ℕ
  -- `datetime(year, month, 1, tzinfo=BEIJING)`
  pub month_start : ℕ → ℕ → ℕ
  -- f"{year:04d}-{month:02d}"
  pub month_text : ℕ → ℕ → String

module _ (c : Calendar) where
  unfoldable pub beijing_day : ℕ → String × ℕ
  beijing_day now = (c.iso_date now, c.next_midnight now)

  unfoldable pub beijing_month : ℕ → String × ℕ
  beijing_month now =
      let year = c.year now in
      let month = c.month now in
      let reset =
        if nat_eq month 12 then c.month_start (year + 1) 1 else c.month_start year (month + 1) in
      (c.month_text year month, reset)

pub record Service : Type 0 where
  pub trial_total_limit : ℕ
  pub trial_global_daily_limit : ℕ
  pub registered_daily_limit : ℕ
  pub registered_monthly_limit : ℕ
  -- in microseconds
  pub stale_after : ℕ

-- QuotaService.__init__
unfoldable pub make_service : Service → Result Error Service
make_service v =
    if any (λ limit. ltb limit 1)
      (v.trial_total_limit ∷ v.trial_global_daily_limit ∷ v.registered_daily_limit
        ∷ v.registered_monthly_limit ∷ [])
    then err invalid_limit
    else if leb v.stale_after 0
    then err invalid_stale_after
    else ok v

module _ (c : Calendar) (v : Service) where
  abbrev pub total_spec : String → BucketSpec
  total_spec identity_id = record {
    bucket_type = "trial_total";
    subject_key = identity_id;
    period_key = "lifetime";
    limit = v.trial_total_limit;
    exceeded_code = "trial_quota_exceeded";
    resets_at = none;
  }

  abbrev pub global_day_spec : ℕ → BucketSpec
  global_day_spec now = record {
    bucket_type = "trial_global_day";
    subject_key = "global";
    period_key = (beijing_day c now).0;
    limit = v.trial_global_daily_limit;
    exceeded_code = "trial_daily_capacity_exceeded";
    resets_at = some (beijing_day c now).1;
  }

  abbrev pub day_spec : String → ℕ → BucketSpec
  day_spec user_id now = record {
    bucket_type = "registered_day";
    subject_key = user_id;
    period_key = (beijing_day c now).0;
    limit = v.registered_daily_limit;
    exceeded_code = "registered_daily_quota_exceeded";
    resets_at = some (beijing_day c now).1;
  }

  abbrev pub month_spec : String → ℕ → BucketSpec
  month_spec user_id now = record {
    bucket_type = "registered_month";
    subject_key = user_id;
    period_key = (beijing_month c now).0;
    limit = v.registered_monthly_limit;
    exceeded_code = "registered_monthly_quota_exceeded";
    resets_at = some (beijing_month c now).1;
  }

  unfoldable pub trial_specs : String → ℕ → Result Error (BucketSpec × BucketSpec)
  trial_specs identity_id now = do
    total ← make_spec (total_spec identity_id)
    daily ← make_spec (global_day_spec now)
    ok (total, daily)

  unfoldable pub registered_specs : String → ℕ → Result Error (BucketSpec × BucketSpec)
  registered_specs user_id now = do
    daily ← make_spec (day_spec user_id now)
    monthly ← make_spec (month_spec user_id now)
    ok (daily, monthly)

  abbrev specs_of : Kind → String → ℕ → Result Error (BucketSpec × BucketSpec)
  specs_of trial subject now = trial_specs subject now
  specs_of registered subject now = registered_specs subject now

  -- reserve_trial and reserve_registered
  unfoldable pub reserve :
      String → Kind → String → String → DateTime → Store → Result Error Reservation × Store
  reserve new_id kind subject call now s = attempt (utc naive_time now) s λ current.
      attempt (specs_of kind subject current) s λ specs.
        Store.reserve new_id (record { kind = kind; subject_id = subject; logical_call_id = call })
          (specs.0 ∷ specs.1 ∷ []) (aware current) s

  unfoldable pub succeed : String → DateTime → Store → Result Error Reservation × Store
  succeed id now s =
      attempt (utc naive_time now) s λ current. Store.transition id "succeeded" (aware current) s

  unfoldable pub refund : String → DateTime → Store → Result Error Reservation × Store
  refund id now s =
      attempt (utc naive_time now) s λ current. Store.transition id "refunded" (aware current) s

  unfoldable pub recover_stale : DateTime → ℕ → Store → Result Error ℕ × Store
  recover_stale now limit s =
      attempt (utc naive_time now) s
        λ current. Store.recover_stale (aware (current - v.stale_after)) (aware current) limit s

  -- TrialQuotaStatus(remaining_total=...), whose field is at most 5
  unfoldable pub trial_status : String → DateTime → Store → Result Error ℕ
  trial_status identity_id now s = do
    current ← utc naive_time now
    specs ← trial_specs identity_id current
    let remaining = specs.0.limit - Store.bucket_count specs.0 s
    if leb remaining 5 then ok remaining else err invalid_record

  -- RegisteredQuotaStatus, whose fields are at most 10 and 50
  unfoldable pub registered_status :
      String → DateTime → Store → Result Error (ℕ × ℕ × Option ℕ × Option ℕ)
  registered_status user_id now s = do
    current ← utc naive_time now
    specs ← registered_specs user_id current
    let daily = specs.0.limit - Store.bucket_count specs.0 s
    let monthly = specs.1.limit - Store.bucket_count specs.1 s
    require (leb daily 10) invalid_record
    require (leb monthly 50) invalid_record
    ok (daily, monthly, specs.0.resets_at, specs.1.resets_at)
