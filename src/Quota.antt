-- ===== src/Quota.antt =====
-- The records of app/limits/quota.py: bucket specifications, reservations and their errors.
pub mod Store
pub mod Service
pub mod Controller
mod Tests
use Prim.Native.Nat.{Ordering}
use Prim.Native.String.{count as str_count, compare as str_compare}
use weiquan_agent.Prelude.{
  ℕ, String, ◌≡◌, ◌↔◌, Bool, true, false, Option, some, none, List, [], ◌∷◌, ◌&&◌, ◌||◌, arith, leb,
  ltb, if◌then◌else◌, Key, ◌==◌, string_eq, Result, ok, err, require, ◌>>=◌, ◌>>◌, utc,
}

pub data Kind : Type 0 where
  trial registered : Kind

pub data Status : Type 0 where
  reserved succeeded refunded : Status

pub data Error : Type 0 where
  -- ValueError of `_utc`, of an unknown target, of an unknown error code
  naive_time invalid_target unknown_code : Error
  -- ValueError of the constructor of QuotaService
  invalid_limit invalid_stale_after : Error
  -- pydantic's ValidationError
  invalid_record : Error
  key_error : Error
  -- QuotaExceededError(code)
  quota_exceeded : String → Error

pub record BucketKey : Type 0 where
  pub bucket_type : String
  pub subject_key : String
  pub period_key : String

abbrev pub bucket_key_beq : BucketKey → BucketKey → Bool
bucket_key_beq a b =
    a.bucket_type == b.bucket_type
    && (a.subject_key == b.subject_key && a.period_key == b.period_key)

pub bucket_key_beq_iff : (a b : BucketKey) → (bucket_key_beq a b ≡ true) ↔ (a ≡ b)
bucket_key_beq_iff a b = ground (
  arith,
  string_eq.agrees_iff a.bucket_type b.bucket_type,
  string_eq.agrees_iff a.subject_key b.subject_key,
  string_eq.agrees_iff a.period_key b.period_key,
)

instance abbrev pub bucket_key_eq : Key BucketKey
bucket_key_eq = record { agrees = bucket_key_beq; agrees_iff = bucket_key_beq_iff }

-- Tuples of strings compare by code points, the first difference deciding.
abbrev then_compare : Ordering → Bool → Bool
then_compare Ordering.lt b = true
then_compare Ordering.eq b = b
then_compare Ordering.gt b = false

abbrev pub key_le : BucketKey → BucketKey → Bool
key_le a b = then_compare (str_compare a.bucket_type b.bucket_type) (
    then_compare (str_compare a.subject_key b.subject_key)
      (then_compare (str_compare a.period_key b.period_key) true))

pub record BucketSpec : Type 0 where
  pub bucket_type : String
  pub subject_key : String
  pub period_key : String
  pub limit : ℕ
  pub exceeded_code : String
  pub resets_at : Option ℕ

abbrev pub key : BucketSpec → BucketKey
key spec = record {
  bucket_type = spec.bucket_type;
  subject_key = spec.subject_key;
  period_key = spec.period_key;
}

-- Field(min_length=lo, max_length=hi), in characters
abbrev pub has_length : ℕ → ℕ → String → Bool
has_length lo hi s = leb lo (str_count s) && leb (str_count s) hi

unfoldable pub make_spec : BucketSpec → Result Error BucketSpec
make_spec spec =
    if has_length 1 50 spec.bucket_type
      && (has_length 1 100 spec.subject_key
          && (has_length 1 20 spec.period_key
              && (leb 1 spec.limit && has_length 1 100 spec.exceeded_code)))
    then ok spec
    else err invalid_record

pub record Reservation : Type 0 where
  pub id : String
  pub kind : Kind
  pub subject_id : String
  pub logical_call_id : String
  pub status : Status
  pub bucket_keys : List BucketKey
  pub created_at : ℕ
  pub updated_at : ℕ

unfoldable pub make_reservation : Reservation → Result Error Reservation
make_reservation r =
    if has_length 36 36 r.id
      && (has_length 1 100 r.subject_id && has_length 1 100 r.logical_call_id)
    then ok r
    else err invalid_record

-- QuotaExceededError.__init__
unfoldable pub exceeded_error : String → Error
exceeded_error code =
    if code == "trial_quota_exceeded"
      || (code == "trial_daily_capacity_exceeded"
          || (code == "registered_daily_quota_exceeded"
              || code == "registered_monthly_quota_exceeded"))
    then quota_exceeded code
    else unknown_code
