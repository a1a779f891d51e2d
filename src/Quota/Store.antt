-- ===== src/Quota/Store.antt =====
-- `InMemoryQuotaStore` of app/limits/reservations.py. Every method holds the store's lock, so a
-- method is one step of the state. The identifier that `uuid4` draws is an argument.
pub mod Counters
pub mod Conservation
pub mod Invariant
pub mod Contract
pub mod Recovery
pub mod Final
use weiquan_agent.Prelude.{
  ℕ, ◌+◌, ◌-◌, String, Bool, true, false, ◌&&◌, Option, some, none, List, [], ◌∷◌, map, leb, ltb,
  if◌then◌else◌, Key, ◌==◌, string_eq, pair_eq, Result, ok, err, attempt, DateTime, utc, take,
  length, ◌≡◌, ◌↔◌, arith, ◌>>=◌,
}
use weiquan_agent.Dict.{Dict, get, put, values}
use weiquan_agent.Quota.{
  Kind, trial, registered, Status, reserved, succeeded, refunded, Error, naive_time, invalid_target,
  key_error, BucketKey, bucket_key_eq, key_le, BucketSpec, key, Reservation, make_reservation,
  exceeded_error,
}

abbrev pub kind_beq : Kind → Kind → Bool
kind_beq trial trial = true
kind_beq registered registered = true
kind_beq _ _ = false

pub record LogicalKey : Type 0 where
  pub kind : Kind
  pub subject_id : String
  pub logical_call_id : String

abbrev pub logical_key_beq : LogicalKey → LogicalKey → Bool
logical_key_beq a b =
    kind_beq a.kind b.kind
    && (a.subject_id == b.subject_id && a.logical_call_id == b.logical_call_id)

pub kind_beq_iff : (a b : Kind) → (kind_beq a b ≡ true) ↔ (a ≡ b)
kind_beq_iff trial trial = ground arith
kind_beq_iff trial registered = ground arith
kind_beq_iff registered trial = ground arith
kind_beq_iff registered registered = ground arith

pub logical_key_beq_iff : (a b : LogicalKey) → (logical_key_beq a b ≡ true) ↔ (a ≡ b)
logical_key_beq_iff a b = ground (
  arith,
  kind_beq_iff a.kind b.kind,
  string_eq.agrees_iff a.subject_id b.subject_id,
  string_eq.agrees_iff a.logical_call_id b.logical_call_id,
)

instance abbrev pub logical_key_eq : Key LogicalKey
logical_key_eq = record { agrees = logical_key_beq; agrees_iff = logical_key_beq_iff }

abbrev pub Counts : Type 0
Counts = Dict BucketKey ℕ

pub record Store : Type 0 where
  pub counts : Counts
  pub reservations : Dict String Reservation
  pub logical : Dict LogicalKey String

abbrev pub empty : Store
empty = record { counts = []; reservations = []; logical = [] }

abbrev pub or_zero : Option ℕ → ℕ
or_zero none = 0
or_zero (some n) = n

-- self._counts.get(key, 0)
unfoldable pub count_of : BucketKey → Counts → ℕ
count_of k c = or_zero (get k c)

insert_sorted : BucketSpec → List BucketSpec → List BucketSpec
insert_sorted x [] = x ∷ []
insert_sorted x (y ∷ ys) = if key_le (key x) (key y) then x ∷ y ∷ ys else y ∷ insert_sorted x ys

-- sorted(buckets, key=lambda item: item.key), which is stable
unfoldable pub sorted : List BucketSpec → List BucketSpec
unfolding insert_sorted
sorted [] = []
sorted (x ∷ xs) = insert_sorted x (sorted xs)

unfoldable pub check_buckets : Counts → List BucketSpec → Result Error (Unit {0})
check_buckets c [] = ok tt
check_buckets c (spec ∷ rest) =
    let later = check_buckets c rest in
    if leb spec.limit (count_of (key spec) c)
    then err (exceeded_error spec.exceeded_code)
    else later

unfoldable pub increment : List BucketKey → Counts → Counts
increment [] c = c
increment (k ∷ ks) c = increment ks (put k (count_of k c + 1) c)

unfoldable pub decrement : List BucketKey → Counts → Counts
decrement [] c = c
decrement (k ∷ ks) c = decrement ks (put k (count_of k c - 1) c)

-- What is written once a reservation is granted.
unfoldable pub record_reservation : LogicalKey → Reservation → Store → Store
record_reservation logical_key r s = record {
  counts = increment r.bucket_keys s.counts;
  reservations = put r.id r s.reservations;
  logical = put logical_key r.id s.logical;
}

-- The part of `reserve` for a call that has no reservation yet.
unfoldable pub grant :
    String → LogicalKey → List BucketSpec → ℕ → Store → Result Error Reservation × Store
grant new_id logical_key ordered current s = attempt (check_buckets s.counts ordered) s λ _.
    attempt
      (make_reservation (record {
        id = new_id;
        kind = logical_key.kind;
        subject_id = logical_key.subject_id;
        logical_call_id = logical_key.logical_call_id;
        status = reserved;
        bucket_keys = map key ordered;
        created_at = current;
        updated_at = current;
      }))
      s λ r. (ok r, record_reservation logical_key r s)

abbrev pub found_or_key_error : Option Reservation → Result Error Reservation
found_or_key_error none = err key_error
found_or_key_error (some r) = ok r

unfoldable pub reserve_at :
    Option String
    → String
    → LogicalKey
    → List BucketSpec
    → ℕ
    → Store
    → Result Error Reservation × Store
reserve_at (some existing_id) new_id logical_key ordered current s =
    (found_or_key_error (get existing_id s.reservations), s)
reserve_at none new_id logical_key ordered current s = grant new_id logical_key ordered current s

unfoldable pub reserve :
    String → LogicalKey → List BucketSpec → DateTime → Store → Result Error Reservation × Store
unfolding reserve_at
reserve new_id logical_key buckets now s =
    attempt (utc naive_time now) s λ current.
      reserve_at (get logical_key s.logical) new_id logical_key (sorted buckets) current s

abbrev pub target_status : String → Option Status
target_status target =
    if target == "succeeded"
    then some succeeded
    else if target == "refunded"
    then some refunded
    else none

abbrev pub is_reserved : Status → Bool
is_reserved reserved = true
is_reserved _ = false

abbrev pub counts_after : Status → List BucketKey → Counts → Counts
counts_after refunded ks c = decrement ks c
counts_after _ ks c = c

-- The part of `transition` behind the lookup.
unfoldable pub settle : Status → ℕ → String → Reservation → Store → Result Error Reservation × Store
settle target current id existing s =
    if is_reserved existing.status
    then (
      ok (record existing { status = target; updated_at = current }),
      record s {
        counts = counts_after target existing.bucket_keys s.counts;
        reservations =
            put id (record existing { status = target; updated_at = current }) s.reservations;
      },
    )
    else (ok existing, s)

unfoldable pub transition_found :
    Option Reservation → Status → ℕ → String → Store → Result Error Reservation × Store
transition_found none target current id s = (err key_error, s)
transition_found (some existing) target current id s = settle target current id existing s

abbrev or_invalid_target : Option Status → Result Error Status
or_invalid_target none = err invalid_target
or_invalid_target (some t) = ok t

unfoldable pub transition : String → String → DateTime → Store → Result Error Reservation × Store
unfolding transition_found
transition id target now s = attempt (or_invalid_target (target_status target)) s λ status.
    attempt (utc naive_time now) s
      λ current. transition_found (get id s.reservations) status current id s

unfoldable pub get_reservation : String → Store → Result Error Reservation
get_reservation id s = found_or_key_error (get id s.reservations)

unfoldable pub bucket_count : BucketSpec → Store → ℕ
bucket_count spec s = count_of (key spec) s.counts

unfoldable pub is_stale : ℕ → Reservation → Bool
is_stale cutoff r = is_reserved r.status && ltb r.created_at cutoff

unfoldable pub stale_ids : ℕ → List Reservation → List String
stale_ids cutoff [] = []
stale_ids cutoff (r ∷ rs) =
    let rest = stale_ids cutoff rs in if is_stale cutoff r then r.id ∷ rest else rest

-- `for reservation_id in stale_ids: self.transition(...)`
unfoldable pub refund_each : List String → DateTime → Store → Result Error (Unit {0}) × Store
refund_each [] now s = (ok tt, s)
refund_each (id ∷ ids) now s =
    let (r, s') = transition id "refunded" now s in attempt r s' λ _. refund_each ids now s'

unfoldable pub recover_stale : DateTime → DateTime → ℕ → Store → Result Error ℕ × Store
recover_stale cutoff now limit s = attempt (utc naive_time cutoff) s λ stale_cutoff.
    let ids = take limit (stale_ids stale_cutoff (values s.reservations)) in
    let (r, s') = refund_each ids now s in attempt r s' λ _. (ok (length ids), s')
