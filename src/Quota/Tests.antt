-- ===== src/Quota/Tests.antt =====
-- Runs of the quota store, its service and the controller at concrete inputs.
use weiquan_agent.Prelude.{
  ◌<◌, String, ◌≡◌, refl, false, some, none, List, [], ◌∷◌, ok, err, aware, arith, All, map,
  occurrences, length, min, if◌then◌else◌, ◌+◌, string_eq, contains, take,
}
use weiquan_agent.Dict.{get, put, values}
use weiquan_agent.Quota.{
  trial, registered, BucketSpec, BucketKey, bucket_key_eq, key, Reservation, reserved, succeeded,
  refunded, quota_exceeded, make_reservation, exceeded_error,
}
use weiquan_agent.Quota.Store
use weiquan_agent.Quota.Store.{
  Store, LogicalKey, logical_key_eq, empty, count_of, is_stale, stale_ids,
}
use weiquan_agent.Quota.Store.Conservation.{IsConsistent, empty-IsConsistent}
use weiquan_agent.Quota.Store.Invariant.{
  reserve-IsConsistent, transition-IsConsistent, recover_stale-IsConsistent,
}
use weiquan_agent.Quota.Store.Contract.{
  reserve-reserve, reserve-counts, reserve-err, transition-reserve,
}
use weiquan_agent.Quota.Store.Final
use weiquan_agent.Quota.Store.Final.{Call, reserving, settling, recovering, transition-settled}
use weiquan_agent.Quota.Store.Recovery.{recover_stale_lem, recover_stale_complete, refund_entry}
use weiquan_agent.Quota.Service.{Calendar, Service}
use weiquan_agent.Quota.Service.Runs
use weiquan_agent.Quota.Service.Runs.{run-IsWithin, empty-IsWithin}
use weiquan_agent.Quota.Service.Bounds.{IsWithin}
use weiquan_agent.Quota.Controller
use weiquan_agent.Quota.Controller.{Controller, Shared}
use weiquan_agent.Quota.Controller.Once.{refund-succeed}

abbrev first_id : String
first_id = "00000000-0000-4000-8000-000000000001"

abbrev second_id : String
second_id = "00000000-0000-4000-8000-000000000002"

abbrev call_a : LogicalKey
call_a = record { kind = registered; subject_id = "user"; logical_call_id = "a" }

abbrev day : BucketSpec
day = record {
  bucket_type = "registered_day";
  subject_key = "user";
  period_key = "2026-08-10";
  limit = 1;
  exceeded_code = "registered_daily_quota_exceeded";
  resets_at = none;
}

abbrev month : BucketSpec
month = record {
  bucket_type = "registered_month";
  subject_key = "user";
  period_key = "2026-08";
  limit = 50;
  exceeded_code = "registered_monthly_quota_exceeded";
  resets_at = none;
}

abbrev asked : List BucketSpec
asked = month ∷ day ∷ []

abbrev one_call : Store
one_call = (Store.reserve first_id call_a asked (aware 100) empty).1

abbrev made : Reservation
made = record {
  id = first_id;
  kind = registered;
  subject_id = "user";
  logical_call_id = "a";
  status = reserved;
  bucket_keys = key day ∷ key month ∷ [];
  created_at = 100;
  updated_at = 100;
}

first_reserve : (Store.reserve first_id call_a asked (aware 100) empty).0 ≡ ok made
unfolding Store.reserve Store.grant Store.check_buckets Store.sorted Store.record_reservation
    make_reservation count_of get
first_reserve = refl

full_day :
    (Store.reserve second_id (record call_a { logical_call_id = "b" }) asked (aware 200) one_call).0
    ≡ err (quota_exceeded "registered_daily_quota_exceeded")
unfolding Store.reserve Store.grant Store.check_buckets Store.sorted Store.record_reservation
    Store.increment make_reservation count_of get put exceeded_error
full_day = refl

one_call-IsConsistent : IsConsistent one_call
unfolding get
one_call-IsConsistent =
    reserve-IsConsistent first_id call_a empty empty-IsConsistent asked (aware 100) refl

reserve-IsConsistent_example :
    IsConsistent (Store.reserve second_id call_a asked (aware 100) empty).1
unfolding get
reserve-IsConsistent_example =
    reserve-IsConsistent second_id call_a empty empty-IsConsistent asked (aware 100) refl

transition-IsConsistent_example :
    IsConsistent (Store.transition first_id "refunded" (aware 200) one_call).1
transition-IsConsistent_example =
    transition-IsConsistent first_id "refunded" (aware 200) one_call one_call-IsConsistent

recover_stale-IsConsistent_example :
    IsConsistent (Store.recover_stale (aware 150) (aware 200) 100 one_call).1
recover_stale-IsConsistent_example =
    recover_stale-IsConsistent (aware 150) (aware 200) 100 one_call one_call-IsConsistent

reserve-reserve_example :
    Store.reserve second_id call_a [] (aware 300) one_call ≡ (ok made, one_call)
reserve-reserve_example =
    reserve-reserve first_id second_id call_a asked [] 100 300 empty made first_reserve

reserve-counts_example :
    All (λ spec. count_of (key spec) empty.counts < spec.limit) (Store.sorted asked)
    × ((k : BucketKey)
        → count_of k one_call.counts ≡ count_of k empty.counts + occurrences k (map key asked))
unfolding get
reserve-counts_example = reserve-counts first_id call_a asked 100 empty made refl first_reserve

transition-reserve_example :
    count_of (key day) (Store.transition first_id "refunded" (aware 200) one_call).1.counts
    ≡ count_of (key day) empty.counts
unfolding get
transition-reserve_example =
    transition-reserve first_id call_a asked 100 200 empty made refl first_reserve (key day)

abbrev spent : Reservation
spent = record made { status = succeeded; updated_at = 150 }

first_settled : (Store.transition first_id "succeeded" (aware 150) one_call).0 ≡ ok spent
unfolding Store.reserve Store.grant Store.check_buckets Store.sorted Store.record_reservation
    Store.increment Store.transition Store.settle make_reservation count_of get put
first_settled = refl

-- What happens to the store afterwards.
abbrev afterwards : List Call
afterwards =
    reserving second_id (record call_a { logical_call_id = "b" }) (month ∷ []) (aware 200)
    ∷ settling second_id "refunded" (aware 250)
    ∷ recovering (aware 260) (aware 270) 100
    ∷ []

transition-settled_example :
    let s = Final.run afterwards (Store.transition first_id "succeeded" (aware 150) one_call).1 in
    Store.transition first_id "refunded" (aware 300) s ≡ (ok spent, s)
transition-settled_example =
    transition-settled first_id "succeeded" (aware 150) one_call spent first_settled afterwards
      ((λ e. cc ((string_eq.agrees_iff second_id first_id).1 e)), (tt, (tt, tt))) "refunded"
      refunded 300 refl

reserve-err_example :
    (Store.reserve second_id (record call_a { logical_call_id = "b" }) asked (aware 200) one_call).1
    ≡ one_call
reserve-err_example =
    reserve-err second_id (record call_a { logical_call_id = "b" }) asked (aware 200) one_call
      (quota_exceeded "registered_daily_quota_exceeded") full_day

recover_stale_lem_example :
    ((Store.recover_stale (aware 150) (aware 200) 100 one_call).0
      ≡ ok (min 100 (length (stale_ids 150 (values one_call.reservations)))))
    × ((j : String)
        → get j (Store.recover_stale (aware 150) (aware 200) 100 one_call).1.reservations ≡ (
            if contains j (take 100 (stale_ids 150 (values one_call.reservations)))
            then refund_entry 200 (get j one_call.reservations)
            else get j one_call.reservations))
recover_stale_lem_example = recover_stale_lem 150 200 100 one_call one_call-IsConsistent

abbrev refunded_made : Reservation
refunded_made = record made { status = refunded; updated_at = 200 }

recovered :
    get first_id (Store.recover_stale (aware 150) (aware 200) 100 one_call).1.reservations
    ≡ some refunded_made
unfolding Store.reserve Store.grant Store.check_buckets Store.sorted Store.record_reservation
    Store.increment Store.decrement Store.recover_stale Store.refund_each Store.transition
    Store.settle stale_ids is_stale make_reservation count_of get put
recovered = refl

recover_stale_complete_example : is_stale 150 refunded_made ≡ false
unfolding Store.reserve Store.grant Store.check_buckets Store.sorted Store.record_reservation
    stale_ids is_stale make_reservation count_of get put Store.increment
recover_stale_complete_example =
    recover_stale_complete 150 200 100 one_call one_call-IsConsistent (omega arith) first_id
      refunded_made recovered

abbrev fixed : Calendar
fixed = record {
  year = λ t. 2026;
  month = λ t. 8;
  iso_date = λ t. "2026-08-10";
  next_midnight = λ t. t + 1;
  month_start = λ y m. y + m;
  month_text = λ y m. "2026-08";
}

abbrev limits : Service
limits = record {
  trial_total_limit = 5;
  trial_global_daily_limit = 50;
  registered_daily_limit = 10;
  registered_monthly_limit = 50;
  stale_after = 300;
}

abbrev history : List (Runs.Call fixed limits)
history =
    Runs.reserves first_id trial "t" "a" (aware 1000)
    ∷ Runs.refunds first_id (aware 1100)
    ∷ Runs.recovers (aware 2000) 100
    ∷ []

run-IsWithin_example : IsWithin limits (Runs.run fixed limits history empty)
run-IsWithin_example = run-IsWithin fixed limits history empty (empty-IsWithin limits)

abbrev in_use : Shared
in_use = record {
  controller = record {
    kind = registered;
    subject_id = "user";
    logical_call_id = "a";
    reservation = some made;
  };
  store = one_call;
}

stored : get first_id one_call.reservations ≡ some made
unfolding Store.reserve Store.grant Store.check_buckets Store.sorted Store.record_reservation
    make_reservation count_of get put
stored = refl

refund-succeed_example :
    let w' = (Controller.succeed fixed limits (aware 200) in_use).1 in
    ((Controller.succeed fixed limits (aware 200) in_use).0 ≡ ok tt)
    × (get first_id w'.store.reservations
        ≡ some (record made { status = succeeded; updated_at = 200 }))
    × (w'.store.counts ≡ one_call.counts)
    × (Controller.refund fixed limits (aware 300) w' ≡ (ok tt, w'))
refund-succeed_example = refund-succeed fixed limits 200 (aware 300) in_use made refl refl stored
