-- ===== src/Quota/Service/Bounds.antt =====
-- The buckets of `QuotaService`, app/limits/reservations.py, against their limits, for one call.
use weiquan_agent.Prelude.{
  ℕ, ◌+◌, ◌≤◌, ◌<◌, String, ◌≡◌, ◌≢◌, sym, ap, ◌∙◌, false, Option, some, none, List, [], ◌∷◌, map,
  if◌then◌else◌, ok, DateTime, aware, naive, ◌==◌, arith, inl, inr, Bool-cases, Option-cases,
  Result-cases, All, occurrences, string_eq, take,
}
use weiquan_agent.Dict.{get, values}
use weiquan_agent.Quota.{
  Status, reserved, succeeded, refunded, BucketKey, bucket_key_eq, BucketSpec, key, Reservation,
}
use weiquan_agent.Quota.Store
use weiquan_agent.Quota.Store.{
  Store, Counts, LogicalKey, count_of, increment, decrement, sorted, check_buckets, counts_after,
  is_reserved, settle, transition_found, transition, refund_each, stale_ids, target_status,
  reserve_at, record_reservation,
}
use weiquan_agent.Quota.Store.Counters.{
  count_of-increment, count_of-decrement, occurrences-sorted, check_buckets-room, All-of_sorted,
}
use weiquan_agent.Quota.Service.{Service}

-- The limit that the service sets for a type of bucket.
abbrev pub limit_of : Service → String → Option ℕ
limit_of v t =
    if t == "trial_total"
    then some v.trial_total_limit
    else if t == "trial_global_day"
    then some v.trial_global_daily_limit
    else if t == "registered_day"
    then some v.registered_daily_limit
    else if t == "registered_month"
    then some v.registered_monthly_limit
    else none

pub record IsWithin (v : Service) (s : Store) : Type 0 where
  pub bounded :
      (k : BucketKey) (n : ℕ) → limit_of v k.bucket_type ≡ some n → count_of k s.counts ≤ n

-- Counters that only fall stay within the limits.
pub IsWithin-mono :
    (v : Service) (s s' : Store)
    → ((k : BucketKey) → count_of k s'.counts ≤ count_of k s.counts)
    → IsWithin v s
    → IsWithin v s'
IsWithin-mono v s s' falls w = record { bounded = λ k n h. omega (arith, falls k, w.bounded k n h) }

settle-falls :
    (target : Status) (current : ℕ) (id : String) (r : Reservation) (s : Store) (k : BucketKey)
    → count_of k (settle target current id r s).1.counts ≤ count_of k s.counts
settle-falls target current id r s k =
    unfold settle in
    elim (Bool-cases (is_reserved r.status)) [
      | inl open_ ↦ rw open_ (lower target)
      | inr closed ↦ rw closed (omega arith)
    ]
  where
    lower : (t : Status) → count_of k (counts_after t r.bucket_keys s.counts) ≤ count_of k s.counts
    lower reserved = omega arith
    lower succeeded = omega arith
    lower refunded = omega (arith, count_of-decrement k r.bucket_keys s.counts)

pub transition-falls :
    (id target : String) (now : DateTime) (s : Store) (k : BucketKey)
    → count_of k (transition id target now s).1.counts ≤ count_of k s.counts
transition-falls id target (naive t) s k =
    unfold transition in
    elim (Option-cases (target_status target)) [
      | inl unknown ↦ rw unknown (omega arith)
      | inr (status, known) ↦ rw known (omega arith)
    ]
transition-falls id target (aware t) s k =
    unfold transition in
    elim (Option-cases (target_status target)) [
      | inl unknown ↦ rw unknown (omega arith)
      | inr (status, known) ↦ rw known (at status (get id s.reservations))
    ]
  where
    at :
        (status : Status) (o : Option Reservation)
        → count_of k (transition_found o status t id s).1.counts ≤ count_of k s.counts
    at status none = unfold transition_found in omega arith
    at status (some r) = unfold transition_found in settle-falls status t id r s k

pub refund_each-falls :
    (ids : List String) (now : DateTime) (s : Store) (k : BucketKey)
    → count_of k (refund_each ids now s).1.counts ≤ count_of k s.counts
unfolding refund_each
refund_each-falls [] now s k = omega arith
refund_each-falls (id ∷ ids) now s k =
    let first = transition-falls id "refunded" now s k in
    let rest = refund_each-falls ids now (transition id "refunded" now s).1 k in
    elim (Result-cases (transition id "refunded" now s).0) [
      | inl (r, done) ↦ rw done (omega arith)
      | inr (e, raised) ↦ rw raised (omega arith)
    ]

pub recover_stale-falls :
    (cutoff now : DateTime) (limit : ℕ) (s : Store) (k : BucketKey)
    → count_of k (Store.recover_stale cutoff now limit s).1.counts ≤ count_of k s.counts
unfolding Store.recover_stale
recover_stale-falls (naive t) now limit s k = omega arith
recover_stale-falls (aware t) now limit s k =
    let ids = take limit (stale_ids t (values s.reservations)) in
    let falls = refund_each-falls ids now s k in
    elim (Result-cases (refund_each ids now s).0) [
      | inl (u, done) ↦ rw done falls
      | inr (e, raised) ↦ rw raised falls
    ]

-- Two buckets under different keys, each with room and with the limit of its type.
pub record TwoBuckets (v : Service) (a b : BucketSpec) : Type 0 where
  pub apart : key a ≢ key b
  pub first_limit : limit_of v a.bucket_type ≡ some a.limit
  pub second_limit : limit_of v b.bucket_type ≡ some b.limit

pub granted-bounded :
    (v : Service) (a b : BucketSpec) (s : Store) (lk : LogicalKey) (r : Reservation)
    → TwoBuckets v a b
    → r.bucket_keys ≡ map key (sorted (a ∷ b ∷ []))
    → check_buckets s.counts (sorted (a ∷ b ∷ [])) ≡ ok tt
    → IsWithin v s
    → IsWithin v (record_reservation lk r s)
unfolding record_reservation
granted-bounded v a b s lk r two keys room w = record { bounded = bounded }
  where
    rooms : All (λ spec. count_of (key spec) s.counts < spec.limit) (a ∷ b ∷ [])
    rooms =
        All-of_sorted (λ spec. count_of (key spec) s.counts < spec.limit) (a ∷ b ∷ [])
          (check_buckets-room s.counts (sorted (a ∷ b ∷ [])) room)

    grows :
        (k : BucketKey)
        → count_of k (increment r.bucket_keys s.counts)
          ≡ count_of k s.counts + occurrences k (key a ∷ key b ∷ [])
    grows k = rw keys (
        count_of-increment k (map key (sorted (a ∷ b ∷ []))) s.counts
        ∙ ap (λ (n : ℕ). count_of k s.counts + n) (occurrences-sorted k (a ∷ b ∷ [])))

    bounded :
        (k : BucketKey) (n : ℕ)
        → limit_of v k.bucket_type ≡ some n
        → count_of k (increment r.bucket_keys s.counts) ≤ n
    bounded k n h = elim (Bool-cases (key a == k)) [
      | inl is_a ↦
          let e : key a ≡ k = (bucket_key_eq.agrees_iff (key a) k).0 is_a in
          let not_b : (key b == k) ≡ false = elim (Bool-cases (key b == k)) [
            | inl is_b ↦ absurd (two.apart (e ∙ sym ((bucket_key_eq.agrees_iff (key b) k).0 is_b)))
            | inr other ↦ other
          ] in
          rw (grows k, is_a, not_b)
            (rw (← e) (
              omega (
                arith,
                rooms.0,
                same_limit a.limit n
                    (sym two.first_limit ∙ ap (λ (x : BucketKey). limit_of v x.bucket_type) e ∙ h),
              )))
      | inr not_a ↦ elim (Bool-cases (key b == k)) [
        | inl is_b ↦
            let e : key b ≡ k = (bucket_key_eq.agrees_iff (key b) k).0 is_b in
            rw (grows k, not_a, is_b)
              (rw (← e) (
                omega (
                  arith,
                  rooms.1.0,
                  same_limit b.limit n (
                      sym two.second_limit
                      ∙ ap (λ (x : BucketKey). limit_of v x.bucket_type) e
                      ∙ h),
                )))
        | inr not_b ↦ rw (grows k, not_a, not_b) (omega (arith, w.bounded k n h))
      ]
    ]
      where
        same_limit : (m p : ℕ) → some m ≡ some p → m ≡ p
        same_limit m p e = ground arith
