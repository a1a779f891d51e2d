-- ===== src/Quota/Store/Invariant.antt =====
-- The operations of `InMemoryQuotaStore`, app/limits/reservations.py, and the consistency of the
-- store.
use weiquan_agent.Prelude.{
  ℕ, ◌+◌, ◌-◌, ◌<◌, ◌≤◌, String, ◌≡◌, refl, sym, ap, ◌∙◌, true, false, Option, some, none, List, [],
  ◌∷◌, map, arith, leb, if◌then◌else◌, ◌==◌, ok, err, occurrences, Result, inl, inr, Bool-cases,
  Option-cases, string_eq, DateTime, aware, naive, take, length, Result-cases, attempt, ◌⊎◌, ◌&&◌,
  Bool,
}
use weiquan_agent.Dict.{get, values}
use weiquan_agent.Quota.{
  Kind, trial, registered, Status, reserved, succeeded, refunded, BucketKey, bucket_key_eq,
  BucketSpec, key, Reservation, make_reservation, has_length, Error,
}
use weiquan_agent.Quota.Store.{
  Store, LogicalKey, logical_key_eq, sorted, check_buckets, record_reservation, grant, reserve_at,
  reserve, transition_found, transition, refund_each, recover_stale, target_status, stale_ids,
}
use weiquan_agent.Quota.Store.Conservation.{
  IsConsistent, record_reservation-IsConsistent, settle-IsConsistent,
}

-- The reservation that `grant` builds.
abbrev pub granted : String → LogicalKey → List BucketSpec → ℕ → Reservation
granted new_id lk ordered current = record {
  id = new_id;
  kind = lk.kind;
  subject_id = lk.subject_id;
  logical_call_id = lk.logical_call_id;
  status = reserved;
  bucket_keys = map key ordered;
  created_at = current;
  updated_at = current;
}

-- `grant` either raises and changes nothing, or records the reservation that it returns.
pub grant_cases :
    (new_id : String) (lk : LogicalKey) (ordered : List BucketSpec) (current : ℕ) (s : Store)
    → ((e : Error) × (grant new_id lk ordered current s ≡ (err e, s)))
      ⊎ ((check_buckets s.counts ordered ≡ ok tt)
          × (grant new_id lk ordered current s ≡ (
            ok (granted new_id lk ordered current),
            record_reservation lk (granted new_id lk ordered current) s,
          )))
unfolding grant
grant_cases new_id lk ordered current s = elim (Result-cases (check_buckets s.counts ordered)) [
  | inr (e, full) ↦ inl (e, rw full refl)
  | inl (u, room) ↦ made u room (Result-cases (make_reservation r))
]
  where
    r : Reservation
    r = granted new_id lk ordered current

    made :
        (u : Unit {0})
        → check_buckets s.counts ordered ≡ ok u
        → ((q : Reservation) × (make_reservation r ≡ ok q))
          ⊎ ((e : Error) × (make_reservation r ≡ err e))
        → ((e : Error) × (grant new_id lk ordered current s ≡ (err e, s)))
          ⊎ ((check_buckets s.counts ordered ≡ ok tt)
              × (grant new_id lk ordered current s ≡ (ok r, record_reservation lk r s)))
    made u room (inl (q, valid)) = inr (
      room,
      rw (room, valid) (ap (λ (x : Reservation). (ok x, record_reservation lk x s)) (same q valid)),
    )
      where
        same : (q : Reservation) → make_reservation r ≡ ok q → q ≡ r
        same q valid = unfold make_reservation in ground arith
    made u room (inr (e, invalid)) = inl (e, rw (room, invalid) refl)

module _ (new_id : String) (lk : LogicalKey) (s : Store) (v : IsConsistent s) where
  reserve_at-IsConsistent :
      (o : Option String) (ordered : List BucketSpec) (current : ℕ)
      → get new_id s.reservations ≡ none
      → IsConsistent (reserve_at o new_id lk ordered current s).1
  unfolding reserve_at
  reserve_at-IsConsistent (some id) ordered current fresh = v
  reserve_at-IsConsistent none ordered current fresh =
      elim (grant_cases new_id lk ordered current s) [
        | inl (e, raised) ↦ rw raised v
        | inr (room, done) ↦
            rw done (
              record_reservation-IsConsistent lk (granted new_id lk ordered current) s refl fresh v)
      ]

  -- Reserving under an identifier that no reservation has keeps the store consistent, whether it
  -- grants, finds the call's earlier reservation or raises.
  pub reserve-IsConsistent :
      (buckets : List BucketSpec) (now : DateTime)
      → get new_id s.reservations ≡ none
      → IsConsistent (reserve new_id lk buckets now s).1
  unfolding reserve
  reserve-IsConsistent buckets (aware t) fresh =
      reserve_at-IsConsistent (get lk s.logical) (sorted buckets) t fresh
  reserve-IsConsistent buckets (naive t) fresh = v

transition_found-IsConsistent :
    (o : Option Reservation) (target : Status) (current : ℕ) (id : String) (s : Store)
    → get id s.reservations ≡ o
    → IsConsistent s
    → IsConsistent (transition_found o target current id s).1
unfolding transition_found
transition_found-IsConsistent none target current id s found v = v
transition_found-IsConsistent (some r) target current id s found v =
    settle-IsConsistent target current id r s found v

-- A transition keeps the store consistent, on every branch.
pub transition-IsConsistent :
    (id target : String) (now : DateTime) (s : Store)
    → IsConsistent s
    → IsConsistent (transition id target now s).1
unfolding transition
transition-IsConsistent id target now s v = elim (Option-cases (target_status target)) [
  | inl unknown ↦ rw unknown v
  | inr (status, known) ↦ rw known (at_time now status)
]
  where
    at_time :
        (now : DateTime) (status : Status)
        → IsConsistent
            (attempt
              (weiquan_agent.Prelude.utc weiquan_agent.Quota.naive_time now)
              s
              λ current. transition_found (get id s.reservations) status current id s).1
    at_time (aware t) status =
        transition_found-IsConsistent (get id s.reservations) status t id s refl v
    at_time (naive t) status = v

refund_each-IsConsistent :
    (ids : List String) (now : DateTime) (s : Store)
    → IsConsistent s
    → IsConsistent (refund_each ids now s).1
unfolding refund_each
refund_each-IsConsistent [] now s v = v
refund_each-IsConsistent (id ∷ ids) now s v =
    elim (Result-cases (transition id "refunded" now s).0) [
      | inl (r, done) ↦
          rw done (refund_each-IsConsistent ids now (transition id "refunded" now s).1 next)
      | inr (e, raised) ↦ rw raised next
    ]
  where
    next : IsConsistent (transition id "refunded" now s).1
    next = transition-IsConsistent id "refunded" now s v

-- Recovery keeps the store consistent, also where it stops half way at an error.
pub recover_stale-IsConsistent :
    (cutoff now : DateTime) (limit : ℕ) (s : Store)
    → IsConsistent s
    → IsConsistent (recover_stale cutoff now limit s).1
unfolding recover_stale
recover_stale-IsConsistent (naive t) now limit s v = v
recover_stale-IsConsistent (aware t) now limit s v = elim (Result-cases (refund_each ids now s).0) [
  | inl (u, done) ↦ rw done swept
  | inr (e, raised) ↦ rw raised swept
]
  where
    ids : List String
    ids = take limit (stale_ids t (values s.reservations))

    swept : IsConsistent (refund_each ids now s).1
    swept = refund_each-IsConsistent ids now s v
