-- ===== src/Quota/Store/Final.antt =====
-- What a settled reservation of `InMemoryQuotaStore`, app/limits/reservations.py, is through any
-- further calls of the store.
use weiquan_agent.Prelude.{
  ℕ, String, false, some, List, [], ◌∷◌, ◌≡◌, ◌≢◌, refl, sym, ◌==◌, string_eq, ok, attempt-keeps,
  DateTime, aware, utc, arith, Bool-cases, Option-cases, Result-cases, ==_refl, ap, ◌∙◌, inl, inr,
  All, take,
}
use weiquan_agent.Dict.{get, values}
use weiquan_agent.Dict.Laws.{get-put}
use weiquan_agent.Quota.Store.Invariant.{granted, grant_cases}
use weiquan_agent.Quota.Store.Contract.{at_id}
use weiquan_agent.Quota.{Status, reserved, succeeded, refunded, BucketSpec, Reservation, naive_time}
use weiquan_agent.Quota.Store.{
  Store, LogicalKey, sorted, is_reserved, settle, transition_found, transition, target_status,
  logical_key_eq, reserve, reserve_at, grant, record_reservation, stale_ids, refund_each,
  recover_stale,
}

-- The reservation is stored under its identifier, and is not open.
abbrev pub IsSettled : String → Reservation → Store → Type 0
IsSettled id r s = (get id s.reservations ≡ some r) × (is_reserved r.status ≡ false)

-- The calls of the store that write, with the identifier that `uuid4` draws first.
pub data Call : Type 0 where
  reserving : String → LogicalKey → List BucketSpec → DateTime → Call
  settling : String → String → DateTime → Call
  -- cutoff, now, limit
  recovering : DateTime → DateTime → ℕ → Call

abbrev pub after : Call → Store → Store
after (reserving new_id lk buckets now) s = (reserve new_id lk buckets now s).1
after (settling id target now) s = (transition id target now s).1
after (recovering cutoff now limit) s = (recover_stale cutoff now limit s).1

abbrev pub run : List Call → Store → Store
run [] s = s
run (call ∷ calls) s = run calls (after call s)

-- No call draws the identifier again.
abbrev pub IsFresh : String → Call → Type 0
IsFresh id (reserving new_id lk buckets now) = new_id ≢ id
IsFresh id (settling other target now) = Unit
IsFresh id (recovering cutoff now limit) = Unit

module _ (id : String) (r : Reservation) where
  settle-IsSettled :
      (status : Status) (t : ℕ) (other : String) (existing : Reservation) (s : Store)
      → get other s.reservations ≡ some existing
      → IsSettled id r s
      → IsSettled id r (settle status t other existing s).1
  unfolding settle
  settle-IsSettled status t other existing s found h =
      elim (Bool-cases (is_reserved existing.status)) [
        | inr closed ↦ rw closed h
        | inl is_open ↦ elim (Bool-cases (other == id)) [
          | inl same ↦
              let is_id : other ≡ id = (string_eq.agrees_iff other id).0 same in
              absurd (ground (arith, rw is_id at found, h.0, h.1, is_open))
          | inr differs ↦ rw is_open (
            rw
                (
                  get-put other id (record existing { status = status; updated_at = t })
                      s.reservations,
                  differs,
                )
                h.0,
            h.1,
          )
        ]
      ]

  transition-IsSettled :
      (other target : String) (now : DateTime) (s : Store)
      → IsSettled id r s
      → IsSettled id r (transition other target now s).1
  unfolding transition
  transition-IsSettled other target now s h = attempt-keeps (IsSettled id r) _ s _ h (λ status.
      attempt-keeps (IsSettled id r) (utc naive_time now) s _ h (λ t.
        elim (Option-cases (get other s.reservations)) [
          | inl e ↦ rw e (unfold transition_found in h)
          | inr (existing, e) ↦
              rw e (unfold transition_found in settle-IsSettled status t other existing s e h)
        ]))

  refund_each-IsSettled :
      (ids : List String) (now : DateTime) (s : Store)
      → IsSettled id r s
      → IsSettled id r (refund_each ids now s).1
  unfolding refund_each
  refund_each-IsSettled [] now s h = h
  refund_each-IsSettled (other ∷ ids) now s h =
      let h' : IsSettled id r (transition other "refunded" now s).1 =
        transition-IsSettled other "refunded" now s h in
      attempt-keeps (IsSettled id r) _ (transition other "refunded" now s).1 _ h'
        (λ _. refund_each-IsSettled ids now (transition other "refunded" now s).1 h')

  recover_stale-IsSettled :
      (cutoff now : DateTime) (limit : ℕ) (s : Store)
      → IsSettled id r s
      → IsSettled id r (recover_stale cutoff now limit s).1
  unfolding recover_stale
  recover_stale-IsSettled cutoff now limit s h =
      attempt-keeps (IsSettled id r) (utc naive_time cutoff) s _ h (λ t.
        let h' : IsSettled id r
            (refund_each (take limit (stale_ids t (values s.reservations))) now s).1 =
          refund_each-IsSettled (take limit (stale_ids t (values s.reservations))) now s h in
        attempt-keeps (IsSettled id r) _ _ _ h' (λ _. h'))

  reserve-IsSettled :
      (new_id : String) (lk : LogicalKey) (buckets : List BucketSpec) (now : DateTime) (s : Store)
      → new_id ≢ id
      → IsSettled id r s
      → IsSettled id r (reserve new_id lk buckets now s).1
  unfolding reserve
  reserve-IsSettled new_id lk buckets now s fresh h =
      attempt-keeps (IsSettled id r) (utc naive_time now) s _ h (λ t.
        elim (Option-cases (get lk s.logical)) [
          | inr (x, e) ↦ rw e (unfold reserve_at in h)
          | inl e ↦ rw e (unfold reserve_at in granted_keeps t)
        ])
    where
      other_id : (new_id == id) ≡ false
      other_id = elim (Bool-cases (new_id == id)) [
        | inl same ↦ absurd (fresh ((string_eq.agrees_iff new_id id).0 same))
        | inr differs ↦ differs
      ]

      granted_keeps : (t : ℕ) → IsSettled id r (grant new_id lk (sorted buckets) t s).1
      granted_keeps t = elim (grant_cases new_id lk (sorted buckets) t s) [
        | inl (x, raised) ↦ rw raised h
        | inr (room, done) ↦
            let made : Reservation = granted new_id lk (sorted buckets) t in
            rw done (
              unfold record_reservation in
              (rw (get-put new_id id made s.reservations, other_id) h.0, h.1))
      ]

  after-IsSettled :
      (call : Call) (s : Store) → IsFresh id call → IsSettled id r s → IsSettled id r (after call s)
  after-IsSettled (reserving new_id lk buckets now) s fresh h =
      reserve-IsSettled new_id lk buckets now s fresh h
  after-IsSettled (settling other target now) s fresh h = transition-IsSettled other target now s h
  after-IsSettled (recovering cutoff now limit) s fresh h =
      recover_stale-IsSettled cutoff now limit s h

  run-IsSettled :
      (calls : List Call) (s : Store)
      → All (IsFresh id) calls
      → IsSettled id r s
      → IsSettled id r (run calls s)
  run-IsSettled [] s fresh h = h
  run-IsSettled (call ∷ calls) s fresh h =
      run-IsSettled calls (after call s) fresh.1 (after-IsSettled call s fresh.0 h)

closes :
    (status : Status) (id : String) (t : ℕ) (s : Store) (existing r : Reservation)
    → is_reserved status ≡ false
    → get id s.reservations ≡ some existing
    → (settle status t id existing s).0 ≡ ok r
    → IsSettled id r (settle status t id existing s).1
unfolding settle
closes status id t s existing r closed found done =
    elim (Bool-cases (is_reserved existing.status)) [
      | inr kept ↦
          let same : existing ≡ r = ground (arith, rw kept at done) in
          rw kept (rw (sym same) found, rw (sym same) kept)
      | inl is_open ↦
          let made : Reservation = record existing { status = status; updated_at = t } in
          let same : made ≡ r = ground (arith, rw is_open at done) in
          rw is_open (
            rw (get-put id id made s.reservations, ==_refl id) (ap some same),
            rw (sym same) closed,
          )
    ]

closing_target :
    (target : String) (status : Status)
    → target_status target ≡ some status
    → is_reserved status ≡ false
closing_target target reserved h = absurd (ground (arith, h))
closing_target target succeeded h = refl
closing_target target refunded h = refl

transition-settles :
    (id target : String) (now : DateTime) (s : Store) (r : Reservation)
    → (transition id target now s).0 ≡ ok r
    → IsSettled id r (transition id target now s).1
unfolding transition transition_found
transition-settles id target now s r done = elim (Option-cases (target_status target)) [
  | inl e ↦ absurd (ground (arith, rw e at done))
  | inr (status, e) ↦ elim (Result-cases (utc naive_time now)) [
    | inr (x, u) ↦ absurd (ground (arith, rw (e, u) at done))
    | inl (t, u) ↦ elim (Option-cases (get id s.reservations)) [
      | inl none_there ↦ absurd (ground (arith, rw (e, u, none_there) at done))
      | inr (existing, found) ↦
          rw (e, u, found)
            (closes status id t s existing r (closing_target target status e) found
              (rw (e, u, found) at done))
    ]
  ]
]

-- Settling is final. Once a transition of a reservation has succeeded, then after any further
-- history of reservations (none of which draws its identifier again), transitions and recoveries,
-- failing ones included, a transition of it to either target returns the same reservation and
-- changes nothing.
pub transition-settled :
    (id target : String) (now : DateTime) (s : Store) (r : Reservation)
    → (transition id target now s).0 ≡ ok r
    → (calls : List Call) → All (IsFresh id) calls
    → (target' : String) (status : Status) (t : ℕ) → target_status target' ≡ some status
    → let s' = run calls (transition id target now s).1 in
      transition id target' (aware t) s' ≡ (ok r, s')
transition-settled id target now s r done calls fresh target' status t known =
    let s' : Store = run calls (transition id target now s).1 in
    let (there, closed) =
      run-IsSettled id r calls (transition id target now s).1 fresh
        (transition-settles id target now s r done) in
    at_id id target' t s' status r known there ∙ unfold settle in rw closed refl
