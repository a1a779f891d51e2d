-- ===== src/Quota/Store/Contract.antt =====
-- `reserve` and `transition` of `InMemoryQuotaStore`, app/limits/reservations.py, as a caller sees
-- them.
use weiquan_agent.Prelude.{
  ℕ, ◌+◌, ◌<◌, String, ◌≡◌, refl, ap, ◌∙◌, Option, some, none, List, map, arith, ok, err,
  occurrences, Result, inl, inr, string_eq, DateTime, aware, naive, ◌⊎◌, All, ==_refl,
}
use weiquan_agent.Dict.{get}
use weiquan_agent.Dict.Laws.{get-put}
use weiquan_agent.Quota.{
  Status, refunded, BucketKey, bucket_key_eq, BucketSpec, key, Reservation, Error,
}
use weiquan_agent.Quota.Store.{
  Store, LogicalKey, logical_key_eq, count_of, sorted, check_buckets, increment, record_reservation,
  reserve_at, reserve, settle, transition, target_status, found_or_key_error,
}
use weiquan_agent.Quota.Store.Counters.{
  count_of-increment, count_of-decrement, occurrences-sorted, check_buckets-room,
}
use weiquan_agent.Quota.Store.Invariant.{granted, grant_cases}

-- The earlier reservation of a logical call, if the store knows one.
abbrev pub earlier : LogicalKey → Store → Option String
earlier lk s = get lk s.logical

-- What a successful `reserve` did: it found the call's reservation and changed nothing, or it had
-- room in every bucket and recorded a new reservation.
pub reserve_cases :
    (new_id : String) (lk : LogicalKey) (buckets : List BucketSpec) (t : ℕ) (s : Store)
    (r : Reservation)
    → (reserve new_id lk buckets (aware t) s).0 ≡ ok r
    → ((id : String) × (earlier lk s ≡ some id)
        × (get id s.reservations ≡ some r)
        × ((reserve new_id lk buckets (aware t) s).1 ≡ s))
      ⊎ ((earlier lk s ≡ none)
          × (check_buckets s.counts (sorted buckets) ≡ ok tt)
          × (r ≡ granted new_id lk (sorted buckets) t)
          × ((reserve new_id lk buckets (aware t) s).1 ≡ record_reservation lk r s))
unfolding reserve
reserve_cases new_id lk buckets t s r h = at (earlier lk s) refl h
  where
    Outcome : Option String → Type 0
    Outcome o =
        ((id : String) × (earlier lk s ≡ some id)
          × (get id s.reservations ≡ some r)
          × ((reserve_at o new_id lk (sorted buckets) t s).1 ≡ s))
        ⊎ ((earlier lk s ≡ none)
            × (check_buckets s.counts (sorted buckets) ≡ ok tt)
            × (r ≡ granted new_id lk (sorted buckets) t)
            × ((reserve_at o new_id lk (sorted buckets) t s).1 ≡ record_reservation lk r s))

    found : (o : Option Reservation) → found_or_key_error o ≡ ok r → o ≡ some r
    found none e = cc
    found (some q) e = ground arith

    at :
        (o : Option String)
        → earlier lk s ≡ o
        → (reserve_at o new_id lk (sorted buckets) t s).0 ≡ ok r
        → Outcome o
    at (some id) known e = inl (id, known, found (get id s.reservations) e, refl)
    at none unknown e = elim (grant_cases new_id lk (sorted buckets) t s) [
      | inl (x, raised) ↦ cc (rw raised at e)
      | inr (room, done) ↦ inr (
        unknown,
        room,
        ground (arith, ap (λ (p : Result Error Reservation × Store). p.0) done),
        ground (
          arith,
          ap (λ (p : Result Error Reservation × Store). p.0) done,
          ap (λ (p : Result Error Reservation × Store). p.1) done,
        ),
      )
    ]

replay_found :
    (o : Option String) (id2 : String) (lk : LogicalKey) (ordered : List BucketSpec) (t : ℕ)
    (s : Store) (id : String) (r : Reservation)
    → o ≡ some id
    → get id s.reservations ≡ some r
    → reserve_at o id2 lk ordered t s ≡ (ok r, s)
unfolding reserve_at
replay_found none id2 lk ordered t s id r h k = cc
replay_found (some j) id2 lk ordered t s id r h k = rw (j_is, k) refl
  where
    j_is : j ≡ id
    j_is = ground arith

-- A repeated call gets the reservation of the first one and changes nothing, whatever identifier,
-- buckets and time the repetition comes with.
pub reserve-reserve :
    (id1 id2 : String) (lk : LogicalKey) (b1 b2 : List BucketSpec) (t1 t2 : ℕ) (s : Store)
    (r : Reservation)
    → (reserve id1 lk b1 (aware t1) s).0 ≡ ok r
    → let s' = (reserve id1 lk b1 (aware t1) s).1 in reserve id2 lk b2 (aware t2) s' ≡ (ok r, s')
reserve-reserve id1 id2 lk b1 b2 t1 t2 s r h = elim (reserve_cases id1 lk b1 t1 s r h) [
  | inl (id, known, found, kept) ↦ rw kept (again s id (known) found)
  | inr (unknown, room, is_new, recorded) ↦ rw recorded (
      again (record_reservation lk r s) r.id
        (unfold record_reservation in rw (get-put lk lk r.id s.logical, ==_refl lk) refl)
        (unfold record_reservation in rw (get-put r.id r.id r s.reservations, ==_refl r.id) refl))
]
  where
    again :
        (q : Store) (id : String)
        → earlier lk q ≡ some id
        → get id q.reservations ≡ some r
        → reserve id2 lk b2 (aware t2) q ≡ (ok r, q)
    again q id known found =
        unfold reserve in replay_found (earlier lk q) id2 lk (sorted b2) t2 q id r known found

-- A call with no earlier reservation that succeeds had room in every bucket, and each bucket's
-- counter grew by the number of times that the call names the bucket.
pub reserve-counts :
    (new_id : String) (lk : LogicalKey) (buckets : List BucketSpec) (t : ℕ) (s : Store)
    (r : Reservation)
    → earlier lk s ≡ none
    → (reserve new_id lk buckets (aware t) s).0 ≡ ok r
    → All (λ spec. count_of (key spec) s.counts < spec.limit) (sorted buckets)
      × ((k : BucketKey)
          → count_of k (reserve new_id lk buckets (aware t) s).1.counts
            ≡ count_of k s.counts + occurrences k (map key buckets))
reserve-counts new_id lk buckets t s r unknown h = elim (reserve_cases new_id lk buckets t s r h) [
  | inl (id, known, found, kept) ↦ absurd (cc (unknown, known))
  | inr (_, room, is_new, recorded) ↦ (
    check_buckets-room s.counts (sorted buckets) room,
    λ k. rw recorded (
        unfold record_reservation in
        rw is_new (
          count_of-increment k (map key (sorted buckets)) s.counts
          ∙ ap (λ (n : ℕ). count_of k s.counts + n) (occurrences-sorted k buckets))),
  )
]

-- A call that raises leaves the store as it was.
pub reserve-err :
    (new_id : String) (lk : LogicalKey) (buckets : List BucketSpec) (now : DateTime) (s : Store)
    (e : Error)
    → (reserve new_id lk buckets now s).0 ≡ err e
    → (reserve new_id lk buckets now s).1 ≡ s
unfolding reserve
reserve-err new_id lk buckets (naive t) s e h = refl
reserve-err new_id lk buckets (aware t) s e h = at (earlier lk s) h
  where
    at :
        (o : Option String)
        → (reserve_at o new_id lk (sorted buckets) t s).0 ≡ err e
        → (reserve_at o new_id lk (sorted buckets) t s).1 ≡ s
    at (some id) k = unfold reserve_at in refl
    at none k =
        unfold reserve_at in
        elim (grant_cases new_id lk (sorted buckets) t s) [
          | inl (x, raised) ↦ rw raised refl
          | inr (room, done) ↦ absurd (cc (rw done at k))
        ]

pub at_id :
    (id target : String) (t : ℕ) (s : Store) (status : Status) (r : Reservation)
    → target_status target ≡ some status
    → get id s.reservations ≡ some r
    → transition id target (aware t) s ≡ settle status t id r s
unfolding transition
at_id id target t s status r known found = rw (known, found) refl

-- For a call with no earlier reservation that succeeds, reserving and then refunding it restores
-- every counter.
pub transition-reserve :
    (new_id : String) (lk : LogicalKey) (buckets : List BucketSpec) (t t' : ℕ) (s : Store)
    (r : Reservation)
    → earlier lk s ≡ none
    → (reserve new_id lk buckets (aware t) s).0 ≡ ok r
    → (k : BucketKey)
    → count_of k
        (transition r.id "refunded" (aware t') (reserve new_id lk buckets (aware t) s).1).1.counts
      ≡ count_of k s.counts
transition-reserve new_id lk buckets t t' s r unknown h k =
    elim (reserve_cases new_id lk buckets t s r h) [
      | inl (id, known, found, kept) ↦ absurd (cc (unknown, known))
      | inr (_, room, is_new, recorded) ↦
          rw (recorded, at_id r.id "refunded" t' (record_reservation lk r s) refunded r refl there)
            (refunds is_new)
    ]
  where
    there : get r.id (record_reservation lk r s).reservations ≡ some r
    there = unfold record_reservation in rw (get-put r.id r.id r s.reservations, ==_refl r.id) refl

    refunds :
        r ≡ granted new_id lk (sorted buckets) t
        → count_of k (settle refunded t' r.id r (record_reservation lk r s)).1.counts
          ≡ count_of k s.counts
    refunds is_new =
        unfold settle record_reservation in
        rw (ap (λ (x : Reservation). x.status) is_new) (
          omega (
            arith,
            count_of-increment k r.bucket_keys s.counts,
            count_of-decrement k r.bucket_keys (increment r.bucket_keys s.counts),
          ))
