-- ===== src/Quota/Store/Conservation.antt =====
-- Consistency of `InMemoryQuotaStore`, app/limits/reservations.py: the counters against the
-- reservations that are not refunded.
use weiquan_agent.Prelude.{
  ◌⊎◌, ℕ, ◌+◌, ◌≤◌, String, ◌≡◌, refl, sym, ap, ◌∙◌, true, false, Option, some, none, List, [], ◌∷◌,
  arith, ◌==◌, occurrences, All, inl, inr, Bool-cases, string_eq,
}
use weiquan_agent.Dict.{Dict, get, put}
use weiquan_agent.Dict.Laws.{get-put}
use weiquan_agent.Quota.{
  Status, reserved, succeeded, refunded, BucketKey, bucket_key_eq, Reservation,
}
use weiquan_agent.Quota.Store.{
  Store, LogicalKey, logical_key_eq, count_of, increment, counts_after, record_reservation, settle,
  empty, is_reserved,
}
use weiquan_agent.Quota.Store.Counters.{count_of-increment, count_of-decrement}

abbrev pub weight : BucketKey → Status → List BucketKey → ℕ
weight k refunded ks = 0
weight k _ ks = occurrences k ks

abbrev pub held : BucketKey → Dict String Reservation → ℕ
held k [] = 0
held k ((id, r) ∷ rs) = weight k r.status r.bucket_keys + held k rs

module _ (k : BucketKey) (id : String) where
  pub held-put_new :
      (r : Reservation) (rs : Dict String Reservation)
      → get id rs ≡ none
      → held k (put id r rs) ≡ held k rs + weight k r.status r.bucket_keys
  unfolding get put
  held-put_new r [] h = omega arith
  held-put_new r ((j, q) ∷ rs) h = elim (Bool-cases (j == id)) [
    | inl same ↦ cc (rw same at h)
    | inr other ↦ rw other (omega (arith, held-put_new r rs (rw other at h)))
  ]

  pub held-put_old :
      (r q : Reservation) (rs : Dict String Reservation)
      → get id rs ≡ some q
      → held k (put id r rs) + weight k q.status q.bucket_keys
        ≡ held k rs + weight k r.status r.bucket_keys
  unfolding get put
  held-put_old r q [] h = cc
  held-put_old r q ((j, p) ∷ rs) h = elim (Bool-cases (j == id)) [
    | inl same ↦ rw same (omega (arith, ap (weigh p q) (rw same at h)))
    | inr other ↦ rw other (omega (arith, held-put_old r q rs (rw other at h)))
  ]
    where
      weigh : Reservation → Reservation → Option Reservation → ℕ
      weigh p q none = 0
      weigh p q (some x) = weight k x.status x.bucket_keys

  pub weight-le-held :
      (q : Reservation) (rs : Dict String Reservation)
      → get id rs ≡ some q
      → weight k q.status q.bucket_keys ≤ held k rs
  unfolding get
  weight-le-held q [] h = cc
  weight-le-held q ((j, p) ∷ rs) h = elim (Bool-cases (j == id)) [
    | inl same ↦ omega (arith, ap weigh (rw same at h))
    | inr other ↦ omega (arith, weight-le-held q rs (rw other at h))
  ]
    where
      weigh : Option Reservation → ℕ
      weigh none = 0
      weigh (some x) = weight k x.status x.bucket_keys

-- Every reservation stands under its own identifier.
abbrev pub IsNamed : Dict String Reservation → Type 0
IsNamed rs = All (λ entry. entry.1.id ≡ entry.0) rs

put-IsNamed :
    (id : String) (r : Reservation) (rs : Dict String Reservation)
    → r.id ≡ id
    → IsNamed rs
    → IsNamed (put id r rs)
unfolding put
put-IsNamed id r [] h hs = (h, tt)
put-IsNamed id r ((j, q) ∷ rs) h hs = elim (Bool-cases (j == id)) [
  | inl same ↦ rw same (h ∙ sym ((string_eq.agrees_iff j id).0 same), hs.1)
  | inr other ↦ rw other (hs.0, put-IsNamed id r rs h hs.1)
]

pub id_of_found :
    (id : String) (r : Reservation) (rs : Dict String Reservation)
    → IsNamed rs
    → get id rs ≡ some r
    → r.id ≡ id
unfolding get
id_of_found id r [] hs h = cc
id_of_found id r ((j, q) ∷ rs) hs h = elim (Bool-cases (j == id)) [
  | inl same ↦ ground (arith, string_eq.agrees_iff j id)
  | inr other ↦ id_of_found id r rs hs.1 (rw other at h)
]

pub record IsConsistent (s : Store) : Type 0 where
  pub conserved : (k : BucketKey) → count_of k s.counts ≡ held k s.reservations
  pub linked :
      (lk : LogicalKey) (id : String)
      → get lk s.logical ≡ some id
      → (r : Reservation) × (get id s.reservations ≡ some r)
  pub named : IsNamed s.reservations

pub empty-IsConsistent : IsConsistent empty
unfolding get count_of
empty-IsConsistent = record { conserved = λ k. refl; linked = λ lk id h. cc; named = tt }

counts-conserved :
    (r : Reservation) (s : Store) (v : IsConsistent s) (k : BucketKey)
    → r.status ≡ reserved
    → get r.id s.reservations ≡ none
    → count_of k (increment r.bucket_keys s.counts) ≡ held k (put r.id r s.reservations)
counts-conserved r s v k st fresh = omega (
  arith,
  count_of-increment k r.bucket_keys s.counts,
  v.conserved k,
  held-put_new k r.id r s.reservations fresh,
  ap (λ (t : Status). weight k t r.bucket_keys) st,
)

-- A granted reservation under a fresh identifier keeps the store consistent.
pub record_reservation-IsConsistent :
    (lk : LogicalKey) (r : Reservation) (s : Store)
    → r.status ≡ reserved
    → get r.id s.reservations ≡ none
    → IsConsistent s
    → IsConsistent (record_reservation lk r s)
unfolding record_reservation
record_reservation-IsConsistent lk r s st fresh v = record {
  conserved = λ k. counts-conserved r s v k st fresh;
  linked = λ k id h. linked k id (Bool-cases (lk == k)) h;
  named = put-IsNamed r.id r s.reservations refl v.named;
}
  where
    present :
        (id : String)
        → (q : Reservation) × (get id s.reservations ≡ some q)
        → (q : Reservation) × (get id (put r.id r s.reservations) ≡ some q)
    present id (q, h) = elim (Bool-cases (r.id == id)) [
      | inl same ↦ (r, rw (get-put r.id id r s.reservations, same) refl)
      | inr other ↦ (q, rw (get-put r.id id r s.reservations, other) h)
    ]

    linked :
        (k : LogicalKey) (id : String)
        → ((lk == k) ≡ true) ⊎ ((lk == k) ≡ false)
        → get k (put lk r.id s.logical) ≡ some id
        → (q : Reservation) × (get id (put r.id r s.reservations) ≡ some q)
    linked k id (inl same) h = (
      r,
      rw
          (
            get-put r.id id r s.reservations,
            (string_eq.agrees_iff r.id id).1 (ground (arith, get-put lk k r.id s.logical)),
          )
          refl,
    )
    linked k id (inr other) h =
        present id (v.linked k id (ground (arith, get-put lk k r.id s.logical)))

settled-conserved :
    (k : BucketKey) (target : Status) (id : String) (existing changed : Reservation) (s : Store)
    → existing.status ≡ reserved
    → changed.bucket_keys ≡ existing.bucket_keys
    → changed.status ≡ target
    → get id s.reservations ≡ some existing
    → IsConsistent s
    → count_of k (counts_after target existing.bucket_keys s.counts)
      ≡ held k (put id changed s.reservations)
settled-conserved k refunded id existing changed s st keys ch found v = omega (
  arith,
  count_of-decrement k existing.bucket_keys s.counts,
  v.conserved k,
  held-put_old k id changed existing s.reservations found,
  weight-le-held k id existing s.reservations found,
  ap (λ (t : Status). weight k t existing.bucket_keys) st,
  ap (λ (t : Status). weight k t changed.bucket_keys) ch,
)
settled-conserved k reserved id existing changed s st keys ch found v = omega (
  arith,
  v.conserved k,
  held-put_old k id changed existing s.reservations found,
  ap (λ (t : Status). weight k t existing.bucket_keys) st,
  ap (λ (t : Status). weight k t changed.bucket_keys) ch,
  ap (occurrences k) keys,
)
settled-conserved k succeeded id existing changed s st keys ch found v = omega (
  arith,
  v.conserved k,
  held-put_old k id changed existing s.reservations found,
  ap (λ (t : Status). weight k t existing.bucket_keys) st,
  ap (λ (t : Status). weight k t changed.bucket_keys) ch,
  ap (occurrences k) keys,
)

-- Settling a reservation keeps the store consistent, to either target.
pub settle-IsConsistent :
    (target : Status) (current : ℕ) (id : String) (existing : Reservation) (s : Store)
    → get id s.reservations ≡ some existing
    → IsConsistent s
    → IsConsistent (settle target current id existing s).1
unfolding settle
settle-IsConsistent target current id existing s found v =
    elim (Bool-cases (is_reserved existing.status)) [
      | inl open_ ↦ rw open_ (record {
        conserved =
            λ k. settled-conserved k target id existing changed s (ground arith) refl refl found v;
        linked = λ k j h. present j (v.linked k j h);
        named =
            put-IsNamed id changed s.reservations
              (id_of_found id existing s.reservations v.named found) v.named;
      })
      | inr closed ↦ rw closed v
    ]
  where
    changed : Reservation
    changed = record existing { status = target; updated_at = current }

    present :
        (j : String)
        → (q : Reservation) × (get j s.reservations ≡ some q)
        → (q : Reservation) × (get j (put id changed s.reservations) ≡ some q)
    present j (q, h) = elim (Bool-cases (id == j)) [
      | inl same ↦ (changed, rw (get-put id j changed s.reservations, same) refl)
      | inr other ↦ (q, rw (get-put id j changed s.reservations, other) h)
    ]
