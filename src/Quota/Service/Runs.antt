-- ===== src/Quota/Service/Runs.antt =====
-- Histories of calls of `QuotaService`, app/limits/reservations.py.
use weiquan_agent.Prelude.{
  ℕ, ◌-◌, String, ◌≡◌, ◌≢◌, refl, ap, false, Option, some, none, List, [], ◌∷◌, Result, ok,
  DateTime, aware, naive, ◌>>=◌, ◌==◌, arith, inl, inr, Result-cases, string_eq,
}
use weiquan_agent.Dict.{get}
use weiquan_agent.Quota.{Kind, trial, registered, Error, BucketKey, BucketSpec, key, make_spec}
use weiquan_agent.Quota.Store
use weiquan_agent.Quota.Store.{
  Store, LogicalKey, logical_key_eq, count_of, empty, sorted, reserve_at, stale_ids, refund_each,
}
use weiquan_agent.Quota.Store.Invariant.{granted, grant_cases}
use weiquan_agent.Quota.Service
use weiquan_agent.Quota.Service.{
  Calendar, Service, trial_specs, registered_specs, specs_of, total_spec, global_day_spec, day_spec,
  month_spec,
}
use weiquan_agent.Quota.Service.Bounds.{
  IsWithin, IsWithin-mono, TwoBuckets, granted-bounded, transition-falls, recover_stale-falls,
}

make_spec-ok : (spec got : BucketSpec) → make_spec spec ≡ ok got → got ≡ spec
unfolding make_spec
make_spec-ok spec got h = ground arith

abbrev pub make_both : BucketSpec → BucketSpec → Result Error (BucketSpec × BucketSpec)
make_both x y = do a ← make_spec x; b ← make_spec y; ok (a, b)

abbrev pure_pair : BucketSpec → BucketSpec → Result Error (BucketSpec × BucketSpec)
pure_pair p q = ok (p, q)

pub both_made : (x y a b : BucketSpec) → make_both x y ≡ ok (a, b) → (a ≡ x) × (b ≡ y)
both_made x y a b h = elim (Result-cases (make_spec x)) [
  | inr (e, bad) ↦ absurd (cc (rw bad at h))
  | inl (p, good) ↦ elim (Result-cases (make_spec y)) [
    | inr (e, bad) ↦ absurd (cc (rw (good, bad) at h))
    | inl (q, fine) ↦
        let pair : (pure_pair p q) ≡ ok (a, b) = rw (good, fine) at h in
        (ground (arith, pair, make_spec-ok x p good), ground (arith, pair, make_spec-ok y q fine))
  ]
]

keys_differ : (a b : BucketSpec) → (a.bucket_type == b.bucket_type) ≡ false → key a ≢ key b
keys_differ a b h e = cc (
  h,
  (string_eq.agrees_iff a.bucket_type b.bucket_type).1 (ap (λ (k : BucketKey). k.bucket_type) e),
)

module _ (c : Calendar) (v : Service) where
  -- The two buckets of a call have different types, and the limits of their types.
  specs_of-TwoBuckets :
      (kind : Kind) (subject : String) (now : ℕ) (a b : BucketSpec)
      → specs_of c v kind subject now ≡ ok (a, b)
      → TwoBuckets v a b
  unfolding trial_specs registered_specs
  specs_of-TwoBuckets trial subject now a b h =
      let x = total_spec c v subject in
      let y = global_day_spec c v now in
      let both = both_made x y a b h in
      rw (both.0, both.1)
        (record { apart = keys_differ x y refl; first_limit = refl; second_limit = refl })
  specs_of-TwoBuckets registered subject now a b h =
      let x = day_spec c v subject now in
      let y = month_spec c v subject now in
      let both = both_made x y a b h in
      rw (both.0, both.1)
        (record { apart = keys_differ x y refl; first_limit = refl; second_limit = refl })

  reserve-IsWithin :
      (new_id : String) (kind : Kind) (subject call : String) (now : DateTime) (s : Store)
      → IsWithin v s
      → IsWithin v (Service.reserve c v new_id kind subject call now s).1
  unfolding Service.reserve
  reserve-IsWithin new_id kind subject call (naive t) s w = w
  reserve-IsWithin new_id kind subject call (aware t) s w =
      elim (Result-cases (specs_of c v kind subject t)) [
        | inr (e, bad) ↦ rw bad w
        | inl ((a, b), made) ↦ rw made (
            unfold Store.reserve in
            at a b (specs_of-TwoBuckets kind subject t a b made) (get lk s.logical))
      ]
    where
      lk : LogicalKey
      lk = record { kind = kind; subject_id = subject; logical_call_id = call }

      at :
          (a b : BucketSpec)
          → TwoBuckets v a b
          → (o : Option String) → IsWithin v (reserve_at o new_id lk (sorted (a ∷ b ∷ [])) t s).1
      at a b two (some id) = unfold reserve_at in w
      at a b two none =
          unfold reserve_at in
          elim (grant_cases new_id lk (sorted (a ∷ b ∷ [])) t s) [
            | inl (e, raised) ↦ rw raised w
            | inr (room, done) ↦ rw done (
                granted-bounded v a b s lk (granted new_id lk (sorted (a ∷ b ∷ [])) t) two refl room
                  w)
          ]

  -- One call of the service, at the time that its clock shows.
  pub data Call : Type 0 where
    reserves : (new_id : String) → Kind → (subject call : String) → DateTime → Call
    succeeds refunds : String → DateTime → Call
    recovers : DateTime → ℕ → Call

  abbrev pub after : Call → Store → Store
  after (reserves new_id kind subject call now) s =
      (Service.reserve c v new_id kind subject call now s).1
  after (succeeds id now) s = (Service.succeed c v id now s).1
  after (refunds id now) s = (Service.refund c v id now s).1
  after (recovers now limit) s = (Service.recover_stale c v now limit s).1

  abbrev pub run : List Call → Store → Store
  run [] s = s
  run (x ∷ xs) s = run xs (after x s)

  after-IsWithin : (x : Call) (s : Store) → IsWithin v s → IsWithin v (after x s)
  unfolding Service.succeed Service.refund Service.recover_stale
  after-IsWithin (reserves new_id kind subject call now) s w =
      reserve-IsWithin new_id kind subject call now s w
  after-IsWithin (succeeds id (naive t)) s w = w
  after-IsWithin (succeeds id (aware t)) s w =
      IsWithin-mono v s _ (transition-falls id "succeeded" (aware t) s) w
  after-IsWithin (refunds id (naive t)) s w = w
  after-IsWithin (refunds id (aware t)) s w =
      IsWithin-mono v s _ (transition-falls id "refunded" (aware t) s) w
  after-IsWithin (recovers (naive t) limit) s w = w
  after-IsWithin (recovers (aware t) limit) s w =
      IsWithin-mono v s _ (recover_stale-falls (aware (t - v.stale_after)) (aware t) limit s) w

  -- From a store within the limits, no history of calls, failing ones included, takes a counter
  -- past the limit that the service sets for its type of bucket.
  pub run-IsWithin : (xs : List Call) (s : Store) → IsWithin v s → IsWithin v (run xs s)
  run-IsWithin [] s w = w
  run-IsWithin (x ∷ xs) s w = run-IsWithin xs (after x s) (after-IsWithin x s w)

-- The new store is within every limit.
pub empty-IsWithin : (v : Service) → IsWithin v empty
unfolding count_of get
empty-IsWithin v = record { bounded = λ k n h. omega arith }
