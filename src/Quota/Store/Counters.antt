-- ===== src/Quota/Store/Counters.antt =====
-- The counter updates of `InMemoryQuotaStore.reserve` and `.transition`, key by key.
use weiquan_agent.Prelude.{
  ℕ, ◌+◌, ◌-◌, ◌<◌, ◌≡◌, refl, ap, ◌∙◌, Option, some, List, [], ◌∷◌, map, arith, leb, if◌then◌else◌,
  ◌==◌, ok, occurrences, All, inl, inr, Bool-cases,
}
use weiquan_agent.Dict.{get, put}
use weiquan_agent.Dict.Laws.{get-put}
use weiquan_agent.Quota.{BucketKey, bucket_key_eq, BucketSpec, key, key_le}
use weiquan_agent.Quota.Store.{
  Counts, count_of, or_zero, increment, decrement, sorted, insert_sorted, check_buckets,
}

or_zero-if :
    (k j : BucketKey) (n : ℕ) (o : Option ℕ)
    → or_zero (if k == j then some n else o) ≡ (if k == j then n else or_zero o)
or_zero-if k j n o = ground arith

pub count_of-put :
    (k j : BucketKey) (n : ℕ) (c : Counts)
    → count_of j (put k n c) ≡ (if k == j then n else count_of j c)
unfolding count_of
count_of-put k j n c = ap or_zero (get-put k j n c) ∙ or_zero-if k j n (get j c)

-- Each occurrence of a key adds one to its counter.
pub count_of-increment :
    (j : BucketKey) (ks : List BucketKey) (c : Counts)
    → count_of j (increment ks c) ≡ count_of j c + occurrences j ks
unfolding increment
count_of-increment j [] c = omega arith
count_of-increment j (k ∷ ks) c = ground (
  arith,
  count_of-increment j ks (put k (count_of k c + 1) c),
  count_of-put k j (count_of k c + 1) c,
  bucket_key_eq.agrees_iff k j,
)

-- Each occurrence of a key takes one from its counter, which stops at zero.
pub count_of-decrement :
    (j : BucketKey) (ks : List BucketKey) (c : Counts)
    → count_of j (decrement ks c) ≡ count_of j c - occurrences j ks
unfolding decrement
count_of-decrement j [] c = omega arith
count_of-decrement j (k ∷ ks) c = ground (
  arith,
  count_of-decrement j ks (put k (count_of k c - 1) c),
  count_of-put k j (count_of k c - 1) c,
  bucket_key_eq.agrees_iff k j,
)

occurrences-insert_sorted :
    (j : BucketKey) (x : BucketSpec) (ys : List BucketSpec)
    → occurrences j (map key (insert_sorted x ys))
      ≡ (if key x == j then 1 else 0) + occurrences j (map key ys)
unfolding insert_sorted
occurrences-insert_sorted j x [] = refl
occurrences-insert_sorted j x (y ∷ ys) = elim (Bool-cases (key_le (key x) (key y))) [
  | inl e ↦ rw e refl
  | inr e ↦ rw e (omega (arith, occurrences-insert_sorted j x ys))
]

-- Sorting the buckets keeps how often each key is asked for.
pub occurrences-sorted :
    (j : BucketKey) (xs : List BucketSpec)
    → occurrences j (map key (sorted xs)) ≡ occurrences j (map key xs)
unfolding sorted
occurrences-sorted j [] = refl
occurrences-sorted j (x ∷ xs) =
    omega (arith, occurrences-insert_sorted j x (sorted xs), occurrences-sorted j xs)

All-insert_sorted :
    (P : BucketSpec → Type 0) (x : BucketSpec) (ys : List BucketSpec)
    → P x
    → All P ys
    → All P (insert_sorted x ys)
unfolding insert_sorted
All-insert_sorted P x [] h hs = (h, tt)
All-insert_sorted P x (y ∷ ys) h hs = elim (Bool-cases (key_le (key x) (key y))) [
  | inl e ↦ rw e (h, (hs.0, hs.1))
  | inr e ↦ rw e (hs.0, All-insert_sorted P x ys h hs.1)
]

pub All-sorted : (P : BucketSpec → Type 0) (xs : List BucketSpec) → All P xs → All P (sorted xs)
unfolding sorted
All-sorted P [] h = tt
All-sorted P (x ∷ xs) h = All-insert_sorted P x (sorted xs) h.0 (All-sorted P xs h.1)

-- A check that passes leaves room in each bucket that it looked at.
pub check_buckets-room :
    (c : Counts) (specs : List BucketSpec)
    → check_buckets c specs ≡ ok tt
    → All (λ spec. count_of (key spec) c < spec.limit) specs
unfolding check_buckets
check_buckets-room c [] h = tt
check_buckets-room c (spec ∷ rest) h = elim (Bool-cases (leb spec.limit (count_of (key spec) c))) [
  | inl full ↦ cc (rw full at h)
  | inr room ↦ (ground arith, check_buckets-room c rest (rw room at h))
]

All-of_insert_sorted :
    (P : BucketSpec → Type 0) (x : BucketSpec) (ys : List BucketSpec)
    → All P (insert_sorted x ys)
    → P x × All P ys
unfolding insert_sorted
All-of_insert_sorted P x [] h = (h.0, tt)
All-of_insert_sorted P x (y ∷ ys) h = elim (Bool-cases (key_le (key x) (key y))) [
  | inl e ↦ let k : All P (x ∷ y ∷ ys) = rw e at h in (k.0, k.1)
  | inr e ↦
      let k : All P (y ∷ insert_sorted x ys) = rw e at h in
      let rest = All-of_insert_sorted P x ys k.1 in (rest.0, (k.0, rest.1))
]

-- What holds of each bucket of the sorted request holds of each bucket of the request.
pub All-of_sorted : (P : BucketSpec → Type 0) (xs : List BucketSpec) → All P (sorted xs) → All P xs
unfolding sorted
All-of_sorted P [] h = tt
All-of_sorted P (x ∷ xs) h =
    let k = All-of_insert_sorted P x (sorted xs) h in (k.0, All-of_sorted P xs k.1)
