-- ===== src/Dict/Entries.antt =====
-- Dicts with one entry for each key, and what a lookup says of the entries.
use weiquan_agent.Prelude.{
  ◌≡◌, refl, Bool, true, none, some, List, [], ◌∷◌, All, All-map, keep, contains, arith, Key, ◌==◌,
  ==_refl, Bool-cases, inl, inr, subst,
}
use weiquan_agent.Dict.{Dict, get, put, remove, keys, map_values}
use weiquan_agent.Dict.Laws.{get-put, get-remove}
use weiquan_agent.Dict.Counts.{get-map_values}

module _ {ℓ κ} {K : Type ℓ} {V : Type κ} ⦃e : Key K⦄ where
  -- No key has two entries.
  abbrev pub IsDistinct : Dict K V → Type κ
  IsDistinct [] = Unit
  IsDistinct ((k, v) ∷ d) = (get k d ≡ none) × IsDistinct d

  pub put-IsDistinct : (k : K) (v : V) (d : Dict K V) → IsDistinct d → IsDistinct (put k v d)
  unfolding put get
  put-IsDistinct k v [] h = (refl, tt)
  put-IsDistinct k v ((j, w) ∷ d) h = elim (Bool-cases (j == k)) [
    | inl same ↦ rw same h
    | inr other ↦ rw other (
      ground (arith, get-put k j v d, h.0, e.agrees_iff j k, e.agrees_iff k j, other),
      put-IsDistinct k v d h.1,
    )
  ]

  pub remove-IsDistinct : (k : K) (d : Dict K V) → IsDistinct d → IsDistinct (remove k d)
  unfolding remove
  remove-IsDistinct k [] h = tt
  remove-IsDistinct k ((j, w) ∷ d) h = elim (Bool-cases (j == k)) [
    | inl same ↦ rw same (remove-IsDistinct k d h.1)
    | inr other ↦ rw other (ground (arith, get-remove k j d, h.0), remove-IsDistinct k d h.1)
  ]

  pub map_values-IsDistinct :
      (f : V → V) (d : Dict K V) → IsDistinct d → IsDistinct (map_values f d)
  unfolding map_values
  map_values-IsDistinct f [] h = tt
  map_values-IsDistinct f ((j, w) ∷ d) h =
      (rw (get-map_values f j d, h.0) refl, map_values-IsDistinct f d h.1)

  -- Every entry is what the lookup of its key finds.
  pub All-get : (d : Dict K V) → IsDistinct d → All (λ (k, v). get k d ≡ some v) d
  unfolding get
  All-get [] h = tt
  All-get ((j, w) ∷ d) h = (
    rw (==_refl j) refl,
    All-map (λ (k, v). get k d ≡ some v) (λ (k, v). get k ((j, w) ∷ d) ≡ some v)
        (λ (k, v) found. ground (arith, found, h.0, e.agrees_iff j k)) d (All-get d h.1),
  )

  -- A key of a list of entries that all have a property.
  pub contains-keys {ξ} :
      (P : K × V → Type ξ) (k : K) (d : Dict K V)
      → All P d
      → contains k (keys d) ≡ true
      → (v : V) × P (k, v)
  contains-keys P k [] h is_in = absurd cc
  contains-keys P k ((j, w) ∷ d) h is_in = elim (Bool-cases (j == k)) [
    | inl same ↦ (w, subst (λ i. P (i, w)) ((e.agrees_iff j k).0 same) h.0)
    | inr other ↦ contains-keys P k d h.1 (rw other at is_in)
  ]

module _ {ℓ κ μ} {A : Type ℓ} where
  pub All-kept :
      (P : A → Type κ) (Q : A → Type μ) (p : A → Bool) (xs : List A)
      → ((x : A) → P x → p x ≡ true → Q x)
      → All P xs
      → All Q (keep p xs)
  All-kept P Q p [] f h = tt
  All-kept P Q p (x ∷ xs) f h = elim (Bool-cases (p x)) [
    | inl passed ↦ rw passed (f x h.0 passed, All-kept P Q p xs f h.1)
    | inr failed ↦ rw failed (All-kept P Q p xs f h.1)
  ]
