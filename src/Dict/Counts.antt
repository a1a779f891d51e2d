-- ===== src/Dict/Counts.antt =====
-- How many values of a dict meet a test, and properties of all its entries.
use weiquan_agent.Prelude.{
  ℕ, ◌+◌, ◌≤◌, ◌≡◌, refl, Bool, true, Option, none, some, [], ◌∷◌, count, All, arith, if◌then◌else◌,
  Key, ◌==◌, Bool-cases, inl, inr, subst,
}
use weiquan_agent.Dict.{Dict, get, put, values, map_values}

module _ {κ} {V : Type κ} where
  abbrev pub counts_one : (V → Bool) → Option V → ℕ
  counts_one p none = 0
  counts_one p (some v) = if p v then 1 else 0

module _ {ℓ κ} {K : Type ℓ} {V : Type κ} ⦃e : Key K⦄ where
  pub count-put :
      (p : V → Bool) (k : K) (v : V) (d : Dict K V)
      → count p (values (put k v d)) + counts_one p (get k d)
        ≡ count p (values d) + (if p v then 1 else 0)
  unfolding get put
  count-put p k v [] = omega arith
  count-put p k v ((j, w) ∷ d) = ground (arith, count-put p k v d)

  pub get-map_values :
      (f : V → V) (k : K) (d : Dict K V)
      → get k (map_values f d) ≡ elim (get k d) [ none ↦ none | some v ↦ some (f v) ]
  unfolding get map_values
  get-map_values f k [] = refl
  get-map_values f k ((j, w) ∷ d) = ground (arith, get-map_values f k d)

  pub All-put {ξ} :
      (P : K × V → Type ξ) (k : K) (v : V) (d : Dict K V)
      → ((j : K) → (j == k) ≡ true → P (j, v))
      → P (k, v)
      → All P d
      → All P (put k v d)
  unfolding put
  All-put P k v [] at new h = (new, tt)
  All-put P k v ((j, w) ∷ d) at new h = elim (Bool-cases (j == k)) [
    | inl same ↦ rw same (at j same, h.1)
    | inr other ↦ rw other (h.0, All-put P k v d at new h.1)
  ]

  pub get-All {ξ} :
      (P : K × V → Type ξ) (k : K) (v : V) (d : Dict K V)
      → All P d
      → get k d ≡ some v
      → (j : K) × ((j == k) ≡ true) × P (j, v)
  unfolding get
  get-All P k v [] h e = absurd cc
  get-All P k v ((j, w) ∷ d) h e = elim (Bool-cases (j == k)) [
    | inl same ↦
        let is_v : w ≡ v = ground (arith, e, same) in (j, same, subst (λ x. P (j, x)) is_v h.0)
    | inr other ↦ get-All P k v d h.1 (rw other at e)
  ]

module _ {ℓ κ} {K : Type ℓ} {V : Type κ} where
  pub count-map_values :
      (p q : V → Bool) (f : V → V) (d : Dict K V)
      → ((v : V) → p (f v) ≡ true → q v ≡ true)
      → count p (values (map_values f d)) ≤ count q (values d)
  unfolding map_values
  count-map_values p q f [] h = omega arith
  count-map_values p q f ((j, w) ∷ d) h = ground (arith, count-map_values p q f d h, h w)

  pub All-map_values {ξ} :
      (P : K × V → Type ξ) (f : V → V) (d : Dict K V)
      → ((k : K) (v : V) → P (k, v) → P (k, f v))
      → All P d
      → All P (map_values f d)
  unfolding map_values
  All-map_values P f [] h a = tt
  All-map_values P f ((j, w) ∷ d) h a = (h j w a.0, All-map_values P f d h a.1)
