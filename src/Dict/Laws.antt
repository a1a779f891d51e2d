-- ===== src/Dict/Laws.antt =====
-- Lookup after each change of a dict.
use weiquan_agent.Prelude.{
  ◌≡◌, refl, Option, none, some, [], ◌∷◌, ◌++◌, arith, if◌then◌else◌, Key, ◌==◌,
}
use weiquan_agent.Dict.{Dict, get, put, remove, relocate, move_to_end}

module _ {ℓ κ} {K : Type ℓ} {V : Type κ} ⦃e : Key K⦄ where
  pub get-put :
      (k j : K) (v : V) (d : Dict K V) → get j (put k v d) ≡ (if k == j then some v else get j d)
  unfolding get put
  get-put k j v [] = refl
  get-put k j v ((i, w) ∷ d) =
      ground (arith, e.agrees_iff k j, e.agrees_iff i k, e.agrees_iff i j, get-put k j v d)

  pub get-remove :
      (k j : K) (d : Dict K V) → get j (remove k d) ≡ (if k == j then none else get j d)
  unfolding get remove
  get-remove k j [] = ground arith
  get-remove k j ((i, w) ∷ d) =
      ground (arith, e.agrees_iff k j, e.agrees_iff i k, e.agrees_iff i j, get-remove k j d)

  pub get-append :
      (j : K) (d d' : Dict K V)
      → get j (d ++ d') ≡ elim (get j d) [ none ↦ get j d' | some v ↦ some v ]
  unfolding get
  get-append j [] d' = refl
  get-append j ((i, w) ∷ d) d' = ground (arith, get-append j d d')

  get-relocate :
      (k j : K) (o : Option V) (d : Dict K V) → get k d ≡ o → get j (relocate o k d) ≡ get j d
  unfolding get relocate
  get-relocate k j none d h = refl
  get-relocate k j (some v) d h =
      ground (arith, get-append j (remove k d) ((k, v) ∷ []), get-remove k j d, e.agrees_iff k j)

  pub get-move_to_end : (k j : K) (d : Dict K V) → get j (move_to_end k d) ≡ get j d
  unfolding move_to_end
  get-move_to_end k j d = get-relocate k j (get k d) d refl
