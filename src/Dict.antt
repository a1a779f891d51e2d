-- ===== src/Dict.antt =====
-- Python's `dict` and `OrderedDict`: an association list in insertion order. Assigning a key that
-- is present keeps its place; `move_to_end` and `popitem(last=False)` are those of OrderedDict.
pub mod Laws
pub mod Counts
pub mod Entries
use weiquan_agent.Prelude.{
  ◌≡◌, Bool, Option, none, some, List, [], ◌∷◌, ◌++◌, if◌then◌else◌, Key, ◌==◌,
}

abbrev pub Dict {ℓ κ} : Type ℓ → Type κ → Type (ℓ ⊔ κ)
Dict K V = List (K × V)

module _ {ℓ κ} {K : Type ℓ} {V : Type κ} ⦃e : Key K⦄ where
  -- d.get(k)
  unfoldable pub get : K → Dict K V → Option V
  get k [] = none
  get k ((j, v) ∷ d) = if j == k then some v else get k d

  -- d[k] = v
  unfoldable pub put : K → V → Dict K V → Dict K V
  put k v [] = (k, v) ∷ []
  put k v ((j, w) ∷ d) = if j == k then (j, v) ∷ d else (j, w) ∷ put k v d

  -- d.pop(k, None)
  unfoldable pub remove : K → Dict K V → Dict K V
  remove k [] = []
  remove k ((j, v) ∷ d) = let rest = remove k d in if j == k then rest else (j, v) ∷ rest

  unfoldable pub relocate : Option V → K → Dict K V → Dict K V
  relocate none k d = d
  relocate (some v) k d = remove k d ++ (k, v) ∷ []

  -- d.move_to_end(k)
  unfoldable pub move_to_end : K → Dict K V → Dict K V
  unfolding relocate
  move_to_end k d = relocate (get k d) k d

module _ {ℓ κ} {K : Type ℓ} {V : Type κ} where
  -- d.values()
  abbrev pub values : Dict K V → List V
  values [] = []
  values ((k, v) ∷ d) = v ∷ values d

  -- d.keys()
  abbrev pub keys : Dict K V → List K
  keys [] = []
  keys ((k, v) ∷ d) = k ∷ keys d

  -- Assigning to every key a value computed from the one it has.
  unfoldable pub map_values : (V → V) → Dict K V → Dict K V
  map_values f [] = []
  map_values f ((k, v) ∷ d) = (k, f v) ∷ map_values f d
