-- ===== src/Attachments/Rows.antt =====
-- What the statements of Attachments/Table leave of one row.
use weiquan_agent.Prelude.{
  ℕ, String, Bool, true, false, none, some, List, [], ◌∷◌, All, All-take, keep, take, contains,
  if◌then◌else◌, string_eq, ◌==◌, ◌≡◌, refl, Result, ok, err, ◌>>=◌, arith, Bool-cases, inl, inr,
}
use weiquan_agent.Dict.{get, put, remove}
use weiquan_agent.Dict.Laws.{get-put, get-remove}
use weiquan_agent.Dict.Counts.{get-map_values}
use weiquan_agent.Dict.Entries.{
  IsDistinct, put-IsDistinct, remove-IsDistinct, map_values-IsDistinct, All-get, contains-keys,
  All-kept,
}
use weiquan_agent.Attachments.{Error, Platform, AttachmentRecord, Attachments}
use weiquan_agent.Attachments.Checks.{validated}
use weiquan_agent.Attachments.Table.{
  transaction, insert_by, order_by, select_row, update_where, select_ids, update_ids, delete_ids,
  require_record,
}

-- What a chain of steps that may raise ends with: where it succeeds, its table has the property.
abbrev pub Ends {ℓ κ ξ} : {A : Type ℓ} {T : Type κ} → (T → Type ξ) → Result Error (A × T) → Type ξ
Ends P (ok (a, t)) = P t
Ends P (err e) = Unit

pub Ends-bind {ℓ κ μ ξ} :
    {A : Type ℓ} {B : Type μ} {T : Type κ} (P : T → Type ξ) (m : Result Error A)
    (f : A → Result Error (B × T))
    → ((a : A) → m ≡ ok a → Ends P (f a))
    → Ends P (m >>= f)
Ends-bind P (ok a) f h = h a refl
Ends-bind P (err e) f h = tt

pub transaction-Ends {ℓ κ ξ} :
    {A : Type ℓ} {T : Type κ} (P : T → Type ξ) (m : Result Error (A × T)) (t : T)
    → P t
    → Ends P m
    → P (transaction m t).1
transaction-Ends P (ok (a, t')) t here there = there
transaction-Ends P (err e) t here there = here

-- A chain of updates ends at a table with the property.
abbrev pub Leaves {κ ξ} : {T : Type κ} → (T → Type ξ) → Result Error T → Type ξ
Leaves P (ok t) = P t
Leaves P (err e) = Unit

pub Leaves-bind {ℓ κ ξ} :
    {A : Type ℓ} {T : Type κ} (P : T → Type ξ) (m : Result Error A) (f : A → Result Error T)
    → ((a : A) → m ≡ ok a → Leaves P (f a))
    → Leaves P (m >>= f)
Leaves-bind P (ok a) f h = h a refl
Leaves-bind P (err e) f h = tt

pub Leaves-then {ℓ κ ξ} :
    {A : Type ℓ} {T : Type κ} (Q : A → Type ξ) (P : T → Type ξ) (m : Result Error A)
    (f : A → Result Error T)
    → Leaves Q m
    → ((a : A) → Q a → Leaves P (f a))
    → Leaves P (m >>= f)
Leaves-then Q P (ok a) f here there = there a here
Leaves-then Q P (err e) f here there = tt

pub Ends-then {κ μ ξ} :
    {B : Type μ} {T : Type κ} (P : T → Type ξ) (m : Result Error T) (f : T → Result Error (B × T))
    → Leaves P m
    → ((t : T) → P t → Ends P (f t))
    → Ends P (m >>= f)
Ends-then P (ok t) f here there = there t here
Ends-then P (err e) f here there = tt

module _ {ℓ ξ} {A : Type ℓ} (P : A → Type ξ) (before : A → A → Bool) where
  insert_by-All : (x : A) (xs : List A) → P x → All P xs → All P (insert_by before x xs)
  unfolding insert_by
  insert_by-All x [] h hs = (h, tt)
  insert_by-All x (y ∷ ys) h hs = elim (Bool-cases (before y x)) [
    | inl first ↦ rw first (hs.0, insert_by-All x ys h hs.1)
    | inr later ↦ rw later (h, hs)
  ]

  pub order_by-All : (xs : List A) → All P xs → All P (order_by before xs)
  unfolding order_by
  order_by-All [] h = tt
  order_by-All (x ∷ xs) h = insert_by-All x (order_by before xs) h.0 (order_by-All xs h.1)

module _ {Block : Type 0} where
  pub get-update_ids :
      (ids : List String) (f : AttachmentRecord Block → AttachmentRecord Block) (j : String)
      (t : Attachments Block)
      → get j (update_ids ids f t)
        ≡ elim (get j t) [ none ↦ none | some s ↦ some (if contains j ids then f s else s) ]
  unfolding get update_ids
  get-update_ids ids f j [] = refl
  get-update_ids ids f j ((i, s) ∷ t) = elim (Bool-cases (i == j)) [
    | inl same ↦ let is_j : i ≡ j = (string_eq.agrees_iff i j).0 same in rw same (rw is_j refl)
    | inr other ↦ rw other (get-update_ids ids f j t)
  ]

  pub update_ids-IsDistinct :
      (ids : List String) (f : AttachmentRecord Block → AttachmentRecord Block)
      (t : Attachments Block)
      → IsDistinct t
      → IsDistinct (update_ids ids f t)
  unfolding update_ids
  update_ids-IsDistinct ids f [] h = tt
  update_ids-IsDistinct ids f ((i, s) ∷ t) h =
      (rw (get-update_ids ids f i t, h.0) refl, update_ids-IsDistinct ids f t h.1)

  pub get-delete_ids :
      (ids : List String) (j : String) (t : Attachments Block)
      → get j (delete_ids ids t) ≡ (if contains j ids then none else get j t)
  unfolding delete_ids
  get-delete_ids [] j t = refl
  get-delete_ids (id ∷ ids) j t =
      ground (arith, get-delete_ids ids j (remove id t), get-remove id j t)

  pub delete_ids-IsDistinct :
      (ids : List String) (t : Attachments Block) → IsDistinct t → IsDistinct (delete_ids ids t)
  unfolding delete_ids
  delete_ids-IsDistinct [] t h = h
  delete_ids-IsDistinct (id ∷ ids) t h =
      delete_ids-IsDistinct ids (remove id t) (remove-IsDistinct id t h)

module _ {Block : Type 0} (k : String) (r : AttachmentRecord Block) where
  -- The row `k` is `r`, and no identifier has two rows.
  abbrev pub Holds : Attachments Block → Type 0
  Holds t = (get k t ≡ some r) × IsDistinct t

  pub put-Holds :
      (j : String) (s : AttachmentRecord Block) (t : Attachments Block)
      → (j == k) ≡ false
      → Holds t
      → Holds (put j s t)
  put-Holds j s t other h = (rw (get-put j k s t, other) h.0, put-IsDistinct j s t h.1)

  pub remove-Holds :
      (j : String) (t : Attachments Block) → (j == k) ≡ false → Holds t → Holds (remove j t)
  remove-Holds j t other h = (rw (get-remove j k t, other) h.0, remove-IsDistinct j t h.1)

  pub update_where-Holds :
      (q : AttachmentRecord Block → Bool) (f : AttachmentRecord Block → AttachmentRecord Block)
      (t : Attachments Block)
      → q r ≡ false
      → Holds t
      → Holds (update_where q f t)
  unfolding update_where
  update_where-Holds q f t out h = (
    rw (get-map_values (λ r. if q r then f r else r) k t, h.0) (rw out refl),
    map_values-IsDistinct (λ r. if q r then f r else r) t h.1,
  )

  pub update_ids-Holds :
      (ids : List String) (f : AttachmentRecord Block → AttachmentRecord Block)
      (t : Attachments Block)
      → contains k ids ≡ false
      → Holds t
      → Holds (update_ids ids f t)
  update_ids-Holds ids f t out h =
      (rw (get-update_ids ids f k t, h.0, out) refl, update_ids-IsDistinct ids f t h.1)

  pub delete_ids-Holds :
      (ids : List String) (t : Attachments Block)
      → contains k ids ≡ false
      → Holds t
      → Holds (delete_ids ids t)
  unfolding delete_ids
  delete_ids-Holds [] t out h = h
  delete_ids-Holds (id ∷ ids) t out h =
      delete_ids-Holds ids (remove id t) (ground arith) (remove-Holds id t (ground arith) h)

  pub contains-select_ids :
      (q : AttachmentRecord Block → Bool)
      (before : String × AttachmentRecord Block → String × AttachmentRecord Block → Bool)
      (limit : ℕ) (t : Attachments Block)
      → q r ≡ false
      → Holds t
      → contains k (select_ids q before limit t) ≡ false
  unfolding select_ids
  contains-select_ids q before limit t out h =
      elim (Bool-cases (contains k (select_ids q before limit t))) [
        | inl is_in ↦
            let P : String × AttachmentRecord Block → Type 0 =
              λ (j, s). (get j t ≡ some s) × (q s ≡ true) in
            let (s, (found, met)) =
              contains-keys P k (take limit (order_by before (keep (λ (id, r). q r) t)))
                (All-take P limit (order_by before (keep (λ (id, r). q r) t)) (
                  order_by-All P before (keep (λ (id, r). q r) t) (
                    All-kept (λ (j, s). get j t ≡ some s) P (λ (id, r). q r) t (λ x f m. (f, m))
                      (All-get t h.1))))
                is_in in
            absurd (ground (arith, h.0, found, met, out))
        | inr is_out ↦ is_out
      ]

-- A selected row meets the condition of the selection.
pub select_ids-met :
    {Block : Type 0} (k : String) (r : AttachmentRecord Block) (q : AttachmentRecord Block → Bool)
    (before : String × AttachmentRecord Block → String × AttachmentRecord Block → Bool) (limit : ℕ)
    (t : Attachments Block)
    → get k t ≡ some r
    → IsDistinct t
    → contains k (select_ids q before limit t) ≡ true
    → q r ≡ true
select_ids-met k r q before limit t found distinct is_in = elim (Bool-cases (q r)) [
  | inl met ↦ met
  | inr out ↦
      absurd (ground (arith, is_in, contains-select_ids k r q before limit t out (found, distinct)))
]

-- The row behind a record that a lookup returned.
pub require_record-ok :
    {Block : Type 0} (p : Platform) (id owner_id : String) (t : Attachments Block)
    (r : AttachmentRecord Block)
    → require_record p id owner_id t ≡ ok r
    → get id t ≡ some r
unfolding require_record validated select_row
require_record-ok p id owner_id t r found = ground (arith, found)
