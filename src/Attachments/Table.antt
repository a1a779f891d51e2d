-- ===== src/Attachments/Table.antt =====
-- The statements that the stores of app/attachments/store.py and app/db/session.py send for the
-- table `attachments`, and `transaction` of app/db/session.py: an error rolls back.
use weiquan_agent.Prelude.{
  ℕ, String, Bool, true, false, not, Option, none, some, List, [], ◌∷◌, leb, ltb, take, keep,
  contains, if◌then◌else◌, string_eq, ◌==◌, Result, ok, err, ◌>>=◌, require, or_raise,
}
use weiquan_agent.Dict.{get, put, remove, keys, map_values}
use weiquan_agent.Attachments.{
  Error, not_found, value_error, Platform, AttachmentRecord, Attachments,
}
use weiquan_agent.Attachments.Checks.{validated}

abbrev pub transaction {ℓ κ} :
    {A : Type ℓ} {T : Type κ} → Result Error (A × T) → T → Result Error A × T
transaction (ok (a, t')) t = (ok a, t')
transaction (err e) t = (err e, t)

abbrev pub is_past : ℕ → Option ℕ → Bool
is_past now none = false
is_past now (some t) = leb t now

-- A list in the order of a comparison, earlier elements first where neither comes before the other.
unfoldable pub insert_by {ℓ} : {A : Type ℓ} → (A → A → Bool) → A → List A → List A
insert_by before x [] = x ∷ []
insert_by before x (y ∷ ys) =
    let rest = insert_by before x ys in if before y x then y ∷ rest else x ∷ y ∷ ys

unfoldable pub order_by {ℓ} : {A : Type ℓ} → (A → A → Bool) → List A → List A
order_by before [] = []
order_by before (x ∷ xs) = insert_by before x (order_by before xs)

module _ {Block : Type 0} where
  abbrev pub owned_row : String → Option (AttachmentRecord Block) → Option (AttachmentRecord Block)
  owned_row owner_id none = none
  owned_row owner_id (some r) = if r.owner_id == owner_id then some r else none

  -- WHERE id = ? AND owner_id = ?
  unfoldable pub select_row : String → String → Attachments Block → Option (AttachmentRecord Block)
  select_row id owner_id t = owned_row owner_id (get id t)

  unfoldable pub update_row :
      String
      → String
      → (AttachmentRecord Block → AttachmentRecord Block)
      → Attachments Block
      → Attachments Block
  update_row id owner_id f t = elim (select_row id owner_id t) [
    | none ↦ t
    | some r ↦ put id (f r) t
  ]

  -- UPDATE ... WHERE
  unfoldable pub update_where :
      (AttachmentRecord Block → Bool)
      → (AttachmentRecord Block → AttachmentRecord Block)
      → Attachments Block
      → Attachments Block
  update_where q f t = map_values (λ r. if q r then f r else r) t

  -- SELECT id ... WHERE ... ORDER BY ... LIMIT ?
  unfoldable pub select_ids :
      (AttachmentRecord Block → Bool)
      → (String × AttachmentRecord Block → String × AttachmentRecord Block → Bool)
      → ℕ
      → Attachments Block
      → List String
  select_ids q before limit t = keys (take limit (order_by before (keep (λ (id, r). q r) t)))

  -- The rows in the order of a time and then of their identifiers.
  abbrev pub earlier :
      Platform
      → (AttachmentRecord Block → ℕ)
      → String × AttachmentRecord Block
      → String × AttachmentRecord Block
      → Bool
  earlier p at (i, r) (j, s) =
      if ltb (at r) (at s) then true else if ltb (at s) (at r) then false else p.comes_before i j

  -- UPDATE ... WHERE id IN (...)
  unfoldable pub update_ids :
      List String
      → (AttachmentRecord Block → AttachmentRecord Block)
      → Attachments Block
      → Attachments Block
  update_ids ids f [] = []
  update_ids ids f ((id, r) ∷ t) = (id, if contains id ids then f r else r) ∷ update_ids ids f t

  -- DELETE ... WHERE id IN (...)
  unfoldable pub delete_ids : List String → Attachments Block → Attachments Block
  delete_ids [] t = t
  delete_ids (id ∷ ids) t = delete_ids ids (remove id t)

module _ {Block : Type 0} (p : Platform) where
  -- _require_record
  unfoldable pub require_record :
      String → String → Attachments Block → Result Error (AttachmentRecord Block)
  require_record id owner_id t = or_raise (select_row id owner_id t) not_found >>= validated p

  -- _require_unexpired
  abbrev pub require_unexpired : ℕ → AttachmentRecord Block → Result Error (Unit {0})
  require_unexpired now r = require (not (is_past now r.expires_at)) not_found

-- `_uuid`, of the stores
abbrev pub uuid : Platform → String → Result Error String
uuid p s = or_raise (p.parse_uuid s) value_error

-- `_uuid` of a value that may be None; `drawn` is what uuid4 draws.
abbrev pub uuid_or : Platform → String → Option String → Result Error String
uuid_or p drawn none = ok drawn
uuid_or p drawn (some s) = uuid p s
