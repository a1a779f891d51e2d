-- ===== src/Attachments/Reservations.antt =====
-- The reservation of confirmed attachments for a turn in `AttachmentStore`, app/attachments/store.py.
use weiquan_agent.Prelude.{
  ℕ, suc, String, Bool, false, not, ◌&&◌, Option, none, some, List, [], ◌∷◌, leb, nat_eq, length,
  any, keep, contains, count, string_eq, ◌==◌, Result, ok, ◌>>=◌, ◌>>◌, require, or_raise, DateTime,
  utc,
}
use weiquan_agent.Dict.{put, values}
use weiquan_agent.Attachments.{
  already_bound, not_confirmed, count_exceeded, Error, not_found, resource_limit, state_conflict,
  value_error, Platform, AttachmentRecord, Attachments,
}
use weiquan_agent.Attachments.Checks.{is_some, is_empty, is_confirmed, all_distinct, validated}
use weiquan_agent.Attachments.Table.{
  transaction, select_row, update_where, require_unexpired, uuid, uuid_or,
}
use weiquan_agent.Attachments.Drafts.{is_taken}

abbrev pub or_first : Option ℕ → ℕ
or_first none = 0
or_first (some n) = suc n

abbrev pub is_at : Option ℕ → ℕ → Bool
is_at none position = false
is_at (some n) position = nat_eq n position

abbrev pub is_same : Option String → String → Bool
is_same none s = false
is_same (some r) s = r == s

module _ (p : Platform) where
  unfoldable pub uuids : List String → Result Error (List String)
  uuids [] = ok []
  uuids (value ∷ values) = do id ← uuid p value; ids ← uuids values; ok (id ∷ ids)

  -- _attachment_ids
  unfoldable pub attachment_ids : List String → Result Error (List String)
  attachment_ids values = do
    ids ← uuids values
    require (not (is_empty ids)) value_error
    require (leb (length ids) 3) (resource_limit count_exceeded)
    require (all_distinct ids) value_error
    ok ids

module _ {Block : Type 0} (p : Platform) where
  unfoldable pub validate_all : List (AttachmentRecord Block) → Result Error (Unit {0})
  validate_all [] = ok tt
  validate_all (r ∷ rs) = validated p r >>= λ valid. validate_all rs

  unfoldable pub find_each :
      List String → String → Attachments Block → Result Error (List (AttachmentRecord Block))
  find_each [] owner_id t = ok []
  find_each (id ∷ ids) owner_id t = do
    r ← or_raise (select_row id owner_id t) not_found
    rs ← find_each ids owner_id t
    ok (r ∷ rs)

  -- _records_by_ids
  unfoldable pub records_by_ids :
      List String → String → Attachments Block → Result Error (List (AttachmentRecord Block))
  records_by_ids ids owner_id t = do
    validate_all (keep (λ r. r.owner_id == owner_id && contains r.id ids) (values t))
    find_each ids owner_id t

  unfoldable pub check_each : ℕ → List (AttachmentRecord Block) → Result Error (Unit {0})
  check_each current [] = ok tt
  check_each current (r ∷ rs) = do
    require_unexpired p current r
    require (not (is_taken p r)) (state_conflict already_bound)
    require (is_confirmed r.status) (state_conflict not_confirmed)
    check_each current rs

  -- status = 'confirmed' AND session_id IS NULL AND turn_id IS NULL
  abbrev pub is_unbound : AttachmentRecord Block → Bool
  is_unbound r = is_confirmed r.status && (not (is_some r.session_id) && not (is_some r.turn_id))

  abbrev pub reserved_as : String → ℕ → ℕ → AttachmentRecord Block → AttachmentRecord Block
  reserved_as reservation_id current position r = record r {
    reservation_id = some reservation_id;
    reserved_at = some current;
    turn_position = some position;
    updated_at = current;
  }

  -- The UPDATE of one attachment, which has to meet one row.
  unfoldable pub reserve_one :
      String → String → ℕ → ℕ → String → Attachments Block → Result Error (Attachments Block)
  reserve_one reservation_id owner_id current position id t = do
    r ← or_raise (select_row id owner_id t) (state_conflict already_bound)
    require (is_unbound r && not (is_some r.reservation_id)) (state_conflict already_bound)
    ok (put id (reserved_as reservation_id current position r) t)

  unfoldable pub reserve_each :
      String → String → ℕ → ℕ → List String → Attachments Block → Result Error (Attachments Block)
  reserve_each reservation_id owner_id current position [] t = ok t
  reserve_each reservation_id owner_id current position (id ∷ ids) t = do
    t' ← reserve_one reservation_id owner_id current position id t
    reserve_each reservation_id owner_id current (suc position) ids t'

  abbrev pub is_reserved_by : String → String → AttachmentRecord Block → Bool
  is_reserved_by reservation_id owner_id r =
      r.owner_id == owner_id && is_same r.reservation_id reservation_id

  unfoldable pub reserve :
      String
      → List String
      → String
      → Option String
      → DateTime
      → Attachments Block
      → Result Error String × Attachments Block
  reserve drawn given owner_id reservation_id now t =
      transaction
        (do
          ids ← attachment_ids p given
          owner ← uuid p owner_id
          reservation ← uuid_or p drawn reservation_id
          current ← utc value_error now
          require (not (any (is_reserved_by reservation owner) (values t)))
              (state_conflict already_bound)
          records ← records_by_ids ids owner t
          check_each current records
          t' ← reserve_each reservation owner current 0 ids t
          ok (reservation, t'))
        t

  abbrev pub released : ℕ → AttachmentRecord Block → AttachmentRecord Block
  released current r = record r {
    reservation_id = none;
    reserved_at = none;
    turn_position = none;
    updated_at = current;
  }

  abbrev pub is_held_by : String → String → AttachmentRecord Block → Bool
  is_held_by reservation_id owner_id r = is_reserved_by reservation_id owner_id r && is_unbound r

  unfoldable pub release :
      String → String → DateTime → Attachments Block → Result Error ℕ × Attachments Block
  release reservation_id owner_id now t =
      transaction
        (do
          reservation ← uuid p reservation_id
          owner ← uuid p owner_id
          current ← utc value_error now
          ok (
            count (is_held_by reservation owner) (values t),
            update_where (is_held_by reservation owner) (released current) t,
          ))
        t
