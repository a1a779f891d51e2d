-- ===== src/Attachments/Binding.antt =====
-- The binding of reserved attachments to a turn: `_bind_reserved_attachments` of app/db/session.py,
-- from the reservation on, and the calls of app/attachments/store.py around it. The checks of the
-- session and the turn before it read other tables.
use weiquan_agent.Prelude.{
  ℕ, suc, String, Bool, true, false, not, ◌&&◌, none, some, List, [], ◌∷◌, leb, ltb, length, any,
  keep, if◌then◌else◌, string_eq, ◌==◌, Result, ok, ◌>>=◌, ◌>>◌, require, or_raise, DateTime, utc,
}
use weiquan_agent.Dict.{put, values}
use weiquan_agent.Attachments.{
  bound, already_bound, not_confirmed, Error, state_conflict, value_error, Platform,
  AttachmentRecord, Attachments,
}
use weiquan_agent.Attachments.Checks.{is_empty, is_bound, is_confirmed, all_distinct}
use weiquan_agent.Attachments.Table.{transaction, is_past, select_row, order_by, uuid}
use weiquan_agent.Attachments.Reservations.{
  or_first, is_at, is_same, uuids, attachment_ids, validate_all, is_reserved_by,
}

module _ {Block : Type 0} (p : Platform) where
  -- ORDER BY turn_position, id, where NULL comes first
  abbrev pub by_position : AttachmentRecord Block → AttachmentRecord Block → Bool
  by_position r s =
      if ltb (or_first r.turn_position) (or_first s.turn_position)
      then true
      else if ltb (or_first s.turn_position) (or_first r.turn_position)
      then false
      else p.comes_before r.id s.id

  abbrev pub have_ids : List (AttachmentRecord Block) → List String → Bool
  have_ids [] [] = true
  have_ids (r ∷ rs) (id ∷ ids) = r.id == id && have_ids rs ids
  have_ids _ _ = false

  abbrev pub bound_to : String → String → ℕ → AttachmentRecord Block → AttachmentRecord Block
  bound_to session_id turn_id current r = record r {
    status = bound;
    session_id = some session_id;
    turn_id = some turn_id;
    reservation_id = none;
    reserved_at = none;
    expires_at = none;
    updated_at = current;
  }

  -- One record of the loop, and its UPDATE, which has to meet one row.
  unfoldable pub bind_one :
      String
      → String
      → String
      → String
      → ℕ
      → ℕ
      → AttachmentRecord Block
      → Attachments Block
      → Result Error (Attachments Block)
  bind_one reservation_id owner_id session_id turn_id current position r t = do
    require (not (is_past current r.expires_at)) (state_conflict not_confirmed)
    require (is_confirmed r.status && is_at r.turn_position position) (state_conflict not_confirmed)
    row ← or_raise (select_row r.id owner_id t) (state_conflict already_bound)
    require
        (is_confirmed row.status
          && (is_same row.reservation_id reservation_id && is_at row.turn_position position))
        (state_conflict already_bound)
    ok (put r.id (bound_to session_id turn_id current row) t)

  unfoldable pub bind_each :
      String
      → String
      → String
      → String
      → ℕ
      → ℕ
      → List (AttachmentRecord Block)
      → Attachments Block
      → Result Error (Attachments Block)
  bind_each reservation_id owner_id session_id turn_id current position [] t = ok t
  bind_each reservation_id owner_id session_id turn_id current position (r ∷ rs) t = do
    t' ← bind_one reservation_id owner_id session_id turn_id current position r t
    bind_each reservation_id owner_id session_id turn_id current (suc position) rs t'

  abbrev pub is_of_turn : String → String → AttachmentRecord Block → Bool
  is_of_turn turn_id owner_id r = r.owner_id == owner_id && is_same r.turn_id turn_id

  -- _bind_reserved_attachments
  unfoldable pub bind_records :
      String
      → List String
      → String
      → String
      → String
      → ℕ
      → Attachments Block
      → Result Error (Attachments Block)
  bind_records reservation_id given owner_id session_id turn_id current t = do
    reservation ← uuid p reservation_id
    ids ← uuids p given
    require (not (is_empty ids)) value_error
    require (leb (length ids) 3) value_error
    require (all_distinct ids) value_error
    require (not (any (is_of_turn turn_id owner_id) (values t))) (state_conflict already_bound)
    let rows = order_by by_position (keep (is_reserved_by p reservation owner_id) (values t))
    validate_all p rows
    require (have_ids rows ids) (state_conflict already_bound)
    bind_each reservation owner_id session_id turn_id current 0 rows t

  -- Valid records of rows.
  abbrev pub returned : List (AttachmentRecord Block) → Result Error (List (AttachmentRecord Block))
  returned rows = do validate_all p rows; ok rows

  -- bind_reserved, and bind_reserved_attachments behind the checks of the session and the turn;
  -- the rows are read when the transaction has been committed.
  unfoldable pub bind_reserved :
      String
      → String
      → String
      → String
      → List String
      → DateTime
      → Attachments Block
      → Result Error (List (AttachmentRecord Block)) × Attachments Block
  bind_reserved reservation_id owner_id session_id turn_id expected_ids now t =
      let (done, t') =
        transaction
          (do
            ids ← attachment_ids p expected_ids
            reservation ← uuid p reservation_id
            owner ← uuid p owner_id
            session ← uuid p session_id
            turn ← uuid p turn_id
            current ← utc value_error now
            t' ← bind_records reservation ids owner session turn current t
            ok (order_by by_position (keep (is_of_turn turn owner) (values t')), t'))
          t in
      (done >>= returned, t')

  unfoldable pub list_for_turn :
      String → String → Attachments Block → Result Error (List (AttachmentRecord Block))
  list_for_turn turn_id owner_id t = do
    turn ← uuid p turn_id
    owner ← uuid p owner_id
    returned
        (order_by by_position (keep (λ r. is_of_turn turn owner r && is_bound r.status) (values t)))
