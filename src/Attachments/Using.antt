-- ===== src/Attachments/Using.antt =====
-- The binding of a reservation of app/attachments/store.py to a turn, by the kinds of its writes.
use weiquan_agent.Prelude.{
  ℕ, suc, String, true, not, ◌&&◌, List, [], ◌∷◌, string_eq, ◌≡◌, refl, ok, ◌>>=◌, require-ok,
  or_raise, require, DateTime, utc, arith, leb, length, any,
}
use weiquan_agent.Dict.{values}
use weiquan_agent.Attachments.{
  state_conflict, value_error, Platform, AttachmentRecord, Attachments, already_bound,
  not_confirmed,
}
use weiquan_agent.Attachments.Checks.{is_confirmed, is_empty, all_distinct}
use weiquan_agent.Attachments.Table.{is_past, select_row, uuid}
use weiquan_agent.Attachments.Reservations.{attachment_ids, uuids, validate_all, is_same, is_at}
use weiquan_agent.Attachments.Binding.{
  have_ids, is_of_turn, bound_to, bind_one, bind_each, bind_records, bind_reserved,
}
use weiquan_agent.Attachments.Rows.{
  Leaves, Leaves-bind, Leaves-then, Ends-then, Ends-bind, transaction-Ends,
}
use weiquan_agent.Attachments.Rows.{
  Leaves, Leaves-bind, Leaves-then, Ends-then, Ends-bind, transaction-Ends,
}
use weiquan_agent.Attachments.Lifecycle.{to_bind}
use weiquan_agent.Attachments.Writes.{Keeps}
use weiquan_agent.Attachments.Steps.{use_up}
use weiquan_agent.Attachments.Holding.{raised-some}

module _ {Block : Type 0} (p : Platform) (P : Attachments Block → Type 0) where
  bind_one-keeps :
      (reservation_id owner_id session_id turn_id : String) (current position : ℕ)
      (s : AttachmentRecord Block)
      → Keeps (to_bind (ok reservation_id)) P
      → (t : Attachments Block) → P t
      → Leaves P (bind_one p reservation_id owner_id session_id turn_id current position s t)
  unfolding bind_one
  bind_one-keeps reservation_id owner_id session_id turn_id current position s kept t h =
      Leaves-bind P (require (not (is_past current s.expires_at)) (state_conflict not_confirmed)) _
        λ _ _.
          Leaves-bind P
            (require (is_confirmed s.status && is_at s.turn_position position)
              (state_conflict not_confirmed))
            _
            λ _ _.
              Leaves-bind P (or_raise (select_row s.id owner_id t) (state_conflict already_bound)) _
                λ row found.
                  Leaves-bind P
                    (require
                      (is_confirmed row.status
                        && (is_same row.reservation_id reservation_id
                            && is_at row.turn_position position))
                      (state_conflict already_bound))
                    _
                    λ u free.
                      let may : (is_confirmed row.status
                            && (is_same row.reservation_id reservation_id
                                && is_at row.turn_position position))
                          ≡ true =
                        require-ok
                          (is_confirmed row.status
                            && (is_same row.reservation_id reservation_id
                                && is_at row.turn_position position))
                          (state_conflict already_bound) u free in
                      kept.change s.id row (bound_to p session_id turn_id current row) t
                        (raised-some s.id owner_id row t (state_conflict already_bound) found)
                        (record {
                          free = ground (arith, may);
                          step =
                              use_up s.id row.status row.reservation_id reservation_id
                                (ground (arith, may)) (ground (arith, may));
                          sound = refl;
                        })
                        h

  bind_each-keeps :
      (reservation_id owner_id session_id turn_id : String) (current position : ℕ)
      (rows : List (AttachmentRecord Block))
      → Keeps (to_bind (ok reservation_id)) P
      → (t : Attachments Block) → P t
      → Leaves P (bind_each p reservation_id owner_id session_id turn_id current position rows t)
  unfolding bind_each
  bind_each-keeps reservation_id owner_id session_id turn_id current position [] kept t h = h
  bind_each-keeps reservation_id owner_id session_id turn_id current position (s ∷ rows) kept t h =
      Leaves-then P P (bind_one p reservation_id owner_id session_id turn_id current position s t) _
        (bind_one-keeps reservation_id owner_id session_id turn_id current position s kept t h)
        (bind_each-keeps reservation_id owner_id session_id turn_id current (suc position) rows
          kept)

  bind_records-keeps :
      (reservation_id : String) (given : List String) (owner_id session_id turn_id : String)
      (current : ℕ)
      → Keeps (to_bind (uuid p reservation_id)) P
      → (t : Attachments Block) → P t
      → Leaves P (bind_records p reservation_id given owner_id session_id turn_id current t)
  unfolding bind_records
  bind_records-keeps reservation_id given owner_id session_id turn_id current kept t h =
      Leaves-bind P (uuid p reservation_id) _ λ id got. Leaves-bind P (uuids p given) _ λ ids _.
        Leaves-bind P (require (not (is_empty ids)) value_error) _ λ _ _.
          Leaves-bind P (require (leb (length ids) 3) value_error) _ λ _ _.
            Leaves-bind P (require (all_distinct ids) value_error) _ λ _ _.
              Leaves-bind P
                (require (not (any (is_of_turn p turn_id owner_id) (values t)))
                  (state_conflict already_bound))
                _
                λ _ _. Leaves-bind P (validate_all p _) _ λ _ _.
                  Leaves-bind P (require (have_ids p _ ids) (state_conflict already_bound)) _ λ _ _.
                    bind_each-keeps id owner_id session_id turn_id current 0 _ (rw got at kept) t h

  pub bind_reserved-keeps :
      (reservation_id owner_id session_id turn_id : String) (ids : List String) (now : DateTime)
      → Keeps (to_bind (uuid p reservation_id >>= uuid p)) P
      → (t : Attachments Block) → P t
      → P (bind_reserved p reservation_id owner_id session_id turn_id ids now t).1
  unfolding bind_reserved
  bind_reserved-keeps reservation_id owner_id session_id turn_id given now kept t h =
      transaction-Ends P _ t h (
        Ends-bind P (attachment_ids p given) _ λ ids _.
          Ends-bind P (uuid p reservation_id) _ λ id got. Ends-bind P (uuid p owner_id) _ λ owner _.
            Ends-bind P (uuid p session_id) _ λ session _. Ends-bind P (uuid p turn_id) _ λ turn _.
              Ends-bind P (utc value_error now) _ λ current _.
                Ends-then P (bind_records p id ids owner session turn current t) _
                  (bind_records-keeps id ids owner session turn current (rw got at kept) t h)
                  (λ t' h'. h'))
