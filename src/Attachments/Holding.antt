-- ===== src/Attachments/Holding.antt =====
-- Reservations of app/attachments/store.py and their release, by the kinds of their writes.
use weiquan_agent.Prelude.{
  ℕ, suc, String, true, not, ◌&&◌, Option, some, List, [], ◌∷◌, string_eq, ◌≡◌, ok, require-ok,
  or_raise, require, DateTime, utc, arith, any,
}
use weiquan_agent.Dict.{get, values}
use weiquan_agent.Attachments.{
  Error, state_conflict, value_error, Platform, AttachmentRecord, Attachments, already_bound,
}
use weiquan_agent.Attachments.Checks.{is_some}
use weiquan_agent.Attachments.Table.{select_row, uuid, uuid_or}
use weiquan_agent.Attachments.Reservations.{
  attachment_ids, is_reserved_by, is_held_by, is_unbound, reserved_as, released, records_by_ids,
  check_each, reserve_one, reserve_each, reserve, release,
}
use weiquan_agent.Attachments.Rows.{
  Leaves, Leaves-bind, Leaves-then, Ends-then, Ends-bind, transaction-Ends,
}
use weiquan_agent.Attachments.Rows.{
  Leaves, Leaves-bind, Leaves-then, Ends-then, Ends-bind, transaction-Ends,
}
use weiquan_agent.Attachments.Lifecycle.{to_reserve, to_release}
use weiquan_agent.Attachments.Writes.{Keeps}
use weiquan_agent.Attachments.Steps.{hold, let_go}
use weiquan_agent.Attachments.Preservation.{select_row-some}

pub raised-some :
    {Block : Type 0} (id owner_id : String) (s : AttachmentRecord Block) (t : Attachments Block)
    (e : Error)
    → or_raise (select_row id owner_id t) e ≡ ok s
    → get id t ≡ some s
raised-some id owner_id s t e found = select_row-some id owner_id s t (ground (arith, found))

module _ {Block : Type 0} (p : Platform) (P : Attachments Block → Type 0) where
  reserve_one-keeps :
      (reservation_id owner_id : String) (current position : ℕ) (id : String)
      → Keeps (to_reserve (ok reservation_id)) P
      → (t : Attachments Block) → P t
      → Leaves P (reserve_one p reservation_id owner_id current position id t)
  unfolding reserve_one
  reserve_one-keeps reservation_id owner_id current position id kept t h =
      Leaves-bind P (or_raise (select_row id owner_id t) (state_conflict already_bound)) _
        λ s found.
          Leaves-bind P
            (require (is_unbound p s && not (is_some s.reservation_id))
              (state_conflict already_bound))
            _
            λ u free.
              let may : (is_unbound p s && not (is_some s.reservation_id)) ≡ true =
                require-ok (is_unbound p s && not (is_some s.reservation_id))
                  (state_conflict already_bound) u free in
              kept.change id s (reserved_as p reservation_id current position s) t
                (raised-some id owner_id s t (state_conflict already_bound) found)
                (record {
                  free = ground (arith, may);
                  step =
                      hold id s.status s.reservation_id reservation_id (ground (arith, may))
                        (ground (arith, may));
                  sound = ground (arith, may);
                })
                h

  reserve_each-keeps :
      (reservation_id owner_id : String) (current position : ℕ) (ids : List String)
      → Keeps (to_reserve (ok reservation_id)) P
      → (t : Attachments Block) → P t
      → Leaves P (reserve_each p reservation_id owner_id current position ids t)
  unfolding reserve_each
  reserve_each-keeps reservation_id owner_id current position [] kept t h = h
  reserve_each-keeps reservation_id owner_id current position (id ∷ ids) kept t h =
      Leaves-then P P (reserve_one p reservation_id owner_id current position id t) _
        (reserve_one-keeps reservation_id owner_id current position id kept t h)
        (reserve_each-keeps reservation_id owner_id current (suc position) ids kept)

  pub reserve-keeps :
      (drawn : String) (given : List String) (owner_id : String) (id : Option String)
      (now : DateTime)
      → Keeps (to_reserve (uuid_or p drawn id)) P
      → (t : Attachments Block) → P t
      → P (reserve p drawn given owner_id id now t).1
  unfolding reserve
  reserve-keeps drawn given owner_id id now kept t h = transaction-Ends P _ t h (
      Ends-bind P (attachment_ids p given) _ λ ids _. Ends-bind P (uuid p owner_id) _ λ owner _.
        Ends-bind P (uuid_or p drawn id) _ λ reservation_id got.
          Ends-bind P (utc value_error now) _ λ current _.
            Ends-bind P
              (require (not (any (is_reserved_by p reservation_id owner) (values t)))
                (state_conflict already_bound))
              _
              λ _ _. Ends-bind P (records_by_ids p ids owner t) _ λ records _.
                Ends-bind P (check_each p current records) _ λ _ _.
                  Ends-then P (reserve_each p reservation_id owner current 0 ids t) _
                    (reserve_each-keeps reservation_id owner current 0 ids (rw got at kept) t h)
                    (λ t' h'. h'))

  pub release-keeps :
      (id owner_id : String) (now : DateTime)
      → Keeps (to_release (uuid p id)) P
      → (t : Attachments Block) → P t
      → P (release p id owner_id now t).1
  unfolding release
  release-keeps id owner_id now kept t h = transaction-Ends P _ t h (
      Ends-bind P (uuid p id) _ λ reservation_id got. Ends-bind P (uuid p owner_id) _ λ owner _.
        Ends-bind P (utc value_error now) _ λ current _.
          let held_kept : Keeps (to_release (ok reservation_id)) P = rw got at kept in
          held_kept.change_where (is_held_by p reservation_id owner) (released p current) t
            (λ j s met. record {
              free = ground (arith, met);
              step =
                  let_go j s.status s.reservation_id reservation_id (ground (arith, met))
                    (ground (arith, met));
              sound = ground (arith, met);
            })
            h)
