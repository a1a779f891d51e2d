-- ===== src/Attachments/Removal.antt =====
-- How `AttachmentStore`, app/attachments/store.py, gets rid of drafts, by the kinds of its writes.
use weiquan_agent.Prelude.{
  ℕ, String, true, false, not, ◌&&◌, string_eq, ◌==◌, ◌≡◌, refl, ok, require-ok, require, DateTime,
  utc, arith, leb,
}
use weiquan_agent.Attachments.{
  state_conflict, value_error, Platform, Attachments, already_bound, service_unavailable,
}
use weiquan_agent.Attachments.Checks.{is_some, is_bound}
use weiquan_agent.Attachments.Table.{earlier, require_record, uuid}
use weiquan_agent.Attachments.Drafts.{failed_with, is_taken, delete, or_epoch, is_unfinished}
use weiquan_agent.Attachments.Expiry.{is_expired_draft, purge_expired, fail_stale_processing}
use weiquan_agent.Attachments.Rows.{Ends-bind, transaction-Ends, require_record-ok}
use weiquan_agent.Attachments.Rows.{Ends-bind, transaction-Ends, require_record-ok, select_ids-met}
use weiquan_agent.Attachments.Writes.{Keeps}
use weiquan_agent.Attachments.Steps.{give_up, discard, expire}
use weiquan_agent.Attachments.Lifecycle.{to_delete, to_purge, to_give_up}

module _ {Block : Type 0} (p : Platform) (P : Attachments Block → Type 0) where
  pub delete-keeps :
      (given owner_id : String)
      → Keeps (to_delete (uuid p given)) P
      → (t : Attachments Block) → P t
      → P (delete p given owner_id t).1
  unfolding delete
  delete-keeps given owner_id kept t h = transaction-Ends P _ t h (
      Ends-bind P (uuid p given) _ λ id got. Ends-bind P (uuid p owner_id) _ λ owner _.
        Ends-bind P (require_record p id owner t) _ λ s found.
          Ends-bind P (require (not (is_taken p s)) (state_conflict already_bound)) _ λ u free.
            let unbound : is_bound s.status ≡ false =
              ground
                (arith, require-ok (not (is_taken p s)) (state_conflict already_bound) u free) in
            let unheld : is_some s.reservation_id ≡ false =
              ground
                (arith, require-ok (not (is_taken p s)) (state_conflict already_bound) u free) in
            (known id got).drop id s t (require_record-ok p id owner t s found) unbound
              (discard id s.status s.reservation_id unbound unheld) h)
    where
      known : (id : String) → uuid p given ≡ ok id → Keeps (to_delete (ok id)) P
      known id got = rw got at kept

  pub purge_expired-keeps :
      (kept : Keeps to_purge P) (owner_id : String) (now : DateTime) (limit : ℕ)
      (t : Attachments Block)
      → P t
      → P (purge_expired p owner_id now limit t).1
  unfolding purge_expired
  purge_expired-keeps kept owner_id now limit t h = transaction-Ends P _ t h (
      Ends-bind P (require (leb 1 limit) value_error) _ λ _ _.
        Ends-bind P (uuid p owner_id) _ λ owner _. Ends-bind P (utc value_error now) _ λ current _.
          kept.drop_all _ t
            (λ j s e is_in.
              let met : is_expired_draft p owner current s ≡ true =
                select_ids-met j s (is_expired_draft p owner current)
                  (earlier p (λ r. or_epoch r.expires_at)) limit t e (kept.distinct t h) is_in in
              (ground (arith, met), λ unbound. expire j s.status s.reservation_id unbound))
            h)

  pub fail_stale_processing-keeps :
      (kept : Keeps to_give_up P) (owner_id : String) (now : DateTime) (limit : ℕ)
      (t : Attachments Block)
      → P t
      → P (fail_stale_processing p owner_id now limit t).1
  unfolding fail_stale_processing
  fail_stale_processing-keeps kept owner_id now limit t h = transaction-Ends P _ t h (
      Ends-bind P (require (leb 1 limit) value_error) _ λ _ _.
        Ends-bind P (uuid p owner_id) _ λ owner _. Ends-bind P (utc value_error now) _ λ current _.
          kept.change_all _ (failed_with p service_unavailable current) t
            (λ j s e is_in.
              let met : (s.owner_id == owner && is_unfinished s.status) ≡ true =
                select_ids-met j s (λ r. r.owner_id == owner && is_unfinished r.status)
                  (earlier p (λ r. r.created_at)) limit t e (kept.distinct t h) is_in in
              record {
                free = ground (arith, met);
                step = give_up j s.status s.reservation_id (ground (arith, met));
                sound = refl;
              })
            h)
