-- ===== src/Attachments/Preservation.antt =====
-- The operations of app/attachments/store.py on drafts, by the kinds of their writes.
use weiquan_agent.Prelude.{
  ℕ, String, false, not, Option, none, some, string_eq, ◌≡◌, refl, ok, require-ok, require,
  DateTime, utc, arith, Option-cases, inl, inr,
}
use weiquan_agent.Dict.{get}
use weiquan_agent.Attachments.{
  AttachmentErrorCode, input_error, state_conflict, value_error, Platform, AttachmentRecord,
  ExtractionResult, Attachments, type_mismatch, already_bound, not_reviewable,
  is_processing_failure,
}
use weiquan_agent.Attachments.Checks.{is_some, validated, normalize_confirmed_text}
use weiquan_agent.Attachments.Table.{
  select_row, update_row, require_record, require_unexpired, uuid, uuid_or,
}
use weiquan_agent.Attachments.Drafts.{
  Upload, new_record, insert_row, create_processing, require_processing, write_row, extracted,
  same_type, save_extraction, failed_with, save_failure, confirmed_with, is_taken, is_reviewable,
  confirm,
}
use weiquan_agent.Attachments.Rows.{Ends, Ends-bind, transaction-Ends, require_record-ok}
use weiquan_agent.Attachments.{processing}
use weiquan_agent.Attachments.Rows.{Ends, Ends-bind, transaction-Ends, require_record-ok}
use weiquan_agent.Attachments.Writes.{IsChange, Keeps}
use weiquan_agent.Attachments.Steps.{is_processing-eq, approve}
use weiquan_agent.Attachments.Lifecycle.{
  Kind, arrives, is_read, fails, to_upload, to_extract, to_fail, to_confirm,
}

pub select_row-some :
    {Block : Type 0} (id owner_id : String) (s : AttachmentRecord Block) (t : Attachments Block)
    → select_row id owner_id t ≡ some s
    → get id t ≡ some s
unfolding select_row
select_row-some id owner_id s t found = ground (arith, found)

module _ {Block : Type 0} (p : Platform) (P : Attachments Block → Type 0) where
  insert_row-keeps :
      (s : AttachmentRecord Block) (kept : Keeps (to_upload (ok s.id)) P) (t : Attachments Block)
      → s.status ≡ processing
      → P t
      → Ends P (insert_row p s t)
  unfolding insert_row
  insert_row-keeps s kept t new_one h = elim (Option-cases (get s.id t)) [
    | inl new ↦ rw (new, insert_row) (kept.insert s t new new_one (inr (arrives s.id)) h)
    | inr (y, taken) ↦ rw (taken, insert_row) tt
  ]

  pub create_processing-keeps :
      (ttl : ℕ) (drawn : String) (id : Option String)
      (kept : Keeps (to_upload (uuid_or p drawn id)) P) (owner_id : String) (u : Upload)
      (now : DateTime) (t : Attachments Block)
      → P t
      → P (create_processing p ttl drawn id owner_id u now t).1
  unfolding create_processing new_record validated
  create_processing-keeps ttl drawn id kept owner_id u now t h = transaction-Ends P _ t h (
      Ends-bind P (utc value_error now) _ λ current _. Ends-bind P (uuid p owner_id) _ λ owner _.
        Ends-bind P (uuid_or p drawn id) _ λ id' got.
          Ends-bind P (validated p (new_record p id' owner u current ttl)) _ λ s made.
            let known : Keeps (to_upload (ok id')) P = rw got at kept in
            let same : s.id ≡ id' = ground (arith, made) in
            insert_row-keeps s (rw same known) t (ground (arith, made)) h)

  update_row-keeps :
      {kind : Kind} (kept : Keeps kind P) (id owner_id : String)
      (f : AttachmentRecord Block → AttachmentRecord Block) (s : AttachmentRecord Block)
      (t : Attachments Block)
      → get id t ≡ some s
      → IsChange kind id s (f s)
      → P t
      → P (update_row id owner_id f t)
  unfolding update_row
  update_row-keeps kept id owner_id f s t found c h =
      elim (Option-cases (select_row id owner_id t)) [
        | inl e ↦ rw (e, update_row) h
        | inr (y, e) ↦
            let same : y ≡ s = ground (arith, select_row-some id owner_id y t e, found) in
            rw (e, update_row) (rw same (kept.change id s (f s) t found c h))
      ]

  write_row-keeps :
      {kind : Kind} (kept : Keeps kind P) (id owner_id : String)
      (candidate : AttachmentRecord Block) (f : AttachmentRecord Block → AttachmentRecord Block)
      (s : AttachmentRecord Block) (t : Attachments Block)
      → get id t ≡ some s
      → IsChange kind id s (f s)
      → P t
      → Ends P (write_row p id owner_id candidate f t)
  unfolding write_row
  write_row-keeps kept id owner_id candidate f s t found c h =
      Ends-bind P (validated p candidate) _ λ valid _.
        Ends-bind P (require_record p id owner_id (update_row id owner_id f t)) _
          λ after _. update_row-keeps kept id owner_id f s t found c h

  pub save_extraction-keeps :
      (given : String) (result : ExtractionResult Block) (owner_id : String) (now : DateTime)
      → Keeps (to_extract (uuid p given)) P
      → (t : Attachments Block) → P t
      → P (save_extraction p given result owner_id now t).1
  unfolding save_extraction
  save_extraction-keeps given result owner_id now kept t h = transaction-Ends P _ t h (
      Ends-bind P (uuid p given) _ λ id got. Ends-bind P (uuid p owner_id) _ λ owner _.
        Ends-bind P (utc value_error now) _ λ current _.
          Ends-bind P (require_record p id owner t) _ λ s found.
            Ends-bind P (require_unexpired p current s) _ λ _ _.
              Ends-bind P (require_processing p s) _ λ _ new.
                Ends-bind P
                  (require (same_type result.media_type s.media_type) (input_error type_mismatch)) _
                  λ _ _.
                    let is_new : s.status ≡ processing =
                      is_processing-eq s.status (ground (arith, new)) in
                    write_row-keeps (known id got) id owner
                      (record (extracted p result current s) { confirmed_text = none })
                      (extracted p result current) s t (require_record-ok p id owner t s found)
                      (record {
                        free = rw is_new refl;
                        step = rw is_new (inr (is_read id));
                        sound = refl;
                      })
                      h)
    where
      known : (id : String) → uuid p given ≡ ok id → Keeps (to_extract (ok id)) P
      known id got = rw got at kept

  pub save_failure-keeps :
      (given : String) (code : AttachmentErrorCode) (owner_id : String) (now : DateTime)
      → Keeps (to_fail (uuid p given)) P
      → (t : Attachments Block) → P t
      → P (save_failure p given code owner_id now t).1
  unfolding save_failure
  save_failure-keeps given code owner_id now kept t h = transaction-Ends P _ t h (
      Ends-bind P (require (is_processing_failure code) value_error) _ λ _ _.
        Ends-bind P (uuid p given) _ λ id got. Ends-bind P (uuid p owner_id) _ λ owner _.
          Ends-bind P (utc value_error now) _ λ current _.
            Ends-bind P (require_record p id owner t) _ λ s found.
              Ends-bind P (require_unexpired p current s) _ λ _ _.
                Ends-bind P (require_processing p s) _ λ _ new.
                  let is_new : s.status ≡ processing =
                    is_processing-eq s.status (ground (arith, new)) in
                  write_row-keeps (known id got) id owner (failed_with p code current s)
                    (failed_with p code current) s t (require_record-ok p id owner t s found)
                    (record {
                      free = rw is_new refl;
                      step = rw is_new (inr (fails id));
                      sound = refl;
                    })
                    h)
    where
      known : (id : String) → uuid p given ≡ ok id → Keeps (to_fail (ok id)) P
      known id got = rw got at kept

  pub confirm-keeps :
      (given text owner_id : String) (now : DateTime)
      → Keeps (to_confirm (uuid p given)) P
      → (t : Attachments Block) → P t
      → P (confirm p given text owner_id now t).1
  unfolding confirm
  confirm-keeps given text owner_id now kept t h = transaction-Ends P _ t h (
      Ends-bind P (uuid p given) _ λ id got. Ends-bind P (uuid p owner_id) _ λ owner _.
        Ends-bind P (utc value_error now) _ λ current _.
          Ends-bind P (normalize_confirmed_text p text) _ λ text' _.
            Ends-bind P (require_record p id owner t) _ λ s found.
              Ends-bind P (require_unexpired p current s) _ λ _ _.
                Ends-bind P (require (not (is_taken p s)) (state_conflict already_bound)) _
                  λ u free.
                    Ends-bind P (require (is_reviewable s.status) (state_conflict not_reviewable)) _
                      λ v may.
                        let unheld : is_some s.reservation_id ≡ false = ground (
                          arith,
                          require-ok (not (is_taken p s)) (state_conflict already_bound) u free,
                        ) in
                        write_row-keeps (known id got) id owner (confirmed_with p text' current s)
                          (confirmed_with p text' current) s t
                          (require_record-ok p id owner t s found)
                          (record {
                            free = ground (
                              arith,
                              require-ok (not (is_taken p s)) (state_conflict already_bound) u free,
                            );
                            step =
                                approve id s.status s.reservation_id
                                  (require-ok (is_reviewable s.status)
                                    (state_conflict not_reviewable) v may)
                                  unheld;
                            sound = refl;
                          })
                          h)
    where
      known : (id : String) → uuid p given ≡ ok id → Keeps (to_confirm (ok id)) P
      known id got = rw got at kept
