-- ===== src/Attachments/Drafts.antt =====
-- The draft of an attachment in `AttachmentStore`, app/attachments/store.py, from its upload to its
-- confirmation or deletion.
use weiquan_agent.Prelude.{
  ℕ, ◌+◌, String, Bool, true, false, not, ◌||◌, Option, none, some, [], if◌then◌else◌, string_eq,
  Result, ok, err, ◌>>=◌, ◌>>◌, require, or_raise, DateTime, utc,
}
use weiquan_agent.Dict.{get, put, remove}
use weiquan_agent.Attachments.{
  AttachmentStatus, processing, review_required, confirmed, failed, AttachmentMediaType,
  application_pdf, image_png, image_jpeg, AttachmentErrorCode, is_processing_failure, type_mismatch,
  not_reviewable, already_bound, Error, not_found, input_error, state_conflict, value_error,
  integrity_error, Platform, AttachmentRecord, ExtractionResult, Attachments,
}
use weiquan_agent.Attachments.Checks.{is_some, is_bound, normalize_confirmed_text, validated}
use weiquan_agent.Attachments.Table.{
  transaction, is_past, select_row, update_row, require_record, require_unexpired, uuid, uuid_or,
}

abbrev pub same_type : AttachmentMediaType → AttachmentMediaType → Bool
same_type application_pdf application_pdf = true
same_type image_png image_png = true
same_type image_jpeg image_jpeg = true
same_type _ _ = false

abbrev pub is_processing : AttachmentStatus → Bool
is_processing processing = true
is_processing _ = false

-- status in {"review_required", "confirmed"}
abbrev pub is_reviewable : AttachmentStatus → Bool
is_reviewable review_required = true
is_reviewable confirmed = true
is_reviewable _ = false

-- status IN ('processing', 'review_required')
abbrev pub is_unfinished : AttachmentStatus → Bool
is_unfinished processing = true
is_unfinished review_required = true
is_unfinished _ = false

abbrev pub or_epoch : Option ℕ → ℕ
or_epoch none = 0
or_epoch (some n) = n

pub record Upload : Type 0 where
  pub original_name : String
  pub media_type : AttachmentMediaType
  pub size_bytes : ℕ
  pub sha256 : String

module _ {Block : Type 0} (p : Platform) where
  unfoldable pub new_record : String → String → Upload → ℕ → ℕ → AttachmentRecord Block
  new_record id owner_id u current draft_ttl = record {
    id = id;
    owner_id = owner_id;
    session_id = none;
    turn_id = none;
    turn_position = none;
    status = processing;
    original_name = u.original_name;
    media_type = u.media_type;
    size_bytes = u.size_bytes;
    sha256 = p.lower u.sha256;
    page_count = none;
    extraction_method = none;
    extracted_blocks = [];
    confirmed_text = none;
    warnings = [];
    error_code = none;
    reservation_id = none;
    reserved_at = none;
    created_at = current;
    updated_at = current;
    expires_at = some (current + draft_ttl);
  }

  -- INSERT INTO attachments. Of the table's constraints only the primary key is modelled: its CHECKs,
  -- its UNIQUE indexes and its foreign keys are left out, here and for the UPDATEs, so that the model
  -- lets through statements that the database refuses.
  unfoldable pub insert_row :
      AttachmentRecord Block
      → Attachments Block
      → Result Error (AttachmentRecord Block × Attachments Block)
  insert_row r t = elim (get r.id t) [
    | none ↦ ok (r, put r.id r t)
    | some other ↦ err integrity_error
  ]

  unfoldable pub create_processing :
      ℕ
      → String
      → Option String
      → String
      → Upload
      → DateTime
      → Attachments Block
      → Result Error (AttachmentRecord Block) × Attachments Block
  create_processing draft_ttl drawn attachment_id owner_id u now t =
      transaction
        (do
          current ← utc value_error now
          owner ← uuid p owner_id
          id ← uuid_or p drawn attachment_id
          r ← validated p (new_record id owner u current draft_ttl)
          insert_row r t)
        t

  -- The guards that both ways of ending the processing share.
  abbrev pub require_processing : AttachmentRecord Block → Result Error (Unit {0})
  require_processing r = do
    require (not (is_bound r.status)) (state_conflict already_bound)
    require (is_processing r.status) (state_conflict not_reviewable)

  -- An UPDATE of the row of a record that `_transition` has validated, and the row read again.
  unfoldable pub write_row :
      String
      → String
      → AttachmentRecord Block
      → (AttachmentRecord Block → AttachmentRecord Block)
      → Attachments Block
      → Result Error (AttachmentRecord Block × Attachments Block)
  write_row id owner_id candidate f t = do
    valid ← validated p candidate
    after ← require_record p id owner_id (update_row id owner_id f t)
    ok (after, update_row id owner_id f t)

  abbrev pub extracted :
      ExtractionResult Block → ℕ → AttachmentRecord Block → AttachmentRecord Block
  extracted result current r = record r {
    status = review_required;
    page_count = some result.page_count;
    extraction_method = some result.extraction_method;
    extracted_blocks = result.blocks;
    warnings = result.warnings;
    error_code = none;
    updated_at = current;
  }

  unfoldable pub save_extraction :
      String
      → ExtractionResult Block
      → String
      → DateTime
      → Attachments Block
      → Result Error (AttachmentRecord Block) × Attachments Block
  save_extraction attachment_id result owner_id now t =
      transaction
        (do
          id ← uuid p attachment_id
          owner ← uuid p owner_id
          current ← utc value_error now
          r ← require_record p id owner t
          require_unexpired p current r
          require_processing r
          require (same_type result.media_type r.media_type) (input_error type_mismatch)
          write_row id owner (record (extracted result current r) { confirmed_text = none })
              (extracted result current) t)
        t

  abbrev pub failed_with : AttachmentErrorCode → ℕ → AttachmentRecord Block → AttachmentRecord Block
  failed_with code current r = record r {
    status = failed;
    page_count = none;
    extraction_method = none;
    extracted_blocks = [];
    confirmed_text = none;
    warnings = [];
    error_code = some code;
    updated_at = current;
  }

  unfoldable pub save_failure :
      String
      → AttachmentErrorCode
      → String
      → DateTime
      → Attachments Block
      → Result Error (AttachmentRecord Block) × Attachments Block
  save_failure attachment_id code owner_id now t =
      transaction
        (do
          require (is_processing_failure code) value_error
          id ← uuid p attachment_id
          owner ← uuid p owner_id
          current ← utc value_error now
          r ← require_record p id owner t
          require_unexpired p current r
          require_processing r
          write_row id owner (failed_with code current r) (failed_with code current) t)
        t

  abbrev pub confirmed_with : String → ℕ → AttachmentRecord Block → AttachmentRecord Block
  confirmed_with text current r = record r {
    status = confirmed;
    confirmed_text = some text;
    updated_at = current;
  }

  -- status == "bound" or reservation_id is not None
  abbrev pub is_taken : AttachmentRecord Block → Bool
  is_taken r = is_bound r.status || is_some r.reservation_id

  unfoldable pub confirm :
      String
      → String
      → String
      → DateTime
      → Attachments Block
      → Result Error (AttachmentRecord Block) × Attachments Block
  confirm attachment_id confirmed_text owner_id now t =
      transaction
        (do
          id ← uuid p attachment_id
          owner ← uuid p owner_id
          current ← utc value_error now
          text ← normalize_confirmed_text p confirmed_text
          r ← require_record p id owner t
          require_unexpired p current r
          require (not (is_taken r)) (state_conflict already_bound)
          require (is_reviewable r.status) (state_conflict not_reviewable)
          write_row id owner (confirmed_with text current r) (confirmed_with text current) t)
        t

  abbrev pub unless_past : ℕ → AttachmentRecord Block → Option (AttachmentRecord Block)
  unless_past current r = if is_past current r.expires_at then none else some r

  unfoldable pub get_optional :
      String
      → String
      → DateTime
      → Attachments Block
      → Result Error (Option (AttachmentRecord Block))
  get_optional attachment_id owner_id now t = do
    id ← uuid p attachment_id
    owner ← uuid p owner_id
    current ← utc value_error now
    elim (select_row id owner t) [
      | none ↦ ok none
      | some row ↦ validated p row >>= λ r. ok (unless_past current r)
    ]

  unfoldable pub get_record :
      String → String → DateTime → Attachments Block → Result Error (AttachmentRecord Block)
  get_record attachment_id owner_id now t = do
    found ← get_optional attachment_id owner_id now t
    or_raise found not_found

  unfoldable pub delete :
      String → String → Attachments Block → Result Error (Unit {0}) × Attachments Block
  delete attachment_id owner_id t =
      transaction
        (do
          id ← uuid p attachment_id
          owner ← uuid p owner_id
          r ← require_record p id owner t
          require (not (is_taken r)) (state_conflict already_bound)
          ok (tt, remove id t))
        t
