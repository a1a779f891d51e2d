-- ===== src/Attachments.antt =====
-- The records of app/attachments/models.py, app/attachments/errors.py and `AttachmentRecord` of
-- app/db/models.py, and the table `attachments` as its rows by primary key. A JSON column holds the
-- values that it encodes, and instants are in microseconds.
pub mod Checks
pub mod Table
pub mod Drafts
pub mod Expiry
pub mod Reservations
pub mod Binding
pub mod Rows
pub mod Calls
pub mod Final
pub mod Lifecycle
pub mod Sweeps
pub mod Writes
pub mod Steps
pub mod Preservation
pub mod Removal
pub mod Holding
pub mod Using
pub mod Histories
pub mod Refinement
pub mod Provenance
mod Tests
use weiquan_agent.Prelude.{ℕ, String, Bool, true, false, Option, none, List}
use weiquan_agent.Dict.{Dict}

pub data AttachmentStatus : Type 0 where
  processing review_required confirmed failed bound : AttachmentStatus

pub data AttachmentMediaType : Type 0 where
  application_pdf image_png image_jpeg : AttachmentMediaType

pub data ExtractionMethod : Type 0 where
  direct_text ocr mixed : ExtractionMethod

pub data AttachmentErrorCode : Type 0 where
  type_unsupported type_mismatch name_invalid pdf_encrypted corrupt text_empty too_large
        page_limit_exceeded pixel_limit_exceeded extracted_text_too_long extraction_timeout
        attachment_not_found not_reviewable not_confirmed already_bound count_exceeded
        context_too_long service_busy service_unavailable :
      AttachmentErrorCode

-- _PROCESSING_FAILURE_CODES
abbrev pub is_processing_failure : AttachmentErrorCode → Bool
is_processing_failure attachment_not_found = false
is_processing_failure not_reviewable = false
is_processing_failure not_confirmed = false
is_processing_failure already_bound = false
is_processing_failure count_exceeded = false
is_processing_failure context_too_long = false
is_processing_failure _ = true

pub data Error : Type 0 where
  not_found : Error
  input_error resource_limit state_conflict : AttachmentErrorCode → Error
  -- ValueError, of pydantic's ValidationError too; sqlite3's error of a primary key that is taken
  value_error integrity_error : Error

-- What the code asks of libraries.
pub record Platform : Type 0 where
  -- str(UUID(s)), where it does not raise
  pub parse_uuid : String → Option String
  pub lower : String → String
  pub strip : String → String
  -- len
  pub text_length : String → ℕ
  -- a character of category Cc
  pub has_control : String → Bool
  -- the patterns of a digest and of a warning code
  pub is_sha256 : String → Bool
  pub is_warning : String → Bool
  -- the order of texts
  pub comes_before : String → String → Bool

module _ (Block : Type 0) where
  pub record AttachmentRecord : Type 0 where
    pub id : String
    pub owner_id : String
    pub session_id : Option String
    pub turn_id : Option String
    pub turn_position : Option ℕ
    pub status : AttachmentStatus
    pub original_name : String
    pub media_type : AttachmentMediaType
    pub size_bytes : ℕ
    pub sha256 : String
    pub page_count : Option ℕ
    pub extraction_method : Option ExtractionMethod
    pub extracted_blocks : List Block
    pub confirmed_text : Option String
    pub warnings : List String
    pub error_code : Option AttachmentErrorCode
    pub reservation_id : Option String
    pub reserved_at : Option ℕ
    pub created_at : ℕ
    pub updated_at : ℕ
    pub expires_at : Option ℕ

  pub record ExtractionResult : Type 0 where
    pub media_type : AttachmentMediaType
    pub page_count : ℕ
    pub extraction_method : ExtractionMethod
    pub blocks : List Block
    pub warnings : List String

module _ (Block : Type 0) where
  abbrev pub Attachments : Type 0
  Attachments = Dict String (AttachmentRecord Block)
