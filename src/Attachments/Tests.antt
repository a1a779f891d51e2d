-- ===== src/Attachments/Tests.antt =====
-- One attachment of app/attachments/store.py from its upload to a turn, and concrete cases of the
-- theorems.
use weiquan_agent.Prelude.{
  String, true, false, none, some, List, [], ◌∷◌, ◌≡◌, refl, err, aware, string_eq, ◌==◌,
  if◌then◌else◌,
}
use weiquan_agent.Dict.{get, put}
use weiquan_agent.Attachments.{
  application_pdf, direct_text, state_conflict, already_bound, Platform, AttachmentRecord,
  ExtractionResult,
}
use weiquan_agent.Attachments.Checks.{
  is_name, are_warnings, normalize_confirmed_text, status_data_is_consistent,
  relation_is_consistent, fields_are_valid, record_is_consistent, validated,
}
use weiquan_agent.Attachments.Table.{insert_by, order_by, select_row, update_row, require_record}
use weiquan_agent.Attachments.Drafts.{
  Upload, new_record, insert_row, create_processing, write_row, save_extraction, confirm, delete,
  extracted, confirmed_with,
}
use weiquan_agent.Attachments.Reservations.{
  uuids, attachment_ids, validate_all, find_each, records_by_ids, check_each, reserve_one,
  reserve_each, reserve, reserved_as,
}
use weiquan_agent.Attachments.Binding.{bind_one, bind_each, bind_records, bind_reserved, bound_to}
use weiquan_agent.Attachments.Calls.{
  Call, upload, extraction, confirmation, deletion, purge, reservation, release_of, binding, run,
}

abbrev python : Platform
python = record {
  parse_uuid = λ s. if s == "" then none else some s;
  lower = λ s. s;
  strip = λ s. s;
  text_length = λ s. 36;
  has_control = λ s. false;
  is_sha256 = λ s. true;
  is_warning = λ s. true;
  comes_before = λ s t. false;
}

abbrev contract : Upload
contract = record {
  original_name = "contract.pdf";
  media_type = application_pdf;
  size_bytes = 10;
  sha256 = "ab";
}

abbrev reading : ExtractionResult String
reading = record {
  media_type = application_pdf;
  page_count = 1;
  extraction_method = direct_text;
  blocks = "text" ∷ [];
  warnings = [];
}

-- The calls that take it to a turn.
abbrev upload_to_turn : List (Call String)
upload_to_turn =
    upload 100 "a1" none "o1" contract (aware 10)
    ∷ extraction "a1" reading "o1" (aware 20)
    ∷ confirmation "a1" "text" "o1" (aware 30)
    ∷ reservation "r1" ("a1" ∷ []) "o1" none (aware 40)
    ∷ binding "r1" "o1" "s1" "t1" ("a1" ∷ []) (aware 50)
    ∷ []

-- What its owner may try afterwards.
abbrev attempts : List (Call String)
attempts =
    deletion "a1" "o1"
    ∷ confirmation "a1" "other" "o1" (aware 60)
    ∷ release_of "r1" "o1" (aware 70)
    ∷ purge "o1" (aware 900) 100
    ∷ []

abbrev of_turn : AttachmentRecord String
of_turn = bound_to python "s1" "t1" 50 (
    reserved_as python "r1" 40 0 (
      confirmed_with python "text" 30
        (extracted python reading 20 (new_record python "a1" "o1" contract 10 100))))

deletion_refused :
    (delete python "a1" "o1" (run python upload_to_turn [])).0 ≡ err (state_conflict already_bound)
unfolding create_processing new_record insert_row validated record_is_consistent fields_are_valid
    is_name are_warnings status_data_is_consistent relation_is_consistent save_extraction
    require_record select_row write_row update_row confirm normalize_confirmed_text reserve
    attachment_ids uuids records_by_ids validate_all find_each check_each reserve_each reserve_one
    bind_reserved bind_records bind_each bind_one order_by insert_by get put delete
deletion_refused = refl
