-- ===== src/Attachments/Checks.antt =====
-- `record_is_consistent` of `AttachmentRecord`, app/db/models.py, with the validators of
-- `AttachmentReviewPublic`, app/attachments/models.py, that it runs.
use weiquan_agent.Prelude.{
  String, Bool, true, false, not, ◌&&◌, ◌||◌, Option, none, some, List, [], ◌∷◌, leb, nat_eq, all,
  contains, if◌then◌else◌, string_eq, ◌==◌, Result, ok, require, ◌>>◌,
}
use weiquan_agent.Attachments.{
  AttachmentStatus, processing, review_required, confirmed, failed, bound, is_processing_failure,
  Error, value_error, Platform, AttachmentRecord,
}

abbrev pub is_some {ℓ} : {A : Type ℓ} → Option A → Bool
is_some none = false
is_some (some a) = true

abbrev pub is_empty {ℓ} : {A : Type ℓ} → List A → Bool
is_empty [] = true
is_empty _ = false

abbrev pub all_distinct : List String → Bool
all_distinct [] = true
all_distinct (x ∷ xs) = not (contains x xs) && all_distinct xs

abbrev pub is_extracted : AttachmentStatus → Bool
is_extracted processing = false
is_extracted failed = false
is_extracted _ = true

abbrev pub is_bound : AttachmentStatus → Bool
is_bound bound = true
is_bound _ = false

abbrev pub is_confirmed : AttachmentStatus → Bool
is_confirmed confirmed = true
is_confirmed _ = false

-- A check of a value where there is one.
abbrev pub optional {ℓ} : {A : Type ℓ} → (A → Bool) → Option A → Bool
optional p none = true
optional p (some a) = p a

module _ (p : Platform) where
  -- validate_attachment_name
  unfoldable pub is_name : String → Bool
  is_name s = not (p.strip s == "") && (leb (p.text_length s) 255 && not (p.has_control s))

  abbrev pub is_text : String → Bool
  is_text s = not (p.strip s == "") && leb (p.text_length (p.strip s)) 200000

  -- normalize_confirmed_text
  unfoldable pub normalize_confirmed_text : String → Result Error String
  normalize_confirmed_text s = do require (is_text s) value_error; ok (p.strip s)

  -- _validate_warnings
  unfoldable pub are_warnings : List String → Bool
  are_warnings values = all_distinct values && all p.is_warning values

  abbrev pub is_id : String → Bool
  is_id s = nat_eq (p.text_length s) 36

module _ {Block : Type 0} (r : AttachmentRecord Block) where
  -- The reading of `has_extraction` where there is a media type.
  abbrev pub has_extraction : Bool
  has_extraction =
      is_some r.page_count && (is_some r.extraction_method && not (is_empty r.extracted_blocks))

  -- status_data_is_consistent
  unfoldable pub status_data_is_consistent : Bool
  status_data_is_consistent = elim r.status [
    | processing ↦
        is_empty r.extracted_blocks
        && (not (is_some r.confirmed_text)
            && (not (is_some r.error_code) && not (is_some r.extraction_method)))
    | review_required ↦
        has_extraction && (not (is_some r.confirmed_text) && not (is_some r.error_code))
    | confirmed ↦ has_extraction && (is_some r.confirmed_text && not (is_some r.error_code))
    | bound ↦ has_extraction && (is_some r.confirmed_text && not (is_some r.error_code))
    | failed ↦
        elim r.error_code [ none ↦ false | some code ↦ is_processing_failure code ]
        && (is_empty r.extracted_blocks && not (is_some r.confirmed_text))
  ]

  -- The branch for a record that has no blocks and should have an extraction.
  unfoldable pub metadata_is_consistent : Bool
  metadata_is_consistent =
      is_some r.page_count
      && (is_some r.extraction_method
          && (not (is_some r.error_code)
              && elim r.status [ review_required ↦ not (is_some r.confirmed_text) | _ ↦ true ]))

  -- The fields of the relation to a turn and of a reservation.
  unfoldable pub relation_is_consistent : Bool
  relation_is_consistent =
      if is_bound r.status
      then is_some r.session_id
        && (is_some r.turn_id
            && (is_some r.turn_position
                && (not (is_some r.expires_at)
                    && (not (is_some r.reservation_id) && not (is_some r.reserved_at)))))
      else not (is_some r.session_id)
        && (not (is_some r.turn_id)
            && (is_some r.expires_at
                && ((is_some r.reservation_id
                      && (is_some r.reserved_at
                          && (is_some r.turn_position && is_confirmed r.status)))
                    || (not (is_some r.reservation_id)
                        && (not (is_some r.reserved_at) && not (is_some r.turn_position))))))

module _ {Block : Type 0} (p : Platform) where
  -- The constraints of single fields, and the validators that AttachmentReviewPublic has for them.
  unfoldable pub fields_are_valid : AttachmentRecord Block → Bool
  fields_are_valid r =
      is_id p r.id
      && (is_id p r.owner_id
          && (is_some (p.parse_uuid r.id)
              && (optional (is_id p) r.session_id
                  && (optional (is_id p) r.turn_id
                      && (optional (λ n. leb n 2) r.turn_position
                          && (p.is_sha256 r.sha256
                              && (optional (leb 1) r.page_count
                                  && (optional (is_id p) r.reservation_id
                                      && (is_name p r.original_name
                                          && (are_warnings p r.warnings
                                              && optional (is_text p) r.confirmed_text))))))))))

  -- record_is_consistent
  unfoldable pub record_is_consistent : AttachmentRecord Block → Bool
  record_is_consistent r =
      fields_are_valid r
      && ((if is_extracted r.status && is_empty r.extracted_blocks
            then metadata_is_consistent r
            else status_data_is_consistent r)
          && relation_is_consistent r)

  -- model_validate
  unfoldable pub validated : AttachmentRecord Block → Result Error (AttachmentRecord Block)
  validated r = do require (record_is_consistent r) value_error; ok r
