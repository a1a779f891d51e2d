-- ===== src/Attachments/Calls.antt =====
-- Histories of calls that write the table `attachments`: the operations of `AttachmentStore`,
-- app/attachments/store.py, with their arguments, and the table after each.
use weiquan_agent.Prelude.{ℕ, String, Option, List, [], ◌∷◌, DateTime, ◌>>=◌}
use weiquan_agent.Attachments.{AttachmentErrorCode, Platform, ExtractionResult, Attachments}
use weiquan_agent.Attachments.Table.{uuid, uuid_or}
use weiquan_agent.Attachments.Lifecycle.{
  Kind, to_upload, to_extract, to_fail, to_confirm, to_delete, to_purge, to_give_up, to_reserve,
  to_release, to_bind,
}
use weiquan_agent.Attachments.Drafts.{
  Upload, create_processing, save_extraction, save_failure, confirm, delete,
}
use weiquan_agent.Attachments.Expiry.{purge_expired, fail_stale_processing}
use weiquan_agent.Attachments.Reservations.{reserve, release}
use weiquan_agent.Attachments.Binding.{bind_reserved}

pub data Call (Block : Type 0) : Type 0 where
  -- draft_ttl, the drawn identifier, attachment_id, owner_id, the upload, now
  upload : ℕ → String → Option String → String → Upload → DateTime → Call Block
  extraction : String → ExtractionResult Block → String → DateTime → Call Block
  failure : String → AttachmentErrorCode → String → DateTime → Call Block
  -- attachment_id, confirmed_text, owner_id, now
  confirmation : String → String → String → DateTime → Call Block
  deletion : String → String → Call Block
  -- owner_id, now, limit
  purge stale : String → DateTime → ℕ → Call Block
  -- the drawn identifier, attachment_ids, owner_id, reservation_id, now
  reservation : String → List String → String → Option String → DateTime → Call Block
  release_of : String → String → DateTime → Call Block
  -- reservation_id, owner_id, session_id, turn_id, expected_ids, now
  binding : String → String → String → String → List String → DateTime → Call Block

module _ {Block : Type 0} (p : Platform) where
  -- What a call asks for. A binding reads the reservation's identifier, and again what it has read.
  abbrev pub kind_of : Call Block → Kind
  kind_of (upload ttl drawn id owner u now) = to_upload (uuid_or p drawn id)
  kind_of (extraction id result owner now) = to_extract (uuid p id)
  kind_of (failure id code owner now) = to_fail (uuid p id)
  kind_of (confirmation id text owner now) = to_confirm (uuid p id)
  kind_of (deletion id owner) = to_delete (uuid p id)
  kind_of (purge owner now limit) = to_purge
  kind_of (stale owner now limit) = to_give_up
  kind_of (reservation drawn ids owner id now) = to_reserve (uuid_or p drawn id)
  kind_of (release_of id owner now) = to_release (uuid p id)
  kind_of (binding id owner session turn ids now) = to_bind (uuid p id >>= uuid p)

  abbrev pub after : Call Block → Attachments Block → Attachments Block
  after (upload ttl drawn id owner u now) t = (create_processing p ttl drawn id owner u now t).1
  after (extraction id result owner now) t = (save_extraction p id result owner now t).1
  after (failure id code owner now) t = (save_failure p id code owner now t).1
  after (confirmation id text owner now) t = (confirm p id text owner now t).1
  after (deletion id owner) t = (delete p id owner t).1
  after (purge owner now limit) t = (purge_expired p owner now limit t).1
  after (stale owner now limit) t = (fail_stale_processing p owner now limit t).1
  after (reservation drawn ids owner id now) t = (reserve p drawn ids owner id now t).1
  after (release_of id owner now) t = (release p id owner now t).1
  after (binding id owner session turn ids now) t =
      (bind_reserved p id owner session turn ids now t).1

  abbrev pub run : List (Call Block) → Attachments Block → Attachments Block
  run [] t = t
  run (call ∷ calls) t = run calls (after call t)
