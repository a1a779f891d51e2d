-- ===== src/Attachments/Expiry.antt =====
-- What `AttachmentStore`, app/attachments/store.py, does to drafts that are left behind.
use weiquan_agent.Prelude.{
  ℕ, String, Bool, not, ◌&&◌, leb, length, string_eq, ◌==◌, Result, ok, ◌>>=◌, ◌>>◌, require,
  DateTime, utc,
}
use weiquan_agent.Attachments.{
  service_unavailable, Error, value_error, Platform, AttachmentRecord, Attachments,
}
use weiquan_agent.Attachments.Checks.{is_some}
use weiquan_agent.Attachments.Table.{
  transaction, is_past, select_ids, earlier, update_ids, delete_ids, uuid,
}
use weiquan_agent.Attachments.Drafts.{is_unfinished, or_epoch, failed_with}

module _ {Block : Type 0} (p : Platform) where
  abbrev pub is_expired_draft : String → ℕ → AttachmentRecord Block → Bool
  is_expired_draft owner_id current r =
      r.owner_id == owner_id && (not (is_some r.session_id) && is_past current r.expires_at)

  unfoldable pub purge_expired :
      String → DateTime → ℕ → Attachments Block → Result Error ℕ × Attachments Block
  purge_expired owner_id now limit t =
      transaction
        (do
          require (leb 1 limit) value_error
          owner ← uuid p owner_id
          current ← utc value_error now
          let ids =
              select_ids (is_expired_draft owner current) (earlier p (λ r. or_epoch r.expires_at))
                limit t
          ok (length ids, delete_ids ids t))
        t

  unfoldable pub fail_stale_processing :
      String → DateTime → ℕ → Attachments Block → Result Error ℕ × Attachments Block
  fail_stale_processing owner_id now limit t =
      transaction
        (do
          require (leb 1 limit) value_error
          owner ← uuid p owner_id
          current ← utc value_error now
          let ids =
              select_ids (λ r. r.owner_id == owner && is_unfinished r.status)
                (earlier p (λ r. r.created_at)) limit t
          ok (length ids, update_ids ids (failed_with p service_unavailable current) t))
        t
