-- ===== src/Deletion.antt =====
-- `DeletionService` of app/deletion/service.py: the steps that delete a consultation, the manifest
-- of the deletion first. The repository, the encryptor and the object store are an interface over a
-- world `W`; an exception of theirs is the error of a result, and their state is returned with it.

pub mod Log
pub mod Order
mod Tests
use weiquan_agent.Prelude.{
  ℕ, ◌+◌, String, Bool, true, false, not, ◌&&◌, Option, none, some, List, [], ◌∷◌, leb,
  if◌then◌else◌, Result, ok, err, attempt, require, DateTime, utc,
}

pub data Error : Type 0 where
  -- DeletionUnavailableError; ValueError
  deletion_unavailable value_error : Error

pub record DeletionIntent : Type 0 where
  pub session_id : String
  pub deleted_at : DateTime
  pub manifest_uploaded_at : Option ℕ
  pub completed_at : Option ℕ

pub data Failure : Type 0 where
  encryption_failed upload_failed storage_failed : Failure

-- Any exception that the code catches.
pub data Exception : Type 0 where
  exception : Exception

pub record Remote (W : Type 0) : Type 0 where
  -- the clock of the service
  pub now : W → DateTime × W
  -- the repository
  pub begin_session_deletion :
      String → String → ℕ → W → Result Exception (Option DeletionIntent) × W
  pub mark_deletion_manifest_uploaded :
      String → DateTime → ℕ → W → Result Exception DeletionIntent × W
  pub complete_session_deletion : String → DateTime → ℕ → W → Result Exception Bool × W
  pub record_deletion_failure : String → Failure → ℕ → W → Result Exception (Unit {0}) × W
  pub list_pending_deletions : ℕ → W → Result Exception (List DeletionIntent) × W
  -- the encryptor of a manifest and the object store
  pub encrypt : String → W → Result Exception String × W
  pub put_private_object : String → String → W → Result Exception (Unit {0}) × W

pub record Settings : Type 0 where
  -- json.dumps of a session and an instant
  pub manifest : String → ℕ → String
  -- the prefix, the day and the digest of a manifest
  pub object_key : ℕ → String → String

abbrev pub is_some {ℓ} : {A : Type ℓ} → Option A → Bool
is_some none = false
is_some (some a) = true

module _ {W : Type 0} (c : Settings) (io : Remote W) where
  -- _record_failure, and the error that is raised after it
  unfoldable pub fail_with {ℓ} :
      {A : Type ℓ} → DeletionIntent → Failure → ℕ → W → Result Error A × W
  fail_with intent category current w = (
    err deletion_unavailable,
    (io.record_deletion_failure intent.session_id category current w).1,
  )

  abbrev pub after_mark :
      DeletionIntent → ℕ → Result Exception DeletionIntent × W → Result Error DeletionIntent × W
  after_mark intent current (ok active, w) = (ok active, w)
  after_mark intent current (err e, w) = fail_with intent storage_failed current w

  abbrev pub after_put :
      DeletionIntent → ℕ → Result Exception (Unit {0}) × W → Result Error DeletionIntent × W
  after_put intent current (ok u, w) =
      after_mark intent current
        (io.mark_deletion_manifest_uploaded intent.session_id intent.deleted_at current w)
  after_put intent current (err e, w) = fail_with intent upload_failed current w

  abbrev pub after_encrypt :
      DeletionIntent → ℕ → ℕ → Result Exception String × W → Result Error DeletionIntent × W
  after_encrypt intent deleted current (ok encrypted, w) = after_put intent current (
      io.put_private_object (c.object_key deleted (c.manifest intent.session_id deleted)) encrypted
        w)
  after_encrypt intent deleted current (err e, w) = fail_with intent encryption_failed current w

  -- The upload of the manifest, where it is still missing.
  unfoldable pub upload_manifest : DeletionIntent → ℕ → W → Result Error DeletionIntent × W
  upload_manifest intent current w =
      if is_some intent.manifest_uploaded_at
      then (ok intent, w)
      else attempt (utc value_error intent.deleted_at) w λ deleted.
        after_encrypt intent deleted current (io.encrypt (c.manifest intent.session_id deleted) w)

  abbrev pub after_complete :
      DeletionIntent → ℕ → Result Exception Bool × W → Result Error (Unit {0}) × W
  after_complete active current (ok true, w) = (ok tt, w)
  after_complete active current (ok false, w) = fail_with active storage_failed current w
  after_complete active current (err e, w) = fail_with active storage_failed current w

  abbrev pub after_upload : ℕ → Result Error DeletionIntent × W → Result Error (Unit {0}) × W
  after_upload current (ok active, w) =
      after_complete active current
        (io.complete_session_deletion active.session_id active.deleted_at current w)
  after_upload current (err e, w) = (err e, w)

  -- _complete_intent
  unfoldable pub complete_intent : DeletionIntent → W → Result Error (Unit {0}) × W
  complete_intent intent w =
      let (t, w1) = io.now w in
      attempt (utc value_error t) w1 λ current.
        if is_some intent.completed_at
        then (ok tt, w1)
        else after_upload current (upload_manifest intent current w1)

  abbrev pub is_deleted : Result Error (Unit {0}) → Result Error Bool
  is_deleted (ok u) = ok true
  is_deleted (err e) = err e

  abbrev pub after_begin : Result Exception (Option DeletionIntent) × W → Result Error Bool × W
  after_begin (err e, w) = (err deletion_unavailable, w)
  after_begin (ok none, w) = (ok false, w)
  after_begin (ok (some intent), w) =
      let (done, w') = complete_intent intent w in (is_deleted done, w')

  unfoldable pub delete_session : String → String → W → Result Error Bool × W
  delete_session session_id owner_id w =
      let (t, w1) = io.now w in
      attempt (utc value_error t) w1
        λ current. after_begin (io.begin_session_deletion session_id owner_id current w1)

  -- One round of the loop: an unavailable service is passed over, another error is not.
  abbrev pub passes : Result Error (Unit {0}) → Result Error ℕ
  passes (ok u) = ok 1
  passes (err deletion_unavailable) = ok 0
  passes (err value_error) = err value_error

  unfoldable pub complete_each : List DeletionIntent → ℕ → W → Result Error ℕ × W
  complete_each [] completed w = (ok completed, w)
  complete_each (intent ∷ intents) completed w =
      let (done, w') = complete_intent intent w in
      attempt (passes done) w' λ n. complete_each intents (completed + n) w'

  abbrev pub after_list : Result Exception (List DeletionIntent) × W → Result Error ℕ × W
  after_list (err e, w) = (err deletion_unavailable, w)
  after_list (ok pending, w) = complete_each pending 0 w

  unfoldable pub resume_pending : ℕ → W → Result Error ℕ × W
  resume_pending limit w =
      attempt (require (leb 1 limit && leb limit 1000) value_error) w
        λ u. after_list (io.list_pending_deletions limit w)
