-- ===== src/Deletion/Tests.antt =====
-- One deletion by app/deletion/service.py with an interface that answers without failure.
use weiquan_agent.Prelude.{ℕ, true, none, some, [], ◌∷◌, ok, aware, string_eq, ◌≡◌, refl}
use weiquan_agent.Deletion.{
  DeletionIntent, Remote, Settings, upload_manifest, complete_intent, delete_session,
}
use weiquan_agent.Deletion.Log.{found, encrypted, stored, marked, erased, logged, IsOrdered}
use weiquan_agent.Deletion.Order.{deletion, resumption, run, run-IsOrdered}

abbrev plain : Settings
plain = record { manifest = λ id t. id; object_key = λ t digest. digest }

abbrev intent : DeletionIntent
intent = record {
  session_id = "s1";
  deleted_at = aware 10;
  manifest_uploaded_at = none;
  completed_at = none;
}

abbrev uploaded : DeletionIntent
uploaded = record intent { manifest_uploaded_at = some 20 }

-- The world counts the steps.
abbrev willing : Remote ℕ
willing = record {
  now = λ w. (aware 20, w);
  begin_session_deletion = λ id owner t w. (ok (some intent), w);
  mark_deletion_manifest_uploaded = λ id t u w. (ok uploaded, w);
  complete_session_deletion = λ id t u w. (ok true, w);
  record_deletion_failure = λ id f t w. (ok tt, w);
  list_pending_deletions = λ n w. (ok (uploaded ∷ []), w);
  encrypt = λ s w. (ok s, w);
  put_private_object = λ key s w. (ok tt, w);
}

run-IsOrdered_example :
    IsOrdered (run plain (logged willing) (deletion "s1" "o1" ∷ resumption 10 ∷ []) (0, [])).1
run-IsOrdered_example = run-IsOrdered plain willing (deletion "s1" "o1" ∷ resumption 10 ∷ []) 0

first_deletion :
    (run plain (logged willing) (deletion "s1" "o1" ∷ []) (0, [])).1
    ≡ erased "s1" ∷ marked uploaded ∷ stored "s1" ∷ encrypted "s1" ∷ found intent ∷ []
unfolding delete_session complete_intent upload_manifest
first_deletion = refl
