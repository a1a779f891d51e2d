-- ===== src/Deletion/Log.antt =====
-- A log of the steps of app/deletion/service.py, which a wrapper of the interface keeps, latest event
-- first, and the order that it should have.
use weiquan_agent.Prelude.{
  String, Bool, true, false, ◌&&◌, Option, none, some, List, [], ◌∷◌, any, string_eq, ◌==◌, ◌≡◌,
  Result, ok, err,
}
use weiquan_agent.Deletion.{DeletionIntent, Exception, Remote, is_some}

pub data Event : Type 0 where
  -- an intent that the repository returned, a manifest encrypted, an encrypted object stored under
  -- a key, an intent that the repository marked as uploaded, and the call that erases a session
  found : DeletionIntent → Event
  encrypted : String → Event
  stored : String → Event
  marked : DeletionIntent → Event
  erased : String → Event

abbrev pub Log : Type 0
Log = List Event

abbrev pub all_found : List DeletionIntent → Log → Log
all_found [] log = log
all_found (i ∷ intents) log = found i ∷ all_found intents log

-- The log of one step, from its result.
module _ {W : Type 0} where
  abbrev pub log_begin :
      Result Exception (Option DeletionIntent) × W
      → Log
      → Result Exception (Option DeletionIntent) × (W × Log)
  log_begin (ok (some i), w) log = (ok (some i), (w, found i ∷ log))
  log_begin (ok none, w) log = (ok none, (w, log))
  log_begin (err e, w) log = (err e, (w, log))

  abbrev pub log_mark :
      Result Exception DeletionIntent × W → Log → Result Exception DeletionIntent × (W × Log)
  log_mark (ok i, w) log = (ok i, (w, marked i ∷ log))
  log_mark (err e, w) log = (err e, (w, log))

  abbrev pub log_list :
      Result Exception (List DeletionIntent) × W
      → Log
      → Result Exception (List DeletionIntent) × (W × Log)
  log_list (ok pending, w) log = (ok pending, (w, all_found pending log))
  log_list (err e, w) log = (err e, (w, log))

  abbrev pub log_encrypt :
      String → Result Exception String × W → Log → Result Exception String × (W × Log)
  log_encrypt manifest (ok text, w) log = (ok text, (w, encrypted manifest ∷ log))
  log_encrypt manifest (err e, w) log = (err e, (w, log))

  abbrev pub log_put :
      String → Result Exception (Unit {0}) × W → Log → Result Exception (Unit {0}) × (W × Log)
  log_put key (ok u, w) log = (ok u, (w, stored key ∷ log))
  log_put key (err e, w) log = (err e, (w, log))

  -- The interface with a log.
  abbrev pub logged : Remote W → Remote (W × Log)
  logged io = record {
    now = λ (w, log). ((io.now w).0, ((io.now w).1, log));
    begin_session_deletion =
        λ id owner t (w, log). log_begin (io.begin_session_deletion id owner t w) log;
    mark_deletion_manifest_uploaded =
        λ id t u (w, log). log_mark (io.mark_deletion_manifest_uploaded id t u w) log;
    complete_session_deletion = λ id t u (w, log). (
      (io.complete_session_deletion id t u w).0,
      ((io.complete_session_deletion id t u w).1, erased id ∷ log),
    );
    record_deletion_failure = λ id f t (w, log).
        ((io.record_deletion_failure id f t w).0, ((io.record_deletion_failure id f t w).1, log));
    list_pending_deletions = λ n (w, log). log_list (io.list_pending_deletions n w) log;
    encrypt = λ s (w, log). log_encrypt s (io.encrypt s w) log;
    put_private_object = λ key s (w, log). log_put key (io.put_private_object key s w) log;
  }

-- What shows that the manifest of a session is stored: the repository marked it, or returned it as
-- uploaded.
abbrev pub clears : String → Event → Bool
clears id (found i) = i.session_id == id && is_some i.manifest_uploaded_at
clears id (marked i) = i.session_id == id
clears id e = false

abbrev pub follows_store : Log → Bool
follows_store (stored key ∷ log) = true
follows_store log = false

abbrev pub follows_encryption : Log → Bool
follows_encryption (encrypted manifest ∷ log) = true
follows_encryption log = false

-- A session is erased only once its manifest is known to be stored; an intent is marked right after
-- an object is stored, and this right after a manifest is encrypted.
abbrev pub IsOrdered : Log → Type 0
IsOrdered [] = Unit
IsOrdered (erased id ∷ log) = (any (clears id) log ≡ true) × IsOrdered log
IsOrdered (marked i ∷ log) = (follows_store log ≡ true) × IsOrdered log
IsOrdered (stored key ∷ log) = (follows_encryption log ≡ true) × IsOrdered log
IsOrdered (e ∷ log) = IsOrdered log
