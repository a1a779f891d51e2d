-- ===== src/Deletion/Order.antt =====
-- The log of app/deletion/service.py through each step and through histories of deletions.
use weiquan_agent.Prelude.{
  ℕ, ◌+◌, String, Bool, true, false, ◌&&◌, Option, none, some, List, [], ◌∷◌, any, All, All-map,
  string_eq, ==_refl, ◌≡◌, refl, Result, ok, err, attempt-keeps, require, utc, arith, Bool-cases,
  Result-cases, inl, inr, leb,
}
use weiquan_agent.Deletion.{
  Error, value_error, DeletionIntent, Exception, Remote, Settings, is_some, fail_with, after_mark,
  after_put, after_encrypt, upload_manifest, after_complete, after_upload, complete_intent,
  after_begin, delete_session, passes, complete_each, after_list, resume_pending,
}
use weiquan_agent.Deletion.Log.{
  Event, found, encrypted, stored, marked, erased, Log, all_found, log_begin, log_mark, log_list,
  log_encrypt, log_put, logged, clears, follows_store, follows_encryption, IsOrdered,
}

-- delete_session with its session and owner, and resume_pending with its limit
pub data Call : Type 0 where
  deletion : String → String → Call
  resumption : ℕ → Call

module _ {W : Type 0} (c : Settings) (io : Remote W) where
  abbrev pub after : Call → W → W
  after (deletion session_id owner_id) w = (delete_session c io session_id owner_id w).1
  after (resumption limit) w = (resume_pending c io limit w).1

  abbrev pub run : List Call → W → W
  run [] w = w
  run (call ∷ calls) w = run calls (after call w)

module _ {W : Type 0} (c : Settings) (io : Remote W) (pending : List DeletionIntent) where
  -- What an intent says of the log.
  abbrev IsTold : Log → DeletionIntent → Type 0
  IsTold log i = is_some i.manifest_uploaded_at ≡ true → any (clears i.session_id) log ≡ true

  abbrev Good : W × Log → Type 0
  Good (w, log) = IsOrdered log × All (IsTold log) pending

  tell : (e : Event) (log : Log) → All (IsTold log) pending → All (IsTold (e ∷ log)) pending
  tell e log h =
      All-map (IsTold log) (IsTold (e ∷ log)) (λ i told up. ground (arith, told up)) pending h

  -- A step that succeeds leaves an intent whose manifest is stored.
  abbrev Ready : Result Error DeletionIntent × (W × Log) → Type 0
  Ready (ok i, s) = Good s × (any (clears i.session_id) s.1 ≡ true)
  Ready (err e, s) = Good s

  mark-Ready :
      (i : DeletionIntent) (current : ℕ) (r : Result Exception DeletionIntent × W) (log : Log)
      → follows_store log ≡ true
      → Good (r.1, log)
      → Ready (after_mark c (logged io) i current (log_mark r log))
  unfolding fail_with
  mark-Ready i current (ok j, w) log after h =
      (((after, h.0), tell (marked j) log h.1), rw (==_refl j.session_id) refl)
  mark-Ready i current (err e, w) log after h = h

  put-Ready :
      (i : DeletionIntent) (current : ℕ) (key : String) (r : Result Exception (Unit {0}) × W)
      (log : Log)
      → follows_encryption log ≡ true
      → Good (r.1, log)
      → Ready (after_put c (logged io) i current (log_put key r log))
  unfolding fail_with
  put-Ready i current key (ok u, w) log after h =
      mark-Ready i current (io.mark_deletion_manifest_uploaded i.session_id i.deleted_at current w)
        (stored key ∷ log) refl ((after, h.0), tell (stored key) log h.1)
  put-Ready i current key (err e, w) log after h = h

  encrypt-Ready :
      (i : DeletionIntent) (deleted current : ℕ) (manifest : String)
      (r : Result Exception String × W) (log : Log)
      → Good (r.1, log)
      → Ready (after_encrypt c (logged io) i deleted current (log_encrypt manifest r log))
  unfolding fail_with
  encrypt-Ready i deleted current manifest (ok text, w) log h =
      put-Ready i current (c.object_key deleted (c.manifest i.session_id deleted))
        (io.put_private_object _ text w) (encrypted manifest ∷ log) refl
        (h.0, tell (encrypted manifest) log h.1)
  encrypt-Ready i deleted current manifest (err e, w) log h = h

  upload_manifest-Ready :
      (i : DeletionIntent) (current : ℕ) (w : W) (log : Log)
      → Good (w, log)
      → IsTold log i
      → Ready (upload_manifest c (logged io) i current (w, log))
  unfolding upload_manifest
  upload_manifest-Ready i current w log h told =
      elim (Bool-cases (is_some i.manifest_uploaded_at)) [
        | inl up ↦ rw (up, upload_manifest) (h, told up)
        | inr missing ↦ elim (Result-cases (utc value_error i.deleted_at)) [
          | inl (deleted, e) ↦
              rw (missing, e, upload_manifest)
                (encrypt-Ready i deleted current (c.manifest i.session_id deleted)
                  (io.encrypt (c.manifest i.session_id deleted) w) log h)
          | inr (x, e) ↦ rw (missing, e, upload_manifest) h
        ]
      ]

  complete-Good :
      (i : DeletionIntent) (current : ℕ) (x : Result Exception Bool) (s : W × Log)
      → Good s
      → Good (after_complete c (logged io) i current (x, s)).1
  unfolding fail_with
  complete-Good i current (ok true) s h = h
  complete-Good i current (ok false) s h = h
  complete-Good i current (err e) s h = h

  upload-Good :
      (current : ℕ) (r : Result Error DeletionIntent × (W × Log))
      → Ready r
      → Good (after_upload c (logged io) current r).1
  upload-Good current (ok i, (w, log)) h =
      let done = io.complete_session_deletion i.session_id i.deleted_at current w in
      complete-Good i current done.0 (done.1, erased i.session_id ∷ log)
        ((h.1, h.0.0), tell (erased i.session_id) log h.0.1)
  upload-Good current (err e, s) h = h

  pub complete_intent-Good :
      (i : DeletionIntent) (w : W) (log : Log)
      → Good (w, log)
      → IsTold log i
      → Good (complete_intent c (logged io) i (w, log)).1
  unfolding complete_intent
  complete_intent-Good i w log h told = elim (Result-cases (utc value_error (io.now w).0)) [
    | inr (x, e) ↦ rw (e, complete_intent) h
    | inl (current, e) ↦ elim (Bool-cases (is_some i.completed_at)) [
      | inl done ↦ rw (e, done, complete_intent) h
      | inr left ↦
          rw (e, left, complete_intent)
            (upload-Good current (upload_manifest c (logged io) i current ((io.now w).1, log))
              (upload_manifest-Ready i current (io.now w).1 log h told))
    ]
  ]

module _ {W : Type 0} (c : Settings) (io : Remote W) where
  complete_each-Good :
      (intents : List DeletionIntent) (n : ℕ) (s : W × Log)
      → Good c io intents s
      → IsOrdered (complete_each c (logged io) intents n s).1.1
  unfolding complete_each
  complete_each-Good [] n (w, log) h = h.0
  complete_each-Good (i ∷ intents) n (w, log) h =
      let s' = (complete_intent c (logged io) i (w, log)).1 in
      let h' : Good c io (i ∷ intents) s' =
        complete_intent-Good c io (i ∷ intents) i w log h h.1.0 in
      elim (Result-cases (passes c (logged io) (complete_intent c (logged io) i (w, log)).0)) [
        | inl (k, e) ↦ rw (e, complete_each) (complete_each-Good intents (n + k) s' (h'.0, h'.1.1))
        | inr (x, e) ↦ rw (e, complete_each) h'.0
      ]

  all_found-All :
      (intents : List DeletionIntent) (log : Log)
      → IsOrdered log
      → IsOrdered (all_found intents log)
        × All
            (λ i.
              is_some i.manifest_uploaded_at ≡ true
              → any (clears i.session_id) (all_found intents log) ≡ true)
            intents
  all_found-All [] log h = (h, tt)
  all_found-All (i ∷ intents) log h =
      let rest = all_found-All intents log h in
      (
        rest.0,
        (
          (λ up. rw (==_refl i.session_id, up) refl),
          tell c io intents (found i) (all_found intents log) rest.1,
        ),
      )

  begin-IsOrdered :
      (r : Result Exception (Option DeletionIntent) × W) (log : Log)
      → IsOrdered log
      → IsOrdered (after_begin c (logged io) (log_begin r log)).1.1
  begin-IsOrdered (ok none, w) log h = h
  begin-IsOrdered (err e, w) log h = h
  begin-IsOrdered (ok (some i), w) log h =
      let told = all_found-All (i ∷ []) log h in
      (complete_intent-Good c io (i ∷ []) i w (found i ∷ log) told told.1.0).0

  list-IsOrdered :
      (r : Result Exception (List DeletionIntent) × W) (log : Log)
      → IsOrdered log
      → IsOrdered (after_list c (logged io) (log_list r log)).1.1
  list-IsOrdered (ok pending, w) log h =
      complete_each-Good pending 0 (w, all_found pending log) (all_found-All pending log h)
  list-IsOrdered (err e, w) log h = h

  after-IsOrdered :
      (call : Call) (s : W × Log) → IsOrdered s.1 → IsOrdered (after c (logged io) call s).1
  unfolding delete_session resume_pending
  after-IsOrdered (deletion session_id owner_id) (w, log) h =
      attempt-keeps (λ (s : W × Log). IsOrdered s.1) (utc value_error (io.now w).0)
        ((io.now w).1, log) _ h
        λ current.
          begin-IsOrdered (io.begin_session_deletion session_id owner_id current (io.now w).1) log h
  after-IsOrdered (resumption limit) (w, log) h =
      attempt-keeps (λ (s : W × Log). IsOrdered s.1)
        (require (leb 1 limit && leb limit 1000) value_error) (w, log) _ h
        λ u. list-IsOrdered (io.list_pending_deletions limit w) log h

  calls-IsOrdered :
      (calls : List Call) (s : W × Log) → IsOrdered s.1 → IsOrdered (run c (logged io) calls s).1
  calls-IsOrdered [] s h = h
  calls-IsOrdered (call ∷ calls) s h =
      calls-IsOrdered calls (after c (logged io) call s) (after-IsOrdered call s h)

  -- Nothing is erased before its manifest is stored: whatever the repository, the encryptor and the
  -- object store answer, their failures included, in the log of any history of deletions every call
  -- that erases a session has an earlier event by which the repository marked that session's
  -- manifest as uploaded or returned it as such, every mark comes right after an object is stored,
  -- and every object right after a manifest is encrypted.
  pub run-IsOrdered : (calls : List Call) (w : W) → IsOrdered (run c (logged io) calls (w, [])).1
  run-IsOrdered calls w = calls-IsOrdered calls (w, []) tt
