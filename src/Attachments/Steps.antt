-- ===== src/Attachments/Steps.antt =====
-- The moves behind the guards of app/attachments/store.py.
use weiquan_agent.Prelude.{
  String, true, false, Option, none, some, ◌≡◌, refl, inl, inr, ok, string_eq,
}
use weiquan_agent.Attachments.{
  AttachmentStatus, processing, review_required, confirmed, failed, bound,
}
use weiquan_agent.Attachments.Checks.{is_some, is_confirmed, is_bound}
use weiquan_agent.Attachments.Drafts.{is_processing, is_reviewable, is_unfinished}
use weiquan_agent.Attachments.Reservations.{is_same}
use weiquan_agent.Attachments.Lifecycle.{
  used, unusable, Step, is_abandoned, is_given_up, is_approved, is_reserved, is_released, is_used,
  phase_of, to_confirm, to_give_up, to_reserve, to_release, to_bind, absent, to_delete, to_purge,
  is_deleted, is_purged,
}

pub is_processing-eq :
    (status : AttachmentStatus) → is_processing status ≡ true → status ≡ processing
is_processing-eq processing h = refl
is_processing-eq review_required h = absurd cc
is_processing-eq confirmed h = absurd cc
is_processing-eq failed h = absurd cc
is_processing-eq bound h = absurd cc

-- Approving a draft that may be approved.
pub approve :
    (k : String) (status : AttachmentStatus) (id : Option String)
    → is_reviewable status ≡ true
    → is_some id ≡ false
    → Step (to_confirm (ok k)) k (phase_of status id) (phase_of confirmed id)
approve k review_required none h free = inr (is_approved k)
approve k review_required (some i) h free = absurd cc
approve k confirmed none h free = inl refl
approve k confirmed (some i) h free = absurd cc
approve k processing id h free = absurd cc
approve k failed id h free = absurd cc
approve k bound id h free = absurd cc

pub give_up :
    (k : String) (status : AttachmentStatus) (id : Option String)
    → is_unfinished status ≡ true
    → Step to_give_up k (phase_of status id) unusable
give_up k processing id h = inr (is_abandoned k)
give_up k review_required id h = inr (is_given_up k)
give_up k confirmed id h = absurd cc
give_up k failed id h = absurd cc
give_up k bound id h = absurd cc

-- A reservation of an attachment that is confirmed and not held.
pub hold :
    (k : String) (status : AttachmentStatus) (id : Option String) (new_id : String)
    → is_confirmed status ≡ true
    → is_some id ≡ false
    → Step (to_reserve (ok new_id)) k (phase_of status id) (phase_of status (some new_id))
hold k confirmed none new_id h free = inr (is_reserved k new_id)
hold k confirmed (some i) new_id h free = absurd cc
hold k processing id new_id h free = absurd cc
hold k review_required id new_id h free = absurd cc
hold k failed id new_id h free = absurd cc
hold k bound id new_id h free = absurd cc

pub let_go :
    (k : String) (status : AttachmentStatus) (id : Option String) (given : String)
    → is_confirmed status ≡ true
    → is_same id given ≡ true
    → Step (to_release (ok given)) k (phase_of status id) (phase_of status none)
let_go k confirmed (some i) given h same =
    rw ((string_eq.agrees_iff i given).0 same) (inr (is_released k given))
let_go k confirmed none given h same = absurd cc
let_go k processing id given h same = absurd cc
let_go k review_required id given h same = absurd cc
let_go k failed id given h same = absurd cc
let_go k bound id given h same = absurd cc

pub use_up :
    (k : String) (status : AttachmentStatus) (id : Option String) (given : String)
    → is_confirmed status ≡ true
    → is_same id given ≡ true
    → Step (to_bind (ok given)) k (phase_of status id) used
use_up k confirmed (some i) given h same =
    rw ((string_eq.agrees_iff i given).0 same) (inr (is_used k given))
use_up k confirmed none given h same = absurd cc
use_up k processing id given h same = absurd cc
use_up k review_required id given h same = absurd cc
use_up k failed id given h same = absurd cc
use_up k bound id given h same = absurd cc

-- A draft that is not bound may be removed, by its owner only while it is not held.
pub discard :
    (k : String) (status : AttachmentStatus) (id : Option String)
    → is_bound status ≡ false
    → is_some id ≡ false
    → Step (to_delete (ok k)) k (phase_of status id) absent
discard k processing id h free = inr (is_deleted k _ refl refl)
discard k review_required id h free = inr (is_deleted k _ refl refl)
discard k confirmed none h free = inr (is_deleted k _ refl refl)
discard k confirmed (some i) h free = absurd cc
discard k failed id h free = inr (is_deleted k _ refl refl)
discard k bound id h free = absurd cc

pub expire :
    (k : String) (status : AttachmentStatus) (id : Option String)
    → is_bound status ≡ false
    → Step to_purge k (phase_of status id) absent
expire k processing id h = inr (is_purged k _ refl)
expire k review_required id h = inr (is_purged k _ refl)
expire k confirmed none h = inr (is_purged k _ refl)
expire k confirmed (some i) h = inr (is_purged k _ refl)
expire k failed id h = inr (is_purged k _ refl)
expire k bound id h = absurd cc
