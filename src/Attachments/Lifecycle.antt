-- ===== src/Attachments/Lifecycle.antt =====
-- The lifecycle of an attachment: what a reader of app/attachments/store.py should take an
-- attachment to be, and the moves that it may make.
use weiquan_agent.Prelude.{
  String, Bool, true, false, Option, none, some, ◌≡◌, refl, sym, string_eq, ◌==◌, Bool-cases, inl,
  inr, if◌then◌else◌, ◌⊎◌, Result, ok,
}
use weiquan_agent.Dict.{get, put, remove}
use weiquan_agent.Dict.Laws.{get-put, get-remove}
use weiquan_agent.Dict.Entries.{IsDistinct, put-IsDistinct, remove-IsDistinct}
use weiquan_agent.Attachments.Checks.{is_some, is_bound}
use weiquan_agent.Attachments.{
  AttachmentStatus, processing, review_required, confirmed, failed, bound, AttachmentRecord,
  Attachments, Error,
}

pub data Phase : Type 0 where
  absent in_processing in_review ready unusable used : Phase
  -- held for a turn, under a reservation
  held : String → Phase

abbrev pub is_draft : Phase → Bool
is_draft absent = false
is_draft used = false
is_draft _ = true

abbrev pub is_held : Phase → Bool
is_held (held i) = true
is_held _ = false

-- What a call asks for. A call on one attachment carries the identifier that it was given, or the
-- error of reading it; a call on a reservation likewise.
pub data Kind : Type 0 where
  to_upload to_extract to_fail to_confirm to_delete : Result Error String → Kind
  to_purge to_give_up : Kind
  to_reserve to_release to_bind : Result Error String → Kind

-- The move of the attachment `k` that a call of each kind may make.
pub data Move : Kind → String → Phase → Phase → Type 0 where
  arrives : (k : String) → Move (to_upload (ok k)) k absent in_processing
  is_read : (k : String) → Move (to_extract (ok k)) k in_processing in_review
  fails : (k : String) → Move (to_fail (ok k)) k in_processing unusable
  is_approved : (k : String) → Move (to_confirm (ok k)) k in_review ready
  is_deleted :
      (k : String) (x : Phase)
      → is_draft x ≡ true
      → is_held x ≡ false
      → Move (to_delete (ok k)) k x absent
  is_purged : (k : String) (x : Phase) → is_draft x ≡ true → Move to_purge k x absent
  is_abandoned : (k : String) → Move to_give_up k in_processing unusable
  is_given_up : (k : String) → Move to_give_up k in_review unusable
  is_reserved : (k i : String) → Move (to_reserve (ok i)) k ready (held i)
  is_released : (k i : String) → Move (to_release (ok i)) k (held i) ready
  is_used : (k i : String) → Move (to_bind (ok i)) k (held i) used

-- What one call does to an attachment: nothing, or one move of its kind.
abbrev pub Step : Kind → String → Phase → Phase → Type 0
Step kind k x y = (x ≡ y) ⊎ Move kind k x y

-- The phases in which a move of each kind ends.
abbrev is_end : Kind → Phase → Bool
is_end (to_upload r) in_processing = true
is_end (to_extract r) in_review = true
is_end (to_fail r) unusable = true
is_end (to_confirm r) ready = true
is_end (to_delete r) absent = true
is_end to_purge absent = true
is_end to_give_up unusable = true
is_end (to_reserve r) (held i) = true
is_end (to_release r) ready = true
is_end (to_bind r) used = true
is_end _ _ = false

deletable :
    (r : Result Error String) (x : Phase) → is_draft x ≡ true → is_end (to_delete r) x ≡ false
deletable r absent h = absurd cc
deletable r in_processing h = refl
deletable r in_review h = refl
deletable r ready h = refl
deletable r unusable h = refl
deletable r used h = refl
deletable r (held i) h = refl

purgeable : (x : Phase) → is_draft x ≡ true → is_end to_purge x ≡ false
purgeable absent h = absurd cc
purgeable in_processing h = refl
purgeable in_review h = refl
purgeable ready h = refl
purgeable unusable h = refl
purgeable used h = refl
purgeable (held i) h = refl

begins : {kind : Kind} {k : String} {x y : Phase} → Move kind k x y → is_end kind x ≡ false
begins (arrives k) = refl
begins (is_read k) = refl
begins (fails k) = refl
begins (is_approved k) = refl
begins (is_deleted k x h f) = deletable (ok k) x h
begins (is_purged k x h) = purgeable x h
begins (is_abandoned k) = refl
begins (is_given_up k) = refl
begins (is_reserved k i) = refl
begins (is_released k i) = refl
begins (is_used k i) = refl

ends : {kind : Kind} {k : String} {x y : Phase} → Move kind k x y → is_end kind y ≡ true
ends (arrives k) = refl
ends (is_read k) = refl
ends (fails k) = refl
ends (is_approved k) = refl
ends (is_deleted k x h f) = refl
ends (is_purged k x h) = refl
ends (is_abandoned k) = refl
ends (is_given_up k) = refl
ends (is_reserved k i) = refl
ends (is_released k i) = refl
ends (is_used k i) = refl

-- No call makes two moves of one attachment.
pub join :
    {kind : Kind} {k : String} {x y z : Phase} → Step kind k x y → Step kind k y z → Step kind k x z
join (inl e) b = rw e b
join (inr m) (inl e) = inr (rw (sym e) m)
join (inr m) (inr n) = absurd (cc (ends m, begins n))

abbrev pub phase_of : AttachmentStatus → Option String → Phase
phase_of processing id = in_processing
phase_of review_required id = in_review
phase_of confirmed none = ready
phase_of confirmed (some id) = held id
phase_of failed id = unusable
phase_of bound id = used

module _ {Block : Type 0} where
  -- What the row of an attachment stands for.
  abbrev pub phase : Option (AttachmentRecord Block) → Phase
  phase none = absent
  phase (some r) = phase_of r.status r.reservation_id

  -- A bound attachment has a session.
  abbrev pub is_sound : Option (AttachmentRecord Block) → Bool
  is_sound none = true
  is_sound (some r) = if is_bound r.status then is_some r.session_id else true

  module _ (kind : Kind) (k : String) (x : Phase) where
    -- From the phase `x`, attachment `k` has come to its phase in the table by a step of the kind.
    abbrev pub Follows : Attachments Block → Type 0
    Follows t = Step kind k x (phase (get k t)) × (is_sound (get k t) ≡ true) × IsDistinct t

    pub put-Follows :
        (j : String) (s : AttachmentRecord Block) (t : Attachments Block)
        → Step kind j (phase (get j t)) (phase (some s))
        → is_sound (some s) ≡ true
        → Follows t
        → Follows (put j s t)
    put-Follows j s t step sound h = elim (Bool-cases (j == k)) [
      | inl same ↦
          let is_k : j ≡ k = (string_eq.agrees_iff j k).0 same in
          (
            rw (get-put j k s t, same) (join h.0 (rw (sym is_k) step)),
            rw (get-put j k s t, same) sound,
            put-IsDistinct j s t h.2,
          )
      | inr other ↦ (
        rw (get-put j k s t, other) h.0,
        rw (get-put j k s t, other) h.1,
        put-IsDistinct j s t h.2,
      )
    ]

    pub remove-Follows :
        (j : String) (t : Attachments Block)
        → Step kind j (phase (get j t)) absent
        → Follows t
        → Follows (remove j t)
    remove-Follows j t step h = elim (Bool-cases (j == k)) [
      | inl same ↦
          let is_k : j ≡ k = (string_eq.agrees_iff j k).0 same in
          (
            rw (get-remove j k t, same) (join h.0 (rw (sym is_k) step)),
            rw (get-remove j k t, same) refl,
            remove-IsDistinct j t h.2,
          )
      | inr other ↦ (
        rw (get-remove j k t, other) h.0,
        rw (get-remove j k t, other) h.1,
        remove-IsDistinct j t h.2,
      )
    ]
