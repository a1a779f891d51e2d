-- ===== src/Attachments/Writes.antt =====
-- What a property of the table of app/attachments/store.py has to admit so that every operation
-- keeps it: the kinds of writes that the operations make.
use weiquan_agent.Prelude.{String, Bool, true, false, none, some, List, ◌≡◌, contains, string_eq}
use weiquan_agent.Dict.{get, put, remove}
use weiquan_agent.Dict.Entries.{IsDistinct}
use weiquan_agent.Attachments.{processing, AttachmentRecord, Attachments}
use weiquan_agent.Attachments.Checks.{is_some, is_bound}
use weiquan_agent.Attachments.Table.{update_where, update_ids, delete_ids}
use weiquan_agent.Attachments.Lifecycle.{Kind, Step, absent, in_processing, phase, is_sound}

module _ {Block : Type 0} (kind : Kind) where
  -- A change of the row `k`, not bound, by a step of the kind, to a sound row.
  pub record IsChange (k : String) (s s' : AttachmentRecord Block) : Type 0 where
    pub free : is_bound s.status ≡ false
    pub step : Step kind k (phase (some s)) (phase (some s'))
    pub sound : is_sound (some s') ≡ true

  pub record Keeps (P : Attachments Block → Type 0) : Type 0 where
    pub distinct : (t : Attachments Block) → P t → IsDistinct t
    pub insert :
        (s : AttachmentRecord Block) (t : Attachments Block)
        → get s.id t ≡ none
        → s.status ≡ processing
        → Step kind s.id absent in_processing
        → P t
        → P (put s.id s t)
    pub change :
        (j : String) (s s' : AttachmentRecord Block) (t : Attachments Block)
        → get j t ≡ some s
        → IsChange j s s'
        → P t
        → P (put j s' t)
    pub drop :
        (j : String) (s : AttachmentRecord Block) (t : Attachments Block)
        → get j t ≡ some s
        → is_bound s.status ≡ false
        → Step kind j (phase (some s)) absent
        → P t
        → P (remove j t)
    pub drop_all :
        (ids : List String) (t : Attachments Block)
        → ((j : String) (s : AttachmentRecord Block)
            → get j t ≡ some s
            → contains j ids ≡ true
            → (is_some s.session_id ≡ false)
              × (is_bound s.status ≡ false → Step kind j (phase (some s)) absent))
        → P t
        → P (delete_ids ids t)
    pub change_all :
        (ids : List String) (f : AttachmentRecord Block → AttachmentRecord Block)
        (t : Attachments Block)
        → ((j : String) (s : AttachmentRecord Block)
            → get j t ≡ some s
            → contains j ids ≡ true
            → IsChange j s (f s))
        → P t
        → P (update_ids ids f t)
    pub change_where :
        (q : AttachmentRecord Block → Bool) (f : AttachmentRecord Block → AttachmentRecord Block)
        (t : Attachments Block)
        → ((j : String) (s : AttachmentRecord Block) → q s ≡ true → IsChange j s (f s))
        → P t
        → P (update_where q f t)
