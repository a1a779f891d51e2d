-- ===== src/Attachments/Sweeps.antt =====
-- Statements that change many rows of the table of app/attachments/store.py at once, along the
-- lifecycle of each attachment.
use weiquan_agent.Prelude.{
  String, Bool, true, some, List, ◌≡◌, refl, contains, string_eq, if◌then◌else◌, Bool-cases,
  Option-cases, inl, inr,
}
use weiquan_agent.Dict.{get}
use weiquan_agent.Dict.Counts.{get-map_values}
use weiquan_agent.Dict.Entries.{map_values-IsDistinct}
use weiquan_agent.Attachments.{AttachmentRecord, Attachments}
use weiquan_agent.Attachments.Table.{update_where, update_ids, delete_ids}
use weiquan_agent.Attachments.Rows.{
  get-update_ids, update_ids-IsDistinct, get-delete_ids, delete_ids-IsDistinct,
}
use weiquan_agent.Attachments.Lifecycle.{Phase, Kind, Step, absent, join, phase, is_sound, Follows}

module _ {Block : Type 0} (kind : Kind) (k : String) (x : Phase) (t : Attachments Block)
    (h : Follows kind k x t) where
  pub delete_ids-Follows :
      (ids : List String)
      → ((s : AttachmentRecord Block)
          → get k t ≡ some s
          → contains k ids ≡ true
          → Step kind k (phase (some s)) absent)
      → Follows kind k x (delete_ids ids t)
  delete_ids-Follows ids gone = elim (Bool-cases (contains k ids)) [
    | inr out ↦ rw (get-delete_ids ids k t, out) (h.0, h.1, delete_ids-IsDistinct ids t h.2)
    | inl is_in ↦ elim (Option-cases (get k t)) [
      | inl e ↦
          rw (get-delete_ids ids k t, is_in) (rw e at h.0, refl, delete_ids-IsDistinct ids t h.2)
      | inr (s, e) ↦
          rw (get-delete_ids ids k t, is_in)
            (join (rw e at h.0) (gone s e is_in), refl, delete_ids-IsDistinct ids t h.2)
    ]
  ]

  -- A change that the rows it meets may make.
  abbrev pub Allowed :
      (AttachmentRecord Block → AttachmentRecord Block) → AttachmentRecord Block → Type 0
  Allowed f s = Step kind k (phase (some s)) (phase (some (f s))) × (is_sound (some (f s)) ≡ true)

  pub update_ids-Follows :
      (ids : List String) (f : AttachmentRecord Block → AttachmentRecord Block)
      → ((s : AttachmentRecord Block) → get k t ≡ some s → contains k ids ≡ true → Allowed f s)
      → Follows kind k x (update_ids ids f t)
  update_ids-Follows ids f allowed = elim (Option-cases (get k t)) [
    | inl e ↦
        rw (get-update_ids ids f k t, e) (rw e at h.0, refl, update_ids-IsDistinct ids f t h.2)
    | inr (s, e) ↦ elim (Bool-cases (contains k ids)) [
      | inl is_in ↦
          let (step, sound) = allowed s e is_in in
          rw (get-update_ids ids f k t, e, is_in)
            (join (rw e at h.0) step, sound, update_ids-IsDistinct ids f t h.2)
      | inr out ↦
          rw (get-update_ids ids f k t, e, out)
            (rw e at h.0, rw e at h.1, update_ids-IsDistinct ids f t h.2)
    ]
  ]

  pub update_where-Follows :
      (q : AttachmentRecord Block → Bool) (f : AttachmentRecord Block → AttachmentRecord Block)
      → ((s : AttachmentRecord Block) → get k t ≡ some s → q s ≡ true → Allowed f s)
      → Follows kind k x (update_where q f t)
  unfolding update_where
  update_where-Follows q f allowed =
      let g : AttachmentRecord Block → AttachmentRecord Block = λ r. if q r then f r else r in
      elim (Option-cases (get k t)) [
        | inl e ↦ rw (get-map_values g k t, e) (rw e at h.0, refl, map_values-IsDistinct g t h.2)
        | inr (s, e) ↦ elim (Bool-cases (q s)) [
          | inl met ↦
              let (step, sound) = allowed s e met in
              rw (get-map_values g k t, e, met)
                (join (rw e at h.0) step, sound, map_values-IsDistinct g t h.2)
          | inr out ↦
              rw (get-map_values g k t, e, out)
                (rw e at h.0, rw e at h.1, map_values-IsDistinct g t h.2)
        ]
      ]
