-- ===== src/Attachments/Provenance.antt =====
-- Where the phase of an attachment comes from: the calls of app/attachments/store.py behind it.
use weiquan_agent.Prelude.{String, List, [], ◌∷◌, string_eq, ◌≡◌, ◌⊎◌, ok}
use weiquan_agent.Attachments.{Platform, Attachments}
use weiquan_agent.Attachments.Lifecycle.{
  Phase, absent, in_processing, in_review, ready, unusable, used, held, Kind, to_upload, to_extract,
  to_confirm, to_reserve, to_bind,
}
use weiquan_agent.Attachments.Calls.{Call, kind_of}

-- Among the kinds of the calls so far, the latest first, there is one, and what came before it is
-- as `P` says.
abbrev pub After : Kind → (List Kind → Type 0) → List Kind → Type 0
After wanted P [] = ⊥
After wanted P (kind ∷ before) = ((kind ≡ wanted) × P before) ⊎ After wanted P before

module _ (k : String) where
  abbrev pub IsUploaded : List Kind → Type 0
  IsUploaded = After (to_upload (ok k)) (λ before. Unit)

  abbrev pub IsRead : List Kind → Type 0
  IsRead = After (to_extract (ok k)) IsUploaded

  abbrev pub IsApproved : List Kind → Type 0
  IsApproved = After (to_confirm (ok k)) IsRead

  abbrev pub IsReserved : String → List Kind → Type 0
  IsReserved i = After (to_reserve (ok i)) IsApproved

  abbrev pub IsBoundBy : String → List Kind → Type 0
  IsBoundBy i = After (to_bind (ok i)) (IsReserved i)

  -- What has to have happened for attachment `k` to be in a phase.
  abbrev pub Origin : Phase → List Kind → Type 0
  Origin absent seen = Unit
  Origin in_processing seen = IsUploaded seen
  Origin in_review seen = IsRead seen
  Origin ready seen = IsApproved seen
  Origin unusable seen = IsUploaded seen
  Origin (held i) seen = IsReserved i seen
  Origin used seen = (i : String) × IsBoundBy i seen

-- The kinds of the calls of a history, the latest first, after those seen already.
abbrev pub kinds : {Block : Type 0} → Platform → List (Call Block) → List Kind → List Kind
kinds p [] seen = seen
kinds p (call ∷ calls) seen = kinds p calls (kind_of p call ∷ seen)
