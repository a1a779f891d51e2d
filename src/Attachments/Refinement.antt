-- ===== src/Attachments/Refinement.antt =====
-- The lifecycle of an attachment and the operations of app/attachments/store.py.
use weiquan_agent.Prelude.{String, List, [], ◌∷◌, string_eq}
use weiquan_agent.Dict.{get}
use weiquan_agent.Attachments.{Platform, Attachments}
use weiquan_agent.Attachments.Lifecycle.{Step, phase}
use weiquan_agent.Attachments.Calls.{Call, kind_of, after}

-- Each call of a history, at the table that it meets, makes a step of its kind of the attachment.
abbrev pub AreSteps :
    {Block : Type 0} → Platform → String → List (Call Block) → Attachments Block → Type 0
AreSteps p id [] t = Unit
AreSteps p id (call ∷ calls) t =
    Step (kind_of p call) id (phase (get id t)) (phase (get id (after p call t)))
    × AreSteps p id calls (after p call t)
