-- ===== src/Attachments/Final.antt =====
-- Bound attachments through the calls of app/attachments/store.py.
use weiquan_agent.Prelude.{true, ◌≡◌}
use weiquan_agent.Attachments.{AttachmentRecord, Attachments}
use weiquan_agent.Attachments.Checks.{is_some, is_bound}

-- What the consistency of a bound record says of its session.
abbrev pub IsBound : {Block : Type 0} → AttachmentRecord Block → Type 0
IsBound r = (is_bound r.status ≡ true) × (is_some r.session_id ≡ true)
