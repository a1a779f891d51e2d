-- ===== src/Trial/Conversations/Runs.antt =====
-- Sequences of calls on the store of anonymous conversations, app/trial/conversations.py.
use weiquan_agent.Prelude.{
  ◌<◌, String, Option, none, List, [], ◌∷◌, require, not, attempt-keeps, DateTime,
}
use weiquan_agent.Trial.Conversations.{
  Platform, Settings, CreateRequest, ConsultationCommitCommand, Conversations, to_utc,
  attachments_unsupported,
}
use weiquan_agent.Trial.Conversations.Sessions.{
  parse_uuid, owned, purge_expired, create_session, require_session, list_turns,
}
use weiquan_agent.Trial.Conversations.Commit.{persist_session_turn}
use weiquan_agent.Trial.Conversations.Limits.{
  IsSmall, purge_expired-IsSmall, create_session-IsSmall, commit-IsSmall,
}

-- A call with its clock reading; `create` also has the identifier drawn for it.
pub data Call (Json Usage : Type 0) : Type 0 where
  create : String → DateTime → CreateRequest Json → Call Json Usage
  look_up : String → String → DateTime → Option DateTime → Call Json Usage
  list : String → String → DateTime → Call Json Usage
  persist : DateTime → ConsultationCommitCommand Json Usage → Call Json Usage

module _ {Json Usage : Type 0} (p : Platform Json) (c : Settings) where
  -- The store after a call, whether it returned or raised.
  unfoldable pub after : Call Json Usage → Conversations Json Usage → Conversations Json Usage
  after (create fresh clock q) d = (create_session p c fresh clock q d).1
  after (look_up id owner clock now) d = (require_session p id owner clock now d).1
  after (list id owner clock) d = (list_turns p id owner clock d).1
  after (persist clock q) d = (persist_session_turn p c clock q d).1

  unfoldable pub run : List (Call Json Usage) → Conversations Json Usage → Conversations Json Usage
  run [] d = d
  run (call ∷ calls) d = run calls (after call d)

  require_session-IsSmall :
      (id owner : String) (clock : DateTime) (now : Option DateTime) (d : Conversations Json Usage)
      → IsSmall c d
      → IsSmall c (require_session p id owner clock now d).1
  unfolding require_session
  require_session-IsSmall id owner clock now d v =
      attempt-keeps (IsSmall c) (parse_uuid p id) d _ v λ i.
        attempt-keeps (IsSmall c) (parse_uuid p owner) d _ v λ o.
          let live = purge_expired (to_utc clock now) d in
          let w = purge_expired-IsSmall c (to_utc clock now) d v in
          attempt-keeps (IsSmall c) (owned i o live) live _ w λ x. w

  list_turns-IsSmall :
      (id owner : String) (clock : DateTime) (d : Conversations Json Usage)
      → IsSmall c d
      → IsSmall c (list_turns p id owner clock d).1
  unfolding list_turns
  list_turns-IsSmall id owner clock d v = attempt-keeps (IsSmall c) (parse_uuid p id) d _ v λ i.
      attempt-keeps (IsSmall c) (parse_uuid p owner) d _ v λ o.
        let live = purge_expired (to_utc clock none) d in
        let w = purge_expired-IsSmall c (to_utc clock none) d v in
        attempt-keeps (IsSmall c) (owned i o live) live _ w λ x. w

  persist_session_turn-IsSmall :
      (clock : DateTime) (q : ConsultationCommitCommand Json Usage) (d : Conversations Json Usage)
      → 0 < c.capacity
      → IsSmall c d
      → IsSmall c (persist_session_turn p c clock q d).1
  unfolding persist_session_turn
  persist_session_turn-IsSmall clock q d room v =
      attempt-keeps (IsSmall c) (require (not q.has_attachment_binding) attachments_unsupported) d _
        v
        λ _. attempt-keeps (IsSmall c) (parse_uuid p q.owner_id) d _ v λ owner.
          attempt-keeps (IsSmall c) (parse_uuid p q.session_id) d _ v λ id.
            attempt-keeps (IsSmall c) (parse_uuid p q.turn.turn_id) d _ v λ turn_id.
              let current = to_utc clock q.occurred_at in
              commit-IsSmall p c room q id owner turn_id current (purge_expired current d)
                (purge_expired-IsSmall c current d v)

  after-IsSmall :
      (call : Call Json Usage) (d : Conversations Json Usage)
      → 0 < c.capacity
      → IsSmall c d
      → IsSmall c (after call d)
  unfolding after
  after-IsSmall (create fresh clock q) d room v = create_session-IsSmall p c room fresh clock q d v
  after-IsSmall (look_up id owner clock now) d room v =
      require_session-IsSmall id owner clock now d v
  after-IsSmall (list id owner clock) d room v = list_turns-IsSmall id owner clock d v
  after-IsSmall (persist clock q) d room v = persist_session_turn-IsSmall clock q d room v

  -- With a positive capacity, every sequence of calls, errors included, that starts at a store
  -- within its limits ends at one: at most `capacity` conversations with at most `max_turns` turns
  -- each.
  pub run-IsSmall :
      (calls : List (Call Json Usage)) (d : Conversations Json Usage)
      → 0 < c.capacity
      → IsSmall c d
      → IsSmall c (run calls d)
  unfolding run
  run-IsSmall [] d room v = v
  run-IsSmall (call ∷ calls) d room v =
      run-IsSmall calls (after call d) room (after-IsSmall call d room v)
