-- ===== src/Trial/Conversations/Sessions.antt =====
-- `create_session`, `require_session`, `list_turns` and the helpers of
-- `InMemoryTrialConversationStore`, app/trial/conversations.py. The clock's reading and the
-- identifier that `uuid4` draws are arguments.
use weiquan_agent.Prelude.{
  ℕ, suc, ◌+◌, String, Bool, Option, some, none, List, [], ◌∷◌, ltb, leb, keep, length,
  if◌then◌else◌, string_eq, ◌==◌, Result, ok, err, attempt, DateTime, or_raise,
}
use weiquan_agent.Dict.{get, put}
use weiquan_agent.Trial.Conversations.{
  Platform, Settings, Error, invalid_uuid, conflict, not_found, SessionRecord, TurnRecord,
  CreateRequest, Conversation, Conversations, collecting, make_session, to_utc,
}

-- `_uuid`, where `fresh` is what `uuid4` draws
module _ {Json : Type 0} (p : Platform Json) where
  unfoldable pub to_uuid : String → Option String → Result Error String
  to_uuid fresh none = ok fresh
  to_uuid fresh (some s) = or_raise (p.uuid s) invalid_uuid

  unfoldable pub parse_uuid : String → Result Error String
  parse_uuid s = or_raise (p.uuid s) invalid_uuid

module _ {Json : Type 0} where
  -- The record that `create_session` builds.
  abbrev pub new_session : Settings → CreateRequest Json → String → String → ℕ → SessionRecord Json
  new_session c q owner id current = record {
    id = id;
    owner_id = owner;
    scenario_id = q.scenario_id;
    facts = q.facts;
    followup_round = 0;
    status = collecting;
    jurisdiction = q.jurisdiction;
    created_at = current;
    updated_at = current;
    expires_at = current + c.ttl;
  }

module _ {Json Usage : Type 0} where
  abbrev pub is_live : ℕ → Conversation Json Usage → Bool
  is_live current c = ltb current c.session.expires_at

  -- `_purge_expired`
  unfoldable pub purge_expired : ℕ → Conversations Json Usage → Conversations Json Usage
  purge_expired current d = keep (λ entry. is_live current entry.1) d

  -- while len(self._conversations) >= self.capacity: self._conversations.popitem(last=False)
  unfoldable pub evict : ℕ → Conversations Json Usage → Conversations Json Usage
  evict capacity [] = []
  evict capacity (entry ∷ d) =
      let rest = evict capacity d in if leb capacity (suc (length d)) then rest else entry ∷ d

  -- The part of `create_session` under the lock.
  unfoldable pub insert_session :
      Settings
      → SessionRecord Json
      → Conversations Json Usage
      → Result Error (SessionRecord Json) × Conversations Json Usage
  insert_session c session d = elim (get session.id d) [
    | some other ↦ (err conflict, d)
    | none ↦
        (ok session, put session.id (record { session = session; turns = [] }) (evict c.capacity d))
  ]

  -- conversation is None or conversation.session.owner_id != owner_id
  unfoldable pub owned :
      String → String → Conversations Json Usage → Result Error (Conversation Json Usage)
  owned id owner d = elim (get id d) [
    | none ↦ err not_found
    | some c ↦ if c.session.owner_id == owner then ok c else err not_found
  ]

  module _ (p : Platform Json) where
    unfoldable pub create_session :
        Settings
        → String
        → DateTime
        → CreateRequest Json
        → Conversations Json Usage
        → Result Error (SessionRecord Json) × Conversations Json Usage
    create_session c fresh clock q d = attempt (parse_uuid p q.owner_id) d λ owner.
        attempt (to_uuid p fresh q.session_id) d λ id.
          attempt (make_session (new_session c q owner id (to_utc clock q.now))) d
            λ session. insert_session c session (purge_expired (to_utc clock q.now) d)

    unfoldable pub require_session :
        String
        → String
        → DateTime
        → Option DateTime
        → Conversations Json Usage
        → Result Error (SessionRecord Json) × Conversations Json Usage
    require_session session_id owner_id clock now d = attempt (parse_uuid p session_id) d λ id.
        attempt (parse_uuid p owner_id) d λ owner.
          let live = purge_expired (to_utc clock now) d in
          attempt (owned id owner live) live λ conversation. (ok conversation.session, live)

    unfoldable pub list_turns :
        String
        → String
        → DateTime
        → Conversations Json Usage
        → Result Error (List (TurnRecord Json Usage)) × Conversations Json Usage
    list_turns session_id owner_id clock d = attempt (parse_uuid p session_id) d λ id.
        attempt (parse_uuid p owner_id) d λ owner.
          let live = purge_expired (to_utc clock none) d in
          attempt (owned id owner live) live λ conversation. (ok conversation.turns, live)
