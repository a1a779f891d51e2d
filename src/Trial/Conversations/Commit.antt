-- ===== src/Trial/Conversations/Commit.antt =====
-- `persist_session_turn` and `_recheck_commit` of `InMemoryTrialConversationStore`,
-- app/trial/conversations.py.
use weiquan_agent.Prelude.{
  ℕ, ◌+◌, String, Bool, true, false, not, ◌&&◌, ◌||◌, Option, some, none, List, [], ◌∷◌, any,
  if◌then◌else◌, string_eq, ◌==◌, Result, ok, err, attempt, require, DateTime,
}
use weiquan_agent.Dict.{put, move_to_end}
use weiquan_agent.Trial.Conversations.{
  Platform, Settings, Error, attachments_unsupported, conflict, no_progress, SessionRecord,
  TurnRecord, ConsultationCommitCommand, Conversation, Conversations, make_session, make_turn,
  to_utc, last, push,
}
use weiquan_agent.Trial.Conversations.Sessions.{parse_uuid, owned, purge_expired}

-- latest_id != expected_id, negated
abbrev pub same_id : Option String → Option String → Bool
same_id none none = true
same_id (some a) (some b) = a == b
same_id _ _ = false

abbrev pub is_empty : List String → Bool
is_empty [] = true
is_empty (x ∷ xs) = false

-- What `_recheck_commit` decides, from the latest turn's identifier, the expected one and whether
-- the answer repeats the latest.
unfoldable pub compare_latest : Option String → Option String → Bool → Result Error (Unit {0})
compare_latest latest_id expected_id equivalent =
    if same_id latest_id expected_id
    then (if equivalent then err no_progress else ok tt)
    else (if equivalent then err no_progress else err conflict)

module _ {Json : Type 0} (p : Platform Json) where
  abbrev pub parse_expected : Option String → Result Error (Option String)
  parse_expected none = ok none
  parse_expected (some s) = elim (parse_uuid p s) [ ok id ↦ ok (some id) | err e ↦ err e ]

module _ {Json Usage : Type 0} where
  abbrev pub latest_id : Option (TurnRecord Json Usage) → Option String
  latest_id none = none
  latest_id (some turn) = some turn.id

  abbrev pub is_guarded : ConsultationCommitCommand Json Usage → Bool
  is_guarded q =
      not (is_empty q.comparison_units)
      || elim q.expected_latest_turn_id [ none ↦ false | some s ↦ true ]

  unfoldable pub has_turn : String → List (TurnRecord Json Usage) → Bool
  has_turn id turns = any (λ turn. turn.id == id) turns

  -- The two records of a commit.
  abbrev pub updated_session :
      Settings
      → ConsultationCommitCommand Json Usage
      → String
      → String
      → ℕ
      → SessionRecord Json
      → SessionRecord Json
  updated_session c q id owner current before = record {
    id = id;
    owner_id = owner;
    scenario_id = q.session.scenario_id;
    facts = q.session.facts;
    followup_round = q.session.followup_round;
    status = q.session.status;
    jurisdiction = q.session.jurisdiction;
    created_at = before.created_at;
    updated_at = current;
    expires_at = current + c.ttl;
  }

module _ {Json Usage : Type 0} (p : Platform Json) where
  abbrev pub is_equivalent : List String → Option (TurnRecord Json Usage) → Bool
  is_equivalent units none = false
  is_equivalent units (some turn) =
      not (is_empty units) && p.comparison_is_equivalent units turn.response

  unfoldable pub recheck_commit :
      ConsultationCommitCommand Json Usage
      → Option (TurnRecord Json Usage)
      → Result Error (Unit {0})
  recheck_commit q latest =
      if is_guarded q
      then elim (parse_expected p q.expected_latest_turn_id) [
        | err e ↦ err e
        | ok expected ↦
            compare_latest (latest_id latest) expected (is_equivalent q.comparison_units latest)
      ]
      else ok tt

  abbrev pub new_turn :
      ConsultationCommitCommand Json Usage → String → String → String → ℕ → TurnRecord Json Usage
  new_turn q id owner turn_id current = record {
    id = turn_id;
    owner_id = owner;
    session_id = id;
    user_message = p.strip q.turn.user_message;
    facts = q.turn.facts;
    rule_matches = q.turn.rule_matches;
    response = q.turn.response;
    provider_name = q.turn.provider_name;
    provider_model = q.turn.provider_model;
    provider_request_id = q.turn.provider_request_id;
    usage = q.turn.usage;
    created_at = current;
  }

  -- The writes at the end of `persist_session_turn`.
  unfoldable pub write_turn :
      Settings
      → ConsultationCommitCommand Json Usage
      → String
      → String
      → String
      → ℕ
      → Conversation Json Usage
      → Conversations Json Usage
      → Result Error (TurnRecord Json Usage) × Conversations Json Usage
  write_turn c q id owner turn_id current conversation live =
      attempt (make_session (updated_session c q id owner current conversation.session)) live
        λ session. attempt (make_turn (new_turn q id owner turn_id current)) live λ turn. (
          ok turn,
          move_to_end id (
              put id
                (record { session = session; turns = push c.max_turns conversation.turns turn })
                live),
        )

  -- The checks against the turns that are there.
  unfoldable pub add_turn :
      Settings
      → ConsultationCommitCommand Json Usage
      → String
      → String
      → String
      → ℕ
      → Conversation Json Usage
      → Conversations Json Usage
      → Result Error (TurnRecord Json Usage) × Conversations Json Usage
  add_turn c q id owner turn_id current conversation live =
      attempt (recheck_commit q (last conversation.turns)) live λ _.
        if has_turn turn_id conversation.turns
        then (err conflict, live)
        else write_turn c q id owner turn_id current conversation live

  -- The part under the lock, behind the purge.
  unfoldable pub commit :
      Settings
      → ConsultationCommitCommand Json Usage
      → String
      → String
      → String
      → ℕ
      → Conversations Json Usage
      → Result Error (TurnRecord Json Usage) × Conversations Json Usage
  commit c q id owner turn_id current live =
      attempt (owned id owner live) live
        λ conversation. add_turn c q id owner turn_id current conversation live

  unfoldable pub persist_session_turn :
      Settings
      → DateTime
      → ConsultationCommitCommand Json Usage
      → Conversations Json Usage
      → Result Error (TurnRecord Json Usage) × Conversations Json Usage
  persist_session_turn c clock q d =
      attempt (require (not q.has_attachment_binding) attachments_unsupported) d λ _.
        attempt (parse_uuid p q.owner_id) d λ owner. attempt (parse_uuid p q.session_id) d λ id.
          attempt (parse_uuid p q.turn.turn_id) d λ turn_id.
            let current = to_utc clock q.occurred_at in
            commit c q id owner turn_id current (purge_expired current d)
