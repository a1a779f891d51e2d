-- ===== src/Trial/Conversations/AfterCommit.antt =====
-- What a commit leaves behind for the calls that follow: `persist_session_turn`,
-- `require_session` and `list_turns` of app/trial/conversations.py.
use weiquan_agent.Prelude.{
  ℕ, ◌+◌, ◌<◌, String, false, Option, none, some, if◌then◌else◌, string_eq, ok, err, attempt,
  DateTime, aware, ◌≡◌, ◌≢◌, refl, arith,
}
use weiquan_agent.Dict.{get}
use weiquan_agent.Trial.Conversations.{
  Platform, Settings, Error, conflict, no_progress, ConsultationCommitCommand, Conversation,
  Conversations, TurnRecord, to_utc, last, push,
}
use weiquan_agent.Trial.Conversations.Sessions.{
  parse_uuid, owned, purge_expired, require_session, list_turns,
}
use weiquan_agent.Trial.Conversations.Commit.{
  recheck_commit, compare_latest, is_equivalent, has_turn, updated_session, write_turn, add_turn,
  commit, persist_session_turn,
}
use weiquan_agent.Trial.Conversations.Outcome.{
  get-purge_expired, last-push, committed, Committed, persist_session_turn-Committed,
}

module _ {Json Usage : Type 0} (p : Platform Json) (c : Settings) where
  recheck_commit-refused :
      (q : ConsultationCommitCommand Json Usage) (turn : TurnRecord Json Usage)
      (seen expected : String)
      → q.expected_latest_turn_id ≡ some seen
      → parse_uuid p seen ≡ ok expected
      → turn.id ≢ expected
      → recheck_commit p q (some turn)
        ≡ err (if is_equivalent p q.comparison_units (some turn) then no_progress else conflict)
  unfolding recheck_commit compare_latest
  recheck_commit-refused q turn seen expected expects reads other =
      ground (arith, expects, reads, string_eq.agrees_iff turn.id expected)

  commit-refused :
      (q : ConsultationCommitCommand Json Usage) (id owner turn_id : String) (current : ℕ)
      (live : Conversations Json Usage) (w : Conversation Json Usage) (turn : TurnRecord Json Usage)
      {e : Error}
      → owned id owner live ≡ ok w
      → last w.turns ≡ some turn
      → recheck_commit p q (some turn) ≡ err e
      → commit p c q id owner turn_id current live ≡ (err e, live)
  unfolding commit add_turn
  commit-refused q id owner turn_id current live w turn {e = e} found latest refused =
      rw (found, commit) (refused_at (last w.turns) latest)
    where
      refused_at :
          (o : Option (TurnRecord Json Usage))
          → o ≡ some turn
          → attempt (recheck_commit p q o) live (λ _.
            if has_turn turn_id w.turns
            then (err conflict, live)
            else write_turn p c q id owner turn_id current w live)
            ≡ (err e, live)
      refused_at o same = rw (same, refused) refl

  -- The conversation is there for its owner until it expires.
  owned-later :
      (id owner : String) (t : ℕ) (d : Conversations Json Usage) (w : Conversation Json Usage)
      → get id d ≡ some w
      → w.session.owner_id ≡ owner
      → t < w.session.expires_at
      → owned id owner (purge_expired t d) ≡ ok w
  unfolding owned
  owned-later id owner t d w there mine early =
      rw (get-purge_expired id t d w there (ground arith), owned)
        (ground (arith, string_eq.agrees_iff w.session.owner_id owner))

  module _ (clock : DateTime) (q : ConsultationCommitCommand Json Usage)
      (d d' : Conversations Json Usage) (turn : TurnRecord Json Usage)
      (done : persist_session_turn p c clock q d ≡ (ok turn, d')) (t : ℕ)
      (early : t < to_utc clock q.occurred_at + c.ttl) where
    abbrev pub outcome : Committed p c clock q d d' turn
    outcome = persist_session_turn-Committed p c clock q d d' turn done

    abbrev now_there : Conversation Json Usage
    now_there =
        committed p c q outcome.id outcome.owner (to_utc clock q.occurred_at) outcome.before turn

    there-later : owned outcome.id outcome.owner (purge_expired t d') ≡ ok now_there
    there-later = owned-later outcome.id outcome.owner t d' now_there outcome.stored refl early

    -- After a successful commit, at any time before the renewed expiry, the owner reads the session
    -- that the commit wrote, and as turns those from before the commit with the new turn at the end,
    -- cut to `max_turns`.
    pub list_turns-persist_session_turn :
        ((require_session p q.session_id q.owner_id (aware t) none d').0
          ≡ ok (
              updated_session c q outcome.id outcome.owner
                (to_utc clock q.occurred_at)
                outcome.before.session))
        × ((list_turns p q.session_id q.owner_id (aware t) d').0
            ≡ ok (push c.max_turns outcome.before.turns turn))
    unfolding require_session list_turns to_utc
    list_turns-persist_session_turn =
        rw (outcome.parsed_id, outcome.parsed_owner, there-later, require_session, list_turns)
          (refl, refl)

    -- Optimistic concurrency: after a successful commit, and where a conversation keeps at least one
    -- turn, a further commit of its owner to the same conversation that still expects another
    -- latest turn, with well-formed turn identifiers and no attachments to bind, and at any time
    -- before the expiry that the first commit renewed, is refused: as a repetition when it repeats
    -- the new turn's answer and as a conflict otherwise, and only expired conversations leave the
    -- store.
    pub persist_session_turn-stale :
        0 < c.max_turns
        → (q' : ConsultationCommitCommand Json Usage) (turn_id' seen expected : String)
        → q'.session_id ≡ q.session_id
        → q'.owner_id ≡ q.owner_id
        → q'.has_attachment_binding ≡ false
        → parse_uuid p q'.turn.turn_id ≡ ok turn_id'
        → q'.expected_latest_turn_id ≡ some seen
        → parse_uuid p seen ≡ ok expected
        → turn.id ≢ expected
        → q'.occurred_at ≡ some (aware t)
        → persist_session_turn p c clock q' d' ≡ (
          err (if is_equivalent p q'.comparison_units (some turn) then no_progress else conflict),
          purge_expired t d',
        )
    unfolding persist_session_turn to_utc
    persist_session_turn-stale room q' turn_id' seen expected same_session same_owner free parsed
          expects reads other at_time =
        simp
          (at_time, free, same_owner, same_session, outcome.parsed_owner, outcome.parsed_id, parsed)
          (commit-refused q' outcome.id outcome.owner turn_id' t (purge_expired t d') now_there turn
            there-later (last-push c.max_turns outcome.before.turns turn room)
            (recheck_commit-refused q' turn seen expected expects reads other))
