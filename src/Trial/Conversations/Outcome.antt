-- ===== src/Trial/Conversations/Outcome.antt =====
-- A commit that succeeded: what `persist_session_turn` of app/trial/conversations.py found and
-- what it left.
use weiquan_agent.Prelude.{
  ℕ, ◌<◌, String, true, not, some, List, [], ◌∷◌, ◌++◌, string_eq, ok, attempt-ok, require,
  DateTime, ◌≡◌, refl, ap, ◌∙◌, inl, inr, Bool-cases, arith, ==_refl,
}
use weiquan_agent.Dict.{get, put, move_to_end}
use weiquan_agent.Dict.Laws.{get-put, get-move_to_end}
use weiquan_agent.Trial.Conversations.{
  Platform, Settings, attachments_unsupported, ConsultationCommitCommand, Conversation,
  Conversations, TurnRecord, SessionRecord, make_session, make_turn, to_utc, last, push,
}
use weiquan_agent.Trial.Conversations.Sessions.{parse_uuid, owned, purge_expired, is_live}
use weiquan_agent.Trial.Conversations.Commit.{
  recheck_commit, has_turn, updated_session, new_turn, write_turn, add_turn, commit,
  persist_session_turn,
}

pub get-purge_expired :
    {Json Usage : Type 0} (id : String) (t : ℕ) (d : Conversations Json Usage)
    (w : Conversation Json Usage)
    → get id d ≡ some w
    → is_live t w ≡ true
    → get id (purge_expired t d) ≡ some w
unfolding get purge_expired
get-purge_expired id t [] w h l = absurd cc
get-purge_expired id t ((j, x) ∷ d) w h l = ground (arith, get-purge_expired id t d w)

last-append : {A : Type 0} (xs : List A) (x : A) → last (xs ++ x ∷ []) ≡ some x
last-append [] x = refl
last-append (y ∷ ys) x = rw (last-append ys x) refl

pub last-push : {A : Type 0} (m : ℕ) (xs : List A) (x : A) → 0 < m → last (push m xs x) ≡ some x
unfolding push
last-push m [] x h = ground arith
last-push m (y ∷ ys) x h = ground (arith, last-append ys x)

make_session-ok : {Json : Type 0} (r r' : SessionRecord Json) → make_session r ≡ ok r' → r' ≡ r
unfolding make_session
make_session-ok r r' h = ground arith

make_turn-ok : {Json Usage : Type 0} (r r' : TurnRecord Json Usage) → make_turn r ≡ ok r' → r' ≡ r
unfolding make_turn
make_turn-ok r r' h = ground arith

module _ {Json Usage : Type 0} (p : Platform Json) (c : Settings) where
  -- The conversation that a commit of `turn` leaves.
  abbrev pub committed :
      ConsultationCommitCommand Json Usage
      → String
      → String
      → ℕ
      → Conversation Json Usage
      → TurnRecord Json Usage
      → Conversation Json Usage
  committed q id owner current w turn = record {
    session = updated_session c q id owner current w.session;
    turns = push c.max_turns w.turns turn;
  }

  write_turn-ok :
      (q : ConsultationCommitCommand Json Usage) (id owner turn_id : String) (current : ℕ)
      (w : Conversation Json Usage) (live d : Conversations Json Usage)
      (turn : TurnRecord Json Usage)
      → write_turn p c q id owner turn_id current w live ≡ (ok turn, d)
      → (turn ≡ new_turn p q id owner turn_id current)
        × (d ≡ move_to_end id (put id (committed q id owner current w turn) live))
  unfolding write_turn
  write_turn-ok q id owner turn_id current w live d turn h =
      let (session, made, rest) =
        attempt-ok (make_session (updated_session c q id owner current w.session)) live d _ turn
          h in
      let (turn', written, rest') =
        attempt-ok (make_turn (new_turn p q id owner turn_id current)) live d _ turn rest in
      let e = make_session-ok (updated_session c q id owner current w.session) session made in
      let f = make_turn-ok (new_turn p q id owner turn_id current) turn' written in (cc, cc)

  add_turn-ok :
      (q : ConsultationCommitCommand Json Usage) (id owner turn_id : String) (current : ℕ)
      (w : Conversation Json Usage) (live d : Conversations Json Usage)
      (turn : TurnRecord Json Usage)
      → add_turn p c q id owner turn_id current w live ≡ (ok turn, d)
      → write_turn p c q id owner turn_id current w live ≡ (ok turn, d)
  unfolding add_turn
  add_turn-ok q id owner turn_id current w live d turn h =
      let (u, passed, rest) = attempt-ok (recheck_commit p q (last w.turns)) live d _ turn h in
      elim (Bool-cases (has_turn turn_id w.turns)) [
        | inl twice ↦ absurd (ground (arith, rest, twice))
        | inr once ↦ ground (arith, rest, once)
      ]

  -- The identifiers and the conversation that a successful commit found, and the store it left.
  pub record Committed (clock : DateTime) (q : ConsultationCommitCommand Json Usage)
      (d d' : Conversations Json Usage) (turn : TurnRecord Json Usage) : Type 0 where
    pub id : String
    pub owner : String
    pub turn_id : String
    pub before : Conversation Json Usage
    pub parsed_id : parse_uuid p q.session_id ≡ ok id
    pub parsed_owner : parse_uuid p q.owner_id ≡ ok owner
    pub found : owned id owner (purge_expired (to_utc clock q.occurred_at) d) ≡ ok before
    pub written : turn ≡ new_turn p q id owner turn_id (to_utc clock q.occurred_at)
    pub stored : get id d' ≡ some (committed q id owner (to_utc clock q.occurred_at) before turn)

  pub persist_session_turn-Committed :
      (clock : DateTime) (q : ConsultationCommitCommand Json Usage)
      (d d' : Conversations Json Usage) (turn : TurnRecord Json Usage)
      → persist_session_turn p c clock q d ≡ (ok turn, d')
      → Committed clock q d d' turn
  unfolding persist_session_turn commit
  persist_session_turn-Committed clock q d d' turn h =
      let (_, _, h0) =
        attempt-ok (require (not q.has_attachment_binding) attachments_unsupported) d d' _ turn h in
      let (owner, parsed_owner, h1) = attempt-ok (parse_uuid p q.owner_id) d d' _ turn h0 in
      let (id, parsed_id, h2) = attempt-ok (parse_uuid p q.session_id) d d' _ turn h1 in
      let (turn_id, parsed_turn, h3) = attempt-ok (parse_uuid p q.turn.turn_id) d d' _ turn h2 in
      let current = to_utc clock q.occurred_at in
      let live = purge_expired current d in
      let (before, found, h4) = attempt-ok (owned id owner live) live d' _ turn h3 in
      let (written, left) =
        write_turn-ok q id owner turn_id current before live d' turn
          (add_turn-ok q id owner turn_id current before live d' turn h4) in
      let after = committed q id owner current before turn in
      record {
        id = id;
        owner = owner;
        turn_id = turn_id;
        before = before;
        parsed_id = parsed_id;
        parsed_owner = parsed_owner;
        found = found;
        written = written;
        stored =
            ap (get id) left
            ∙ get-move_to_end id id (put id after live)
            ∙ get-put id id after live
            ∙ rw (==_refl id) refl;
      }
