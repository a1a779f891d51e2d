-- ===== src/Trial/Conversations/Ownership.antt =====
-- Who can see a conversation of app/trial/conversations.py, and until when.
use weiquan_agent.Prelude.{
  ℕ, String, true, false, Option, none, some, [], ◌∷◌, if◌then◌else◌, string_eq, ◌==◌, Result, ok,
  err, attempt-ok, subst, ◌<◌, aware, ◌≡◌, ◌≢◌, refl, inl, inr, Bool-cases, arith,
}
use weiquan_agent.Dict.{get}
use weiquan_agent.Trial.Conversations.{
  Platform, Settings, Error, not_found, ConsultationCommitCommand, Conversation, Conversations,
  SessionRecord, to_utc,
}
use weiquan_agent.Trial.Conversations.Sessions.{
  parse_uuid, owned, purge_expired, is_live, require_session, list_turns,
}
use weiquan_agent.Trial.Conversations.Commit.{commit, persist_session_turn}

module _ {Json Usage : Type 0} where
  -- Whatever `get` finds after the purge has not expired.
  purged-is_live :
      (id : String) (t : ℕ) (d : Conversations Json Usage) (w : Conversation Json Usage)
      → get id (purge_expired t d) ≡ some w
      → is_live t w ≡ true
  unfolding get purge_expired
  purged-is_live id t [] w h = absurd cc
  purged-is_live id t ((j, x) ∷ d) w h = ground (arith, purged-is_live id t d w)

  owned-is_live :
      (id owner : String) (t : ℕ) (d : Conversations Json Usage) (w : Conversation Json Usage)
      → owned id owner (purge_expired t d) ≡ ok w
      → (is_live t w ≡ true) × (w.session.owner_id ≡ owner)
  unfolding owned
  owned-is_live id owner t d w h = at (get id (purge_expired t d)) refl h
    where
      at :
          (o : Option (Conversation Json Usage))
          → get id (purge_expired t d) ≡ o
          → elim o as (λ _. Result Error (Conversation Json Usage)) [
            | none ↦ err not_found
            | some c ↦ if c.session.owner_id == owner then ok c else err not_found
          ]
            ≡ ok w
          → (is_live t w ≡ true) × (w.session.owner_id ≡ owner)
      at none e h = absurd cc
      at (some x) e h = elim (Bool-cases (x.session.owner_id == owner)) [
        | inl mine ↦
            let same : x ≡ w = ground (arith, h, mine) in
            let live = purged-is_live id t d x e in
            let whose = (string_eq.agrees_iff x.session.owner_id owner).0 mine in (cc, cc)
        | inr foreign ↦ absurd (ground (arith, h, foreign))
      ]

  owned-foreign :
      (id owner : String) (d : Conversations Json Usage)
      → ((w : Conversation Json Usage) → get id d ≡ some w → w.session.owner_id ≢ owner)
      → owned id owner d ≡ err not_found
  unfolding owned
  owned-foreign id owner d foreign = at (get id d) refl
    where
      at :
          (o : Option (Conversation Json Usage))
          → get id d ≡ o
          → elim o as (λ _. Result Error (Conversation Json Usage)) [
            | none ↦ err not_found
            | some c ↦ if c.session.owner_id == owner then ok c else err not_found
          ]
            ≡ err not_found
      at none e = refl
      at (some w) e =
          let apart = foreign w e in ground (arith, string_eq.agrees_iff w.session.owner_id owner)

module _ {Json Usage : Type 0} (p : Platform Json) (c : Settings) where
  -- Isolation of owners: when no live conversation under the identifier belongs to the caller, for
  -- another's conversation exactly as for an unknown identifier, the lookup, the list of turns and
  -- the commit all raise SessionNotFoundError and change nothing but dropping expired conversations.
  pub not_found-foreign :
      (session_id owner_id id owner turn_id : String) (t : ℕ)
      (q : ConsultationCommitCommand Json Usage) (d : Conversations Json Usage)
      → parse_uuid p session_id ≡ ok id
      → parse_uuid p owner_id ≡ ok owner
      → ((w : Conversation Json Usage)
          → get id (purge_expired t d) ≡ some w
          → w.session.owner_id ≢ owner)
      → q.session_id ≡ session_id
      → q.owner_id ≡ owner_id
      → q.has_attachment_binding ≡ false
      → parse_uuid p q.turn.turn_id ≡ ok turn_id
      → q.occurred_at ≡ none
      → (require_session p session_id owner_id (aware t) none d
          ≡ (err not_found, purge_expired t d))
        × (list_turns p session_id owner_id (aware t) d ≡ (err not_found, purge_expired t d))
        × (persist_session_turn p c (aware t) q d ≡ (err not_found, purge_expired t d))
  unfolding require_session list_turns persist_session_turn commit to_utc
  not_found-foreign session_id owner_id id owner turn_id t q d parsed_id parsed_owner foreign
        same_id same_owner free parsed_turn clocked =
      let gone = owned-foreign id owner (purge_expired t d) foreign in
      (
        rw (parsed_id, parsed_owner, gone, require_session) refl,
        rw (parsed_id, parsed_owner, gone, list_turns) refl,
        simp (same_id, same_owner, free, clocked, parsed_id, parsed_owner, parsed_turn)
            (rw (gone, commit) refl),
      )

  -- A session that the lookup returns belongs to the caller and has not expired at the time of the
  -- call.
  pub require_session-owned :
      (session_id owner_id : String) (t : ℕ) (d d' : Conversations Json Usage)
      (session : SessionRecord Json)
      → require_session p session_id owner_id (aware t) none d ≡ (ok session, d')
      → (parse_uuid p owner_id ≡ ok session.owner_id)
        × (t < session.expires_at)
        × (d' ≡ purge_expired t d)
  unfolding require_session to_utc
  require_session-owned session_id owner_id t d d' session h =
      let (id, parsed_id, h0) = attempt-ok (parse_uuid p session_id) d d' _ session h in
      let (owner, parsed_owner, h1) = attempt-ok (parse_uuid p owner_id) d d' _ session h0 in
      let live = purge_expired t d in
      let (w, found, h2) = attempt-ok (owned id owner live) live d' _ session h1 in
      let (fresh, mine) = owned-is_live id owner t d w found in
      let early : t < w.session.expires_at = ground arith in
      let same : w.session ≡ session = cc in
      (cc, subst (λ (x : SessionRecord Json). t < x.expires_at) same early, cc)
