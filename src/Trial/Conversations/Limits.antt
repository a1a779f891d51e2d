-- ===== src/Trial/Conversations/Limits.antt =====
-- The size of the store of anonymous conversations, app/trial/conversations.py, for one call.
use weiquan_agent.Prelude.{
  ℕ, suc, ◌≤◌, ◌<◌, String, Bool, some, List, [], ◌∷◌, length, All, All-append, All-keep,
  length-append, length-keep-le, string_eq, ◌==◌, Result, ok, err, attempt, attempt-keeps, DateTime,
  ◌≡◌, refl, inl, inr, Bool-cases, Option-cases, Result-cases, arith,
}
use weiquan_agent.Dict.{get, put, remove, relocate, move_to_end}
use weiquan_agent.Trial.Conversations.{
  Platform, Settings, Error, CreateRequest, ConsultationCommitCommand, Conversation, Conversations,
  TurnRecord, SessionRecord, make_session, make_turn, to_utc, last, push,
}
use weiquan_agent.Trial.Conversations.Sessions.{
  parse_uuid, to_uuid, new_session, owned, purge_expired, evict, is_live, insert_session,
  create_session,
}
use weiquan_agent.Trial.Conversations.Commit.{
  recheck_commit, has_turn, updated_session, write_turn, add_turn, new_turn, commit,
}

pub length-push-le {ℓ} :
    {A : Type ℓ} (m : ℕ) (xs : List A) (x : A) → length xs ≤ m → length (push m xs x) ≤ m
unfolding push
length-push-le m [] x h = ground arith
length-push-le m (y ∷ ys) x h = ground (arith, length-append ys (x ∷ []))

module _ {Json Usage : Type 0} where
  abbrev pub HasRoom : Settings → String × Conversation Json Usage → Type 0
  HasRoom c entry = length entry.1.turns ≤ c.max_turns

  abbrev lives : ℕ → String × Conversation Json Usage → Bool
  lives current entry = is_live current entry.1

  -- The ordered dict fits its capacity, and each conversation its number of turns.
  pub record IsSmall (c : Settings) (d : Conversations Json Usage) : Type 0 where
    pub sessions : length d ≤ c.capacity
    pub turns : All (HasRoom c) d

  pub purge_expired-IsSmall :
      (c : Settings) (current : ℕ) (d : Conversations Json Usage)
      → IsSmall c d
      → IsSmall c (purge_expired current d)
  unfolding purge_expired
  purge_expired-IsSmall c current d v = record {
    sessions = omega (arith, v.sessions, length-keep-le (lives current) d);
    turns = All-keep (HasRoom c) (lives current) d v.turns;
  }

  length-evict : (n : ℕ) (d : Conversations Json Usage) → 0 < n → suc (length (evict n d)) ≤ n
  unfolding evict
  length-evict n [] h = omega arith
  length-evict n (entry ∷ d) h = ground (arith, length-evict n d h)

  All-evict :
      (c : Settings) (n : ℕ) (d : Conversations Json Usage)
      → All (HasRoom c) d
      → All (HasRoom c) (evict n d)
  unfolding evict
  All-evict c n [] h = tt
  All-evict c n (entry ∷ d) h = ground (arith, All-evict c n d h.1)

  length-put :
      (id : String) (v : Conversation Json Usage) (d : Conversations Json Usage)
      → (length (put id v d) ≤ suc (length d))
        × ((w : Conversation Json Usage) → get id d ≡ some w → length (put id v d) ≡ length d)
  unfolding get put
  length-put id v [] = (omega arith, λ w h. cc)
  length-put id v ((j, x) ∷ d) = elim (Bool-cases (j == id)) [
    | inl same ↦ rw same (omega arith, λ w h. refl)
    | inr other ↦
        let ih = length-put id v d in rw other (omega (arith, ih.0), λ w h. omega (arith, ih.1 w h))
  ]

  All-put :
      (c : Settings) (id : String) (v : Conversation Json Usage) (d : Conversations Json Usage)
      → length v.turns ≤ c.max_turns
      → All (HasRoom c) d
      → All (HasRoom c) (put id v d)
  unfolding put
  All-put c id v [] hv h = (hv, tt)
  All-put c id v ((j, x) ∷ d) hv h = elim (Bool-cases (j == id)) [
    | inl same ↦ rw same (hv, h.1)
    | inr other ↦ rw other (h.0, All-put c id v d hv h.1)
  ]

  All-remove :
      (c : Settings) (id : String) (d : Conversations Json Usage)
      → All (HasRoom c) d
      → All (HasRoom c) (remove id d)
  unfolding remove
  All-remove c id [] h = tt
  All-remove c id ((j, x) ∷ d) h = elim (Bool-cases (j == id)) [
    | inl same ↦ rw same (All-remove c id d h.1)
    | inr other ↦ rw other (h.0, All-remove c id d h.1)
  ]

  length-remove :
      (id : String) (d : Conversations Json Usage)
      → (length (remove id d) ≤ length d)
        × ((w : Conversation Json Usage)
            → get id d ≡ some w
            → suc (length (remove id d)) ≤ length d)
  unfolding get remove
  length-remove id [] = (omega arith, λ w h. absurd cc)
  length-remove id ((j, x) ∷ d) = elim (Bool-cases (j == id)) [
    | inl same ↦
        rw same
          (omega (arith, (length-remove id d).0), λ w h. omega (arith, (length-remove id d).0))
    | inr other ↦
        rw other
          (omega (arith, (length-remove id d).0), λ w h. omega (arith, (length-remove id d).1 w h))
  ]

  turns-get :
      (c : Settings) (id : String) (d : Conversations Json Usage) (w : Conversation Json Usage)
      → All (HasRoom c) d
      → get id d ≡ some w
      → length w.turns ≤ c.max_turns
  unfolding get
  turns-get c id [] w h e = absurd cc
  turns-get c id ((j, x) ∷ d) w h e = ground (arith, turns-get c id d w h.1)

  move_to_end-IsSmall :
      (c : Settings) (id : String) (d : Conversations Json Usage)
      → IsSmall c d
      → IsSmall c (move_to_end id d)
  unfolding move_to_end relocate
  move_to_end-IsSmall c id d v = elim (Option-cases (get id d)) [
    | inl none_there ↦ rw none_there v
    | inr (w, there) ↦ rw there (record {
      sessions = omega (
        arith,
        v.sessions,
        (length-remove id d).1 w there,
        length-append (remove id d) ((id, w) ∷ []),
      );
      turns =
          All-append (HasRoom c) (remove id d) ((id, w) ∷ []) (All-remove c id d v.turns)
            (turns-get c id d w v.turns there, tt);
    })
  ]

  insert_session-IsSmall :
      (c : Settings) (session : SessionRecord Json) (d : Conversations Json Usage)
      → 0 < c.capacity
      → IsSmall c d
      → IsSmall c (insert_session c session d).1
  unfolding insert_session
  insert_session-IsSmall c session d room v = elim (Option-cases (get session.id d)) [
    | inl fresh ↦
        rw (fresh, insert_session)
          (record {
            sessions = omega (
              arith,
              length-evict c.capacity d room,
              (length-put session.id (record { session = session; turns = [] })
                  (evict c.capacity d)).0,
            );
            turns =
                All-put c session.id (record { session = session; turns = [] }) (evict c.capacity d)
                  (omega arith) (All-evict c c.capacity d v.turns);
          })
    | inr (w, there) ↦ rw (there, insert_session) v
  ]

module _ {Json Usage : Type 0} (p : Platform Json) (c : Settings) (room : 0 < c.capacity) where
  pub create_session-IsSmall :
      (fresh : String) (clock : DateTime) (q : CreateRequest Json) (d : Conversations Json Usage)
      → IsSmall c d
      → IsSmall c (create_session p c fresh clock q d).1
  unfolding create_session
  create_session-IsSmall fresh clock q d v =
      let current = to_utc clock q.now in
      attempt-keeps (IsSmall c) (parse_uuid p q.owner_id) d _ v λ owner.
        attempt-keeps (IsSmall c) (to_uuid p fresh q.session_id) d _ v λ id.
          attempt-keeps (IsSmall c) (make_session (new_session c q owner id current)) d _ v
            λ session.
              insert_session-IsSmall c session (purge_expired current d) room
                (purge_expired-IsSmall c current d v)

  owned-get :
      (id owner : String) (d : Conversations Json Usage) (w : Conversation Json Usage)
      → owned id owner d ≡ ok w
      → get id d ≡ some w
  unfolding owned
  owned-get id owner d w h = ground (arith, Option-cases (get id d))

  write_turn-IsSmall :
      (q : ConsultationCommitCommand Json Usage) (id owner turn_id : String) (current : ℕ)
      (w : Conversation Json Usage) (d : Conversations Json Usage)
      → get id d ≡ some w
      → IsSmall c d
      → IsSmall c (write_turn p c q id owner turn_id current w d).1
  unfolding write_turn
  write_turn-IsSmall q id owner turn_id current w d there v =
      attempt-keeps (IsSmall c) (make_session (updated_session c q id owner current w.session)) d _
        v
        λ session.
          attempt-keeps (IsSmall c) (make_turn (new_turn p q id owner turn_id current)) d _ v
            λ turn. stored session turn
    where
      stored :
          (session : SessionRecord Json) (turn : TurnRecord Json Usage)
          → IsSmall c (
              move_to_end id
                (put id (record { session = session; turns = push c.max_turns w.turns turn }) d))
      stored session turn =
          let v' : Conversation Json Usage = record {
            session = session;
            turns = push c.max_turns w.turns turn;
          } in
          move_to_end-IsSmall c id (put id v' d) (record {
            sessions = omega (arith, v.sessions, (length-put id v' d).1 w there);
            turns =
                All-put c id v' d
                  (length-push-le c.max_turns w.turns turn (turns-get c id d w v.turns there))
                  v.turns;
          })

  pub commit-IsSmall :
      (q : ConsultationCommitCommand Json Usage) (id owner turn_id : String) (current : ℕ)
      (d : Conversations Json Usage)
      → IsSmall c d
      → IsSmall c (commit p c q id owner turn_id current d).1
  unfolding commit add_turn
  commit-IsSmall q id owner turn_id current d v = at (owned id owner d) refl
    where
      at :
          (r : Result Error (Conversation Json Usage))
          → owned id owner d ≡ r
          → IsSmall c (attempt r d (λ w. add_turn p c q id owner turn_id current w d)).1
      at (err e) good = v
      at (ok w) good = elim (Result-cases (recheck_commit p q (last w.turns))) [
        | inr (e, bad) ↦ rw (bad, add_turn) v
        | inl (u, passed) ↦
            rw (passed, add_turn)
              (elim (Bool-cases (has_turn turn_id w.turns)) [
                | inl twice ↦ rw (twice, add_turn) v
                | inr once ↦
                    rw (once, add_turn)
                      (write_turn-IsSmall q id owner turn_id current w d
                        (owned-get id owner d w good) v)
              ])
      ]
