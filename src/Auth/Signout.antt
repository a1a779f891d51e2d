-- ===== src/Auth/Signout.antt =====
-- The calls of `InMemoryAuthStore`, app/auth/store.py, that end the sessions of a user, and what a
-- session is good for until then.
use weiquan_agent.Prelude.{
  ℕ, ◌<◌, lt→ltb, ==_refl, nat_eq_iff, ◌≡◌, refl, String, true, false, none, some, List, arith,
  string_eq, number_eq, pair_eq, ◌==◌, ok, nat_eq, Option-cases, Bool-cases, inl, inr,
}
use weiquan_agent.Dict.{get, put}
use weiquan_agent.Dict.Laws.{get-put}
use weiquan_agent.Dict.Counts.{get-map_values}
use weiquan_agent.Auth.{UserRecord, AuthSessionRecord, AuthState, is_active, password_reset}
use weiquan_agent.Auth.Store.{get_user_by_id, revoke, revoke_all, disable_user}
use weiquan_agent.Auth.Tokens.{
  active_token, consume, when_user, consume_password_reset, with_password,
}
use weiquan_agent.Auth.Sessions.{
  new_session, get_auth_context, create_session, auth_context, change_password_and_create_session,
}
use weiquan_agent.Auth.Calls.{Call, run}
use weiquan_agent.Auth.Revocation.{NeverOpens, run-IsClosed}
use weiquan_agent.Auth.Closed.{IsClosed, put-IsClosed, auth_context-IsClosed}

revoke_all-mine :
    (d user_id : String) (now : ℕ) (s : AuthState) (x : AuthSessionRecord)
    → get d s.sessions ≡ some x
    → x.user_id ≡ user_id
    → IsClosed d (revoke_all user_id now s)
unfolding revoke_all revoke
revoke_all-mine d user_id now s x found mine =
    rw (get-map_values (revoke user_id now) d s.sessions, found)
      (ground (arith, string_eq.agrees_iff x.user_id user_id))

reset-mine :
    (d digest hash : String) (now : ℕ) (s : AuthState) (u : UserRecord) (x : AuthSessionRecord)
    → get d s.sessions ≡ some x
    → x.user_id ≡ u.id
    → (consume_password_reset digest hash now s).0 ≡ some u
    → IsClosed d (consume_password_reset digest hash now s).1
unfolding consume_password_reset consume
reset-mine d digest hash now s u x found mine =
    elim (Option-cases (active_token digest password_reset now s)) [
      | inl e ↦ rw (e, consume_password_reset) (λ done. absurd cc)
      | inr (t, e) ↦
          elim (Option-cases (when_user (λ u. is_active u.status) (get t.user_id s.users))) [
            | inl f ↦ rw (e, f, consume_password_reset) (λ done. absurd cc)
            | inr (v, f) ↦
                rw (e, f, consume_password_reset)
                  (λ done. revoke_all-mine d v.id now _ x found (ground (arith, mine, done)))
          ]
    ]

-- The digest authenticates nobody, and asking changes nothing.
abbrev pub IsSignedOut : String → ℕ → AuthState → Type 0
IsSignedOut d later s = get_auth_context d later s ≡ (none, s)

module _ (d : String) (later : ℕ) (calls : List Call) (new : NeverOpens d calls) where
  signed_out : (s : AuthState) → IsClosed d s → IsSignedOut d later (run calls s)
  signed_out s h = auth_context-IsClosed d later (run calls s) (run-IsClosed d calls s new h)

  -- A password reset ends every session the user had: after any further calls that open no session
  -- under its digest, it authenticates nobody at any time.
  pub consume_password_reset-signs_out :
      (digest hash : String) (now : ℕ) (s : AuthState) (u : UserRecord) (x : AuthSessionRecord)
      → (consume_password_reset digest hash now s).0 ≡ some u
      → get d s.sessions ≡ some x
      → x.user_id ≡ u.id
      → IsSignedOut d later (run calls (consume_password_reset digest hash now s).1)
  consume_password_reset-signs_out digest hash now s u x done found mine =
      signed_out (consume_password_reset digest hash now s).1
        (reset-mine d digest hash now s u x found mine done)

  -- Disabling a user ends every session he had: after any further calls that open no session under
  -- its digest, it authenticates nobody at any time.
  pub disable_user-signs_out :
      (user_id : String) (now : ℕ) (s : AuthState) (u : UserRecord) (x : AuthSessionRecord)
      → (disable_user user_id now s).0 ≡ some u
      → get d s.sessions ≡ some x
      → x.user_id ≡ user_id
      → IsSignedOut d later (run calls (disable_user user_id now s).1)
  unfolding disable_user
  disable_user-signs_out user_id now s u x done found mine =
      elim (Option-cases (get_user_by_id user_id s)) [
        | inl e ↦ absurd (ground (arith, done, e))
        | inr (v, e) ↦
            rw (e, disable_user) (signed_out _ (revoke_all-mine d user_id now _ x found mine))
      ]

  -- A change of password ends every session the user had but the one it opens: after any further
  -- calls that open no session under its digest, it authenticates nobody at any time.
  pub change_password-signs_out :
      (new_id user_id hash digest : String) (now expires_at : ℕ) (s : AuthState)
      (y x : AuthSessionRecord)
      → (change_password_and_create_session new_id user_id hash digest now expires_at s).0 ≡ ok y
      → get d s.sessions ≡ some x
      → x.user_id ≡ user_id
      → (digest == d) ≡ false
      → IsSignedOut d later (
          run calls
            (change_password_and_create_session new_id user_id hash digest now expires_at s).1)
  unfolding change_password_and_create_session create_session
  change_password-signs_out new_id user_id hash digest now expires_at s y x done found mine other =
      elim (Option-cases (get user_id s.users)) [
        | inl e ↦ absurd (ground (arith, done, e))
        | inr (u, e) ↦
            rw (e, change_password_and_create_session)
              (signed_out _ (
                put-IsClosed d digest (new_session new_id user_id digest now expires_at)
                  (revoke_all user_id now
                    (record s { users = put user_id (with_password u hash now) s.users }))
                  (revoke_all-mine d user_id now _ x found mine) other))
      ]

-- Until it expires, a session just created authenticates its user, as long as he is active.
pub auth_context-create_session :
    (new_id user_id d : String) (now expires_at later : ℕ) (s : AuthState) (u : UserRecord)
    → get user_id s.users ≡ some u
    → is_active u.status ≡ true
    → later < expires_at
    → (get_auth_context d later (create_session new_id user_id d now expires_at s).1).0
      ≡ some (record {
        user = u;
        session = record (new_session new_id user_id d now expires_at) { last_seen_at = later };
      })
unfolding create_session auth_context
auth_context-create_session new_id user_id d now expires_at later s u found on early =
    rw
      (
        get-put d d (new_session new_id user_id d now expires_at) s.sessions,
        ==_refl d,
        lt→ltb later expires_at early,
        found,
        on,
        auth_context,
      )
      (elim (Bool-cases (nat_eq now later)) [
        | inl same ↦ rw (same, (nat_eq_iff now later).0 same) refl
        | inr other ↦ rw other refl
      ])
