-- ===== src/Auth/Revocation.antt =====
-- Revoked sessions of `InMemoryAuthStore`, app/auth/store.py, through each of its calls.
use weiquan_agent.Prelude.{
  ℕ, ◌≡◌, refl, String, false, Option, none, some, List, [], ◌∷◌, All, string_eq, number_eq,
  pair_eq, ◌==◌, nat_eq, Option-cases, Bool-cases, inl, inr,
}
use weiquan_agent.Dict.{get, put}
use weiquan_agent.Dict.Laws.{get-put}
use weiquan_agent.Auth.{AuthContext, AuthState, is_none, is_active, password_reset}
use weiquan_agent.Auth.Store.{revoke_all}
use weiquan_agent.Auth.Tokens.{
  active_token, consume, when_user, replace_token, consume_password_reset, with_password,
}
use weiquan_agent.Auth.Sessions.{
  when_current, new_session, create_session, auth_context, csrf_for, checked, set_csrf_digest,
  validate_csrf_digest, revoke_session, revoke_user_sessions, change_password_and_create_session,
  record_privacy_acceptance,
}
use weiquan_agent.Auth.Calls.{
  Call, register, create_verified, disable, issue_token, verify_email, reset_password,
  update_password, open_session, authenticate, set_csrf, validate_csrf, close_session,
  close_sessions, change_password, accept_policy, consume_rate, after, run,
}
use weiquan_agent.Auth.Closed.{
  opens, register_pending-sessions, create_verified_user-sessions, verify-sessions,
  update_password_hash-sessions, consume_rate_limit-sessions, IsClosed, revoke_all-IsClosed,
  put-IsClosed, auth_context-IsClosed, disable-IsClosed,
}

module _ (d : String) where
  reset-IsClosed :
      (digest hash : String) (now : ℕ) (s : AuthState)
      → IsClosed d s
      → IsClosed d (consume_password_reset digest hash now s).1
  unfolding consume_password_reset consume
  reset-IsClosed digest hash now s h =
      elim (Option-cases (active_token digest password_reset now s)) [
        | inl e ↦ rw (e, consume_password_reset) h
        | inr (t, e) ↦
            elim (Option-cases (when_user (λ u. is_active u.status) (get t.user_id s.users))) [
              | inl f ↦ rw (e, f, consume_password_reset) h
              | inr (u, f) ↦ rw (e, f, consume_password_reset) (revoke_all-IsClosed d u.id now _ h)
            ]
      ]

  auth_context-other :
      (digest : String) (now : ℕ) (s : AuthState)
      → (digest == d) ≡ false
      → IsClosed d s
      → IsClosed d (auth_context digest now s).1
  unfolding auth_context
  auth_context-other digest now s other h =
      elim (Option-cases (when_current now (get digest s.sessions))) [
        | inl e ↦ rw (e, auth_context) h
        | inr (x, e) ↦
            elim (Option-cases (when_user (λ u. is_active u.status) (get x.user_id s.users))) [
              | inl f ↦ rw (e, f, auth_context) h
              | inr (u, f) ↦ elim (Bool-cases (nat_eq x.last_seen_at now)) [
                | inl g ↦ rw (e, f, g, auth_context) h
                | inr g ↦
                    rw (e, f, g, auth_context)
                      (put-IsClosed d digest (record x { last_seen_at = now }) s h other)
              ]
            ]
      ]

  csrf_for-other :
      (digest csrf : String) (now : ℕ) (r : Option AuthContext × AuthState)
      → (digest == d) ≡ false
      → IsClosed d r.1
      → IsClosed d (csrf_for digest csrf now r).1
  csrf_for-other digest csrf now (none, s) other h = h
  csrf_for-other digest csrf now (some c, s) other h =
      put-IsClosed d digest (record c.session { csrf_digest = some csrf; last_seen_at = now }) s h
        other

  checked-IsClosed :
      (csrf : String) (r : Option AuthContext × AuthState)
      → IsClosed d r.1
      → IsClosed d (checked csrf r).1
  checked-IsClosed csrf (none, s) h = h
  checked-IsClosed csrf (some c, s) h = h

  authenticate-IsClosed :
      (digest : String) (now : ℕ) (s : AuthState)
      → IsClosed d s
      → IsClosed d (auth_context digest now s).1
  authenticate-IsClosed digest now s h = elim (Bool-cases (digest == d)) [
    | inl same ↦
        let is_d : digest ≡ d = (string_eq.agrees_iff digest d).0 same in
        rw (is_d, auth_context-IsClosed d now s h) h
    | inr other ↦ auth_context-other digest now s other h
  ]

  set_csrf-IsClosed :
      (digest csrf : String) (now : ℕ) (s : AuthState)
      → IsClosed d s
      → IsClosed d (set_csrf_digest digest csrf now s).1
  unfolding set_csrf_digest
  set_csrf-IsClosed digest csrf now s h = elim (Bool-cases (digest == d)) [
    | inl same ↦
        let is_d : digest ≡ d = (string_eq.agrees_iff digest d).0 same in
        rw (is_d, set_csrf_digest, auth_context-IsClosed d now s h) h
    | inr other ↦
        csrf_for-other digest csrf now (auth_context digest now s) other
          (auth_context-other digest now s other h)
  ]

  revoke_session-IsClosed :
      (digest : String) (now : ℕ) (s : AuthState)
      → IsClosed d s
      → IsClosed d (revoke_session digest now s)
  unfolding revoke_session
  revoke_session-IsClosed digest now s h = elim (Option-cases (get digest s.sessions)) [
    | inl e ↦ rw (e, revoke_session) h
    | inr (x, e) ↦ elim (Bool-cases (is_none x.revoked_at)) [
      | inl f ↦
          rw (e, f, revoke_session)
            (rw (get-put digest d (record x { revoked_at = some now }) s.sessions)
              (elim (Bool-cases (digest == d)) [ inl g ↦ rw g refl | inr g ↦ rw g h ]))
      | inr f ↦ rw (e, f, revoke_session) h
    ]
  ]

  change_password-IsClosed :
      (new_id user_id hash digest : String) (now expires_at : ℕ) (s : AuthState)
      → (digest == d) ≡ false
      → IsClosed d s
      → IsClosed d
          (change_password_and_create_session new_id user_id hash digest now expires_at s).1
  unfolding change_password_and_create_session create_session
  change_password-IsClosed new_id user_id hash digest now expires_at s other h =
      elim (Option-cases (get user_id s.users)) [
        | inl e ↦ rw (e, change_password_and_create_session) h
        | inr (u, e) ↦
            rw (e, change_password_and_create_session)
              (put-IsClosed d digest (new_session new_id user_id digest now expires_at)
                (revoke_all user_id now
                  (record s { users = put user_id (with_password u hash now) s.users }))
                (revoke_all-IsClosed d user_id now _ h) other)
      ]

  after-IsClosed :
      (call : Call) (s : AuthState)
      → opens d call ≡ false
      → IsClosed d s
      → IsClosed d (after call s)
  unfolding replace_token create_session revoke_user_sessions record_privacy_acceptance
      validate_csrf_digest
  after-IsClosed (register new_id a now ttl limit) s new h =
      rw (register_pending-sessions new_id a now ttl limit s) h
  after-IsClosed (create_verified new_id a role now ttl) s new h =
      rw (create_verified_user-sessions new_id a role now ttl s) h
  after-IsClosed (disable user_id now) s new h = disable-IsClosed d user_id now s h
  after-IsClosed (issue_token user_id purpose digest now expires_at) s new h = h
  after-IsClosed (verify_email digest now) s new h = rw (verify-sessions digest now s) h
  after-IsClosed (reset_password digest hash now) s new h = reset-IsClosed digest hash now s h
  after-IsClosed (update_password user_id hash now) s new h =
      rw (update_password_hash-sessions user_id hash now s) h
  after-IsClosed (open_session new_id user_id digest now expires_at) s new h =
      put-IsClosed d digest _ s h new
  after-IsClosed (authenticate digest now) s new h = authenticate-IsClosed digest now s h
  after-IsClosed (set_csrf digest csrf now) s new h = set_csrf-IsClosed digest csrf now s h
  after-IsClosed (validate_csrf digest csrf now) s new h =
      checked-IsClosed csrf (auth_context digest now s) (authenticate-IsClosed digest now s h)
  after-IsClosed (close_session digest now) s new h = revoke_session-IsClosed digest now s h
  after-IsClosed (close_sessions user_id now) s new h = revoke_all-IsClosed d user_id now s h
  after-IsClosed (change_password new_id user_id hash digest now expires_at) s new h =
      change_password-IsClosed new_id user_id hash digest now expires_at s new h
  after-IsClosed (accept_policy user_id context version) s new h = h
  after-IsClosed (consume_rate action digest started limit) s new h =
      rw (consume_rate_limit-sessions action digest started limit s) h

  -- No call of a history opens a session under the digest.
  abbrev pub NeverOpens : List Call → Type 0
  NeverOpens = All λ call. opens d call ≡ false

  pub run-IsClosed :
      (calls : List Call) (s : AuthState)
      → NeverOpens calls
      → IsClosed d s
      → IsClosed d (run calls s)
  run-IsClosed [] s new h = h
  run-IsClosed (call ∷ calls) s new h =
      run-IsClosed calls (after call s) new.1 (after-IsClosed call s new.0 h)
