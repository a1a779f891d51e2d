-- ===== src/Auth/Runs.antt =====
-- The capacity of `InMemoryAuthStore`, app/auth/store.py, over any history of calls.
use weiquan_agent.Prelude.{
  ℕ, ◌≤◌, ◌≡◌, refl, String, true, Option, none, some, List, [], ◌∷◌, count, arith, string_eq,
  number_eq, pair_eq, ok, leb, nat_eq, Option-cases, Bool-cases, inl, inr,
}
use weiquan_agent.Dict.{get, put, values}
use weiquan_agent.Auth.{
  UserRecord, AuthContext, AuthState, disabled, is_none, is_pending, is_active, email_verification,
  password_reset,
}
use weiquan_agent.Auth.Store.{make_store, get_user_by_id, revoke_all, disable_user}
use weiquan_agent.Auth.Tokens.{
  active_token, consume, when_user, verified, with_password, replace_token,
  consume_email_verification, consume_password_reset, update_password_hash,
}
use weiquan_agent.Auth.Sessions.{
  when_current, create_session, auth_context, csrf_for, checked, set_csrf_digest,
  validate_csrf_digest, revoke_session, revoke_user_sessions, change_password_and_create_session,
  record_privacy_acceptance, consume_rate_limit, or_zero,
}
use weiquan_agent.Auth.Lookups.{when_user-some, get_user_by_id-some}
use weiquan_agent.Auth.Calls.{
  Call, register, create_verified, disable, issue_token, verify_email, reset_password,
  update_password, open_session, authenticate, set_csrf, validate_csrf, close_session,
  close_sessions, change_password, accept_policy, consume_rate, after, run,
}
use weiquan_agent.Auth.Capacity.{
  is_kept, HasPlaces, replace-Fits, replace_own-Fits, register_pending-HasPlaces,
  create_verified_user-HasPlaces,
}

kept-pending : (u : UserRecord) → is_pending u.status ≡ true → is_kept u ≡ true
kept-pending u h = ground arith

kept-active : (u : UserRecord) → is_active u.status ≡ true → is_kept u ≡ true
kept-active u h = ground arith

-- What a call writes when it leaves the users or replaces one of them.
module _ (n : ℕ) where
  update_user :
      (k : String) (u v : UserRecord) (s : AuthState)
      → get k s.users ≡ some u
      → v.id ≡ u.id
      → (is_kept v ≡ true → is_kept u ≡ true)
      → HasPlaces n s
      → HasPlaces n (record s { users = put k v s.users })
  update_user k u v s found same kept h = (h.0, replace-Fits n k u v s.users found same kept h.1)

  disable_user-HasPlaces :
      (user_id : String) (now : ℕ) (s : AuthState)
      → HasPlaces n s
      → HasPlaces n (disable_user user_id now s).1
  unfolding disable_user revoke_all
  disable_user-HasPlaces user_id now s h = elim (Option-cases (get_user_by_id user_id s)) [
    | inl e ↦ rw (e, disable_user) h
    | inr (u, e) ↦
        let (found, kept) = get_user_by_id-some user_id s u e in
        rw (e, disable_user)
          (update_user user_id u
            (record u { status = disabled; disabled_at = some now; updated_at = now }) s found refl
            (λ _. ground arith) h)
  ]

  consume_email_verification-HasPlaces :
      (token_digest : String) (now : ℕ) (s : AuthState)
      → HasPlaces n s
      → HasPlaces n (consume_email_verification token_digest now s).1
  unfolding consume_email_verification consume
  consume_email_verification-HasPlaces token_digest now s h =
      elim (Option-cases (active_token token_digest email_verification now s)) [
        | inl e ↦ rw (e, consume_email_verification) h
        | inr (t, e) ↦
            elim (Option-cases (when_user (λ u. is_pending u.status) (get t.user_id s.users))) [
              | inl f ↦ rw (e, f, consume_email_verification) h
              | inr (u, f) ↦
                  let (found, pending) =
                    when_user-some (λ u. is_pending u.status) (get t.user_id s.users) u f in
                  rw (e, f, consume_email_verification)
                    (
                      h.0,
                      replace_own-Fits n t.user_id u (verified u now) s.users found refl
                          (λ _. kept-pending u pending) h.1,
                    )
            ]
      ]

  consume_password_reset-HasPlaces :
      (token_digest new_password_hash : String) (now : ℕ) (s : AuthState)
      → HasPlaces n s
      → HasPlaces n (consume_password_reset token_digest new_password_hash now s).1
  unfolding consume_password_reset consume revoke_all
  consume_password_reset-HasPlaces token_digest new_password_hash now s h =
      elim (Option-cases (active_token token_digest password_reset now s)) [
        | inl e ↦ rw (e, consume_password_reset) h
        | inr (t, e) ↦
            elim (Option-cases (when_user (λ u. is_active u.status) (get t.user_id s.users))) [
              | inl f ↦ rw (e, f, consume_password_reset) h
              | inr (u, f) ↦
                  let (found, on) =
                    when_user-some (λ u. is_active u.status) (get t.user_id s.users) u f in
                  rw (e, f, consume_password_reset)
                    (
                      h.0,
                      replace_own-Fits n t.user_id u (with_password u new_password_hash now) s.users
                          found refl (λ _. kept-active u on) h.1,
                    )
            ]
      ]

  update_password_hash-HasPlaces :
      (user_id password_hash : String) (now : ℕ) (s : AuthState)
      → HasPlaces n s
      → HasPlaces n (update_password_hash user_id password_hash now s).1
  unfolding update_password_hash
  update_password_hash-HasPlaces user_id password_hash now s h =
      elim (Option-cases (get user_id s.users)) [
        | inl e ↦ rw (e, update_password_hash) h
        | inr (u, e) ↦
            rw (e, update_password_hash)
              (update_user user_id u (with_password u password_hash now) s e refl (λ kept. kept) h)
      ]

  change_password-HasPlaces :
      (new_id user_id password_hash token_digest : String) (now expires_at : ℕ) (s : AuthState)
      → HasPlaces n s
      → HasPlaces n
          (change_password_and_create_session new_id user_id password_hash token_digest now
            expires_at s).1
  unfolding change_password_and_create_session revoke_all create_session
  change_password-HasPlaces new_id user_id password_hash token_digest now expires_at s h =
      elim (Option-cases (get user_id s.users)) [
        | inl e ↦ rw (e, change_password_and_create_session) h
        | inr (u, e) ↦
            rw (e, change_password_and_create_session)
              (update_user user_id u (with_password u password_hash now) s e refl (λ kept. kept) h)
      ]

  -- An authentication leaves the users and the capacity as they are.
  auth_context-HasPlaces :
      (token_digest : String) (now : ℕ) (s : AuthState)
      → HasPlaces n s
      → HasPlaces n (auth_context token_digest now s).1
  unfolding auth_context
  auth_context-HasPlaces token_digest now s h =
      elim (Option-cases (when_current now (get token_digest s.sessions))) [
        | inl e ↦ rw (e, auth_context) h
        | inr (x, e) ↦
            elim (Option-cases (when_user (λ u. is_active u.status) (get x.user_id s.users))) [
              | inl f ↦ rw (e, f, auth_context) h
              | inr (u, f) ↦ elim (Bool-cases (nat_eq x.last_seen_at now)) [
                | inl g ↦ rw (e, f, g, auth_context) h
                | inr g ↦ rw (e, f, g, auth_context) h
              ]
            ]
      ]

  revoke_session-HasPlaces :
      (token_digest : String) (now : ℕ) (s : AuthState)
      → HasPlaces n s
      → HasPlaces n (revoke_session token_digest now s)
  unfolding revoke_session
  revoke_session-HasPlaces token_digest now s h =
      elim (Option-cases (get token_digest s.sessions)) [
        | inl e ↦ rw (e, revoke_session) h
        | inr (x, e) ↦ elim (Bool-cases (is_none x.revoked_at)) [
          | inl f ↦ rw (e, f, revoke_session) h
          | inr f ↦ rw (e, f, revoke_session) h
        ]
      ]

  consume_rate_limit-HasPlaces :
      (action key_digest : String) (started limit : ℕ) (s : AuthState)
      → HasPlaces n s
      → HasPlaces n (consume_rate_limit action key_digest started limit s).1
  unfolding consume_rate_limit
  consume_rate_limit-HasPlaces action key_digest started limit s h =
      elim (Bool-cases (leb limit (or_zero (get (action, (key_digest, started)) s.rates)))) [
        | inl f ↦ rw (f, consume_rate_limit) h
        | inr f ↦ rw (f, consume_rate_limit) h
      ]

  csrf_for-HasPlaces :
      (token_digest csrf_digest : String) (now : ℕ) (r : Option AuthContext × AuthState)
      → HasPlaces n r.1
      → HasPlaces n (csrf_for token_digest csrf_digest now r).1
  csrf_for-HasPlaces token_digest csrf_digest now (none, s) h = h
  csrf_for-HasPlaces token_digest csrf_digest now (some c, s) h = h

  checked-HasPlaces :
      (csrf_digest : String) (r : Option AuthContext × AuthState)
      → HasPlaces n r.1
      → HasPlaces n (checked csrf_digest r).1
  checked-HasPlaces csrf_digest (none, s) h = h
  checked-HasPlaces csrf_digest (some c, s) h = h

  after-HasPlaces : (call : Call) (s : AuthState) → HasPlaces n s → HasPlaces n (after call s)
  unfolding replace_token create_session set_csrf_digest validate_csrf_digest revoke_user_sessions
      revoke_all record_privacy_acceptance
  after-HasPlaces (register new_id a now ttl limit) s h =
      register_pending-HasPlaces n new_id a now ttl limit s h
  after-HasPlaces (create_verified new_id a role now ttl) s h =
      create_verified_user-HasPlaces n new_id a role now ttl s h
  after-HasPlaces (disable user_id now) s h = disable_user-HasPlaces user_id now s h
  after-HasPlaces (issue_token user_id purpose digest now expires_at) s h = h
  after-HasPlaces (verify_email digest now) s h =
      consume_email_verification-HasPlaces digest now s h
  after-HasPlaces (reset_password digest hash now) s h =
      consume_password_reset-HasPlaces digest hash now s h
  after-HasPlaces (update_password user_id hash now) s h =
      update_password_hash-HasPlaces user_id hash now s h
  after-HasPlaces (open_session new_id user_id digest now expires_at) s h = h
  after-HasPlaces (authenticate digest now) s h = auth_context-HasPlaces digest now s h
  after-HasPlaces (set_csrf digest csrf now) s h =
      csrf_for-HasPlaces digest csrf now (auth_context digest now s)
        (auth_context-HasPlaces digest now s h)
  after-HasPlaces (validate_csrf digest csrf now) s h =
      checked-HasPlaces csrf (auth_context digest now s) (auth_context-HasPlaces digest now s h)
  after-HasPlaces (close_session digest now) s h = revoke_session-HasPlaces digest now s h
  after-HasPlaces (close_sessions user_id now) s h = h
  after-HasPlaces (change_password new_id user_id hash digest now expires_at) s h =
      change_password-HasPlaces new_id user_id hash digest now expires_at s h
  after-HasPlaces (accept_policy user_id context version) s h = h
  after-HasPlaces (consume_rate action digest started limit) s h =
      consume_rate_limit-HasPlaces action digest started limit s h

  run-HasPlaces : (calls : List Call) (s : AuthState) → HasPlaces n s → HasPlaces n (run calls s)
  run-HasPlaces [] s h = h
  run-HasPlaces (call ∷ calls) s h = run-HasPlaces calls (after call s) (after-HasPlaces call s h)

-- After any history of calls on a store made with a capacity, whatever clock readings, periods and
-- overrides they come with, at most that many users are not deleted.
pub run-kept :
    (n : ℕ) (s : AuthState) (calls : List Call)
    → make_store n ≡ ok s
    → count is_kept (values (run calls s).users) ≤ n
unfolding make_store
run-kept n s calls made =
    let none_yet : s.users ≡ [] = ground arith in
    let limit : s.capacity_limit ≡ n = ground arith in
    (run-HasPlaces n calls s (limit, rw none_yet (omega arith, tt))).1.0
