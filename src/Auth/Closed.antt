-- ===== src/Auth/Closed.antt =====
-- Revoked sessions of `InMemoryAuthStore`, app/auth/store.py, over histories of calls.
use weiquan_agent.Prelude.{
  ℕ, ◌≡◌, refl, String, Bool, true, false, not, Option, none, some, arith, string_eq, number_eq,
  pair_eq, ◌==◌, Option-cases, inl, inr,
}
use weiquan_agent.Dict.{get, put}
use weiquan_agent.Dict.Laws.{get-put}
use weiquan_agent.Dict.Counts.{get-map_values}
use weiquan_agent.Auth.{UserRole, AuthSessionRecord, AuthState, is_none}
use weiquan_agent.Auth.Store.{
  Account, register_pending, create_verified_user, admit_user, add_user, expire_pending,
  get_user_by_id, revoke, revoke_all, disable_user,
}
use weiquan_agent.Auth.Tokens.{consume, consume_email_verification, update_password_hash}
use weiquan_agent.Auth.Sessions.{when_current, auth_context, consume_rate_limit}
use weiquan_agent.Auth.Calls.{Call, open_session, change_password}

-- A digest that no session has, or one whose session is revoked.
abbrev pub is_closed : Option AuthSessionRecord → Bool
is_closed none = true
is_closed (some x) = not (is_none x.revoked_at)

abbrev pub opens : String → Call → Bool
opens d (open_session new_id user_id digest now expires_at) = digest == d
opens d (change_password new_id user_id hash digest now expires_at) = digest == d
opens d call = false

pub register_pending-sessions :
    (new_id : String) (a : Account) (now ttl : ℕ) (limit : Option ℕ) (s : AuthState)
    → (register_pending new_id a now ttl limit s).1.sessions ≡ s.sessions
unfolding register_pending admit_user add_user expire_pending
register_pending-sessions new_id a now ttl limit s = ground arith

pub create_verified_user-sessions :
    (new_id : String) (a : Account) (role : UserRole) (now ttl : ℕ) (s : AuthState)
    → (create_verified_user new_id a role now ttl s).1.sessions ≡ s.sessions
unfolding create_verified_user admit_user add_user expire_pending
create_verified_user-sessions new_id a role now ttl s = ground arith

pub verify-sessions :
    (token_digest : String) (now : ℕ) (s : AuthState)
    → (consume_email_verification token_digest now s).1.sessions ≡ s.sessions
unfolding consume_email_verification consume
verify-sessions digest now s = ground arith

pub update_password_hash-sessions :
    (user_id password_hash : String) (now : ℕ) (s : AuthState)
    → (update_password_hash user_id password_hash now s).1.sessions ≡ s.sessions
unfolding update_password_hash
update_password_hash-sessions user_id hash now s = ground arith

pub consume_rate_limit-sessions :
    (action key_digest : String) (started limit : ℕ) (s : AuthState)
    → (consume_rate_limit action key_digest started limit s).1.sessions ≡ s.sessions
unfolding consume_rate_limit
consume_rate_limit-sessions action digest started limit s = ground arith

module _ (d : String) where
  abbrev pub IsClosed : AuthState → Type 0
  IsClosed s = is_closed (get d s.sessions) ≡ true

  pub revoke_all-IsClosed :
      (user_id : String) (now : ℕ) (s : AuthState)
      → IsClosed s
      → IsClosed (revoke_all user_id now s)
  unfolding revoke_all revoke
  revoke_all-IsClosed user_id now s h =
      rw (get-map_values (revoke user_id now) d s.sessions)
        (elim (Option-cases (get d s.sessions)) [
          | inl e ↦ rw e refl
          | inr (x, e) ↦ rw e (ground (arith, h, e))
        ])

  -- Writing an open session elsewhere, or over one that is not closed.
  pub put-IsClosed :
      (digest : String) (x : AuthSessionRecord) (s : AuthState)
      → IsClosed s
      → (digest == d) ≡ false
      → IsClosed (record s { sessions = put digest x s.sessions })
  put-IsClosed digest x s h other = rw (get-put digest d x s.sessions, other) h

  when_current-IsClosed :
      (now : ℕ) (s : AuthState) → IsClosed s → when_current now (get d s.sessions) ≡ none
  when_current-IsClosed now s h = elim (Option-cases (get d s.sessions)) [
    | inl e ↦ rw e refl
    | inr (x, e) ↦ rw e (ground (arith, h, e))
  ]

  pub auth_context-IsClosed :
      (now : ℕ) (s : AuthState) → IsClosed s → auth_context d now s ≡ (none, s)
  unfolding auth_context
  auth_context-IsClosed now s h = rw (when_current-IsClosed now s h, auth_context) refl

  pub disable-IsClosed :
      (user_id : String) (now : ℕ) (s : AuthState)
      → IsClosed s
      → IsClosed (disable_user user_id now s).1
  unfolding disable_user
  disable-IsClosed user_id now s h = elim (Option-cases (get_user_by_id user_id s)) [
    | inl e ↦ rw (e, disable_user) h
    | inr (u, e) ↦ rw (e, disable_user) (revoke_all-IsClosed user_id now _ h)
  ]
