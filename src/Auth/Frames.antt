-- ===== src/Auth/Frames.antt =====
-- The one-time tokens of `InMemoryAuthStore`, app/auth/store.py, through calls about other things.
use weiquan_agent.Prelude.{ℕ, ◌≡◌, String, Option, arith, string_eq, number_eq, pair_eq}
use weiquan_agent.Auth.{UserRole, AuthState}
use weiquan_agent.Auth.Store.{
  Account, register_pending, create_verified_user, admit_user, add_user, expire_pending, revoke_all,
  disable_user,
}
use weiquan_agent.Auth.Tokens.{update_password_hash}
use weiquan_agent.Auth.Sessions.{
  create_session, auth_context, set_csrf_digest, validate_csrf_digest, revoke_session,
  change_password_and_create_session, consume_rate_limit,
}

pub register_pending-tokens :
    (new_id : String) (a : Account) (now ttl : ℕ) (limit : Option ℕ) (s : AuthState)
    → (register_pending new_id a now ttl limit s).1.tokens ≡ s.tokens
unfolding register_pending admit_user add_user expire_pending
register_pending-tokens new_id a now ttl limit s = ground arith

pub disable_user-tokens :
    (user_id : String) (now : ℕ) (s : AuthState) → (disable_user user_id now s).1.tokens ≡ s.tokens
unfolding disable_user revoke_all
disable_user-tokens user_id now s = ground arith

pub change_password-tokens :
    (new_id user_id password_hash token_digest : String) (now expires_at : ℕ) (s : AuthState)
    → (change_password_and_create_session new_id user_id password_hash token_digest now expires_at
        s).1.tokens
      ≡ s.tokens
unfolding change_password_and_create_session revoke_all create_session
change_password-tokens new_id user_id hash digest now expires_at s = ground arith

pub auth_context-tokens :
    (token_digest : String) (now : ℕ) (s : AuthState)
    → (auth_context token_digest now s).1.tokens ≡ s.tokens
unfolding auth_context
auth_context-tokens digest now s = ground arith

pub set_csrf_digest-tokens :
    (token_digest csrf_digest : String) (now : ℕ) (s : AuthState)
    → (set_csrf_digest token_digest csrf_digest now s).1.tokens ≡ s.tokens
unfolding set_csrf_digest auth_context
set_csrf_digest-tokens digest csrf now s = ground arith

pub create_verified_user-tokens :
    (new_id : String) (a : Account) (role : UserRole) (now ttl : ℕ) (s : AuthState)
    → (create_verified_user new_id a role now ttl s).1.tokens ≡ s.tokens
unfolding create_verified_user admit_user add_user expire_pending
create_verified_user-tokens new_id a role now ttl s = ground arith

pub update_password_hash-tokens :
    (user_id password_hash : String) (now : ℕ) (s : AuthState)
    → (update_password_hash user_id password_hash now s).1.tokens ≡ s.tokens
unfolding update_password_hash
update_password_hash-tokens user_id hash now s = ground arith

pub validate_csrf_digest-tokens :
    (token_digest csrf_digest : String) (now : ℕ) (s : AuthState)
    → (validate_csrf_digest token_digest csrf_digest now s).1.tokens ≡ s.tokens
unfolding validate_csrf_digest auth_context
validate_csrf_digest-tokens digest csrf now s = ground arith

pub revoke_session-tokens :
    (token_digest : String) (now : ℕ) (s : AuthState)
    → (revoke_session token_digest now s).tokens ≡ s.tokens
unfolding revoke_session
revoke_session-tokens digest now s = ground arith

pub consume_rate_limit-tokens :
    (action key_digest : String) (started limit : ℕ) (s : AuthState)
    → (consume_rate_limit action key_digest started limit s).1.tokens ≡ s.tokens
unfolding consume_rate_limit
consume_rate_limit-tokens action digest started limit s = ground arith
