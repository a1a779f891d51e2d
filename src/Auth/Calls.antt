-- ===== src/Auth/Calls.antt =====
-- Histories of calls to one `InMemoryAuthStore`, app/auth/store.py: a constructor for each method
-- that may write, with its arguments, and the state after it.
use weiquan_agent.Prelude.{ℕ, String, Option, List, [], ◌∷◌}
use weiquan_agent.Auth.{UserRole, TokenPurpose, PrivacyContext, AuthState}
use weiquan_agent.Auth.Store.{Account, register_pending, create_verified_user, disable_user}
use weiquan_agent.Auth.Tokens.{
  replace_token, consume_email_verification, consume_password_reset, update_password_hash,
}
use weiquan_agent.Auth.Sessions.{
  create_session, get_auth_context, set_csrf_digest, validate_csrf_digest, revoke_session,
  revoke_user_sessions, change_password_and_create_session, record_privacy_acceptance,
  consume_rate_limit,
}

pub data Call : Type 0 where
  -- new_id, account, now, pending_ttl, capacity_limit
  register : String → Account → ℕ → ℕ → Option ℕ → Call
  -- new_id, account, role, now, pending_ttl
  create_verified : String → Account → UserRole → ℕ → ℕ → Call
  -- user_id, now
  disable : String → ℕ → Call
  -- user_id, purpose, token_digest, now, expires_at
  issue_token : String → TokenPurpose → String → ℕ → ℕ → Call
  -- token_digest, now
  verify_email : String → ℕ → Call
  -- token_digest, new_password_hash, now
  reset_password : String → String → ℕ → Call
  -- user_id, password_hash, now
  update_password : String → String → ℕ → Call
  -- new_id, user_id, token_digest, now, expires_at
  open_session : String → String → String → ℕ → ℕ → Call
  -- token_digest, now
  authenticate : String → ℕ → Call
  -- token_digest, csrf_digest, now
  set_csrf validate_csrf : String → String → ℕ → Call
  -- token_digest, now
  close_session : String → ℕ → Call
  -- user_id, now
  close_sessions : String → ℕ → Call
  -- new_id, user_id, password_hash, token_digest, now, expires_at
  change_password : String → String → String → String → ℕ → ℕ → Call
  -- user_id, context, policy_version
  accept_policy : String → PrivacyContext → String → Call
  -- action, key_digest, window_started_at, limit
  consume_rate : String → String → ℕ → ℕ → Call

abbrev pub after : Call → AuthState → AuthState
after (register new_id a now pending_ttl capacity_limit) s =
    (register_pending new_id a now pending_ttl capacity_limit s).1
after (create_verified new_id a role now pending_ttl) s =
    (create_verified_user new_id a role now pending_ttl s).1
after (disable user_id now) s = (disable_user user_id now s).1
after (issue_token user_id purpose token_digest now expires_at) s =
    replace_token user_id purpose token_digest now expires_at s
after (verify_email token_digest now) s = (consume_email_verification token_digest now s).1
after (reset_password token_digest new_password_hash now) s =
    (consume_password_reset token_digest new_password_hash now s).1
after (update_password user_id password_hash now) s =
    (update_password_hash user_id password_hash now s).1
after (open_session new_id user_id token_digest now expires_at) s =
    (create_session new_id user_id token_digest now expires_at s).1
after (authenticate token_digest now) s = (get_auth_context token_digest now s).1
after (set_csrf token_digest csrf_digest now) s = (set_csrf_digest token_digest csrf_digest now s).1
after (validate_csrf token_digest csrf_digest now) s =
    (validate_csrf_digest token_digest csrf_digest now s).1
after (close_session token_digest now) s = revoke_session token_digest now s
after (close_sessions user_id now) s = (revoke_user_sessions user_id now s).1
after (change_password new_id user_id password_hash token_digest now expires_at) s =
    (change_password_and_create_session new_id user_id password_hash token_digest now expires_at
      s).1
after (accept_policy user_id context policy_version) s =
    record_privacy_acceptance user_id context policy_version s
after (consume_rate action key_digest window_started_at limit) s =
    (consume_rate_limit action key_digest window_started_at limit s).1

abbrev pub run : List Call → AuthState → AuthState
run [] s = s
run (call ∷ calls) s = run calls (after call s)
