-- ===== src/Auth/Tests.antt =====
-- Runs of the store of app/auth/store.py on small histories, and concrete cases of its theorems.
use weiquan_agent.Prelude.{
  ◌≤◌, ◌≡◌, refl, none, some, List, [], ◌∷◌, count, string_eq, number_eq, pair_eq, ok, arith,
}
use weiquan_agent.Dict.{get, put, remove, values, map_values}
use weiquan_agent.Auth.{
  UserRecord, AuthSessionRecord, AuthState, TokenState, disabled, email_verification,
  password_reset, created, capacity_full,
}
use weiquan_agent.Auth.Store.{
  make_store, effective_capacity_limit, is_overdue, expire_user, forget_emails, expire_pending,
  capacity_used, accept, add_user, admit_user, Account, pending_user, register_pending,
  get_user_by_id, revoke, revoke_all, disable_user,
}
use weiquan_agent.Auth.Tokens.{
  invalidate, replace_token, active_token, consume, verified, with_password,
  consume_email_verification, consume_password_reset,
}
use weiquan_agent.Auth.Sessions.{new_session, create_session, get_auth_context}
use weiquan_agent.Auth.Calls.{
  Call, register, issue_token, verify_email, open_session, authenticate, close_session, run,
}
use weiquan_agent.Auth.Capacity.{is_kept}
use weiquan_agent.Auth.Runs.{run-kept}
use weiquan_agent.Auth.Once.{
  Refuses, consume_email_verification-once, consume_password_reset-once, replace_token-retires,
}
use weiquan_agent.Auth.Signout.{
  IsSignedOut, consume_password_reset-signs_out, disable_user-signs_out,
  auth_context-create_session,
}

abbrev empty : AuthState
empty = record {
  capacity_limit = 1;
  users = [];
  email_index = [];
  tokens = [];
  sessions = [];
  privacy = [];
  rates = [];
}

abbrev ada : Account
ada = record { email = "ada@example.com"; password_hash = "h1"; policy_version = "v1" }

abbrev ben : Account
ben = record { email = "ben@example.com"; password_hash = "h2"; policy_version = "v1" }

-- Ada registers, verifies her address and signs in, Ben finds no place.
abbrev morning : List Call
morning =
    register "u1" ada 100 50 none
    ∷ issue_token "u1" email_verification "t1" 100 200
    ∷ verify_email "t1" 110
    ∷ open_session "s1" "u1" "d1" 120 500
    ∷ register "u2" ben 200 50 none
    ∷ []

abbrev registered : AuthState
registered =
    run (register "u1" ada 100 50 none ∷ issue_token "u1" email_verification "t1" 100 200 ∷ [])
      empty

-- With a token to reset the password.
abbrev signed_in : AuthState
signed_in = run (issue_token "u1" password_reset "t2" 210 400 ∷ []) (run morning empty)

abbrev ada_active : UserRecord
ada_active = verified (pending_user "u1" ada 100) 110

run-kept_example : count is_kept (values (run morning empty).users) ≤ 1
unfolding make_store
run-kept_example = run-kept 1 empty morning refl

ben_waits : (register_pending "u2" ben 200 50 none (run morning empty)).0 ≡ ok capacity_full
unfolding register_pending effective_capacity_limit expire_pending expire_user is_overdue
    forget_emails map_values admit_user capacity_used add_user accept get put remove replace_token
    invalidate consume_email_verification active_token consume create_session
ben_waits = refl

-- A pending registration that is never verified gives its place back.
ben_follows :
    (register_pending "u2" ben 200 50 none registered).0 ≡ ok (created (pending_user "u2" ben 200))
unfolding register_pending effective_capacity_limit expire_pending expire_user is_overdue
    forget_emails map_values admit_user capacity_used add_user accept get put remove replace_token
    invalidate
ben_follows = refl

consume_email_verification-once_example : Refuses "t1" 130 (
    run
      (issue_token "u1" password_reset "t2" 120 400 ∷ [])
      (consume_email_verification "t1" 110 registered).1)
unfolding register_pending effective_capacity_limit expire_pending expire_user is_overdue
    forget_emails map_values admit_user capacity_used add_user accept get put remove replace_token
    invalidate consume_email_verification active_token consume
consume_email_verification-once_example =
    consume_email_verification-once "t1" 110 130 registered ada_active
      (issue_token "u1" password_reset "t2" 120 400 ∷ []) refl (refl, tt)

consume_password_reset-once_example :
    Refuses "t2" 230
      (run (close_session "d1" 225 ∷ []) (consume_password_reset "t2" "h3" 220 signed_in).1)
unfolding register_pending effective_capacity_limit expire_pending expire_user is_overdue
    forget_emails map_values admit_user capacity_used add_user accept get put remove replace_token
    invalidate consume_email_verification active_token consume create_session consume_password_reset
    revoke_all revoke
consume_password_reset-once_example =
    consume_password_reset-once "t2" "h3" 220 230 signed_in (with_password ada_active "h3" 220)
      (close_session "d1" 225 ∷ []) refl (refl, tt)

abbrev reset_token : TokenState
reset_token = record {
  user_id = "u1";
  purpose = password_reset;
  digest = "t2";
  created_at = 210;
  expires_at = 400;
  consumed_at = none;
  invalidated_at = none;
}

replace_token-retires_example :
    Refuses "t2" 230
      (run (close_session "d1" 225 ∷ []) (replace_token "u1" password_reset "t3" 220 400 signed_in))
unfolding register_pending effective_capacity_limit expire_pending expire_user is_overdue
    forget_emails map_values admit_user capacity_used add_user accept get put remove replace_token
    invalidate consume_email_verification active_token consume create_session
replace_token-retires_example =
    replace_token-retires "t2" "u1" password_reset "t3" 220 400 230 signed_in reset_token
      (close_session "d1" 225 ∷ []) refl refl refl refl (refl, tt)

abbrev ada_session : AuthSessionRecord
ada_session = new_session "s1" "u1" "d1" 120 500

consume_password_reset-signs_out_example :
    IsSignedOut "d1" 250
      (run (authenticate "d1" 230 ∷ []) (consume_password_reset "t2" "h3" 220 signed_in).1)
unfolding register_pending effective_capacity_limit expire_pending expire_user is_overdue
    forget_emails map_values admit_user capacity_used add_user accept get put remove replace_token
    invalidate consume_email_verification active_token consume create_session consume_password_reset
    revoke_all revoke
consume_password_reset-signs_out_example =
    consume_password_reset-signs_out "d1" 250 (authenticate "d1" 230 ∷ []) (refl, tt) "t2" "h3" 220
      signed_in (with_password ada_active "h3" 220) ada_session refl refl refl

disable_user-signs_out_example :
    IsSignedOut "d1" 250 (run (authenticate "d1" 230 ∷ []) (disable_user "u1" 220 signed_in).1)
unfolding register_pending effective_capacity_limit expire_pending expire_user is_overdue
    forget_emails map_values admit_user capacity_used add_user accept get put remove replace_token
    invalidate consume_email_verification active_token consume create_session disable_user
    get_user_by_id
disable_user-signs_out_example =
    disable_user-signs_out "d1" 250 (authenticate "d1" 230 ∷ []) (refl, tt) "u1" 220 signed_in
      (record ada_active { status = disabled; disabled_at = some 220; updated_at = 220 })
      ada_session refl refl refl

auth_context-create_session_example :
    (get_auth_context "d2" 240 (create_session "s2" "u1" "d2" 230 500 signed_in).1).0
    ≡ some (record {
      user = ada_active;
      session = record (new_session "s2" "u1" "d2" 230 500) { last_seen_at = 240 };
    })
unfolding register_pending effective_capacity_limit expire_pending expire_user is_overdue
    forget_emails map_values admit_user capacity_used add_user accept get put remove replace_token
    invalidate consume_email_verification active_token consume create_session
auth_context-create_session_example =
    auth_context-create_session "s2" "u1" "d2" 230 500 240 signed_in ada_active refl refl
      (omega arith)
