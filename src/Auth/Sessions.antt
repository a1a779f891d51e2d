-- ===== src/Auth/Sessions.antt =====
-- The sessions, acceptances and rates of `InMemoryAuthStore`, app/auth/store.py. Every method holds the
-- store's lock, so a method is one step of the state.
use weiquan_agent.Prelude.{
  ℕ, ◌+◌, String, Bool, true, false, ◌&&◌, Option, none, some, ltb, leb, nat_eq, any, count,
  if◌then◌else◌, string_eq, number_eq, pair_eq, ◌==◌, Result, ok, attempt, or_raise,
}
use weiquan_agent.Dict.{get, put, values}
use weiquan_agent.Auth.{
  Error, key_error, PrivacyContext, AuthSessionRecord, AuthContext, AuthState, is_none, is_active,
}
use weiquan_agent.Auth.Store.{same_acceptance, accept, is_open, revoke_all}
use weiquan_agent.Auth.Tokens.{when_user, with_password}

abbrev pub new_session : String → String → String → ℕ → ℕ → AuthSessionRecord
new_session new_id user_id token_digest now expires_at = record {
  id = new_id;
  user_id = user_id;
  token_digest = token_digest;
  csrf_digest = none;
  created_at = now;
  last_seen_at = now;
  expires_at = expires_at;
  revoked_at = none;
}

unfoldable pub create_session :
    String → String → String → ℕ → ℕ → AuthState → AuthSessionRecord × AuthState
create_session new_id user_id token_digest now expires_at s =
    let session = new_session new_id user_id token_digest now expires_at in
    (session, record s { sessions = put token_digest session s.sessions })

abbrev pub is_current : ℕ → AuthSessionRecord → Bool
is_current now session = is_none session.revoked_at && ltb now session.expires_at

abbrev pub when_current : ℕ → Option AuthSessionRecord → Option AuthSessionRecord
when_current now none = none
when_current now (some x) = if is_current now x then some x else none

-- _auth_context; writing `last_seen_at` where it is `now` already writes the same session.
unfoldable pub auth_context : String → ℕ → AuthState → Option AuthContext × AuthState
auth_context token_digest now s = elim (when_current now (get token_digest s.sessions)) [
  | none ↦ (none, s)
  | some session ↦ elim (when_user (λ u. is_active u.status) (get session.user_id s.users)) [
    | none ↦ (none, s)
    | some u ↦
        if nat_eq session.last_seen_at now
        then (some (record { user = u; session = session }), s)
        else (
          some (record { user = u; session = record session { last_seen_at = now } }),
          record s {
            sessions = put token_digest (record session { last_seen_at = now }) s.sessions;
          },
        )
  ]
]

abbrev pub get_auth_context : String → ℕ → AuthState → Option AuthContext × AuthState
get_auth_context = auth_context

abbrev pub csrf_for : String → String → ℕ → Option AuthContext × AuthState → Bool × AuthState
csrf_for token_digest csrf_digest now (none, s') = (false, s')
csrf_for token_digest csrf_digest now (some c, s') = (
  true,
  record s' {
    sessions =
        put token_digest (record c.session { csrf_digest = some csrf_digest; last_seen_at = now })
          s'.sessions;
  },
)

unfoldable pub set_csrf_digest : String → String → ℕ → AuthState → Bool × AuthState
set_csrf_digest token_digest csrf_digest now s =
    csrf_for token_digest csrf_digest now (auth_context token_digest now s)

abbrev pub same_digest : Option String → String → Bool
same_digest none digest = false
same_digest (some a) digest = a == digest

abbrev pub checked : String → Option AuthContext × AuthState → Option AuthContext × AuthState
checked csrf_digest (none, s') = (none, s')
checked csrf_digest (some c, s') =
    (if same_digest c.session.csrf_digest csrf_digest then some c else none, s')

unfoldable pub validate_csrf_digest :
    String → String → ℕ → AuthState → Option AuthContext × AuthState
validate_csrf_digest token_digest csrf_digest now s =
    checked csrf_digest (auth_context token_digest now s)

unfoldable pub revoke_session : String → ℕ → AuthState → AuthState
revoke_session token_digest now s = elim (get token_digest s.sessions) [
  | none ↦ s
  | some x ↦
      if is_none x.revoked_at
      then record s { sessions = put token_digest (record x { revoked_at = some now }) s.sessions }
      else s
]

unfoldable pub revoke_user_sessions : String → ℕ → AuthState → ℕ × AuthState
revoke_user_sessions user_id now s =
    (count (is_open user_id) (values s.sessions), revoke_all user_id now s)

unfoldable pub change_password_and_create_session :
    String
    → String
    → String
    → String
    → ℕ
    → ℕ
    → AuthState
    → Result Error AuthSessionRecord × AuthState
change_password_and_create_session new_id user_id password_hash token_digest now expires_at s =
    attempt (or_raise (get user_id s.users) key_error) s λ u.
      let (session, s') = create_session new_id user_id token_digest now expires_at (
        revoke_all user_id now
          (record s { users = put user_id (with_password u password_hash now) s.users })) in
      (ok session, s')

unfoldable pub record_privacy_acceptance : String → PrivacyContext → String → AuthState → AuthState
record_privacy_acceptance user_id context policy_version s = record s {
  privacy =
      accept (record { user_id = user_id; context = context; policy_version = policy_version })
        s.privacy;
}

unfoldable pub has_privacy_acceptance : String → PrivacyContext → String → AuthState → Bool
has_privacy_acceptance user_id context policy_version s =
    any
      (same_acceptance
        (record { user_id = user_id; context = context; policy_version = policy_version }))
      s.privacy

abbrev pub or_zero : Option ℕ → ℕ
or_zero none = 0
or_zero (some n) = n

unfoldable pub consume_rate_limit : String → String → ℕ → ℕ → AuthState → Bool × AuthState
consume_rate_limit action key_digest window_started_at limit s =
    let used = or_zero (get (action, (key_digest, window_started_at)) s.rates) in
    if leb limit used then (false, s) else (
      true,
      record s { rates = put (action, (key_digest, window_started_at)) (used + 1) s.rates },
    )
