-- ===== src/Auth/Tokens.antt =====
-- The one-time tokens and passwords of `InMemoryAuthStore`, app/auth/store.py. Every
-- method holds the store's lock, so a method is one step of the state.
use weiquan_agent.Prelude.{
  ℕ, String, Bool, ◌&&◌, Option, none, some, ltb, if◌then◌else◌, string_eq, number_eq, pair_eq,
  ◌==◌, Result, ok, attempt, or_raise,
}
use weiquan_agent.Dict.{get, put, map_values}
use weiquan_agent.Auth.{
  Error, key_error, active, TokenPurpose, email_verification, password_reset, UserRecord,
  TokenState, AuthState, same_purpose, is_none, is_pending, is_active,
}
use weiquan_agent.Auth.Store.{revoke_all}

abbrev pub is_usable : String → TokenPurpose → TokenState → Bool
is_usable user_id purpose t =
    t.user_id == user_id
    && (same_purpose t.purpose purpose && (is_none t.consumed_at && is_none t.invalidated_at))

unfoldable pub invalidate : String → TokenPurpose → ℕ → TokenState → TokenState
invalidate user_id purpose now t =
    if is_usable user_id purpose t then record t { invalidated_at = some now } else t

unfoldable pub replace_token : String → TokenPurpose → String → ℕ → ℕ → AuthState → AuthState
replace_token user_id purpose token_digest now expires_at s = record s {
  tokens =
      put token_digest
        (record {
          user_id = user_id;
          purpose = purpose;
          digest = token_digest;
          created_at = now;
          expires_at = expires_at;
          consumed_at = none;
          invalidated_at = none;
        })
        (map_values (invalidate user_id purpose now) s.tokens);
}

abbrev pub is_valid_token : TokenPurpose → ℕ → TokenState → Bool
is_valid_token purpose now t =
    same_purpose t.purpose purpose
    && (is_none t.consumed_at && (is_none t.invalidated_at && ltb now t.expires_at))

abbrev pub when_valid : TokenPurpose → ℕ → Option TokenState → Option TokenState
when_valid purpose now none = none
when_valid purpose now (some t) = if is_valid_token purpose now t then some t else none

-- _active_token
unfoldable pub active_token : String → TokenPurpose → ℕ → AuthState → Option TokenState
active_token token_digest purpose now s = when_valid purpose now (get token_digest s.tokens)

-- state.consumed_at = now
unfoldable pub consume : String → TokenState → ℕ → AuthState → AuthState
consume token_digest t now s = record s {
  tokens = put token_digest (record t { consumed_at = some now }) s.tokens;
}

-- user is None or user.status is not the one required
abbrev pub when_user : (UserRecord → Bool) → Option UserRecord → Option UserRecord
when_user p none = none
when_user p (some u) = if p u then some u else none

abbrev pub verified : UserRecord → ℕ → UserRecord
verified u now = record u { status = active; verified_at = some now; updated_at = now }

unfoldable pub consume_email_verification : String → ℕ → AuthState → Option UserRecord × AuthState
consume_email_verification token_digest now s =
    elim (active_token token_digest email_verification now s) [
      | none ↦ (none, s)
      | some t ↦ elim (when_user (λ u. is_pending u.status) (get t.user_id s.users)) [
        | none ↦ (none, s)
        | some u ↦ (
          some (verified u now),
          let spent = consume token_digest t now s in
              record spent { users = put u.id (verified u now) spent.users },
        )
      ]
    ]

abbrev pub with_password : UserRecord → String → ℕ → UserRecord
with_password u password_hash now = record u { password_hash = password_hash; updated_at = now }

unfoldable pub consume_password_reset :
    String → String → ℕ → AuthState → Option UserRecord × AuthState
consume_password_reset token_digest new_password_hash now s =
    elim (active_token token_digest password_reset now s) [
      | none ↦ (none, s)
      | some t ↦ elim (when_user (λ u. is_active u.status) (get t.user_id s.users)) [
        | none ↦ (none, s)
        | some u ↦
            let spent = consume token_digest t now s in
            (
              some (with_password u new_password_hash now),
              revoke_all u.id now (record spent {
                users = put u.id (with_password u new_password_hash now) spent.users;
              }),
            )
      ]
    ]

unfoldable pub update_password_hash :
    String → String → ℕ → AuthState → Result Error (Unit {0}) × AuthState
update_password_hash user_id password_hash now s =
    attempt (or_raise (get user_id s.users) key_error) s
      λ u. (ok tt, record s { users = put user_id (with_password u password_hash now) s.users })
