-- ===== src/Auth/Lookups.antt =====
-- What a successful lookup of `InMemoryAuthStore`, app/auth/store.py, has found.
use weiquan_agent.Prelude.{
  ℕ, ◌≡◌, String, Bool, true, false, Option, none, some, arith, string_eq, kept-some, Bool-cases,
  inl, inr,
}
use weiquan_agent.Dict.{get}
use weiquan_agent.Auth.{
  UserRecord, AuthSessionRecord, AuthState, TokenState, TokenPurpose, is_deleted,
}
use weiquan_agent.Auth.Store.{get_user_by_id, unless_deleted}
use weiquan_agent.Auth.Tokens.{active_token, when_valid, is_valid_token, when_user}
use weiquan_agent.Auth.Sessions.{when_current, is_current}

pub when_user-some :
    (p : UserRecord → Bool) (o : Option UserRecord) (u : UserRecord)
    → when_user p o ≡ some u
    → (o ≡ some u) × (p u ≡ true)
when_user-some p none u h = absurd cc
when_user-some p (some v) u h = ground arith

pub when_current-some :
    (now : ℕ) (o : Option AuthSessionRecord) (x : AuthSessionRecord)
    → when_current now o ≡ some x
    → (o ≡ some x) × (is_current now x ≡ true)
when_current-some now none x h = absurd cc
when_current-some now (some y) x h = kept-some (is_current now) y x h

pub active_token-some :
    (token_digest : String) (purpose : TokenPurpose) (now : ℕ) (s : AuthState) (t : TokenState)
    → active_token token_digest purpose now s ≡ some t
    → (get token_digest s.tokens ≡ some t) × (is_valid_token purpose now t ≡ true)
unfolding active_token
active_token-some token_digest purpose now s t h = found_at (get token_digest s.tokens) h
  where
    found_at :
        (o : Option TokenState)
        → when_valid purpose now o ≡ some t
        → (o ≡ some t) × (is_valid_token purpose now t ≡ true)
    found_at none f = absurd cc
    found_at (some y) f = kept-some (is_valid_token purpose now) y t f

pub get_user_by_id-some :
    (user_id : String) (s : AuthState) (u : UserRecord)
    → get_user_by_id user_id s ≡ some u
    → (get user_id s.users ≡ some u) × (is_deleted u.status ≡ false)
unfolding get_user_by_id
get_user_by_id-some user_id s u h = found_at (get user_id s.users) h
  where
    found_at :
        (o : Option UserRecord)
        → unless_deleted o ≡ some u
        → (o ≡ some u) × (is_deleted u.status ≡ false)
    found_at none f = absurd cc
    found_at (some y) f = elim (Bool-cases (is_deleted y.status)) [
      | inl gone ↦ absurd (ground arith)
      | inr there ↦ (ground arith, ground arith)
    ]
