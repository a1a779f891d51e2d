-- ===== src/Auth/Spent.antt =====
-- One-time tokens of `InMemoryAuthStore`, app/auth/store.py, over histories of calls.
use weiquan_agent.Prelude.{
  ℕ, ◌≡◌, refl, String, Bool, true, false, not, ◌&&◌, Option, none, some, List, [], ◌∷◌, All, arith,
  string_eq, number_eq, pair_eq, ◌==◌, Option-cases, Bool-cases, inl, inr,
}
use weiquan_agent.Dict.{get, map_values}
use weiquan_agent.Dict.Laws.{get-put}
use weiquan_agent.Dict.Counts.{get-map_values}
use weiquan_agent.Auth.{
  AuthState, TokenState, TokenPurpose, is_none, is_pending, is_active, email_verification,
  password_reset,
}
use weiquan_agent.Auth.Store.{revoke_all}
use weiquan_agent.Auth.Tokens.{
  active_token, invalidate, consume, when_user, replace_token, consume_email_verification,
  consume_password_reset,
}
use weiquan_agent.Auth.Sessions.{create_session, revoke_user_sessions, record_privacy_acceptance}
use weiquan_agent.Auth.Frames.{
  register_pending-tokens, disable_user-tokens, change_password-tokens, auth_context-tokens,
  set_csrf_digest-tokens, create_verified_user-tokens, update_password_hash-tokens,
  validate_csrf_digest-tokens, revoke_session-tokens, consume_rate_limit-tokens,
}
use weiquan_agent.Auth.Calls.{
  Call, register, create_verified, disable, issue_token, verify_email, reset_password,
  update_password, open_session, authenticate, set_csrf, validate_csrf, close_session,
  close_sessions, change_password, accept_policy, consume_rate, after, run,
}

-- A digest that no token has, or one whose token is consumed or invalidated.
abbrev pub is_void : Option TokenState → Bool
is_void none = true
is_void (some t) = not (is_none t.consumed_at && is_none t.invalidated_at)

abbrev pub issues : String → Call → Bool
issues d (issue_token user_id purpose digest now expires_at) = digest == d
issues d call = false

pub active_token-void :
    (d : String) (purpose : TokenPurpose) (now : ℕ) (s : AuthState)
    → is_void (get d s.tokens) ≡ true
    → active_token d purpose now s ≡ none
unfolding active_token
active_token-void d purpose now s h = elim (Option-cases (get d s.tokens)) [
  | inl e ↦ rw (e, active_token) refl
  | inr (t, e) ↦ rw (e, active_token) (ground (arith, h, e))
]

pub get-replace_token :
    (d user_id : String) (purpose : TokenPurpose) (digest : String) (now expires_at : ℕ)
    (s : AuthState)
    → (digest == d) ≡ false
    → get d (replace_token user_id purpose digest now expires_at s).tokens
      ≡ elim (get d s.tokens) [ none ↦ none | some t ↦ some (invalidate user_id purpose now t) ]
unfolding replace_token
get-replace_token d user_id purpose digest now expires_at s other =
    rw
      (
        get-put digest d
            (record {
              user_id = user_id;
              purpose = purpose;
              digest = digest;
              created_at = now;
              expires_at = expires_at;
              consumed_at = none;
              invalidated_at = none;
            })
            (map_values (invalidate user_id purpose now) s.tokens),
        other,
        get-map_values (invalidate user_id purpose now) d s.tokens,
      )
      refl

invalidate-void :
    (user_id : String) (purpose : TokenPurpose) (now : ℕ) (t : TokenState)
    → is_void (some t) ≡ true
    → is_void (some (invalidate user_id purpose now t)) ≡ true
unfolding invalidate
invalidate-void user_id purpose now t h = ground (arith, h)

replace_token-void :
    (d user_id : String) (purpose : TokenPurpose) (digest : String) (now expires_at : ℕ)
    (s : AuthState)
    → (digest == d) ≡ false
    → is_void (get d s.tokens) ≡ true
    → is_void (get d (replace_token user_id purpose digest now expires_at s).tokens) ≡ true
replace_token-void d user_id purpose digest now expires_at s other h =
    rw (get-replace_token d user_id purpose digest now expires_at s other)
      (elim (Option-cases (get d s.tokens)) [
        | inl e ↦ rw e refl
        | inr (t, e) ↦ rw e (invalidate-void user_id purpose now t (rw e at h))
      ])

consume-void :
    (d digest : String) (t : TokenState) (now : ℕ) (s : AuthState)
    → is_void (get d s.tokens) ≡ true
    → is_void (get d (consume digest t now s).tokens) ≡ true
unfolding consume
consume-void d digest t now s h =
    rw (get-put digest d (record t { consumed_at = some now }) s.tokens)
      (elim (Bool-cases (digest == d)) [ inl e ↦ rw e refl | inr e ↦ rw e h ])

verify-void :
    (d digest : String) (now : ℕ) (s : AuthState)
    → is_void (get d s.tokens) ≡ true
    → is_void (get d (consume_email_verification digest now s).1.tokens) ≡ true
unfolding consume_email_verification
verify-void d digest now s h = elim (Option-cases (active_token digest email_verification now s)) [
  | inl e ↦ rw (e, consume_email_verification) h
  | inr (t, e) ↦
      elim (Option-cases (when_user (λ u. is_pending u.status) (get t.user_id s.users))) [
        | inl f ↦ rw (e, f, consume_email_verification) h
        | inr (u, f) ↦ rw (e, f, consume_email_verification) (consume-void d digest t now s h)
      ]
]

reset-void :
    (d digest hash : String) (now : ℕ) (s : AuthState)
    → is_void (get d s.tokens) ≡ true
    → is_void (get d (consume_password_reset digest hash now s).1.tokens) ≡ true
unfolding consume_password_reset revoke_all
reset-void d digest hash now s h = elim (Option-cases (active_token digest password_reset now s)) [
  | inl e ↦ rw (e, consume_password_reset) h
  | inr (t, e) ↦ elim (Option-cases (when_user (λ u. is_active u.status) (get t.user_id s.users))) [
    | inl f ↦ rw (e, f, consume_password_reset) h
    | inr (u, f) ↦ rw (e, f, consume_password_reset) (consume-void d digest t now s h)
  ]
]

after-void :
    (d : String) (call : Call) (s : AuthState)
    → issues d call ≡ false
    → is_void (get d s.tokens) ≡ true
    → is_void (get d (after call s).tokens) ≡ true
unfolding create_session revoke_user_sessions revoke_all record_privacy_acceptance
after-void d (register new_id a now ttl limit) s new h =
    rw (register_pending-tokens new_id a now ttl limit s) h
after-void d (create_verified new_id a role now ttl) s new h =
    rw (create_verified_user-tokens new_id a role now ttl s) h
after-void d (disable user_id now) s new h = rw (disable_user-tokens user_id now s) h
after-void d (issue_token user_id purpose digest now expires_at) s new h =
    replace_token-void d user_id purpose digest now expires_at s new h
after-void d (verify_email digest now) s new h = verify-void d digest now s h
after-void d (reset_password digest hash now) s new h = reset-void d digest hash now s h
after-void d (update_password user_id hash now) s new h =
    rw (update_password_hash-tokens user_id hash now s) h
after-void d (open_session new_id user_id digest now expires_at) s new h = h
after-void d (authenticate digest now) s new h = rw (auth_context-tokens digest now s) h
after-void d (set_csrf digest csrf now) s new h = rw (set_csrf_digest-tokens digest csrf now s) h
after-void d (validate_csrf digest csrf now) s new h =
    rw (validate_csrf_digest-tokens digest csrf now s) h
after-void d (close_session digest now) s new h = rw (revoke_session-tokens digest now s) h
after-void d (close_sessions user_id now) s new h = h
after-void d (change_password new_id user_id hash digest now expires_at) s new h =
    rw (change_password-tokens new_id user_id hash digest now expires_at s) h
after-void d (accept_policy user_id context version) s new h = h
after-void d (consume_rate action digest started limit) s new h =
    rw (consume_rate_limit-tokens action digest started limit s) h

-- No call of a history issues a token under the digest.
abbrev pub NeverIssues : String → List Call → Type 0
NeverIssues d = All λ call. issues d call ≡ false

pub run-void :
    (d : String) (calls : List Call) (s : AuthState)
    → NeverIssues d calls
    → is_void (get d s.tokens) ≡ true
    → is_void (get d (run calls s).tokens) ≡ true
run-void d [] s new h = h
run-void d (call ∷ calls) s new h =
    run-void d calls (after call s) new.1 (after-void d call s new.0 h)
