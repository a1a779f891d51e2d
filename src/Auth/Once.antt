-- ===== src/Auth/Once.antt =====
-- The use and the replacement of one-time tokens: `replace_token`, `consume_email_verification` and
-- `consume_password_reset` of app/auth/store.py.
use weiquan_agent.Prelude.{
  ℕ, ◌≡◌, refl, String, true, false, none, some, List, arith, string_eq, ◌==◌, ==_refl,
  Option-cases, inl, inr,
}
use weiquan_agent.Dict.{get}
use weiquan_agent.Dict.Laws.{get-put}
use weiquan_agent.Auth.{
  UserRecord, AuthState, TokenState, TokenPurpose, is_pending, is_active, same_purpose,
  email_verification, password_reset,
}
use weiquan_agent.Auth.Store.{revoke_all}
use weiquan_agent.Auth.Tokens.{
  active_token, invalidate, consume, when_user, replace_token, consume_email_verification,
  consume_password_reset,
}
use weiquan_agent.Auth.Calls.{Call, run}
use weiquan_agent.Auth.Spent.{is_void, active_token-void, get-replace_token, NeverIssues, run-void}

consume-spent :
    (d : String) (t : TokenState) (now : ℕ) (s : AuthState)
    → is_void (get d (consume d t now s).tokens) ≡ true
unfolding consume
consume-spent d t now s =
    rw (get-put d d (record t { consumed_at = some now }) s.tokens, ==_refl d) refl

verify-spent :
    (d : String) (now : ℕ) (s : AuthState) (u : UserRecord)
    → (consume_email_verification d now s).0 ≡ some u
    → is_void (get d (consume_email_verification d now s).1.tokens) ≡ true
unfolding consume_email_verification
verify-spent d now s u = elim (Option-cases (active_token d email_verification now s)) [
  | inl e ↦ rw (e, consume_email_verification) (λ done. absurd cc)
  | inr (t, e) ↦
      elim (Option-cases (when_user (λ u. is_pending u.status) (get t.user_id s.users))) [
        | inl f ↦ rw (e, f, consume_email_verification) (λ done. absurd cc)
        | inr (u', f) ↦ rw (e, f, consume_email_verification) (λ done. consume-spent d t now s)
      ]
]

reset-spent :
    (d hash : String) (now : ℕ) (s : AuthState) (u : UserRecord)
    → (consume_password_reset d hash now s).0 ≡ some u
    → is_void (get d (consume_password_reset d hash now s).1.tokens) ≡ true
unfolding consume_password_reset revoke_all
reset-spent d hash now s u = elim (Option-cases (active_token d password_reset now s)) [
  | inl e ↦ rw (e, consume_password_reset) (λ done. absurd cc)
  | inr (t, e) ↦ elim (Option-cases (when_user (λ u. is_active u.status) (get t.user_id s.users))) [
    | inl f ↦ rw (e, f, consume_password_reset) (λ done. absurd cc)
    | inr (u', f) ↦ rw (e, f, consume_password_reset) (λ done. consume-spent d t now s)
  ]
]

-- Neither way of using a token finds a void one, and the state stays as it is.
abbrev pub Refuses : String → ℕ → AuthState → Type 0
Refuses d later s =
    (consume_email_verification d later s ≡ (none, s))
    × ((hash : String) → consume_password_reset d hash later s ≡ (none, s))

module _ (d : String) (later : ℕ) (s : AuthState) (void : is_void (get d s.tokens) ≡ true) where
  refused : Refuses d later s
  unfolding consume_email_verification consume_password_reset
  refused = (
    rw (active_token-void d email_verification later s void, consume_email_verification) refl,
    λ hash. rw (active_token-void d password_reset later s void, consume_password_reset) refl,
  )

-- A token that verified an e-mail address, after any further calls that issue no token under its
-- digest, is refused for every use at any time, and a refused use changes nothing.
pub consume_email_verification-once :
    (d : String) (now later : ℕ) (s : AuthState) (u : UserRecord) (calls : List Call)
    → (consume_email_verification d now s).0 ≡ some u
    → NeverIssues d calls
    → Refuses d later (run calls (consume_email_verification d now s).1)
consume_email_verification-once d now later s u calls done new =
    let s' = (consume_email_verification d now s).1 in
    refused d later (run calls s') (run-void d calls s' new (verify-spent d now s u done))

-- A token that reset a password, after any further calls that issue no token under its digest, is
-- refused for every use at any time, and a refused use changes nothing.
pub consume_password_reset-once :
    (d hash : String) (now later : ℕ) (s : AuthState) (u : UserRecord) (calls : List Call)
    → (consume_password_reset d hash now s).0 ≡ some u
    → NeverIssues d calls
    → Refuses d later (run calls (consume_password_reset d hash now s).1)
consume_password_reset-once d hash now later s u calls done new =
    let s' = (consume_password_reset d hash now s).1 in
    refused d later (run calls s') (run-void d calls s' new (reset-spent d hash now s u done))

same_purpose_refl : (purpose : TokenPurpose) → same_purpose purpose purpose ≡ true
same_purpose_refl email_verification = refl
same_purpose_refl password_reset = refl

invalidate-spent :
    (user_id : String) (purpose : TokenPurpose) (now : ℕ) (t : TokenState)
    → t.user_id ≡ user_id
    → same_purpose t.purpose purpose ≡ true
    → is_void (some (invalidate user_id purpose now t)) ≡ true
unfolding invalidate
invalidate-spent user_id purpose now t mine same =
    ground (arith, string_eq.agrees_iff t.user_id user_id)

-- Issuing a token to a user for a purpose retires each token the user had for that purpose under
-- another digest: after any further calls that issue no token under the old digest, it is refused
-- for every use at any time.
pub replace_token-retires :
    (d user_id : String) (purpose : TokenPurpose) (digest : String) (now expires_at later : ℕ)
    (s : AuthState) (t : TokenState) (calls : List Call)
    → get d s.tokens ≡ some t
    → t.user_id ≡ user_id
    → t.purpose ≡ purpose
    → (digest == d) ≡ false
    → NeverIssues d calls
    → Refuses d later (run calls (replace_token user_id purpose digest now expires_at s))
replace_token-retires d user_id purpose digest now expires_at later s t calls found mine same other
      new =
    let s' = replace_token user_id purpose digest now expires_at s in
    let void : is_void (get d s'.tokens) ≡ true =
      rw (get-replace_token d user_id purpose digest now expires_at s other, found)
        (invalidate-spent user_id purpose now t mine (rw same (same_purpose_refl purpose))) in
    refused d later (run calls s') (run-void d calls s' new void)
