-- ===== src/Auth/Store.antt =====
-- The methods of `InMemoryAuthStore`, app/auth/store.py. Every method holds the store's lock, so a
-- method is one step of the state. The identifier that `uuid4` draws is an argument.
use weiquan_agent.Prelude.{
  ℕ, ◌+◌, min, String, Bool, true, false, ◌&&◌, Option, none, some, List, [], ◌∷◌, ltb, leb, any,
  count, keep, if◌then◌else◌, string_eq, number_eq, pair_eq, ◌==◌, Result, ok, attempt, ◌>>=◌, ◌>>◌,
  require, or_raise,
}
use weiquan_agent.Dict.{Dict, get, put, remove, values, map_values}
use weiquan_agent.Auth.{
  Error, invalid_capacity, key_error, pending_verification, active, disabled, deleted, UserRole,
  user, PrivacyContext, registration, consultation, UserRecord, AuthSessionRecord,
  RegistrationDecision, created, duplicate, capacity_full, Acceptance, AuthState, is_none,
  is_pending, is_deleted,
}

-- `__init__`
unfoldable pub make_store : ℕ → Result Error AuthState
make_store capacity_limit = do
  require (leb 1 capacity_limit) invalid_capacity
  ok (record {
    capacity_limit = capacity_limit;
    users = [];
    email_index = [];
    tokens = [];
    sessions = [];
    privacy = [];
    rates = [];
  })

-- _effective_capacity_limit
unfoldable pub effective_capacity_limit : ℕ → Option ℕ → Result Error ℕ
effective_capacity_limit limit none = do require (leb 1 limit) invalid_capacity; ok limit
effective_capacity_limit limit (some override) = do
  require (leb 1 limit) invalid_capacity
  require (leb 1 override) invalid_capacity
  ok (min limit override)

-- user.created_at <= now - pending_ttl
unfoldable pub is_overdue : ℕ → ℕ → UserRecord → Bool
is_overdue now pending_ttl u = is_pending u.status && leb (u.created_at + pending_ttl) now

abbrev pub expired_user : ℕ → UserRecord → UserRecord
expired_user now u = record u {
  email = "";
  password_hash = "";
  status = deleted;
  updated_at = now;
  deleted_at = some now;
}

unfoldable pub expire_user : ℕ → ℕ → UserRecord → UserRecord
expire_user now pending_ttl u = if is_overdue now pending_ttl u then expired_user now u else u

unfoldable pub forget_emails : List UserRecord → Dict String String → Dict String String
forget_emails [] index = index
forget_emails (u ∷ us) index = forget_emails us (remove u.email index)

-- _expire_pending
unfoldable pub expire_pending : ℕ → ℕ → AuthState → AuthState
expire_pending now pending_ttl s = record s {
  users = map_values (expire_user now pending_ttl) s.users;
  email_index = forget_emails (keep (is_overdue now pending_ttl) (values s.users)) s.email_index;
}

abbrev pub holds_place : ℕ → ℕ → UserRecord → Bool
holds_place now pending_ttl u = elim u.status [
  | active ↦ true
  | disabled ↦ true
  | pending_verification ↦ ltb now (u.created_at + pending_ttl)
  | deleted ↦ false
]

unfoldable pub capacity_used : ℕ → ℕ → AuthState → ℕ
capacity_used now pending_ttl s = count (holds_place now pending_ttl) (values s.users)

abbrev pub same_context : PrivacyContext → PrivacyContext → Bool
same_context registration registration = true
same_context consultation consultation = true
same_context _ _ = false

abbrev pub same_acceptance : Acceptance → Acceptance → Bool
same_acceptance a b =
    a.user_id == b.user_id
    && (same_context a.context b.context && a.policy_version == b.policy_version)

-- set.add
unfoldable pub accept : Acceptance → List Acceptance → List Acceptance
accept a accepted = if any (same_acceptance a) accepted then accepted else a ∷ accepted

unfoldable pub add_user : UserRecord → String → AuthState → AuthState
add_user u policy_version s = record s {
  users = put u.id u s.users;
  email_index = put u.email u.id s.email_index;
  privacy =
      accept (record { user_id = u.id; context = registration; policy_version = policy_version })
        s.privacy;
}

-- The part of both registrations behind the expiry of pending users.
unfoldable pub admit_user :
    ℕ → UserRecord → String → ℕ → ℕ → AuthState → Result Error RegistrationDecision × AuthState
admit_user limit u policy_version now pending_ttl s = elim (get u.email s.email_index) [
  | some existing_id ↦
      (or_raise (get existing_id s.users) key_error >>= λ existing. ok (duplicate existing), s)
  | none ↦
      if leb limit (capacity_used now pending_ttl s)
      then (ok capacity_full, s)
      else (ok (created u), add_user u policy_version s)
]

pub record Account : Type 0 where
  pub email : String
  pub password_hash : String
  pub policy_version : String

abbrev pub pending_user : String → Account → ℕ → UserRecord
pending_user new_id a now = record {
  id = new_id;
  email = a.email;
  password_hash = a.password_hash;
  status = pending_verification;
  role = user;
  created_at = now;
  updated_at = now;
  verified_at = none;
  disabled_at = none;
  deleted_at = none;
}

unfoldable pub register_pending :
    String → Account → ℕ → ℕ → Option ℕ → AuthState → Result Error RegistrationDecision × AuthState
register_pending new_id a now pending_ttl capacity_limit s =
    attempt (effective_capacity_limit s.capacity_limit capacity_limit) s λ limit.
      admit_user limit (pending_user new_id a now) a.policy_version now pending_ttl
        (expire_pending now pending_ttl s)

unfoldable pub create_verified_user :
    String → Account → UserRole → ℕ → ℕ → AuthState → Result Error RegistrationDecision × AuthState
create_verified_user new_id a role now pending_ttl s =
    admit_user s.capacity_limit
      (record (pending_user new_id a now) { status = active; role = role; verified_at = some now })
      a.policy_version now pending_ttl (expire_pending now pending_ttl s)

unfoldable pub get_user_by_email : String → AuthState → Option UserRecord
get_user_by_email email s = elim (get email s.email_index) [
  | none ↦ none
  | some user_id ↦ if user_id == "" then none else get user_id s.users
]

abbrev pub unless_deleted : Option UserRecord → Option UserRecord
unless_deleted none = none
unless_deleted (some u) = if is_deleted u.status then none else some u

unfoldable pub get_user_by_id : String → AuthState → Option UserRecord
get_user_by_id user_id s = unless_deleted (get user_id s.users)

abbrev pub is_open : String → AuthSessionRecord → Bool
is_open user_id session = session.user_id == user_id && is_none session.revoked_at

unfoldable pub revoke : String → ℕ → AuthSessionRecord → AuthSessionRecord
revoke user_id now session =
    if is_open user_id session then record session { revoked_at = some now } else session

-- _revoke_user_sessions
unfoldable pub revoke_all : String → ℕ → AuthState → AuthState
revoke_all user_id now s = record s { sessions = map_values (revoke user_id now) s.sessions }

unfoldable pub disable_user : String → ℕ → AuthState → Option UserRecord × AuthState
disable_user user_id now s = elim (get_user_by_id user_id s) [
  | none ↦ (none, s)
  | some u ↦
      let off : UserRecord = record u {
        status = disabled;
        disabled_at = some now;
        updated_at = now;
      } in
      (some off, revoke_all user_id now (record s { users = put user_id off s.users }))
]
