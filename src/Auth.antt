-- ===== src/Auth.antt =====
-- The records of app/auth/models.py and the state of `InMemoryAuthStore`, app/auth/store.py.
-- Instants and durations are in microseconds.
pub mod Store
pub mod Tokens
pub mod Sessions
pub mod Calls
pub mod Lookups
pub mod Capacity
pub mod Runs
pub mod Frames
pub mod Spent
pub mod Once
pub mod Closed
pub mod Revocation
pub mod Signout
mod Tests
use weiquan_agent.Prelude.{ℕ, String, Bool, true, false, Option, none, List, []}
use weiquan_agent.Dict.{Dict}

pub data Error : Type 0 where
  -- ValueError of a capacity below 1; KeyError of a missing user
  invalid_capacity key_error : Error

pub data UserStatus : Type 0 where
  pending_verification active disabled deleted : UserStatus

pub data UserRole : Type 0 where
  user admin : UserRole

pub data TokenPurpose : Type 0 where
  email_verification password_reset : TokenPurpose

pub data PrivacyContext : Type 0 where
  registration consultation : PrivacyContext

pub record UserRecord : Type 0 where
  pub id : String
  pub email : String
  pub password_hash : String
  pub status : UserStatus
  pub role : UserRole
  pub created_at : ℕ
  pub updated_at : ℕ
  pub verified_at : Option ℕ
  pub disabled_at : Option ℕ
  pub deleted_at : Option ℕ

pub record AuthSessionRecord : Type 0 where
  pub id : String
  pub user_id : String
  pub token_digest : String
  pub csrf_digest : Option String
  pub created_at : ℕ
  pub last_seen_at : ℕ
  pub expires_at : ℕ
  pub revoked_at : Option ℕ

pub record AuthContext : Type 0 where
  pub user : UserRecord
  pub session : AuthSessionRecord

pub data RegistrationDecision : Type 0 where
  created duplicate : UserRecord → RegistrationDecision
  capacity_full : RegistrationDecision

-- _TokenState
pub record TokenState : Type 0 where
  pub user_id : String
  pub purpose : TokenPurpose
  pub digest : String
  pub created_at : ℕ
  pub expires_at : ℕ
  pub consumed_at : Option ℕ
  pub invalidated_at : Option ℕ

pub record Acceptance : Type 0 where
  pub user_id : String
  pub context : PrivacyContext
  pub policy_version : String

pub record AuthState : Type 0 where
  pub capacity_limit : ℕ
  pub users : Dict String UserRecord
  pub email_index : Dict String String
  pub tokens : Dict String TokenState
  pub sessions : Dict String AuthSessionRecord
  -- a set
  pub privacy : List Acceptance
  -- by action, digest and start of the window
  pub rates : Dict (String × (String × ℕ)) ℕ

abbrev pub same_purpose : TokenPurpose → TokenPurpose → Bool
same_purpose email_verification email_verification = true
same_purpose password_reset password_reset = true
same_purpose _ _ = false

abbrev pub is_none {ℓ} : {A : Type ℓ} → Option A → Bool
is_none none = true
is_none _ = false

abbrev pub is_pending : UserStatus → Bool
is_pending pending_verification = true
is_pending _ = false

abbrev pub is_active : UserStatus → Bool
is_active active = true
is_active _ = false

abbrev pub is_deleted : UserStatus → Bool
is_deleted deleted = true
is_deleted _ = false
