-- ===== src/Trial/Conversations.antt =====
-- `InMemoryTrialConversationStore` of app/trial/conversations.py with the session and turn records
-- of app/db/models.py and the commands of app/db/contracts.py. Every method holds the store's lock,
-- so a method is one step of the ordered dict. JSON objects and the usage record are types the
-- model carries and does not look into.
pub mod Sessions
pub mod Commit
pub mod Limits
pub mod Runs
pub mod Outcome
pub mod AfterCommit
pub mod Ownership
mod Tests
use Prim.Native.String.{count as str_count}
use weiquan_agent.Prelude.{
  ℕ, suc, ◌+◌, ◌*◌, String, Bool, true, false, not, ◌&&◌, ◌||◌, Option, some, none, List, [], ◌∷◌,
  ◌++◌, ltb, leb, nat_eq, any, keep, length, if◌then◌else◌, string_eq, ◌==◌, Result, ok, err,
  attempt, DateTime, aware, naive, ◌>>=◌, ◌>>◌, require, or_raise,
}
use weiquan_agent.Dict.{Dict, get, put, move_to_end}

pub data Error : Type 0 where
  -- ValueError of the constructor; of an attachment binding; of `_uuid`; pydantic's ValidationError
  invalid_settings attachments_unsupported invalid_uuid invalid_record : Error
  -- SessionNotFoundError, ConsultationConflictError, CaseNoProgressError
  not_found conflict no_progress : Error

pub data SessionStatus : Type 0 where
  collecting need_more_facts ready escalate error : SessionStatus

pub record SessionRecord (Json : Type 0) : Type 0 where
  pub id : String
  pub owner_id : String
  pub scenario_id : Option String
  pub facts : Json
  pub followup_round : ℕ
  pub status : SessionStatus
  pub jurisdiction : Option String
  pub created_at : ℕ
  pub updated_at : ℕ
  pub expires_at : ℕ

pub record TurnRecord (Json Usage : Type 0) : Type 0 where
  pub id : String
  pub owner_id : String
  pub session_id : String
  pub user_message : String
  pub facts : Json
  pub rule_matches : List Json
  pub response : Json
  pub provider_name : Option String
  pub provider_model : Option String
  pub provider_request_id : Option String
  pub usage : Usage
  pub created_at : ℕ

pub record SessionUpdateCommand (Json : Type 0) : Type 0 where
  pub scenario_id : Option String
  pub facts : Json
  pub followup_round : ℕ
  pub status : SessionStatus
  pub jurisdiction : Option String

pub record TurnWriteCommand (Json Usage : Type 0) : Type 0 where
  pub turn_id : String
  pub user_message : String
  pub facts : Json
  pub rule_matches : List Json
  pub response : Json
  pub provider_name : Option String
  pub provider_model : Option String
  pub provider_request_id : Option String
  pub usage : Usage

-- Of an attachment binding the store asks only whether there is one.
pub record ConsultationCommitCommand (Json Usage : Type 0) : Type 0 where
  pub owner_id : String
  pub session_id : String
  pub session : SessionUpdateCommand Json
  pub turn : TurnWriteCommand Json Usage
  pub has_attachment_binding : Bool
  pub occurred_at : Option DateTime
  pub expected_latest_turn_id : Option String
  pub comparison_units : List String

-- The arguments of `create_session`; `facts` is what `dict(facts or {})` gives.
pub record CreateRequest (Json : Type 0) : Type 0 where
  pub owner_id : String
  pub scenario_id : Option String
  pub facts : Json
  pub jurisdiction : Option String
  pub now : Option DateTime
  pub session_id : Option String

pub record Conversation (Json Usage : Type 0) : Type 0 where
  pub session : SessionRecord Json
  pub turns : List (TurnRecord Json Usage)

abbrev pub Conversations : Type 0 → Type 0 → Type 0
Conversations Json Usage = Dict String (Conversation Json Usage)

-- What the store calls outside itself: Python's `str(UUID(s))`, with none for its ValueError, and
-- `str.strip`; and `comparison_is_equivalent` of app/agent/progression.py.
pub record Platform (Json : Type 0) : Type 0 where
  pub uuid : String → Option String
  pub strip : String → String
  pub comparison_is_equivalent : List String → Json → Bool

pub record Settings : Type 0 where
  pub ttl : ℕ
  pub capacity : ℕ
  pub max_turns : ℕ

-- `__init__`, with the durations in microseconds
unfoldable pub make_settings : ℕ → ℕ → ℕ → Result Error Settings
make_settings ttl_seconds capacity max_turns = do
  require (ltb 0 ttl_seconds) invalid_settings
  require (ltb 0 capacity) invalid_settings
  require (ltb 0 max_turns) invalid_settings
  ok (record { ttl = ttl_seconds * 1000000; capacity = capacity; max_turns = max_turns })

-- `_utc`: a naive time is read as UTC, and no time as the clock.
unfoldable pub to_utc : DateTime → Option DateTime → ℕ
to_utc clock (some (aware t)) = t
to_utc clock (some (naive t)) = t
to_utc (aware t) none = t
to_utc (naive t) none = t

-- Field(max_length=n) of an optional text
unfoldable pub fits : ℕ → Option String → Bool
fits n none = true
fits n (some s) = leb (str_count s) n

abbrev pub last {ℓ} : {A : Type ℓ} → List A → Option A
last [] = none
last (x ∷ xs) = elim (last xs) [ none ↦ some x | some y ↦ some y ]

abbrev drop_first {ℓ} : {A : Type ℓ} → List A → List A
drop_first [] = []
drop_first (x ∷ xs) = xs

-- `append` on a deque of at most `max_turns` entries, which drops the first when it is full
unfoldable pub push {ℓ} : {A : Type ℓ} → ℕ → List A → A → List A
push max_turns xs x =
    let longer = xs ++ x ∷ [] in if leb (length longer) max_turns then longer else drop_first longer

module _ {Json : Type 0} where
  -- Field constraints of the two records
  unfoldable pub make_session : SessionRecord Json → Result Error (SessionRecord Json)
  make_session r =
      if nat_eq (str_count r.id) 36
        && (nat_eq (str_count r.owner_id) 36
            && (fits 100 r.scenario_id && (leb r.followup_round 2 && fits 100 r.jurisdiction)))
      then ok r
      else err invalid_record

module _ {Json Usage : Type 0} where
  unfoldable pub make_turn : TurnRecord Json Usage → Result Error (TurnRecord Json Usage)
  make_turn r =
      if nat_eq (str_count r.id) 36
        && (nat_eq (str_count r.owner_id) 36
            && (nat_eq (str_count r.session_id) 36
                && (leb 1 (str_count r.user_message)
                    && (fits 50 r.provider_name
                        && (fits 200 r.provider_model && fits 200 r.provider_request_id)))))
      then ok r
      else err invalid_record
