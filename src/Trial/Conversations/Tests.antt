-- ===== src/Trial/Conversations/Tests.antt =====
-- One conversation of app/trial/conversations.py with a commit, and what two clients see of it.
use Prim.Native.String.{count as str_count}
use weiquan_agent.Prelude.{
  ℕ, String, false, Option, none, some, List, [], ◌∷◌, leb, if◌then◌else◌, ◌==◌, string_eq, ok, err,
  DateTime, aware, ◌≡◌, ◌≢◌, refl, arith,
}
use weiquan_agent.Dict.{get, put, remove, relocate, move_to_end}
use weiquan_agent.Trial.Conversations.{
  Platform, Settings, CreateRequest, ConsultationCommitCommand, Conversation, Conversations,
  SessionRecord, TurnRecord, collecting, ready, not_found, conflict, make_session, make_turn, fits,
  push, to_utc,
}
use weiquan_agent.Trial.Conversations.Sessions.{
  parse_uuid, to_uuid, owned, purge_expired, evict, insert_session, create_session, require_session,
  list_turns,
}
use weiquan_agent.Trial.Conversations.Commit.{
  recheck_commit, has_turn, write_turn, add_turn, commit, persist_session_turn, updated_session,
}
use weiquan_agent.Trial.Conversations.Limits.{IsSmall}
use weiquan_agent.Trial.Conversations.Runs.{Call, create, look_up, list, persist, run, run-IsSmall}
use weiquan_agent.Trial.Conversations.AfterCommit.{
  list_turns-persist_session_turn, persist_session_turn-stale, outcome,
}
use weiquan_agent.Trial.Conversations.Outcome.{Committed}
use weiquan_agent.Trial.Conversations.Ownership.{not_found-foreign}

abbrev alice : String
alice = "00000000-0000-4000-8000-00000000000a"

abbrev bob : String
bob = "00000000-0000-4000-8000-00000000000b"

abbrev case_one : String
case_one = "00000000-0000-4000-8000-000000000001"

abbrev turn_one : String
turn_one = "00000000-0000-4000-8000-000000000011"

abbrev turn_two : String
turn_two = "00000000-0000-4000-8000-000000000012"

-- JSON objects are texts here, and an answer repeats another when a unit of it is that text.
abbrev python : Platform String
python = record {
  uuid = λ s. if leb 36 (str_count s) then some s else none;
  strip = λ s. s;
  comparison_is_equivalent =
      λ units response. elim units [ [] ↦ false | unit ∷ rest ↦ unit == response ];
}

abbrev small : Settings
small = record { ttl = 3600; capacity = 2; max_turns = 2 }

abbrev request : CreateRequest String
request = record {
  owner_id = alice;
  scenario_id = none;
  facts = "{}";
  jurisdiction = none;
  now = none;
  session_id = some case_one;
}

abbrev opened : Conversations String ℕ
opened =
    (
      case_one,
      record {
        session = record {
          id = case_one;
          owner_id = alice;
          scenario_id = none;
          facts = "{}";
          followup_round = 0;
          status = collecting;
          jurisdiction = none;
          created_at = 100;
          updated_at = 100;
          expires_at = 3700;
        };
        turns = [];
      },
    )
    ∷ []

opens : create_session python small "" (aware 100) request [] ≡ (
  ok (
      (record {
        id = case_one;
        owner_id = alice;
        scenario_id = none;
        facts = "{}";
        followup_round = 0;
        status = collecting;
        jurisdiction = none;
        created_at = 100;
        updated_at = 100;
        expires_at = 3700;
      })),
  opened,
)
unfolding create_session parse_uuid to_uuid make_session fits insert_session purge_expired evict get
    put to_utc
opens = refl

abbrev answer : String → Option String → Option DateTime → ConsultationCommitCommand String ℕ
answer turn_id expected at = record {
  owner_id = alice;
  session_id = case_one;
  session = record {
    scenario_id = none;
    facts = "{}";
    followup_round = 0;
    status = ready;
    jurisdiction = none;
  };
  turn = record {
    turn_id = turn_id;
    user_message = "my deposit is kept";
    facts = "{}";
    rule_matches = [];
    response = "ask for it in writing";
    provider_name = none;
    provider_model = none;
    provider_request_id = none;
    usage = 7;
  };
  has_attachment_binding = false;
  occurred_at = at;
  expected_latest_turn_id = expected;
  comparison_units = [];
}

abbrev first_turn : TurnRecord String ℕ
first_turn = record {
  id = turn_one;
  owner_id = alice;
  session_id = case_one;
  user_message = "my deposit is kept";
  facts = "{}";
  rule_matches = [];
  response = "ask for it in writing";
  provider_name = none;
  provider_model = none;
  provider_request_id = none;
  usage = 7;
  created_at = 200;
}

abbrev after_first : Conversations String ℕ
after_first =
    (
      case_one,
      record {
        session = record {
          id = case_one;
          owner_id = alice;
          scenario_id = none;
          facts = "{}";
          followup_round = 0;
          status = ready;
          jurisdiction = none;
          created_at = 100;
          updated_at = 200;
          expires_at = 3800;
        };
        turns = first_turn ∷ [];
      },
    )
    ∷ []

commits :
    persist_session_turn python small (aware 200) (answer turn_one none none) opened
    ≡ (ok first_turn, after_first)
unfolding persist_session_turn parse_uuid to_utc purge_expired commit owned get add_turn
    recheck_commit has_turn write_turn make_session make_turn fits put move_to_end relocate remove
    push
commits = refl

abbrev q1 : ConsultationCommitCommand String ℕ
q1 = answer turn_one none none

abbrev found : Committed python small (aware 200) q1 opened after_first first_turn
found = outcome python small (aware 200) q1 opened after_first first_turn commits 300 (omega arith)

list_turns-persist_session_turn_example :
    ((require_session {Usage = ℕ} python case_one alice (aware 300) none after_first).0
      ≡ ok (updated_session small q1 found.id found.owner 200 found.before.session))
    × ((list_turns python case_one alice (aware 300) after_first).0
        ≡ ok (push 2 found.before.turns first_turn))
unfolding to_utc
list_turns-persist_session_turn_example =
    list_turns-persist_session_turn python small (aware 200) q1 opened after_first first_turn
      commits 300 (omega arith)

differs : turn_one ≢ turn_two
differs same = absurd (ground (arith, string_eq.agrees_iff turn_one turn_two))

parsed_turn : parse_uuid python turn_two ≡ ok turn_two
unfolding parse_uuid
parsed_turn = refl

persist_session_turn-stale_example :
    persist_session_turn python small
      (aware 200)
      (answer turn_two (some turn_two) (some (aware 300)))
      after_first
    ≡ (err conflict, purge_expired 300 after_first)
persist_session_turn-stale_example =
    persist_session_turn-stale python small (aware 200) q1 opened after_first first_turn commits 300
      (omega arith) (omega arith) (answer turn_two (some turn_two) (some (aware 300))) turn_two
      turn_two turn_two refl refl refl parsed_turn refl parsed_turn differs refl

parsed_case : parse_uuid python case_one ≡ ok case_one
unfolding parse_uuid
parsed_case = refl

parsed_bob : parse_uuid python bob ≡ ok bob
unfolding parse_uuid
parsed_bob = refl

abbrev intrusion : ConsultationCommitCommand String ℕ
intrusion = record (answer turn_two none none) { owner_id = bob }

not_bobs :
    (w : Conversation String ℕ)
    → get case_one (purge_expired 300 after_first) ≡ some w
    → w.session.owner_id ≢ bob
unfolding get purge_expired
not_bobs w h same = absurd (ground (arith, string_eq.agrees_iff alice bob, h, same))

not_found-foreign_example :
    (require_session python case_one bob (aware 300) none after_first
      ≡ (err not_found, purge_expired 300 after_first))
    × (list_turns python case_one bob (aware 300) after_first
        ≡ (err not_found, purge_expired 300 after_first))
    × (persist_session_turn python small (aware 300) intrusion after_first
        ≡ (err not_found, purge_expired 300 after_first))
not_found-foreign_example =
    not_found-foreign python small case_one bob case_one bob turn_two 300 intrusion after_first
      parsed_case parsed_bob not_bobs refl refl refl parsed_turn refl

abbrev alices : SessionRecord String
alices = record {
  id = case_one;
  owner_id = alice;
  scenario_id = none;
  facts = "{}";
  followup_round = 0;
  status = ready;
  jurisdiction = none;
  created_at = 100;
  updated_at = 200;
  expires_at = 3800;
}

alice_reads :
    require_session python case_one alice (aware 300) none after_first ≡ (ok alices, after_first)
unfolding require_session parse_uuid to_utc purge_expired owned get
alice_reads = refl

abbrev calls : List (Call String ℕ)
calls =
    create "" (aware 100) request
    ∷ persist (aware 200) q1
    ∷ look_up case_one bob (aware 300) none
    ∷ list case_one alice (aware 400)
    ∷ []

nothing : IsSmall {Json = String} {Usage = ℕ} small []
nothing = record { sessions = omega arith; turns = tt }

run-IsSmall_example : IsSmall small (run python small calls [])
run-IsSmall_example = run-IsSmall python small calls [] (omega arith) nothing
