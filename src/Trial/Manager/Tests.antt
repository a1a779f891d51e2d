-- ===== src/Trial/Manager/Tests.antt =====
-- One client of app/trial/identity.py that starts twice.
use weiquan_agent.Prelude.{
  String, true, false, none, some, List, [], ◌∷◌, if◌then◌else◌, ◌==◌, string_eq, ok, aware, ◌≡◌,
  refl, arith,
}
use weiquan_agent.Dict.{get, put}
use weiquan_agent.Trial.Identity.{
  Identity, Store, empty, is_digest, make_identity, live_grants, grant_count, store_identity,
  create_new, create_unless, create_at, create,
}
use weiquan_agent.Trial.Identity.Limits.{IsBounded}
use weiquan_agent.Trial.Manager.{
  Platform, v4, Manager, StartRequest, StartResult, Draw, passed, digest, normalize_ip_address,
  hmac_ip_digest, authenticate, admit, start_new, start,
}
use weiquan_agent.Trial.Manager.Limits.{Call, starting, consulting, run, run-IsBounded}
use weiquan_agent.Trial.Manager.Accounts.{authenticate-start}

abbrev token_mac : String
token_mac = "aaaaaaaaaaaaaaaabbbbbbbbbbbbbbbbccccccccccccccccdddddddddddddddd"

abbrev address_mac : String
address_mac = "0123456789abcdef0123456789abcdef0123456789abcdef0123456789abcdef"

-- A keyed digest is a fixed text here.
abbrev python : Platform
python = record {
  strip = λ s. s;
  ip_address = λ s. if s == "" then none else some (v4 s);
  hmac_token = λ s. token_mac;
  hmac_ip = λ s. address_mac;
}

abbrev trial : Manager
trial = record {
  policy_version = "2026-01";
  ip_secret_bytes = 32;
  identity_ttl = 1000;
  ip_grant_ttl = 100;
  pending_ip_grant_ttl = 10;
  max_identities_per_ip = 3;
}

abbrev first : StartRequest
first = record {
  existing_token = none;
  privacy_version = "2026-01";
  privacy_accepted = true;
  client_ip = "192.0.2.7";
}

abbrev surroundings : Draw
surroundings = record {
  first_clock = aware 5;
  second_clock = aware 6;
  captcha = passed;
  token = "cookie";
  uuid = "00000000-0000-4000-8000-000000000001";
}

abbrev client : Identity
client = record {
  id = "00000000-0000-4000-8000-000000000001";
  token_digest = token_mac;
  ip_digest = address_mac;
  policy_version = "2026-01";
  created_at = 6;
  expires_at = 1006;
}

abbrev known : Store
known = record {
  identities = (token_mac, client) ∷ [];
  ip_grants =
      record { identity_id = client.id; ip_digest = address_mac; created_at = 6; expires_at = 16 }
      ∷ [];
}

abbrev handed_out : StartResult
handed_out = record { identity = client; cookie_value = some "cookie"; created = true }

starts : start python trial first surroundings empty ≡ (ok handed_out, known)
unfolding start authenticate start_new admit normalize_ip_address hmac_ip_digest digest create
    live_grants create_at grant_count create_unless create_new make_identity is_digest
    store_identity get put
starts = refl

unseen : get (digest python "cookie") empty.identities ≡ none
unfolding get
unseen = refl

usable : (digest python "cookie" == "") ≡ false
unfolding digest
usable = refl

authenticate-start_example :
    (authenticate python (some "cookie") (aware 900) known ≡ ok (some client))
    × ((q' : StartRequest) (w' : Draw)
        → q'.existing_token ≡ some "cookie"
        → w'.first_clock ≡ aware 900
        → start python trial q' w' known
          ≡ (ok (record { identity = client; cookie_value = none; created = false }), known))
authenticate-start_example =
    authenticate-start python trial first surroundings empty known handed_out 6 900 starts refl refl
      unseen usable (omega arith)

nobody : IsBounded 3 empty
unfolding grant_count
nobody = record { bounded = λ ip. omega arith }

abbrev calls : List Call
calls = starting first surroundings ∷ consulting client (aware 7) ∷ starting first surroundings ∷ []

run-IsBounded_example : IsBounded 3 (run python trial calls empty)
run-IsBounded_example = run-IsBounded python trial calls empty nobody
