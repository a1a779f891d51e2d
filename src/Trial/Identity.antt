-- ===== src/Trial/Identity.antt =====
-- `InMemoryTrialIdentityStore` of app/trial/identity.py. Every method holds the store's lock, so a
-- method is one step of the state. The identifier that `uuid4` draws is an argument.
pub mod Limits
use Prim.Native.Char.{code}
use Prim.Native.String.{count as str_count}
use weiquan_agent.Prelude.{
  ℕ, ◌+◌, String, Bool, true, false, not, ◌&&◌, ◌||◌, Option, some, none, List, [], ◌∷◌, ◌++◌, ltb,
  leb, nat_eq, count, keep, length, if◌then◌else◌, string_eq, ◌==◌, Result, ok, err, attempt,
  DateTime, utc, ◌>>=◌, ◌>>◌, require,
}
use weiquan_agent.Dict.{Dict, get, put}

pub data Error : Type 0 where
  -- ValueError of `_utc`; of a grant that another address holds; pydantic's ValidationError
  naive_time grant_mismatch invalid_record : Error
  -- TrialIdentityLimitError
  identity_limit : Error
  -- raised by the manager
  invalid_ip captcha_failed privacy_required invalid_settings : Error

pub record Identity : Type 0 where
  pub id : String
  pub token_digest : String
  pub ip_digest : String
  pub policy_version : String
  pub created_at : ℕ
  pub expires_at : ℕ

abbrev is_hex : ℕ → Bool
is_hex c = (leb b'0' c && leb c b'9') || (leb b'a' c && leb c b'f')

abbrev all_hex : String → Bool
all_hex String.[] = true
all_hex (String.◌∷◌ c s) = is_hex (code c) && all_hex s

-- Field(pattern=r"^[0-9a-f]{64}$")
unfoldable pub is_digest : String → Bool
is_digest s = nat_eq (str_count s) 64 && all_hex s

unfoldable pub make_identity : Identity → Result Error Identity
make_identity i =
    if nat_eq (str_count i.id) 36
      && (is_digest i.token_digest
          && (is_digest i.ip_digest
              && (leb 1 (str_count i.policy_version) && leb (str_count i.policy_version) 100)))
    then ok i
    else err invalid_record

pub record Grant : Type 0 where
  pub identity_id : String
  pub ip_digest : String
  pub created_at : ℕ
  pub expires_at : ℕ

pub record Store : Type 0 where
  pub identities : Dict String Identity
  pub ip_grants : List Grant

abbrev pub empty : Store
empty = record { identities = []; ip_grants = [] }

unfoldable pub identity_count : Store → ℕ
identity_count s = length s.identities

abbrev pub unexpired : ℕ → Option Identity → Option Identity
unexpired current none = none
unexpired current (some i) = if leb i.expires_at current then none else some i

unfoldable pub get_by_token_digest : String → DateTime → Store → Result Error (Option Identity)
get_by_token_digest token_digest now s = do
  current ← utc naive_time now
  ok (unexpired current (get token_digest s.identities))

-- [grant for grant in self._ip_grants if grant[3] > current]
unfoldable pub live_grants : ℕ → List Grant → List Grant
live_grants current grants = keep (λ g. ltb current g.expires_at) grants

-- sum(grant_ip == ip_digest for ...)
unfoldable pub grant_count : String → List Grant → ℕ
grant_count ip grants = count (λ g. g.ip_digest == ip) grants

pub record CreateRequest : Type 0 where
  pub token_digest : String
  pub ip_digest : String
  pub policy_version : String
  pub now : DateTime
  pub expires_at : DateTime
  pub max_ip_grants : ℕ
  pub ip_grant_expires_at : DateTime

-- The identity is stored before the expiry of its grant is read, so a naive expiry leaves the
-- identity without a grant.
unfoldable pub store_identity : DateTime → Identity → Store → Result Error Identity × Store
store_identity grant_expiry identity s =
    let stored : Store = record s {
      identities = put identity.token_digest identity s.identities;
    } in
    attempt (utc naive_time grant_expiry) stored λ expires_at. (
      ok identity,
      record stored {
        ip_grants =
            stored.ip_grants
            ++ record {
              identity_id = identity.id;
              ip_digest = identity.ip_digest;
              created_at = identity.created_at;
              expires_at = expires_at;
            }
              ∷ [];
      },
    )

abbrev pub new_identity : String → CreateRequest → ℕ → ℕ → Identity
new_identity new_id q current expires_at = record {
  id = new_id;
  token_digest = q.token_digest;
  ip_digest = q.ip_digest;
  policy_version = q.policy_version;
  created_at = current;
  expires_at = expires_at;
}

-- The part of `create` behind the two lookups.
unfoldable pub create_new : String → CreateRequest → ℕ → Store → Result Error Identity × Store
create_new new_id q current s = attempt (utc naive_time q.expires_at) s λ expires_at.
    attempt (make_identity (new_identity new_id q current expires_at)) s
      λ identity. store_identity q.ip_grant_expires_at identity s

unfoldable pub create_unless :
    Option Identity → String → CreateRequest → ℕ → Store → Result Error Identity × Store
create_unless (some existing) new_id q current s = (ok existing, s)
create_unless none new_id q current s = create_new new_id q current s

-- Expired grants are dropped first, also when the call then raises.
unfoldable pub create_at : String → CreateRequest → ℕ → Store → Result Error Identity × Store
create_at new_id q current s =
    if leb q.max_ip_grants (grant_count q.ip_digest s.ip_grants)
    then (err identity_limit, s)
    else create_unless (get q.token_digest s.identities) new_id q current s

unfoldable pub create : String → CreateRequest → Store → Result Error Identity × Store
create new_id q s =
    attempt (utc naive_time q.now) s λ current.
      create_at new_id q current (record s { ip_grants = live_grants current s.ip_grants })

unfoldable pub active_ip_grant_count : String → DateTime → Store → Result Error ℕ
active_ip_grant_count ip now s = do
  current ← utc naive_time now
  ok (count (λ g. g.ip_digest == ip && ltb current g.expires_at) s.ip_grants)

pub record ActivateRequest : Type 0 where
  pub identity_id : String
  pub ip_digest : String
  pub now : DateTime
  pub max_ip_grants : ℕ
  pub pending_ip_grant_ttl : ℕ
  pub ip_grant_expires_at : DateTime

-- What the loop over the grants comes to.
pub data Search : Type 0 where
  no_grant : Search
  other_address : Search
  already_active : Search
  -- the grants with the one that was found extended
  extended : List Grant → Search

abbrev behind : Grant → Search → Search
behind g (extended grants) = extended (g ∷ grants)
behind g other = other

unfoldable pub search_grants : ActivateRequest → ℕ → List Grant → Search
search_grants q target [] = no_grant
search_grants q target (g ∷ grants) =
    let rest = search_grants q target grants in
    if g.identity_id == q.identity_id
    then (if g.ip_digest == q.ip_digest
        then (if ltb (g.created_at + q.pending_ip_grant_ttl) g.expires_at
            then already_active
            else extended (record g { expires_at = target } ∷ grants))
        else other_address)
    else behind g rest

unfoldable pub activate_by :
    Search → ActivateRequest → ℕ → ℕ → Store → Result Error (Unit {0}) × Store
activate_by other_address q current target s = (err grant_mismatch, s)
activate_by already_active q current target s = (ok tt, s)
activate_by (extended grants) q current target s = (ok tt, record s { ip_grants = grants })
activate_by no_grant q current target s =
    if leb q.max_ip_grants (grant_count q.ip_digest s.ip_grants) then (err identity_limit, s) else (
      ok tt,
      record s {
        ip_grants =
            s.ip_grants
            ++ record {
              identity_id = q.identity_id;
              ip_digest = q.ip_digest;
              created_at = current;
              expires_at = target;
            }
              ∷ [];
      },
    )

unfoldable pub activate_ip_grant : ActivateRequest → Store → Result Error (Unit {0}) × Store
activate_ip_grant q s = attempt (utc naive_time q.now) s λ current.
    attempt (utc naive_time q.ip_grant_expires_at) s λ target.
      let live : Store = record s { ip_grants = live_grants current s.ip_grants } in
      activate_by (search_grants q target live.ip_grants) q current target live
