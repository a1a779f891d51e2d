-- ===== src/Trial/Manager.antt =====
-- `TrialTokenCodec.digest` and `TrialIdentityManager` of app/trial/identity.py with
-- `normalize_ip_address` and `hmac_ip_digest` of app/security/network.py. Durations are natural
-- numbers of microseconds, so a negative one is not represented. The clock's readings, the token
-- that `secrets` draws, the identifier that `uuid4` draws and the captcha service's answer are
-- arguments of a call.
pub mod Accounts
pub mod Limits
mod Tests
use weiquan_agent.Prelude.{
  ℕ, ◌+◌, String, Bool, true, false, not, ◌&&◌, ◌||◌, Option, none, some, List, [], ◌∷◌, ltb, leb,
  if◌then◌else◌, string_eq, ◌==◌, Result, ok, err, attempt, DateTime, aware, utc, ◌>>=◌, ◌>>◌,
  require, or_raise,
}
use weiquan_agent.Trial.Identity.{
  Error, naive_time, invalid_ip, captcha_failed, privacy_required, invalid_settings, Identity,
  Store, CreateRequest, ActivateRequest, get_by_token_digest, create, activate_ip_grant,
}

-- What `ipaddress.ip_address` returns, by its compressed text; an IPv6 address may map an IPv4 one.
pub data Address : Type 0 where
  v4 : String → Address
  v6 : String → Option String → Address

-- Python's `str.strip`, `ipaddress.ip_address` (none is its ValueError) and the two keyed digests
-- by `hmac` and `hashlib`, with their secrets.
pub record Platform : Type 0 where
  pub strip : String → String
  pub ip_address : String → Option Address
  pub hmac_token : String → String
  pub hmac_ip : String → String

pub record Manager : Type 0 where
  pub policy_version : String
  pub ip_secret_bytes : ℕ
  pub identity_ttl : ℕ
  pub ip_grant_ttl : ℕ
  pub pending_ip_grant_ttl : ℕ
  pub max_identities_per_ip : ℕ

pub data CaptchaAnswer : Type 0 where
  -- verified, refused, and a CaptchaVerificationError
  passed failed broken : CaptchaAnswer

pub record StartRequest : Type 0 where
  pub existing_token : Option String
  pub privacy_version : String
  pub privacy_accepted : Bool
  pub client_ip : String

-- What the surroundings supply to one call of `start`.
pub record Draw : Type 0 where
  pub first_clock : DateTime
  pub second_clock : DateTime
  pub captcha : CaptchaAnswer
  pub token : String
  pub uuid : String

pub record StartResult : Type 0 where
  pub identity : Identity
  pub cookie_value : Option String
  pub created : Bool

module _ (p : Platform) where
  unfoldable pub digest : String → String
  digest token =
      let normalized = p.strip token in if normalized == "" then "" else p.hmac_token normalized

  abbrev text_of : Address → String
  text_of (v4 text) = text
  text_of (v6 text (some mapped)) = mapped
  text_of (v6 text none) = text

  unfoldable pub normalize_ip_address : String → Result Error String
  normalize_ip_address value =
      or_raise (p.ip_address (p.strip value)) invalid_ip >>= λ address. ok (text_of address)

  unfoldable pub hmac_ip_digest : ℕ → String → Result Error String
  hmac_ip_digest secret_bytes ip = do
    require (leb 32 secret_bytes) invalid_settings
    normalized ← normalize_ip_address ip
    ok (p.hmac_ip normalized)

  -- `__init__`
  unfoldable pub make_manager : Manager → Result Error Manager
  make_manager m = do
    require (not (p.strip m.policy_version == "")) invalid_settings
    require (ltb 0 m.identity_ttl) invalid_settings
    require (ltb 0 m.ip_grant_ttl) invalid_settings
    require (ltb 0 m.pending_ip_grant_ttl && leb m.pending_ip_grant_ttl m.ip_grant_ttl)
        invalid_settings
    require (leb 1 m.max_identities_per_ip) invalid_settings
    ok (record m { policy_version = p.strip m.policy_version })

  unfoldable pub authenticate : Option String → DateTime → Store → Result Error (Option Identity)
  authenticate none clock s = ok none
  authenticate (some token) clock s =
      if digest token == ""
      then ok none
      else utc naive_time clock >>= λ current. get_by_token_digest (digest token) (aware current) s

  abbrev pub is_passed : CaptchaAnswer → Bool
  is_passed passed = true
  is_passed failed = false
  is_passed broken = false

  -- The checks before an identity is created, and the address.
  unfoldable pub admit : Manager → StartRequest → CaptchaAnswer → Result Error String
  admit m q captcha = do
    ip ← normalize_ip_address q.client_ip
    require (is_passed captcha) captcha_failed
    require (q.privacy_accepted && p.strip q.privacy_version == m.policy_version) privacy_required
    ok ip

  abbrev pub create_request : Manager → String → String → ℕ → CreateRequest
  create_request m token_digest ip_digest current = record {
    token_digest = token_digest;
    ip_digest = ip_digest;
    policy_version = m.policy_version;
    now = aware current;
    expires_at = aware (current + m.identity_ttl);
    max_ip_grants = m.max_identities_per_ip;
    ip_grant_expires_at = aware (current + m.pending_ip_grant_ttl);
  }

  abbrev pub with_cookie : String → Result Error Identity × Store → Result Error StartResult × Store
  with_cookie token (ok i, s) =
      (ok (record { identity = i; cookie_value = some token; created = true }), s)
  with_cookie token (err e, s) = (err e, s)

  -- `start` for a client without a valid token.
  unfoldable pub start_new :
      Manager → StartRequest → Draw → Store → Result Error StartResult × Store
  start_new m q w s = attempt (admit m q w.captcha) s λ ip.
      attempt (utc naive_time w.second_clock) s λ current.
        attempt (hmac_ip_digest m.ip_secret_bytes ip) s λ ip_digest.
          with_cookie w.token
            (create w.uuid (create_request m (digest w.token) ip_digest current) s)

  abbrev pub start_unless :
      Option Identity → Manager → StartRequest → Draw → Store → Result Error StartResult × Store
  start_unless (some i) m q w s =
      (ok (record { identity = i; cookie_value = none; created = false }), s)
  start_unless none m q w s = start_new m q w s

  unfoldable pub start : Manager → StartRequest → Draw → Store → Result Error StartResult × Store
  start m q w s =
      attempt (authenticate q.existing_token w.first_clock s) s
        λ existing. start_unless existing m q w s

unfoldable pub activate_for_consult :
    Manager → Identity → DateTime → Store → Result Error (Unit {0}) × Store
activate_for_consult m i clock s = attempt (utc naive_time clock) s λ current.
    activate_ip_grant
      (record {
        identity_id = i.id;
        ip_digest = i.ip_digest;
        now = aware current;
        max_ip_grants = m.max_identities_per_ip;
        pending_ip_grant_ttl = m.pending_ip_grant_ttl;
        ip_grant_expires_at = aware (current + m.ip_grant_ttl);
      })
      s
