-- ===== src/Trial/Manager/Limits.antt =====
-- The grants of an address over every sequence of the manager's calls, app/trial/identity.py.
use weiquan_agent.Prelude.{
  ℕ, String, Option, none, some, List, [], ◌∷◌, Result, ok, err, attempt-keeps, DateTime, utc,
}
use weiquan_agent.Trial.Identity.{Error, naive_time, Identity, Store, create}
use weiquan_agent.Trial.Identity.Limits.{IsBounded, create-IsBounded, activate_ip_grant-IsBounded}
use weiquan_agent.Trial.Manager.{
  Platform, Manager, StartRequest, Draw, digest, hmac_ip_digest, authenticate, admit,
  create_request, with_cookie, start_new, start_unless, start, activate_for_consult,
}

-- A call that can change the store, with what its surroundings supply.
pub data Call : Type 0 where
  starting : StartRequest → Draw → Call
  consulting : Identity → DateTime → Call

-- The store after a call, whether it returned or raised.
unfoldable pub after : Platform → Manager → Call → Store → Store
after p m (starting q w) s = (start p m q w s).1
after p m (consulting i clock) s = (activate_for_consult m i clock s).1

unfoldable pub run : Platform → Manager → List Call → Store → Store
run p m [] s = s
run p m (call ∷ calls) s = run p m calls (after p m call s)

with_cookie-store :
    (m : ℕ) (p : Platform) (token : String) (r : Result Error Identity × Store)
    → IsBounded m r.1
    → IsBounded m (with_cookie p token r).1
with_cookie-store m p token (ok i, s) v = v
with_cookie-store m p token (err e, s) v = v

module _ (p : Platform) (m : Manager) where
  start_new-IsBounded :
      (q : StartRequest) (w : Draw) (s : Store)
      → IsBounded m.max_identities_per_ip s
      → IsBounded m.max_identities_per_ip (start_new p m q w s).1
  unfolding start_new
  start_new-IsBounded q w s v =
      attempt-keeps (IsBounded m.max_identities_per_ip) (admit p m q w.captcha) s _ v λ ip.
        attempt-keeps (IsBounded m.max_identities_per_ip) (utc naive_time w.second_clock) s _ v
          λ current.
            attempt-keeps (IsBounded m.max_identities_per_ip)
              (hmac_ip_digest p m.ip_secret_bytes ip) s _ v
              λ ip_digest.
                let q' = create_request p m (digest p w.token) ip_digest current in
                with_cookie-store m.max_identities_per_ip p w.token (create w.uuid q' s)
                  (create-IsBounded w.uuid q' s v)

  start_unless-IsBounded :
      (o : Option Identity) (q : StartRequest) (w : Draw) (s : Store)
      → IsBounded m.max_identities_per_ip s
      → IsBounded m.max_identities_per_ip (start_unless p o m q w s).1
  start_unless-IsBounded (some i) q w s v = v
  start_unless-IsBounded none q w s v = start_new-IsBounded q w s v

  after-IsBounded :
      (call : Call) (s : Store)
      → IsBounded m.max_identities_per_ip s
      → IsBounded m.max_identities_per_ip (after p m call s)
  unfolding after start activate_for_consult
  after-IsBounded (starting q w) s v =
      attempt-keeps (IsBounded m.max_identities_per_ip)
        (authenticate p q.existing_token w.first_clock s) s _ v
        λ o. start_unless-IsBounded o q w s v
  after-IsBounded (consulting i clock) s v =
      attempt-keeps (IsBounded m.max_identities_per_ip) (utc naive_time clock) s _ v
        λ current. activate_ip_grant-IsBounded _ s v

  -- Over every sequence of starts and consultations, errors included, that begins at a store in
  -- which no address holds more than `max_identities_per_ip` grants, no address ever does.
  pub run-IsBounded :
      (calls : List Call) (s : Store)
      → IsBounded m.max_identities_per_ip s
      → IsBounded m.max_identities_per_ip (run p m calls s)
  unfolding run
  run-IsBounded [] s v = v
  run-IsBounded (call ∷ calls) s v =
      run-IsBounded calls (after p m call s) (after-IsBounded call s v)
