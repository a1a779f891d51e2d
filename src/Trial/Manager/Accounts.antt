-- ===== src/Trial/Manager/Accounts.antt =====
-- What a client keeps from a start: the cookie that authenticates it later, app/trial/identity.py.
use weiquan_agent.Prelude.{
  ℕ, ◌+◌, ◌<◌, String, true, false, Option, none, some, Result, ok, err, attempt-ok, aware, utc,
  string_eq, ◌==◌, ==_refl, leb, ◌≡◌, refl, sym, ap, ◌∙◌, inl, inr, Bool-cases, arith,
}
use weiquan_agent.Dict.{get, put}
use weiquan_agent.Dict.Laws.{get-put}
use weiquan_agent.Trial.Identity.{
  Error, naive_time, Identity, Store, live_grants, grant_count, new_identity, make_identity,
  store_identity, create_new, create_unless, create_at, create, get_by_token_digest,
}
use weiquan_agent.Trial.Manager.{
  Platform, Manager, StartRequest, StartResult, Draw, digest, hmac_ip_digest, authenticate, admit,
  create_request, with_cookie, start_new, start_unless, start,
}

make_identity-ok : (i j : Identity) → make_identity i ≡ ok j → j ≡ i
unfolding make_identity
make_identity-ok i j h = ground arith

-- The identity that a start stored, under the digest of its token.
abbrev Stored : String → ℕ → Identity → Store → Type 0
Stored token_digest expires_at i s =
    (get token_digest s.identities ≡ some i) × (i.expires_at ≡ expires_at)

module _ (p : Platform) (m : Manager) where
  create_new-Stored :
      (id token_digest ip_digest : String) (t : ℕ) (s s' : Store) (i : Identity)
      → create_new id (create_request p m token_digest ip_digest t) t s ≡ (ok i, s')
      → Stored token_digest (t + m.identity_ttl) i s'
  unfolding create_new store_identity
  create_new-Stored id token_digest ip_digest t s s' i h =
      let q = create_request p m token_digest ip_digest t in
      let made = new_identity id q t (t + m.identity_ttl) in
      let (j, ok_j, rest) = attempt-ok (make_identity made) s s' _ i h in
      let same : j ≡ made = make_identity-ok made j ok_j in
      let is_i : j ≡ i = ground (arith, rest) in
      let e : made ≡ i = sym same ∙ is_i in
      let kept : s'.identities ≡ put j.token_digest j s.identities = ground (arith, rest) in
      let here : get token_digest s'.identities ≡ some made =
        ap (get token_digest) kept
        ∙ ap (λ (x : Identity). get token_digest (put x.token_digest x s.identities)) same
        ∙ get-put token_digest token_digest made s.identities
        ∙ rw (==_refl token_digest) refl in
      (here ∙ ap some e, sym (ap (λ (x : Identity). x.expires_at) e))

  create-Stored :
      (id token_digest ip_digest : String) (t : ℕ) (s s' : Store) (i : Identity)
      → get token_digest s.identities ≡ none
      → create id (create_request p m token_digest ip_digest t) s ≡ (ok i, s')
      → Stored token_digest (t + m.identity_ttl) i s'
  unfolding create create_at create_unless
  create-Stored id token_digest ip_digest t s s' i fresh h =
      let live : Store = record s { ip_grants = live_grants t s.ip_grants } in
      elim (Bool-cases (leb m.max_identities_per_ip (grant_count ip_digest live.ip_grants))) [
        | inl full ↦ absurd (ground (arith, h, full))
        | inr room ↦ create_new-Stored id token_digest ip_digest t live s' i (rw (room, fresh) at h)
      ]

  with_cookie-ok :
      (token : String) (r : Result Error Identity × Store) (x : StartResult) (s' : Store)
      → with_cookie p token r ≡ (ok x, s')
      → (r ≡ (ok x.identity, s')) × (x.cookie_value ≡ some token)
  with_cookie-ok token (ok i, s) x s' h = (cc, cc)
  with_cookie-ok token (err e, s) x s' h = absurd cc

  start_new-Stored :
      (q : StartRequest) (w : Draw) (s s' : Store) (x : StartResult) (t : ℕ)
      → utc naive_time w.second_clock ≡ ok t
      → get (digest p w.token) s.identities ≡ none
      → start_new p m q w s ≡ (ok x, s')
      → Stored (digest p w.token) (t + m.identity_ttl) x.identity s'
        × (x.cookie_value ≡ some w.token)
  unfolding start_new
  start_new-Stored q w s s' x t reads fresh h =
      let (ip, _, h0) = attempt-ok (admit p m q w.captcha) s s' _ x h in
      let (t', reads', h1) = attempt-ok (utc naive_time w.second_clock) s s' _ x h0 in
      let same : t' ≡ t = cc in
      let (ip_digest, _, h2) = attempt-ok (hmac_ip_digest p m.ip_secret_bytes ip) s s' _ x h1 in
      let (created, cookie) =
        with_cookie-ok w.token
          (create w.uuid (create_request p m (digest p w.token) ip_digest t') s) x s' h2 in
      (
        create-Stored w.uuid (digest p w.token) ip_digest t s s' x.identity fresh
            (rw same at created),
        cookie,
      )

  start_unless-created :
      (o : Option Identity) (q : StartRequest) (w : Draw) (s s' : Store) (x : StartResult)
      → start_unless p o m q w s ≡ (ok x, s')
      → x.created ≡ true
      → start_new p m q w s ≡ (ok x, s')
  start_unless-created (some i) q w s s' x h made = absurd (ground (arith, h, made))
  start_unless-created none q w s s' x h made = h

  authenticate-Stored :
      (token : String) (expires_at now : ℕ) (i : Identity) (s : Store)
      → (digest p token == "") ≡ false
      → Stored (digest p token) expires_at i s
      → now < expires_at
      → authenticate p (some token) (aware now) s ≡ ok (some i)
  unfolding authenticate get_by_token_digest
  authenticate-Stored token expires_at now i s usable (there, ends) early =
      simp (usable, there) (ground (arith, ends))

  -- A start that creates an identity hands out a cookie that, until the identity's lifetime is over,
  -- authenticates as that identity; and a later start with the cookie returns that identity, creates
  -- nothing and leaves the store as it is, whatever the captcha, the address and the privacy fields.
  -- This takes that the drawn token was not in the store and that its digest is not empty.
  pub authenticate-start :
      (q : StartRequest) (w : Draw) (s s' : Store) (x : StartResult) (t now : ℕ)
      → start p m q w s ≡ (ok x, s')
      → x.created ≡ true
      → utc naive_time w.second_clock ≡ ok t
      → get (digest p w.token) s.identities ≡ none
      → (digest p w.token == "") ≡ false
      → now < t + m.identity_ttl
      → (authenticate p x.cookie_value (aware now) s' ≡ ok (some x.identity))
        × ((q' : StartRequest) (w' : Draw)
            → q'.existing_token ≡ x.cookie_value
            → w'.first_clock ≡ aware now
            → start p m q' w' s'
              ≡ (ok (record { identity = x.identity; cookie_value = none; created = false }), s'))
  unfolding start
  authenticate-start q w s s' x t now h made reads fresh usable early =
      let (o, _, h0) = attempt-ok (authenticate p q.existing_token w.first_clock s) s s' _ x h in
      let (stored, cookie) =
        start_new-Stored q w s s' x t reads fresh (start_unless-created o q w s s' x h0 made) in
      let known : authenticate p x.cookie_value (aware now) s' ≡ ok (some x.identity) =
        ap (λ (c : Option String). authenticate p c (aware now) s') cookie
        ∙ authenticate-Stored w.token (t + m.identity_ttl) now x.identity s' usable stored early in
      (known, λ q' w' shown clock. simp (shown, clock, known) refl)
