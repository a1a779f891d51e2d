-- ===== src/Trial/Identity/Limits.antt =====
-- The grants of an address in `InMemoryTrialIdentityStore`, app/trial/identity.py.
use weiquan_agent.Prelude.{
  ℕ, ◌+◌, ◌≤◌, String, false, Option, some, none, List, [], ◌∷◌, ◌++◌, leb, if◌then◌else◌,
  string_eq, ◌==◌, ok, DateTime, aware, naive, utc, ◌≡◌, refl, sym, ◌∙◌, Bool-cases, Result-cases,
  inl, inr, arith, count-append, subst,
}
use weiquan_agent.Dict.{get}
use weiquan_agent.Trial.Identity.{
  Identity, Grant, Store, CreateRequest, ActivateRequest, Search, no_grant, other_address,
  already_active, extended, live_grants, grant_count, naive_time, new_identity, store_identity,
  create_new, create_unless, create_at, create, make_identity, search_grants, activate_by,
  activate_ip_grant,
}

pub grant_count-live_grants :
    (ip : String) (current : ℕ) (grants : List Grant)
    → grant_count ip (live_grants current grants) ≤ grant_count ip grants
unfolding grant_count live_grants
grant_count-live_grants ip current [] = omega arith
grant_count-live_grants ip current (g ∷ grants) =
    ground (arith, grant_count-live_grants ip current grants)

grant_count-append :
    (ip : String) (grants : List Grant) (g : Grant)
    → grant_count ip (grants ++ g ∷ [])
      ≡ grant_count ip grants + (if g.ip_digest == ip then 1 else 0)
unfolding grant_count
grant_count-append ip grants g =
    omega (arith, count-append {0} (λ g. g.ip_digest == ip) grants (g ∷ []))

-- Extending a grant leaves the number of grants of every address as it was.
grant_count-search :
    (ip : String) (q : ActivateRequest) (target : ℕ) (grants changed : List Grant)
    → search_grants q target grants ≡ extended changed
    → grant_count ip changed ≡ grant_count ip grants
unfolding search_grants grant_count
grant_count-search ip q target [] changed h = cc
grant_count-search ip q target (g ∷ grants) changed h =
    at (search_grants q target grants) refl (grant_count-search ip q target grants)
  where
    at :
        (s : Search)
        → search_grants q target grants ≡ s
        → ((rest : List Grant)
            → search_grants q target grants ≡ extended rest
            → grant_count ip rest ≡ grant_count ip grants)
        → grant_count ip changed ≡ grant_count ip (g ∷ grants)
    at no_grant e ih = ground (arith, h, e)
    at other_address e ih = ground (arith, h, e)
    at already_active e ih = ground (arith, h, e)
    at (extended rest) e ih = ground (arith, h, e, ih rest e)

-- At most `m` grants for each address.
pub record IsBounded (m : ℕ) (s : Store) : Type 0 where
  pub bounded : (ip : String) → grant_count ip s.ip_grants ≤ m

room_for_one :
    (m : ℕ) (ip : String) (s : Store) (g : Grant)
    → g.ip_digest ≡ ip
    → leb m (grant_count ip s.ip_grants) ≡ false
    → IsBounded m s
    → (other : String) → grant_count other (s.ip_grants ++ g ∷ []) ≤ m
room_for_one m ip s g is_ip room v other = elim (Bool-cases (g.ip_digest == other)) [
  | inl same ↦
      let e : ip ≡ other = sym is_ip ∙ (string_eq.agrees_iff g.ip_digest other).0 same in
      let here : leb m (grant_count other s.ip_grants) ≡ false =
        subst (λ (x : String). leb m (grant_count x s.ip_grants) ≡ false) e room in
      ground (arith, grant_count-append other s.ip_grants g, same, here)
  | inr apart ↦ ground (arith, grant_count-append other s.ip_grants g, apart, v.bounded other)
]

live-IsBounded :
    (m current : ℕ) (s : Store)
    → IsBounded m s
    → IsBounded m (record s { ip_grants = live_grants current s.ip_grants })
live-IsBounded m current s v = record {
  bounded = λ ip. omega (arith, v.bounded ip, grant_count-live_grants ip current s.ip_grants);
}

store_identity-IsBounded :
    (m : ℕ) (expiry : DateTime) (i : Identity) (s : Store)
    → leb m (grant_count i.ip_digest s.ip_grants) ≡ false
    → IsBounded m s
    → IsBounded m (store_identity expiry i s).1
unfolding store_identity
store_identity-IsBounded m (naive t) i s room v = record { bounded = v.bounded }
store_identity-IsBounded m (aware t) i s room v = record {
  bounded =
      room_for_one m i.ip_digest s
        (record {
          identity_id = i.id;
          ip_digest = i.ip_digest;
          created_at = i.created_at;
          expires_at = t;
        })
        refl room v;
}

make_identity-ok : (i j : Identity) → make_identity i ≡ ok j → j ≡ i
unfolding make_identity
make_identity-ok i j h = ground arith

create_new-IsBounded :
    (new_id : String) (q : CreateRequest) (current : ℕ) (s : Store)
    → leb q.max_ip_grants (grant_count q.ip_digest s.ip_grants) ≡ false
    → IsBounded q.max_ip_grants s
    → IsBounded q.max_ip_grants (create_new new_id q current s).1
unfolding create_new
create_new-IsBounded new_id q current s room v = elim (Result-cases (utc naive_time q.expires_at)) [
  | inr (e, bad) ↦ rw bad v
  | inl (t, good) ↦ elim (Result-cases (make_identity (new_identity new_id q current t))) [
    | inr (e, bad) ↦ rw (good, bad) v
    | inl (i, made) ↦
        let same = make_identity-ok (new_identity new_id q current t) i made in
        rw (good, made)
          (store_identity-IsBounded q.max_ip_grants q.ip_grant_expires_at i s (rw same room) v)
  ]
]

create_unless-IsBounded :
    (o : Option Identity) (new_id : String) (q : CreateRequest) (current : ℕ) (s : Store)
    → leb q.max_ip_grants (grant_count q.ip_digest s.ip_grants) ≡ false
    → IsBounded q.max_ip_grants s
    → IsBounded q.max_ip_grants (create_unless o new_id q current s).1
unfolding create_unless
create_unless-IsBounded (some i) new_id q current s room v = v
create_unless-IsBounded none new_id q current s room v =
    create_new-IsBounded new_id q current s room v

-- A store in which no address has more grants than the limit of the request still is so after
-- `create`, whether it creates, finds an identity or raises.
pub create-IsBounded :
    (new_id : String) (q : CreateRequest) (s : Store)
    → IsBounded q.max_ip_grants s
    → IsBounded q.max_ip_grants (create new_id q s).1
unfolding create create_at
create-IsBounded new_id q s v = elim (Result-cases (utc naive_time q.now)) [
  | inr (e, bad) ↦ rw bad v
  | inl (t, good) ↦
      let s' : Store = record s { ip_grants = live_grants t s.ip_grants } in
      let v' = live-IsBounded q.max_ip_grants t s v in
      elim (Bool-cases
        (leb q.max_ip_grants (grant_count q.ip_digest (live_grants t s.ip_grants)))) [
          | inl full ↦ rw (good, full) v'
          | inr room ↦
              rw (good, room)
                (create_unless-IsBounded (get q.token_digest s.identities) new_id q t s' room v')
        ]
]

activate_by-IsBounded :
    (found : Search) (q : ActivateRequest) (current target : ℕ) (s : Store)
    → search_grants q target s.ip_grants ≡ found
    → IsBounded q.max_ip_grants s
    → IsBounded q.max_ip_grants (activate_by found q current target s).1
unfolding activate_by
activate_by-IsBounded other_address q current target s e v = v
activate_by-IsBounded already_active q current target s e v = v
activate_by-IsBounded (extended grants) q current target s e v = record {
  bounded = λ ip. omega (arith, v.bounded ip, grant_count-search ip q target s.ip_grants grants e);
}
activate_by-IsBounded no_grant q current target s e v =
    elim (Bool-cases (leb q.max_ip_grants (grant_count q.ip_digest s.ip_grants))) [
      | inl full ↦ rw full v
      | inr room ↦ rw room (record {
        bounded =
            room_for_one q.max_ip_grants q.ip_digest s
              (record {
                identity_id = q.identity_id;
                ip_digest = q.ip_digest;
                created_at = current;
                expires_at = target;
              })
              refl room v;
      })
    ]

-- So it is after `activate_ip_grant`, on each of its branches.
pub activate_ip_grant-IsBounded :
    (q : ActivateRequest) (s : Store)
    → IsBounded q.max_ip_grants s
    → IsBounded q.max_ip_grants (activate_ip_grant q s).1
unfolding activate_ip_grant
activate_ip_grant-IsBounded q s v = elim (Result-cases (utc naive_time q.now)) [
  | inr (e, bad) ↦ rw bad v
  | inl (t, good) ↦ elim (Result-cases (utc naive_time q.ip_grant_expires_at)) [
    | inr (e, bad) ↦ rw (good, bad) v
    | inl (target, fine) ↦
        rw (good, fine)
          (activate_by-IsBounded (search_grants q target (live_grants t s.ip_grants)) q t target
            (record s { ip_grants = live_grants t s.ip_grants }) refl
            (live-IsBounded q.max_ip_grants t s v))
  ]
]
