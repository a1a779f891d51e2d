-- ===== src/Auth/Capacity.antt =====
-- The number of accounts that hold a place, over the calls of `InMemoryAuthStore`,
-- app/auth/store.py.
use weiquan_agent.Prelude.{
  ℕ, ◌+◌, ◌≤◌, ◌≡◌, refl, String, Bool, true, not, Option, none, some, [], ◌∷◌, All, leb, count,
  arith, if◌then◌else◌, string_eq, ok, Option-cases, Bool-cases, Result-cases, inl, inr, sym, ◌∙◌,
  subst,
}
use weiquan_agent.Dict.{Dict, get, put, values, map_values}
use weiquan_agent.Dict.Counts.{
  counts_one, count-put, All-put, get-All, count-map_values, All-map_values,
}
use weiquan_agent.Auth.{UserRole, UserRecord, AuthState, active, is_deleted}
use weiquan_agent.Auth.Store.{
  effective_capacity_limit, is_overdue, expire_user, expire_pending, holds_place, capacity_used,
  add_user, admit_user, Account, pending_user, register_pending, create_verified_user,
}

-- A user who is not deleted.
abbrev pub is_kept : UserRecord → Bool
is_kept u = not (is_deleted u.status)

-- Users are filed under their identifier.
abbrev pub IsFiled : Dict String UserRecord → Type 0
IsFiled users = All (λ (k, u). u.id ≡ k) users

-- At most `limit` users are not deleted.
abbrev pub Fits : ℕ → Dict String UserRecord → Type 0
Fits limit users = (count is_kept (values users) ≤ limit) × IsFiled users

filed-id :
    (k : String) (u : UserRecord) (users : Dict String UserRecord)
    → get k users ≡ some u
    → IsFiled users
    → u.id ≡ k
filed-id k u users found filed =
    let (j, same, is_j) = get-All (λ (j, u). u.id ≡ j) k u users filed found in
    is_j ∙ (string_eq.agrees_iff j k).0 same

put-Fits :
    (limit : ℕ) (k : String) (v : UserRecord) (users : Dict String UserRecord)
    → v.id ≡ k
    → count is_kept (values users) + (if is_kept v then 1 else 0)
      ≤ limit + counts_one is_kept (get k users)
    → IsFiled users
    → Fits limit (put k v users)
put-Fits limit k v users same room filed = (
  omega (arith, room, count-put is_kept k v users),
  All-put (λ (j, u). u.id ≡ j) k v users (λ j is_k. same ∙ sym ((string_eq.agrees_iff j k).0 is_k))
      same filed,
)

-- A user replaced by one who is deleted if he was.
pub replace-Fits :
    (limit : ℕ) (k : String) (u v : UserRecord) (users : Dict String UserRecord)
    → get k users ≡ some u
    → v.id ≡ u.id
    → (is_kept v ≡ true → is_kept u ≡ true)
    → Fits limit users
    → Fits limit (put k v users)
replace-Fits limit k u v users found same kept h =
    put-Fits limit k v users (same ∙ filed-id k u users found h.1)
      (rw found (ground (arith, h.0, kept))) h.1

pub replace_own-Fits :
    (limit : ℕ) (k : String) (u v : UserRecord) (users : Dict String UserRecord)
    → get k users ≡ some u
    → v.id ≡ u.id
    → (is_kept v ≡ true → is_kept u ≡ true)
    → Fits limit users
    → Fits limit (put u.id v users)
replace_own-Fits limit k u v users found same kept h =
    subst (λ j. Fits limit (put j v users)) (sym (filed-id k u users found h.1))
      (replace-Fits limit k u v users found same kept h)

-- Behind the expiry every user who is not deleted holds a place.
keeps_places :
    (now ttl : ℕ) (users : Dict String UserRecord)
    → count is_kept (values (map_values (expire_user now ttl) users))
      ≤ count (holds_place now ttl) (values (map_values (expire_user now ttl) users))
unfolding map_values expire_user is_overdue
keeps_places now ttl [] = omega arith
keeps_places now ttl ((k, u) ∷ users) = ground (arith, keeps_places now ttl users)

expire-Fits :
    (limit now ttl : ℕ) (users : Dict String UserRecord)
    → Fits limit users
    → Fits limit (map_values (expire_user now ttl) users)
unfolding expire_user
expire-Fits limit now ttl users h = (
  omega (
    arith,
    h.0,
    count-map_values is_kept is_kept (expire_user now ttl) users (λ u kept. ground arith),
  ),
  All-map_values (λ (k, u). u.id ≡ k) (expire_user now ttl) users (λ k u same. ground arith) h.1,
)

-- A store of capacity `n` that keeps within it.
abbrev pub HasPlaces : ℕ → AuthState → Type 0
HasPlaces n s = (s.capacity_limit ≡ n) × Fits n s.users

admit_user-HasPlaces :
    (n limit : ℕ) (u : UserRecord) (policy_version : String) (now ttl : ℕ) (s : AuthState)
    → limit ≤ n
    → count is_kept (values s.users) ≤ capacity_used now ttl s
    → HasPlaces n s
    → HasPlaces n (admit_user limit u policy_version now ttl s).1
unfolding admit_user add_user
admit_user-HasPlaces n limit u policy_version now ttl s small counted h =
    elim (Option-cases (get u.email s.email_index)) [
      | inl new ↦ elim (Bool-cases (leb limit (capacity_used now ttl s))) [
        | inl full ↦ rw (new, full, admit_user) h
        | inr room ↦
            rw (new, room, admit_user)
              (h.0, put-Fits n u.id u s.users refl (ground (arith, room, small, counted)) h.1.1)
      ]
      | inr (other, taken) ↦ rw (taken, admit_user) h
    ]

expire_pending-HasPlaces :
    (n now ttl : ℕ) (s : AuthState) → HasPlaces n s → HasPlaces n (expire_pending now ttl s)
unfolding expire_pending
expire_pending-HasPlaces n now ttl s h = (h.0, expire-Fits n now ttl s.users h.1)

expire_pending-counted :
    (now ttl : ℕ) (s : AuthState)
    → count is_kept (values (expire_pending now ttl s).users)
      ≤ capacity_used now ttl (expire_pending now ttl s)
unfolding expire_pending capacity_used
expire_pending-counted now ttl s = keeps_places now ttl s.users

effective_capacity_limit-le :
    (limit effective : ℕ) (override : Option ℕ)
    → effective_capacity_limit limit override ≡ ok effective
    → effective ≤ limit
unfolding effective_capacity_limit
effective_capacity_limit-le limit effective none h = ground arith
effective_capacity_limit-le limit effective (some override) h = ground arith

pub register_pending-HasPlaces :
    (n : ℕ) (new_id : String) (a : Account) (now ttl : ℕ) (limit : Option ℕ) (s : AuthState)
    → HasPlaces n s
    → HasPlaces n (register_pending new_id a now ttl limit s).1
unfolding register_pending
register_pending-HasPlaces n new_id a now ttl limit s h =
    elim (Result-cases (effective_capacity_limit s.capacity_limit limit)) [
      | inl (effective, it) ↦
          rw (it, register_pending)
            (admit_user-HasPlaces n effective (pending_user new_id a now) a.policy_version now ttl
              (expire_pending now ttl s)
              (omega (arith, effective_capacity_limit-le s.capacity_limit effective limit it, h.0))
              (expire_pending-counted now ttl s) (expire_pending-HasPlaces n now ttl s h))
      | inr (e, it) ↦ rw (it, register_pending) h
    ]

pub create_verified_user-HasPlaces :
    (n : ℕ) (new_id : String) (a : Account) (role : UserRole) (now ttl : ℕ) (s : AuthState)
    → HasPlaces n s
    → HasPlaces n (create_verified_user new_id a role now ttl s).1
unfolding create_verified_user
create_verified_user-HasPlaces n new_id a role now ttl s h =
    admit_user-HasPlaces n s.capacity_limit
      (record (pending_user new_id a now) { status = active; role = role; verified_at = some now })
      a.policy_version now ttl (expire_pending now ttl s) (omega (arith, h.0))
      (expire_pending-counted now ttl s) (expire_pending-HasPlaces n now ttl s h)
