-- ===== src/Quota/Store/Recovery.antt =====
-- `recover_stale` of `InMemoryQuotaStore`: which reservations it refunds.
use weiquan_agent.Prelude.{
  ℕ, zero, suc, ◌≤◌, String, ◌≡◌, refl, sym, ap, ◌∙◌, true, false, Option, some, none, List, [],
  ◌∷◌, arith, if◌then◌else◌, ◌==◌, ok, inl, inr, Bool-cases, string_eq, min, length-take, aware,
  take, length, ◌⊎◌, Bool, All, All-take, All-map, ==_refl, subst, contains, ◌||◌,
}
use weiquan_agent.Dict.{Dict, get, values}
use weiquan_agent.Dict.Laws.{get-put}
use weiquan_agent.Quota.{refunded, Reservation}
use weiquan_agent.Quota.Store.{
  Store, settle, transition_found, transition, refund_each, recover_stale, is_reserved, stale_ids,
  is_stale,
}
use weiquan_agent.Quota.Store.Conservation.{IsConsistent, IsNamed}

-- A reservation after a refund at time `t`: an open one is refunded, a settled one is kept.
abbrev pub refund_of : ℕ → Reservation → Reservation
refund_of t r = if is_reserved r.status then record r { status = refunded; updated_at = t } else r

abbrev pub refund_entry : ℕ → Option Reservation → Option Reservation
refund_entry t none = none
refund_entry t (some r) = some (refund_of t r)

abbrev pub IsPresent : Store → String → Type 0
IsPresent s id = (r : Reservation) × (get id s.reservations ≡ some r)

-- One refund, seen from every identifier.
get-transition :
    (id j : String) (t : ℕ) (s : Store) (r : Reservation)
    → get id s.reservations ≡ some r
    → ((transition id "refunded" (aware t) s).0 ≡ ok (refund_of t r))
      × (get j (transition id "refunded" (aware t) s).1.reservations
          ≡ (if id == j then refund_entry t (get j s.reservations) else get j s.reservations))
unfolding transition transition_found settle
get-transition id j t s r found = rw found (elim (Bool-cases (is_reserved r.status)) [
  | inl open_ ↦ rw open_ (
    refl,
    get-put id j (record r { status = refunded; updated_at = t }) s.reservations
        ∙ ground (arith, string_eq.agrees_iff id j),
  )
  | inr closed ↦ rw closed (refl, ground (arith, string_eq.agrees_iff id j))
])

refund_entry_twice :
    (t : ℕ) (o : Option Reservation) → refund_entry t (refund_entry t o) ≡ refund_entry t o
refund_entry_twice t none = refl
refund_entry_twice t (some r) = ground arith

present-refund_entry :
    (t : ℕ) (o : Option Reservation)
    → ((r : Reservation) × (o ≡ some r))
    → (r : Reservation) × (refund_entry t o ≡ some r)
present-refund_entry t none (r, h) = (r, cc)
present-refund_entry t (some q) (r, h) = (refund_of t q, refl)

module _ (t : ℕ) where
  IsPresent-transition :
      (id j : String) (s : Store)
      → IsPresent s id
      → IsPresent s j
      → IsPresent (transition id "refunded" (aware t) s).1 j
  IsPresent-transition id j s (r, found) there = elim (Bool-cases (id == j)) [
    | inl same ↦
        let (q, e) = present-refund_entry t (get j s.reservations) there in
        (q, (get-transition id j t s r found).1 ∙ rw same e)
    | inr other ↦ (there.0, (get-transition id j t s r found).1 ∙ rw other there.1)
  ]

  All-IsPresent :
      (id : String) (ids : List String) (s : Store)
      → IsPresent s id
      → All (IsPresent s) ids
      → All (IsPresent (transition id "refunded" (aware t) s).1) ids
  All-IsPresent id [] s p ps = tt
  All-IsPresent id (j ∷ ids) s p ps =
      (IsPresent-transition id j s p ps.0, All-IsPresent id ids s p ps.1)

  -- The loop over identifiers that the store knows runs to its end, refunds the open ones among
  -- them and leaves every other reservation alone.
  pub refund_each_lem :
      (ids : List String) (s : Store)
      → All (IsPresent s) ids
      → ((refund_each ids (aware t) s).0 ≡ ok tt)
        × ((j : String)
            → get j (refund_each ids (aware t) s).1.reservations ≡ (
                if contains j ids
                then refund_entry t (get j s.reservations)
                else get j s.reservations))
  unfolding refund_each
  refund_each_lem [] s ps = (refl, λ j. refl)
  refund_each_lem (id ∷ ids) s ps =
      let s' : Store = (transition id "refunded" (aware t) s).1 in
      let rest = refund_each_lem ids s' (All-IsPresent id ids s ps.0 ps.1) in
      let step = λ (j : String). get-transition id j t s ps.0.0 ps.0.1 in
      rw ((step id).0) (
        rest.0,
        λ j. rest.1 j ∙ rw ((step j).1) (join (id == j) (contains j ids) (get j s.reservations)),
      )
    where
      join :
          (a b : Bool) (o : Option Reservation)
          → (if b
              then refund_entry t (if a then refund_entry t o else o)
              else (if a then refund_entry t o else o))
            ≡ (if a || b then refund_entry t o else o)
      join true true o = refund_entry_twice t o
      join true false o = refl
      join false true o = refl
      join false false o = refl

IsPresent_head :
    (rs : Dict String Reservation) (id : String) (r : Reservation)
    → (q : Reservation) × (get id ((id, r) ∷ rs) ≡ some q)
unfolding get
IsPresent_head rs id r = (r, rw (==_refl id) refl)

IsPresent_tail :
    (j : String) (p : Reservation) (rs : Dict String Reservation) (id : String)
    → ((q : Reservation) × (get id rs ≡ some q))
    → (q : Reservation) × (get id ((j, p) ∷ rs) ≡ some q)
unfolding get
IsPresent_tail j p rs id (q, h) = elim (Bool-cases (j == id)) [
  | inl same ↦ (p, rw same refl)
  | inr other ↦ (q, rw other h)
]

abbrev Present : Dict String Reservation → String → Type 0
Present rs id = (q : Reservation) × (get id rs ≡ some q)

-- The identifiers that recovery collects are known to a store that is consistent.
stale_ids-Present :
    (cutoff : ℕ) (rs : Dict String Reservation)
    → IsNamed rs
    → All (Present rs) (stale_ids cutoff (values rs))
unfolding stale_ids
stale_ids-Present cutoff [] n = tt
stale_ids-Present cutoff ((id, r) ∷ rs) n =
    let later : All (Present ((id, r) ∷ rs)) (stale_ids cutoff (values rs)) =
      All-map (Present rs) (Present ((id, r) ∷ rs)) (IsPresent_tail id r rs)
        (stale_ids cutoff (values rs)) (stale_ids-Present cutoff rs n.1) in
    elim (Bool-cases (is_stale cutoff r)) [
      | inl stale ↦
          rw stale (subst (Present ((id, r) ∷ rs)) (sym n.0) (IsPresent_head rs id r), later)
      | inr fresh ↦ rw fresh later
    ]

contains-stale_ids :
    (cutoff : ℕ) (rs : Dict String Reservation) (id : String) (r : Reservation)
    → IsNamed rs
    → get id rs ≡ some r
    → is_stale cutoff r ≡ true
    → contains id (stale_ids cutoff (values rs)) ≡ true
unfolding stale_ids get
contains-stale_ids cutoff [] id r n h st = cc
contains-stale_ids cutoff ((j, q) ∷ rs) id r n h st = elim (Bool-cases (j == id)) [
  | inl same ↦ ground (arith, string_eq.agrees_iff j id, string_eq.agrees_iff q.id id, n.0)
  | inr other ↦
      let found : get id rs ≡ some r = rw other at h in
      ground (arith, contains-stale_ids cutoff rs id r n.1 found st)
]

take-all : (n : ℕ) (xs : List String) → length xs ≤ n → take n xs ≡ xs
take-all zero [] h = refl
take-all zero (x ∷ xs) h = elim h [ ]
take-all (suc n) [] h = refl
take-all (suc n) (x ∷ xs) h = rw (take-all n xs (omega arith)) refl

-- A refunded reservation is not stale, and a settled one never was.
refund_of-fresh : (t cutoff : ℕ) (r : Reservation) → is_stale cutoff (refund_of t r) ≡ false
unfolding is_stale
refund_of-fresh t cutoff r = ground arith

module _ (cutoff now limit : ℕ) (s : Store) (v : IsConsistent s) where
  abbrev stale : List String
  stale = stale_ids cutoff (values s.reservations)

  swept :
      ((refund_each (take limit stale) (aware now) s).0 ≡ ok tt)
      × ((j : String)
          → get j (refund_each (take limit stale) (aware now) s).1.reservations ≡ (
              if contains j (take limit stale)
              then refund_entry now (get j s.reservations)
              else get j s.reservations))
  swept = refund_each_lem now (take limit stale) s (
      All-take (Present s.reservations) limit stale
        (stale_ids-Present cutoff s.reservations v.named))

  -- On a consistent store and with aware times recovery always succeeds. It reports how many reservations it went
  -- through, the stale ones up to the limit, and each of these, if open, is refunded at the time of
  -- the call, all others being kept.
  pub recover_stale_lem :
      ((recover_stale (aware cutoff) (aware now) limit s).0 ≡ ok (min limit (length stale)))
      × ((j : String)
          → get j (recover_stale (aware cutoff) (aware now) limit s).1.reservations ≡ (
              if contains j (take limit stale)
              then refund_entry now (get j s.reservations)
              else get j s.reservations))
  unfolding recover_stale
  recover_stale_lem = rw swept.0 (ap ok (length-take limit stale), swept.1)

  -- On a consistent store, with aware times and a limit that covers the stale reservations, recovery
  -- leaves none of them.
  pub recover_stale_complete :
      length stale ≤ limit
      → (j : String) (r : Reservation)
      → get j (recover_stale (aware cutoff) (aware now) limit s).1.reservations ≡ some r
      → is_stale cutoff r ≡ false
  recover_stale_complete enough j r h =
      at (get j s.reservations) refl (Bool-cases (contains j stale))
    where
      entry :
          (if contains j stale
            then refund_entry now (get j s.reservations)
            else get j s.reservations)
          ≡ some r
      entry = rw (take-all limit stale enough) at (sym (recover_stale_lem.1 j) ∙ h)

      at :
          (o : Option Reservation)
          → get j s.reservations ≡ o
          → ((contains j stale ≡ true) ⊎ (contains j stale ≡ false))
          → is_stale cutoff r ≡ false
      at none e c = absurd (ground (arith, entry))
      at (some q) e (inl inside) = ground (arith, entry, refund_of-fresh now cutoff q)
      at (some q) e (inr outside) = elim (Bool-cases (is_stale cutoff q)) [
        | inl st ↦ absurd (cc (outside, contains-stale_ids cutoff s.reservations j q v.named e st))
        | inr fresh ↦ ground (arith, entry, fresh)
      ]
