-- ===== src/Quota/Controller/Once.antt =====
-- Settling the quota of one call by `QuotaCallController`, app/limits/reservations.py.
use weiquan_agent.Prelude.{
  ℕ, String, ◌≡◌, ◌≢◌, refl, ◌∙◌, false, Option, some, none, ok, DateTime, aware, arith, ==_refl,
  string_eq,
}
use weiquan_agent.Dict.{get, put}
use weiquan_agent.Dict.Laws.{get-put}
use weiquan_agent.Quota.{Reservation, Status, reserved, succeeded, refunded}
use weiquan_agent.Quota.Store.{is_reserved, settle, transition, transition_found}
use weiquan_agent.Quota.Service
use weiquan_agent.Quota.Service.{Calendar, Service}
use weiquan_agent.Quota.Controller.{Shared, reserve, succeed, refund, reserve_when, settle_when}

module _ (c : Calendar) (v : Service) where
  -- Once the controller has a reservation, reserving again returns it and changes nothing.
  pub reserve-held :
      (new_id : String) (now : DateTime) (w : Shared) (r : Reservation)
      → w.controller.reservation ≡ some r
      → reserve c v new_id now w ≡ (ok r, w)
  unfolding reserve
  reserve-held new_id now w r h = rw (h, reserve_when) refl

  -- With no open reservation, `succeed` and `refund` change nothing.
  pub settled_is_final :
      (now : DateTime) (w : Shared)
      → ((r : Reservation) → w.controller.reservation ≡ some r → r.status ≢ reserved)
      → (succeed c v now w ≡ (ok tt, w)) × (refund c v now w ≡ (ok tt, w))
  unfolding succeed refund
  settled_is_final now w closed = at w.controller.reservation refl
    where
      open_ : (x : Status) → x ≢ reserved → is_reserved x ≡ false
      open_ reserved e = absurd (e refl)
      open_ succeeded e = refl
      open_ refunded e = refl

      at :
          (o : Option Reservation)
          → w.controller.reservation ≡ o
          → (settle_when c v o (Service.succeed c v) now w.controller w.store ≡ (ok tt, w))
            × (settle_when c v o (Service.refund c v) now w.controller w.store ≡ (ok tt, w))
      at none e = (refl, refl)
      at (some r) e = rw (open_ r.status (closed r e)) (refl, refl)

  -- A call that succeeded keeps its place in the quota: when the store has the controller's open
  -- reservation, `succeed` marks it in both, and a refund after that changes nothing.
  pub refund-succeed :
      (t : ℕ) (later : DateTime) (w : Shared) (r : Reservation)
      → w.controller.reservation ≡ some r
      → r.status ≡ reserved
      → get r.id w.store.reservations ≡ some r
      → let w' = (succeed c v (aware t) w).1 in
        ((succeed c v (aware t) w).0 ≡ ok tt)
        × (get r.id w'.store.reservations ≡ some (record r { status = succeeded; updated_at = t }))
        × (w'.store.counts ≡ w.store.counts)
        × (refund c v later w' ≡ (ok tt, w'))
  refund-succeed t later w r has open_ stored =
      let done = succeeds t w r has open_ stored in
      rw done (
        refl,
        get-put r.id r.id (marked t r) w.store.reservations ∙ rw (==_refl r.id) refl,
        refl,
        (settled_is_final later (after t w r) (λ q h. not_open t r q h)).1,
      )
    where
      marked : ℕ → Reservation → Reservation
      marked t r = record r { status = succeeded; updated_at = t }

      after : ℕ → Shared → Reservation → Shared
      after t w r = record {
        controller = record (w.controller) { reservation = some (marked t r) };
        store = record (w.store) { reservations = put r.id (marked t r) w.store.reservations };
      }

      not_open : (t : ℕ) (r q : Reservation) → some (marked t r) ≡ some q → q.status ≢ reserved
      not_open t r q h e = ground (arith, h)

      succeeds :
          (t : ℕ) (w : Shared) (r : Reservation)
          → w.controller.reservation ≡ some r
          → r.status ≡ reserved
          → get r.id w.store.reservations ≡ some r
          → succeed c v (aware t) w ≡ (ok tt, after t w r)
      succeeds t w r has open_ stored =
          unfold succeed Service.succeed transition transition_found settle in
          rw (has, settle_when) (rw open_ (rw stored (rw open_ refl)))
