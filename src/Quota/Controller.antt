-- ===== src/Quota/Controller.antt =====
-- `QuotaCallController` of app/limits/reservations.py: the quota of one call.
pub mod Once
use weiquan_agent.Prelude.{
  String, Option, some, none, Result, ok, err, DateTime, Bool, true, false, if◌then◌else◌,
}
use weiquan_agent.Quota.{Kind, Error, Reservation}
use weiquan_agent.Quota.Store.{Store, is_reserved}
use weiquan_agent.Quota.Service
use weiquan_agent.Quota.Service.{Calendar, Service}

pub record Controller : Type 0 where
  pub kind : Kind
  pub subject_id : String
  pub logical_call_id : String
  pub reservation : Option Reservation

pub record Shared : Type 0 where
  pub controller : Controller
  pub store : Store

unfoldable pub reservation_id : Controller → Option String
reservation_id c = elim c.reservation [ none ↦ none | some r ↦ some r.id ]

-- What a call of the service leaves: its result is kept, an error changes no attribute.
keep_result : Controller → Result Error Reservation × Store → Result Error Reservation × Shared
keep_result c (ok r, s) =
    (ok r, record { controller = record c { reservation = some r }; store = s })
keep_result c (err e, s) = (err e, record { controller = c; store = s })

module _ (cal : Calendar) (v : Service) where
  reserve_when :
      Option Reservation
      → String
      → DateTime
      → Controller
      → Store
      → Result Error Reservation × Shared
  unfolding keep_result
  reserve_when (some r) new_id now c s = (ok r, record { controller = c; store = s })
  reserve_when none new_id now c s =
      keep_result c (Service.reserve cal v new_id c.kind c.subject_id c.logical_call_id now s)

  unfoldable pub reserve : String → DateTime → Shared → Result Error Reservation × Shared
  unfolding reserve_when
  reserve new_id now w = reserve_when w.controller.reservation new_id now w.controller w.store

  abbrev Settling : Type 0
  Settling = String → DateTime → Store → Result Error Reservation × Store

  abbrev forget : Result Error Reservation × Shared → Result Error (Unit {0}) × Shared
  forget (ok r, w) = (ok tt, w)
  forget (err e, w) = (err e, w)

  settle_when :
      Option Reservation
      → Settling
      → DateTime
      → Controller
      → Store
      → Result Error (Unit {0}) × Shared
  unfolding keep_result
  settle_when none f now c s = (ok tt, record { controller = c; store = s })
  settle_when (some r) f now c s =
      if is_reserved r.status
      then forget (keep_result c (f r.id now s))
      else (ok tt, record { controller = c; store = s })

  unfoldable pub succeed : DateTime → Shared → Result Error (Unit {0}) × Shared
  unfolding settle_when
  succeed now w =
      settle_when w.controller.reservation (Service.succeed cal v) now w.controller w.store

  unfoldable pub refund : DateTime → Shared → Result Error (Unit {0}) × Shared
  unfolding settle_when
  refund now w =
      settle_when w.controller.reservation (Service.refund cal v) now w.controller w.store
