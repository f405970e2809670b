-- ===== src/Payment/Service/Side.antt =====
-- payment_service.go: the statements beside the payments table, under the invariant of that table.
use realtime_delivery_micros.Prelude.{ℕ, String, Bool, arith}
use realtime_delivery_micros.Payment.Currency.{OperationStatus, RefundStatus}
use realtime_delivery_micros.Payment.Domain.{Payment}
use realtime_delivery_micros.Payment.Refund.{Attempt, Refund, new_attempt}
use realtime_delivery_micros.Payment.Events.{PaymentEvent}
use realtime_delivery_micros.Prelude.Action.{ignore}
use realtime_delivery_micros.Payment.Store.{
  Db, Action, attempt_create, attempt_update_status, refund_create, refund_update_status,
  outbox_insert,
}
use realtime_delivery_micros.Prelude.Action.Gives.{Always, Gives, ignore-Gives}
use realtime_delivery_micros.Payment.Service.Env.{
  Env, Site, at_attempt, at_attempt_result, at_realtime, perform, start_attempt, end_attempt,
  publish_event, publish_realtime,
}
use realtime_delivery_micros.Payment.Service.Validity.{
  Valid, IsCalm, Spares, keeps-Gives, Spares-Gives, perform-Gives,
}

pub attempt_create-Spares : (down : Bool) (a : Attempt) → Spares (attempt_create down a)
unfolding attempt_create
attempt_create-Spares down a db = ground arith

pub attempt_update_status-Spares :
    (down : Bool) (id : String) (s : OperationStatus) (tx : String) (now : ℕ)
    → Spares (attempt_update_status down id s tx now)
unfolding attempt_update_status
attempt_update_status-Spares down id s tx now db = ground arith

pub refund_create-Spares : (down : Bool) (r : Refund) → Spares (refund_create down r)
unfolding refund_create
refund_create-Spares down r db = ground arith

pub refund_update_status-Spares :
    (down : Bool) (id : String) (s : RefundStatus) (tx : String) (now : ℕ)
    → Spares (refund_update_status down id s tx now)
unfolding refund_update_status
refund_update_status-Spares down id s tx now db = ground arith

pub outbox_insert-Spares : (down : Bool) (e : PaymentEvent) → Spares (outbox_insert down e)
unfolding outbox_insert
outbox_insert-Spares down e db = ground arith

module _ (env : Env) (calm : IsCalm env) where
  -- A statement beside the payments table, and one with its error dropped.
  pub spared-Gives :
      {A : Type 0} (site : Site) (statement : Bool → Action A)
      → ((down : Bool) → Spares (statement down))
      → Gives Valid Always (perform env site statement)
  spared-Gives site statement h = perform-Gives env calm site (λ down. Spares-Gives (h down))

  pub dropped-Gives :
      {A : Type 0} (site : Site) (statement : Bool → Action A)
      → ((down : Bool) → Spares (statement down))
      → Gives Valid Always (ignore (perform env site statement))
  dropped-Gives site statement h = ignore-Gives (spared-Gives site statement h)

  pub start_attempt-Gives :
      (id operation key : String) → Gives Valid Always (start_attempt env id operation key)
  unfolding start_attempt
  start_attempt-Gives id operation key = dropped-Gives at_attempt _ (λ down.
      attempt_create-Spares down
        (new_attempt env.attempt_id id operation "stripe" key 1 (env.now at_attempt)))

  pub end_attempt-Gives :
      (s : OperationStatus) (tx : String) → Gives Valid Always (end_attempt env s tx)
  unfolding end_attempt
  end_attempt-Gives s tx =
      dropped-Gives at_attempt_result _
        (λ down. attempt_update_status-Spares down env.attempt_id s tx (env.now at_attempt_result))

  pub publish_event-Gives :
      (site : Site) (e : PaymentEvent) → Gives Valid Always (publish_event env site e)
  unfolding publish_event
  publish_event-Gives site e = dropped-Gives site _ (λ down. outbox_insert-Spares down e)

  realtime_step : (p : Payment) (db : Db) → Valid db → Valid (publish_realtime env p db).1
  unfolding publish_realtime perform
  realtime_step p db i = ground (arith, calm at_realtime db i)

  pub publish_realtime-Gives : (p : Payment) → Gives Valid Always (publish_realtime env p)
  publish_realtime-Gives p = keeps-Gives (realtime_step p)
