-- ===== src/Payment/Service/Refunds.antt =====
-- payment_service.go: `CreateRefund`. The amount is reserved on the payment before the provider is
-- asked, and released or committed after it has answered.
use realtime_delivery_micros.Prelude.{String}
use realtime_delivery_micros.Prelude.Int.{ℤ, pos}
use realtime_delivery_micros.Prelude.Int64.{sub64}
use realtime_delivery_micros.Prelude.Result.{Result, ok, err}
use realtime_delivery_micros.Payment.Currency.{refund_completed, refund_failed}
use realtime_delivery_micros.Payment.Domain.{
  Payment, PaymentError, reserve_refund, commit_refund, release_refund_reservation,
}
use realtime_delivery_micros.Payment.Refund.{Refund, new_refund, complete}
use realtime_delivery_micros.Payment.Events.{refunded_event}
use realtime_delivery_micros.Prelude.Action.{◌>>=◌, ◌>>◌, pure, raise, ignore, handling}
use realtime_delivery_micros.Payment.Store.{
  ServiceError, domain, provider_failed, Action, payment_find_by_id, update_conditional,
  refund_create, refund_update_status,
}
use realtime_delivery_micros.Payment.Service.Env.{
  Env, at_find, at_update, at_event, at_refund_create, at_refund_status, at_release, at_commit,
  Reply, perform, checked, publish_event, publish_realtime,
}

pub record CreateRefundInput : Type 0 where
  pub payment_id : String
  pub amount_minor : ℤ
  pub reason : String
  pub idempotency_key : String
  pub correlation_id : String

module _ (env : Env) (input : CreateRefundInput) where
  -- `_ = payment.ReleaseRefundReservation(...)` and the conditional write at the version before it.
  unfoldable pub release : Payment → Action (Unit {0})
  release p =
      let (p', _) = release_refund_reservation p input.amount_minor (env.now at_release) in
      ignore
        (perform env at_release (λ down. update_conditional down p' (sub64 p'.version (pos 1))))

  -- The same for `_ = payment.CommitRefund(...)`; `prevVersion` was taken before the call.
  unfoldable pub commit : Payment → Action Payment
  commit p db =
      let (p', _) = commit_refund p input.amount_minor (env.now at_commit) in
      (ignore (perform env at_commit (λ down. update_conditional down p' p.version)) >> pure p') db

  -- The branches after the provider's answer.
  abbrev pub refund_settle : Payment → Refund → Reply → Action Refund
  refund_settle p r (err e) = do
    ignore (
        perform env at_refund_status
          (λ down. refund_update_status down r.id refund_failed "" (env.now at_refund_status)))
    release p
    raise (provider_failed e.message)
  refund_settle p r (ok res) = do
    ignore (
        perform env at_refund_status (λ down.
          refund_update_status down r.id refund_completed res.provider_transaction_id
            (env.now at_refund_status)))
    p' ← commit p
    publish_event env at_event (
        refunded_event (record {
          payment_id = p'.id;
          delivery_id = p'.delivery_id;
          user_id = p'.user_id;
          amount_minor = p'.amount_minor;
          refunded_amount_minor = input.amount_minor;
          currency = p'.currency;
          provider_refund_id = res.provider_transaction_id;
          correlation_id = input.correlation_id;
          causation_id = input.payment_id;
          refunded_at = env.now at_event;
        }))
    publish_realtime env p'
    pure (complete r res.provider_transaction_id (env.now at_refund_status))

  -- `s.refundRepo.Create`, whose error releases the reservation.
  abbrev pub after_refund_row : Payment → ServiceError → Action Refund
  after_refund_row p e = do release p; raise e

  unfoldable pub persist_refund : Payment → Refund → Action Refund
  persist_refund p r =
      handling (perform env at_refund_create (λ down. refund_create down r)) (after_refund_row p)
        (λ _. refund_settle p r (
          env.refund_reply (record {
            provider_payment_id = p.provider_payment_id;
            amount_minor = input.amount_minor;
            reason = input.reason;
            idempotency_key = input.idempotency_key;
          })))

  abbrev pub with_refund : Payment → Result PaymentError Refund → Action Refund
  with_refund p (err e) = after_refund_row p (domain e)
  with_refund p (ok r) = persist_refund p r

  unfoldable pub create_refund : Action Refund
  unfolding persist_refund release commit
  create_refund = do
    p ← perform env at_find (λ down. payment_find_by_id down input.payment_id)
    reserved ← checked (reserve_refund p input.amount_minor (env.now at_update))
    perform env at_update (λ down. update_conditional down reserved p.version)
    with_refund reserved (
        new_refund env.refund_id reserved.id reserved.delivery_id input.amount_minor
          reserved.currency input.reason input.idempotency_key input.correlation_id input.payment_id
          (env.now at_refund_create))
