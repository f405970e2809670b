-- ===== src/Payment/Service/Operations.antt =====
-- payment_service.go: `CapturePayment`, `AuthorizePayment` and `CancelAuthorization`. Each reads the
-- payment, asks the provider, changes the payment in memory and writes it if its version still holds.
use Prim.Native.String.{◌++◌ as str_append}
use realtime_delivery_micros.Prelude.{String, Option}
use realtime_delivery_micros.Prelude.Int.{ℤ, pos}
use realtime_delivery_micros.Prelude.Result.{ok, err}
use realtime_delivery_micros.Payment.Currency.{succeeded, operation_failed, unknown}
use realtime_delivery_micros.Payment.Domain.{
  Payment, PaymentError, can_authorize, can_capture, can_cancel, authorize, capture, cancel,
  provider_unknown_outcome, not_captureable, invalid_status,
}
use realtime_delivery_micros.Payment.Events.{
  authorized_event, captured_event, completed_event, cancelled_event,
}
use realtime_delivery_micros.Prelude.Action.{◌>>=◌, ◌>>◌, pure, raise, require}
use realtime_delivery_micros.Payment.Store.{
  domain, provider_failed, Action, payment_find_by_id, update_conditional,
}
use realtime_delivery_micros.Payment.Service.Env.{
  Env, at_find, at_update, at_event, at_completed_event, timed_out, NormalizedError, Reply, perform,
  checked, start_attempt, end_attempt, publish_event, publish_realtime,
}

pub record CapturePaymentInput : Type 0 where
  pub payment_id : String
  pub amount_minor : ℤ
  pub idempotency_key : String
  pub correlation_id : String

pub record AuthorizePaymentInput : Type 0 where
  pub payment_id : String
  pub idempotency_key : String
  pub correlation_id : String

-- The branch `providerErr != nil`, the same in the three: the attempt ends as unknown on a timeout
-- and as failed otherwise, and the payment stays as it is.
unfoldable pub provider_refused : Env → NormalizedError → Action Payment
provider_refused env e = elim e.category [
  | timed_out ↦ do end_attempt env unknown ""; raise (domain provider_unknown_outcome)
  | _ ↦ do end_attempt env operation_failed ""; raise (provider_failed e.message)
]

-- The write behind a change in memory: `prevVersion` is the version before it.
unfoldable pub write : Env → Payment × Option PaymentError → ℤ → String → Action Payment
write env change prev_version provider_tx_id = do
  p' ← checked change
  end_attempt env succeeded provider_tx_id
  perform env at_update (λ down. update_conditional down p' prev_version)
  pure p'

module _ (env : Env) (input : CapturePaymentInput) where
  abbrev pub capture_settle : Payment → Reply → Action Payment
  capture_settle p (err e) = provider_refused env e
  capture_settle p (ok res) = do
    p' ←
        write env (capture p input.amount_minor (env.now at_update)) p.version
          res.provider_transaction_id
    publish_event env at_event (
        captured_event (record {
          payment_id = p'.id;
          delivery_id = p'.delivery_id;
          user_id = p'.user_id;
          amount_minor = p'.amount_minor;
          currency = p'.currency;
          captured_amount_minor = p'.captured_amount_minor;
          provider_transaction_id = res.provider_transaction_id;
          correlation_id = input.correlation_id;
          causation_id = input.payment_id;
          captured_at = env.now at_event;
        }))
    publish_event env at_completed_event (
        completed_event (record {
          payment_id = p'.id;
          delivery_id = p'.delivery_id;
          user_id = p'.user_id;
          amount_minor = p'.amount_minor;
          currency = p'.currency;
          captured_amount_minor = p'.captured_amount_minor;
          provider_transaction_id = res.provider_transaction_id;
          correlation_id = input.correlation_id;
          causation_id = input.payment_id;
          captured_at = env.now at_event;
        }))
    publish_realtime env p'
    pure p'

  unfoldable pub capture_payment : Action Payment
  capture_payment = do
    p ← perform env at_find (λ down. payment_find_by_id down input.payment_id)
    require (can_capture p) (domain not_captureable)
    start_attempt env p.id "CAPTURE" (str_append input.idempotency_key "-cap")
    capture_settle p (
        env.capture_reply (record {
          provider_payment_id = p.provider_payment_id;
          amount_minor = input.amount_minor;
          idempotency_key = input.idempotency_key;
        }))

module _ (env : Env) (input : AuthorizePaymentInput) where
  abbrev pub authorize_settle : Payment → Reply → Action Payment
  authorize_settle p (err e) = provider_refused env e
  authorize_settle p (ok res) = do
    p' ←
        write env
          (authorize p res.provider_payment_id res.client_secret p.amount_minor (env.now at_update))
          p.version res.provider_transaction_id
    publish_event env at_event (
        authorized_event (record {
          payment_id = p'.id;
          delivery_id = p'.delivery_id;
          user_id = p'.user_id;
          amount_minor = p'.amount_minor;
          currency = p'.currency;
          authorized_amount_minor = p'.authorized_amount_minor;
          provider_payment_id = res.provider_payment_id;
          correlation_id = input.correlation_id;
          causation_id = input.payment_id;
          authorized_at = env.now at_event;
        }))
    publish_realtime env p'
    pure p'

  unfoldable pub authorize_payment : Action Payment
  authorize_payment = do
    p ← perform env at_find (λ down. payment_find_by_id down input.payment_id)
    require (can_authorize p) (domain invalid_status)
    start_attempt env p.id "AUTHORIZE" (str_append input.idempotency_key "-auth")
    authorize_settle p (
        env.authorize_reply (record {
          payment_id = p.id;
          amount_minor = p.amount_minor;
          currency = p.currency;
          idempotency_key = input.idempotency_key;
          description = str_append "Delivery " p.delivery_id;
        }))

module _ (env : Env) (payment_id idempotency_key : String) where
  -- The source leaves the other fields of the payload at their zero values.
  abbrev pub cancel_settle : Payment → Reply → Action Payment
  cancel_settle p (err e) = provider_refused env e
  cancel_settle p (ok res) = do
    p' ← write env (cancel p (env.now at_update)) p.version res.provider_transaction_id
    publish_event env at_event (
        cancelled_event (record {
          payment_id = p'.id;
          delivery_id = p'.delivery_id;
          user_id = p'.user_id;
          amount_minor = pos 0;
          currency = "";
          correlation_id = "";
          causation_id = "";
          cancelled_at = env.now at_event;
        }))
    publish_realtime env p'
    pure p'

  unfoldable pub cancel_authorization : Action Payment
  cancel_authorization = do
    p ← perform env at_find (λ down. payment_find_by_id down payment_id)
    require (can_cancel p) (domain invalid_status)
    start_attempt env p.id "CANCEL" (str_append idempotency_key "-void")
    cancel_settle p (
        env.void_reply (record {
          provider_payment_id = p.provider_payment_id;
          idempotency_key = idempotency_key;
        }))
