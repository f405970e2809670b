-- ===== src/Payment/Service/Create.antt =====
-- payment_service.go: `CreatePayment`. The source's in-memory attempt is not read again after the
-- statements on its row, so only those stand here; the same holds for the other use cases.
use mathlib.Core.Bool.{Bool}
use Prim.Native.String.{◌++◌ as str_append}
use realtime_delivery_micros.Prelude.{String, Option, none, some}
use realtime_delivery_micros.Prelude.Int.{ℤ, pos}
use realtime_delivery_micros.Prelude.Result.{ok, err}
use realtime_delivery_micros.Payment.Currency.{PaymentStatus, succeeded, operation_failed, unknown}
use realtime_delivery_micros.Payment.Domain.{
  Payment, new_payment, authorize, fail, provider_unknown_outcome,
}
use realtime_delivery_micros.Payment.Events.{created_event, authorized_event}
use realtime_delivery_micros.Prelude.Action.{◌>>=◌, ◌>>◌, pure, raise, ignore}
use realtime_delivery_micros.Payment.Store.{
  ServiceError, domain, provider_failed, Action, payment_create, update_conditional, outbox_insert,
}
use realtime_delivery_micros.Payment.Service.Env.{
  Env, Site, at_create, at_created_event, at_update, at_event, timed_out, NormalizedError,
  ProviderResult, Reply, perform, lift, checked, start_attempt, end_attempt, publish_event,
  publish_realtime,
}

pub record CreatePaymentInput : Type 0 where
  pub delivery_id : String
  pub user_id : String
  pub amount_minor : ℤ
  pub currency : String
  pub idempotency_key : String
  pub correlation_id : String
  pub causation_id : String

pub record CreatePaymentResult : Type 0 where
  pub payment_id : String
  pub status : PaymentStatus
  pub client_secret : String
  pub checkout_url : String

-- The result of a call that can return a value and an error together.
abbrev pub Created : Type 0
Created = CreatePaymentResult × Option ServiceError

module _ (env : Env) (input : CreatePaymentInput) where
  abbrev pub created_payload : Payment → Site → Bool → Action (Unit {0})
  created_payload p site down = outbox_insert down (
      created_event (record {
        payment_id = env.payment_id;
        delivery_id = input.delivery_id;
        user_id = input.user_id;
        amount_minor = input.amount_minor;
        currency = input.currency;
        status = p.status;
        correlation_id = input.correlation_id;
        causation_id = input.causation_id;
        created_at = env.now site;
      }))

  -- The branch `authErr != nil`.
  unfoldable pub refused : Payment → NormalizedError → Action Created
  refused p e = elim e.category [
    | timed_out ↦ do
      end_attempt env unknown ""
      pure (
        record {
          payment_id = env.payment_id;
          status = p.status;
          client_secret = "";
          checkout_url = "";
        },
        some (domain provider_unknown_outcome),
      )
    | _ ↦ do
      end_attempt env operation_failed ""
      let (failed', _) = fail p (env.now at_update)
      ignore (perform env at_update (λ down. update_conditional down failed' (pos 0)))
      raise (provider_failed e.message)
  ]

  unfoldable pub accepted : Payment → ProviderResult → Action Created
  accepted p res = do
    authorized' ← checked (
        authorize p res.provider_payment_id res.client_secret input.amount_minor
          (env.now at_update))
    end_attempt env succeeded res.provider_transaction_id
    perform env at_update (λ down. update_conditional down authorized' (pos 0))
    publish_event env at_event (
        authorized_event (record {
          payment_id = env.payment_id;
          delivery_id = input.delivery_id;
          user_id = input.user_id;
          amount_minor = input.amount_minor;
          currency = input.currency;
          authorized_amount_minor = authorized'.authorized_amount_minor;
          provider_payment_id = res.provider_payment_id;
          correlation_id = input.correlation_id;
          causation_id = env.payment_id;
          authorized_at = env.now at_event;
        }))
    publish_realtime env authorized'
    pure (
      record {
        payment_id = env.payment_id;
        status = authorized'.status;
        client_secret = res.client_secret;
        checkout_url = res.checkout_url;
      },
      none,
    )

  abbrev pub settle : Payment → Reply → Action Created
  settle p (ok res) = accepted p res
  settle p (err e) = refused p e

  unfoldable pub create_payment : Action Created
  unfolding refused accepted
  create_payment = do
    p ← lift (
        new_payment env.payment_id input.delivery_id input.user_id input.amount_minor input.currency
          input.correlation_id input.causation_id (env.now at_create))
    perform env at_create (λ down. payment_create down p)
    ignore (perform env at_created_event (created_payload p at_created_event))
    start_attempt env env.payment_id "AUTHORIZE" (str_append input.idempotency_key "-auth")
    settle p (
        env.authorize_reply (record {
          payment_id = env.payment_id;
          amount_minor = input.amount_minor;
          currency = input.currency;
          idempotency_key = input.idempotency_key;
          description = str_append "Delivery " input.delivery_id;
        }))
