-- ===== src/Payment/Webhook.antt =====
-- services/payment-service/internal/adapters/webhook/handler.go: the provider's events. Reading the
-- body, checking its signature and decoding its JSON are the libraries': an event comes with what
-- they return.
pub mod Redelivery
pub mod Completion
mod Examples
use text.Mathlib.Text.{◌==◌ as str_eq}
use realtime_delivery_micros.Prelude.{
  String, Bool, true, false, Option, none, some, List, [], ◌∷◌, if◌then◌else◌,
}
use realtime_delivery_micros.Prelude.Int.{pos}
use realtime_delivery_micros.Prelude.Int64.{add64}
use realtime_delivery_micros.Prelude.Result.{Result, ok, err}
use realtime_delivery_micros.Payment.Currency.{captured}
use realtime_delivery_micros.Payment.Domain.{
  Payment, is_captured, payment_not_found, duplicate_idempotency,
}
use realtime_delivery_micros.Payment.Events.{PaymentEvent, completed_event}
use realtime_delivery_micros.Prelude.Action.{◌>>=◌, ◌>>◌, pure, raise, ignore, handling}
use realtime_delivery_micros.Payment.Store.{
  ServiceError, domain, database, undecodable, Action, payment_find_by_id, update_conditional,
  outbox_insert, insert_processed_provider_event,
}
use realtime_delivery_micros.Payment.Service.Env.{
  Env, Site, at_find, at_update, at_event, at_processed, at_provider_find, perform,
}

-- What the handlers read of a checkout session or a payment intent: its identifier, the metadata's
-- `payment_id`, "" if there is none, and the identifier by which the provider knows the payment.
pub record EventObject : Type 0 where
  pub object_id : String
  pub metadata_payment_id : String
  pub payment_intent : Option String

-- A verified event; `object` is `none` where decoding fails.
pub record WebhookEvent : Type 0 where
  pub event_id : String
  pub kind : String
  pub object : Option EventObject

pub data Response : Type 0 where
  bad_request unauthorized duplicate internal_error not_processed processed : Response

first_with_provider_id : String → List Payment → Option Payment
first_with_provider_id id [] = none
first_with_provider_id id (p ∷ ps) =
    if str_eq p.provider_payment_id id then some p else first_with_provider_id id ps

-- `SELECT ... WHERE provider_payment_id = $1`
unfoldable pub payment_find_by_provider_id : Bool → String → Action Payment
unfolding first_with_provider_id
payment_find_by_provider_id down id db =
    if down then (err database, db) else elim (first_with_provider_id id db.payments) [
      | none ↦ (err (domain payment_not_found), db)
      | some p ↦ (ok p, db)
    ]

-- The payment after the assignments of `completePayment`.
abbrev pub paid_in_full : Env → Payment → Payment
paid_in_full env p = record p {
  status = captured;
  captured_amount_minor = p.amount_minor;
  authorized_amount_minor = p.amount_minor;
  captured_at = some (env.now at_update);
  authorized_at = some (env.now at_update);
  updated_at = env.now at_update;
  version = add64 p.version (pos 1);
}

module _ (env : Env) where
  -- A read whose error leaves `p` nil.
  abbrev pub found : Action Payment → Action (Option Payment)
  found m = handling m (λ _. pure none) (λ p. pure (some p))

  abbrev pub find_by_id : String → Action (Option Payment)
  find_by_id id =
      if str_eq id ""
      then pure none
      else found (perform env at_find (λ down. payment_find_by_id down id))

  abbrev pub find_by_provider : Option String → Action (Option Payment)
  find_by_provider none = pure none
  find_by_provider (some id) =
      found (perform env at_provider_find (λ down. payment_find_by_provider_id down id))

  abbrev pub or_by_provider : Option String → Option Payment → Action (Option Payment)
  or_by_provider intent none = find_by_provider intent
  or_by_provider intent (some p) = pure (some p)

  abbrev pub find_payment_of : EventObject → Option String → Action (Option Payment)
  find_payment_of object intent = find_by_id object.metadata_payment_id >>= or_by_provider intent

  -- The event in the outbox. Its envelope is plain data, whose encoding does not fail.
  abbrev pub completion_event : Payment → String → PaymentEvent
  completion_event p provider_tx_id = completed_event (record {
    payment_id = p.id;
    delivery_id = p.delivery_id;
    user_id = p.user_id;
    amount_minor = p.amount_minor;
    currency = p.currency;
    captured_amount_minor = p.amount_minor;
    provider_transaction_id = provider_tx_id;
    correlation_id = p.correlation_id;
    causation_id = p.id;
    captured_at = env.now at_update;
  })

  abbrev pub capture_anyway : Payment → String → Action (Unit {0})
  capture_anyway p provider_tx_id = do
    perform env at_update (λ down. update_conditional down (paid_in_full env p) p.version)
    ignore (perform env at_event (λ down. outbox_insert down (completion_event p provider_tx_id)))

  unfoldable pub complete_payment : Payment → String → Action (Unit {0})
  complete_payment p provider_tx_id =
      if is_captured p.status then pure tt else capture_anyway p provider_tx_id

  -- A payment that is not found is passed over.
  abbrev pub complete_found : String → Option Payment → Action (Unit {0})
  complete_found tx none = pure tt
  complete_found tx (some p) = complete_payment p tx

  abbrev pub handle_checkout_session_completed : Option EventObject → Action (Unit {0})
  handle_checkout_session_completed none = raise undecodable
  handle_checkout_session_completed (some session) =
      find_payment_of session session.payment_intent >>= complete_found session.object_id

  abbrev pub handle_payment_intent_succeeded : Option EventObject → Action (Unit {0})
  handle_payment_intent_succeeded none = raise undecodable
  handle_payment_intent_succeeded (some intent) =
      find_payment_of intent (some intent.object_id) >>= complete_found intent.object_id

  -- The handlers of failed and cancelled intents and of refunds, which only decode.
  abbrev pub handle_decoded : Option EventObject → Action (Unit {0})
  handle_decoded none = raise undecodable
  handle_decoded (some _) = pure tt

  unfoldable pub process_event : WebhookEvent → Action (Unit {0})
  process_event event =
      if str_eq event.kind "checkout.session.completed"
      then handle_checkout_session_completed event.object
      else if str_eq event.kind "payment_intent.succeeded"
      then handle_payment_intent_succeeded event.object
      else if str_eq event.kind "payment_intent.payment_failed"
      then handle_decoded event.object
      else if str_eq event.kind "payment_intent.canceled"
      then handle_decoded event.object
      else if str_eq event.kind "charge.refunded"
      then handle_decoded event.object
      else pure tt

  -- The answers to an error of the statement that stores the event's identifier.
  abbrev pub refuse : ServiceError → Action Response
  refuse (domain duplicate_idempotency) = pure duplicate
  refuse _ = pure internal_error

  abbrev pub store_event : WebhookEvent → Action (Unit {0})
  store_event event = perform env at_processed (λ down.
      insert_processed_provider_event down (record {
        provider = "stripe";
        provider_event_id = event.event_id;
        event_type = event.kind;
      }))

  unfoldable pub handle_event : WebhookEvent → Action Response
  handle_event event =
      handling (store_event event) refuse
        (λ _. handling (process_event event) (λ _. pure not_processed) (λ _. pure processed))

  -- What comes before the event is known: the body, then the signature.
  unfoldable pub handle : Result Response WebhookEvent → Action Response
  handle (err response) = pure response
  handle (ok event) = handle_event event
