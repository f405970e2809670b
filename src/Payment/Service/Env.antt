-- ===== src/Payment/Service/Env.antt =====
-- What a use case meets around it: the provider (services/payment-service/internal/ports), the
-- clock, new identifiers, database failures, and what other processes do to the tables in between.
-- Every statement of a use case has a site of its own.
use realtime_delivery_micros.Prelude.{
  ℕ, String, Bool, Option, none, some, ◌++◌, [], ◌∷◌, if◌then◌else◌,
}
use realtime_delivery_micros.Prelude.Int.{ℤ}
use realtime_delivery_micros.Prelude.Result.{Result, ok, err}
use realtime_delivery_micros.Payment.Currency.{OperationStatus}
use realtime_delivery_micros.Payment.Domain.{Payment, PaymentError}
use realtime_delivery_micros.Payment.Refund.{new_attempt}
use realtime_delivery_micros.Payment.Events.{PaymentEvent}
use realtime_delivery_micros.Prelude.Action.{ignore}
use realtime_delivery_micros.Payment.Store.{
  Db, StatusUpdate, domain, Action, attempt_create, attempt_update_status, outbox_insert,
}

pub data ErrorCategory : Type 0 where
  temporary permanent declined auth_error rate_limited timed_out uncategorized : ErrorCategory

pub record ProviderResult : Type 0 where
  pub provider_transaction_id : String
  pub provider_payment_id : String
  pub status : String
  pub checkout_url : String
  pub client_secret : String

pub record NormalizedError : Type 0 where
  pub category : ErrorCategory
  pub message : String
  pub retryable : Bool

pub record AuthorizeRequest : Type 0 where
  pub payment_id : String
  pub amount_minor : ℤ
  pub currency : String
  pub idempotency_key : String
  pub description : String

pub record CaptureRequest : Type 0 where
  pub provider_payment_id : String
  pub amount_minor : ℤ
  pub idempotency_key : String

pub record VoidRequest : Type 0 where
  pub provider_payment_id : String
  pub idempotency_key : String

pub record RefundRequest : Type 0 where
  pub provider_payment_id : String
  pub amount_minor : ℤ
  pub reason : String
  pub idempotency_key : String

abbrev pub Reply : Type 0
Reply = Result NormalizedError ProviderResult

-- The statements, in the order in which the use cases come to them.
pub data Site : Type 0 where
  at_find at_create at_created_event at_attempt at_attempt_result at_update : Site
  at_event at_completed_event at_realtime at_processed at_provider_find : Site
  at_refund_create at_refund_status at_release at_commit : Site

pub record Env : Type 0 where
  pub down : Site → Bool
  pub others : Site → Db → Db
  pub now : Site → ℕ
  pub payment_id : String
  pub attempt_id : String
  pub refund_id : String
  pub authorize_reply : AuthorizeRequest → Reply
  pub capture_reply : CaptureRequest → Reply
  pub void_reply : VoidRequest → Reply
  pub refund_reply : RefundRequest → Reply
  pub has_nats : Bool

-- A statement: first the other processes, then the database, which may fail it.
unfoldable pub perform : {A : Type 0} → Env → Site → (Bool → Action A) → Action A
perform env site statement db = statement (env.down site) (env.others site db)

abbrev pub lift : {A : Type 0} → Result PaymentError A → Action A
lift (ok a) db = (ok a, db)
lift (err e) db = (err (domain e), db)

-- `if err := payment.Method(...); err != nil { return nil, err }`
abbrev pub checked : Payment × Option PaymentError → Action Payment
checked (p, none) db = (ok p, db)
checked (p, some e) db = (err (domain e), db)

-- `s.attemptRepo.Create` with its error dropped.
unfoldable pub start_attempt : Env → String → String → String → Action (Unit {0})
start_attempt env payment_id operation key = ignore (
    perform env at_attempt (λ down.
      attempt_create down
        (new_attempt env.attempt_id payment_id operation "stripe" key 1 (env.now at_attempt))))

-- `s.attemptRepo.UpdateStatus` with its error dropped.
unfoldable pub end_attempt : Env → OperationStatus → String → Action (Unit {0})
end_attempt env status provider_tx_id = ignore (
    perform env at_attempt_result (λ down.
      attempt_update_status down env.attempt_id status provider_tx_id (env.now at_attempt_result)))

-- `publishEvent` with its error dropped.
unfoldable pub publish_event : Env → Site → PaymentEvent → Action (Unit {0})
publish_event env site event = ignore (perform env site (λ down. outbox_insert down event))

unfoldable pub send_update : Bool → StatusUpdate → Action (Unit {0})
send_update down update db =
    (ok tt, if down then db else record db { realtime = db.realtime ++ (update ∷ []) })

unfoldable pub publish_realtime : Env → Payment → Action (Unit {0})
unfolding send_update
publish_realtime env p db =
    if env.has_nats
    then perform env at_realtime
        (λ down. send_update down (record {
          payment_id = p.id;
          delivery_id = p.delivery_id;
          user_id = p.user_id;
          status = p.status;
          updated_at = env.now at_realtime;
        }))
        db
    else (ok tt, db)
