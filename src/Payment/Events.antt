-- ===== src/Payment/Events.antt =====
-- packages/go/events/payment_events.go: the payloads that the service publishes.
use realtime_delivery_micros.Prelude.{ℕ, String}
use realtime_delivery_micros.Prelude.Int.{ℤ}
use realtime_delivery_micros.Payment.Currency.{PaymentStatus}

pub record CreatedPayload : Type 0 where
  pub payment_id : String
  pub delivery_id : String
  pub user_id : String
  pub amount_minor : ℤ
  pub currency : String
  pub status : PaymentStatus
  pub correlation_id : String
  pub causation_id : String
  pub created_at : ℕ

pub record AuthorizedPayload : Type 0 where
  pub payment_id : String
  pub delivery_id : String
  pub user_id : String
  pub amount_minor : ℤ
  pub currency : String
  pub authorized_amount_minor : ℤ
  pub provider_payment_id : String
  pub correlation_id : String
  pub causation_id : String
  pub authorized_at : ℕ

pub record CapturedPayload : Type 0 where
  pub payment_id : String
  pub delivery_id : String
  pub user_id : String
  pub amount_minor : ℤ
  pub currency : String
  pub captured_amount_minor : ℤ
  pub provider_transaction_id : String
  pub correlation_id : String
  pub causation_id : String
  pub captured_at : ℕ

pub record CancelledPayload : Type 0 where
  pub payment_id : String
  pub delivery_id : String
  pub user_id : String
  pub amount_minor : ℤ
  pub currency : String
  pub correlation_id : String
  pub causation_id : String
  pub cancelled_at : ℕ

pub record RefundedPayload : Type 0 where
  pub payment_id : String
  pub delivery_id : String
  pub user_id : String
  pub amount_minor : ℤ
  pub refunded_amount_minor : ℤ
  pub currency : String
  pub provider_refund_id : String
  pub correlation_id : String
  pub causation_id : String
  pub refunded_at : ℕ

-- An event type with its payload. `payment.captured` and `payment.completed` share a payload type.
pub data PaymentEvent : Type 0 where
  created_event : CreatedPayload → PaymentEvent
  authorized_event : AuthorizedPayload → PaymentEvent
  captured_event : CapturedPayload → PaymentEvent
  completed_event : CapturedPayload → PaymentEvent
  cancelled_event : CancelledPayload → PaymentEvent
  refunded_event : RefundedPayload → PaymentEvent

pub event_type : PaymentEvent → String
event_type (created_event _) = "payment.created"
event_type (authorized_event _) = "payment.authorized"
event_type (captured_event _) = "payment.captured"
event_type (completed_event _) = "payment.completed"
event_type (cancelled_event _) = "payment.cancelled"
event_type (refunded_event _) = "payment.refunded"
