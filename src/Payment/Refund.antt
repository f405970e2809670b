-- ===== src/Payment/Refund.antt =====
-- services/payment-service/internal/domain/refund.go and attempt.go: the records beside a payment.
use text.Mathlib.Text.{◌==◌ as str_eq}
use realtime_delivery_micros.Prelude.{
  ℕ, String, Bool, true, false, Option, none, some, if◌then◌else◌,
}
use realtime_delivery_micros.Prelude.Int.{ℤ, pos, leb_ℤ}
use realtime_delivery_micros.Prelude.Result.{Result, ok, err}
use realtime_delivery_micros.Payment.Currency.{
  currency_text, parse_currency, RefundStatus, refund_pending, refund_completed, refund_failed,
  OperationStatus, processing, succeeded, operation_failed, unknown,
}
use realtime_delivery_micros.Payment.Domain.{PaymentError, invalid_amount, invalid_currency}

pub record Refund : Type 0 where
  pub id : String
  pub payment_id : String
  pub delivery_id : String
  pub amount_minor : ℤ
  pub currency : String
  pub status : RefundStatus
  pub reason : String
  pub provider_refund_id : String
  pub idempotency_key : String
  pub correlation_id : String
  pub causation_id : String
  pub created_at : ℕ
  pub updated_at : ℕ
  pub completed_at : Option ℕ
  pub failed_at : Option ℕ
  pub failure_reason : String

unfoldable pub new_refund :
    String
    → String
    → String
    → ℤ
    → String
    → String
    → String
    → String
    → String
    → ℕ
    → Result PaymentError Refund
new_refund id payment_id delivery_id amount currency reason key correlation_id causation_id now =
    if str_eq id ""
    then err invalid_amount
    else if leb_ℤ amount (pos 0)
    then err invalid_amount
    else elim (parse_currency currency) [
      | none ↦ err invalid_currency
      | some curr ↦ ok (record {
        id = id;
        payment_id = payment_id;
        delivery_id = delivery_id;
        amount_minor = amount;
        currency = currency_text curr;
        status = refund_pending;
        reason = reason;
        provider_refund_id = "";
        idempotency_key = key;
        correlation_id = correlation_id;
        causation_id = causation_id;
        created_at = now;
        updated_at = now;
        completed_at = none;
        failed_at = none;
        failure_reason = "";
      })
    ]

unfoldable pub complete : Refund → String → ℕ → Refund
complete r provider_refund_id now = record r {
  status = refund_completed;
  provider_refund_id = provider_refund_id;
  completed_at = some now;
  updated_at = now;
}

unfoldable pub fail_refund : Refund → String → ℕ → Refund
fail_refund r safe_reason now = record r {
  status = refund_failed;
  failure_reason = safe_reason;
  failed_at = some now;
  updated_at = now;
}

pub refund_is_terminal : Refund → Bool
refund_is_terminal r = elim r.status [ refund_pending ↦ false | _ ↦ true ]

pub record Attempt : Type 0 where
  pub id : String
  pub payment_id : String
  pub attempt_number : ℕ
  pub operation : String
  pub status : OperationStatus
  pub provider : String
  pub provider_request_id : String
  pub provider_transaction_id : String
  pub provider_idempotency_key : String
  pub error_code : String
  pub error_category : String
  pub safe_error_message : String
  pub created_at : ℕ
  pub started_at : Option ℕ
  pub completed_at : Option ℕ

unfoldable pub new_attempt : String → String → String → String → String → ℕ → ℕ → Attempt
new_attempt id payment_id operation provider key number now = record {
  id = id;
  payment_id = payment_id;
  attempt_number = number;
  operation = operation;
  status = processing;
  provider = provider;
  provider_request_id = "";
  provider_transaction_id = "";
  provider_idempotency_key = key;
  error_code = "";
  error_category = "";
  safe_error_message = "";
  created_at = now;
  started_at = some now;
  completed_at = none;
}

pub succeed : Attempt → String → ℕ → Attempt
succeed a provider_tx_id now = record a {
  status = succeeded;
  provider_transaction_id = provider_tx_id;
  completed_at = some now;
}

pub fail_attempt : Attempt → String → String → String → ℕ → Attempt
fail_attempt a error_code category safe_message now = record a {
  status = operation_failed;
  error_code = error_code;
  error_category = category;
  safe_error_message = safe_message;
  completed_at = some now;
}

pub mark_unknown : Attempt → ℕ → Attempt
mark_unknown a now = record a { status = unknown; completed_at = some now }
