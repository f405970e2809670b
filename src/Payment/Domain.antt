-- ===== src/Payment/Domain.antt =====
-- services/payment-service/internal/domain/payment.go and errors.go: the payment aggregate. A method
-- takes the time that `time.Now` gives it and returns the aggregate as the call leaves it, with its
-- error, `none` for nil.
pub mod Invariant
pub mod Transitions
use text.Mathlib.Text.{◌==◌ as str_eq}
use realtime_delivery_micros.Prelude.{
  ℕ, String, Bool, true, false, ◌&&◌, ◌||◌, not, Option, none, some, if◌then◌else◌,
}
use realtime_delivery_micros.Prelude.Int.{ℤ, pos, ltb_ℤ, leb_ℤ}
use realtime_delivery_micros.Prelude.Int64.{add64, sub64}
use realtime_delivery_micros.Prelude.Result.{Result, ok, err}
use realtime_delivery_micros.Payment.Currency.{
  Currency, currency_text, parse_currency, PaymentStatus, pending, authorized, captured, cancelled,
  failed, refunded,
}

pub data PaymentError : Type 0 where
  payment_not_found invalid_status payment_amount_invalid : PaymentError
  not_captureable not_refundable already_refunded : PaymentError
  invalid_currency invalid_amount currency_mismatch : PaymentError
  timeout concurrent_modification duplicate_idempotency : PaymentError
  provider_unknown_outcome refund_not_found : PaymentError

pub record Payment : Type 0 where
  pub id : String
  pub delivery_id : String
  pub user_id : String
  pub amount_minor : ℤ
  pub currency : String
  pub status : PaymentStatus
  pub provider : String
  pub provider_payment_id : String
  pub gateway_session_id : String
  pub authorized_amount_minor : ℤ
  pub captured_amount_minor : ℤ
  pub refunded_amount_minor : ℤ
  pub pending_refund_minor : ℤ
  pub version : ℤ
  pub correlation_id : String
  pub causation_id : String
  pub created_at : ℕ
  pub updated_at : ℕ
  pub authorized_at : Option ℕ
  pub captured_at : Option ℕ
  pub cancelled_at : Option ℕ
  pub failed_at : Option ℕ

-- The composite literal at the end of `NewPayment`.
abbrev pub fresh_payment : String → String → String → ℤ → Currency → String → String → ℕ → Payment
fresh_payment id delivery_id user_id amount curr correlation_id causation_id now = record {
  id = id;
  delivery_id = delivery_id;
  user_id = user_id;
  amount_minor = amount;
  currency = currency_text curr;
  status = pending;
  provider = "stripe";
  provider_payment_id = "";
  gateway_session_id = "";
  authorized_amount_minor = pos 0;
  captured_amount_minor = pos 0;
  refunded_amount_minor = pos 0;
  pending_refund_minor = pos 0;
  version = pos 0;
  correlation_id = correlation_id;
  causation_id = causation_id;
  created_at = now;
  updated_at = now;
  authorized_at = none;
  captured_at = none;
  cancelled_at = none;
  failed_at = none;
}

unfoldable pub new_payment :
    String → String → String → ℤ → String → String → String → ℕ → Result PaymentError Payment
new_payment id delivery_id user_id amount currency correlation_id causation_id now =
    if str_eq id ""
    then err payment_amount_invalid
    else if leb_ℤ amount (pos 0)
    then err invalid_amount
    else elim (parse_currency currency) [
      | none ↦ err invalid_currency
      | some curr ↦
          ok (fresh_payment id delivery_id user_id amount curr correlation_id causation_id now)
    ]

abbrev pub is_pending : PaymentStatus → Bool
is_pending pending = true
is_pending _ = false

abbrev pub is_authorized : PaymentStatus → Bool
is_authorized authorized = true
is_authorized _ = false

abbrev pub is_captured : PaymentStatus → Bool
is_captured captured = true
is_captured _ = false

unfoldable pub can_authorize : Payment → Bool
can_authorize p = is_pending p.status

unfoldable pub can_capture : Payment → Bool
can_capture p = is_authorized p.status

unfoldable pub can_cancel : Payment → Bool
can_cancel p = is_pending p.status || is_authorized p.status

unfoldable pub remaining : Payment → ℤ
remaining p = sub64 (sub64 p.captured_amount_minor p.refunded_amount_minor) p.pending_refund_minor

unfoldable pub can_refund : Payment → ℤ → Bool
can_refund p amount = is_captured p.status && (ltb_ℤ (pos 0) amount && leb_ℤ amount (remaining p))

unfoldable pub authorize : Payment → String → String → ℤ → ℕ → Payment × Option PaymentError
unfolding can_authorize
authorize p provider_payment_id client_secret amount now =
    if not (can_authorize p) then (p, some invalid_status) else (
      record p {
        status = authorized;
        provider_payment_id = provider_payment_id;
        gateway_session_id = client_secret;
        authorized_amount_minor = amount;
        authorized_at = some now;
        updated_at = now;
        version = add64 p.version (pos 1);
      },
      none,
    )

unfoldable pub capture : Payment → ℤ → ℕ → Payment × Option PaymentError
unfolding can_capture
capture p amount now =
    if not (can_capture p)
    then (p, some invalid_status)
    else if leb_ℤ amount (pos 0) || ltb_ℤ p.authorized_amount_minor amount
    then (p, some invalid_amount)
    else (
      record p {
        status = captured;
        captured_amount_minor = amount;
        captured_at = some now;
        updated_at = now;
        version = add64 p.version (pos 1);
      },
      none,
    )

unfoldable pub cancel : Payment → ℕ → Payment × Option PaymentError
unfolding can_cancel
cancel p now = if not (can_cancel p) then (p, some invalid_status) else (
  record p {
    status = cancelled;
    cancelled_at = some now;
    updated_at = now;
    version = add64 p.version (pos 1);
  },
  none,
)

-- The statuses that `Fail` refuses.
abbrev pub refuses_fail : PaymentStatus → Bool
refuses_fail captured = true
refuses_fail cancelled = true
refuses_fail failed = true
refuses_fail _ = false

unfoldable pub fail : Payment → ℕ → Payment × Option PaymentError
fail p now = if refuses_fail p.status then (p, some invalid_status) else (
  record p {
    status = failed;
    failed_at = some now;
    updated_at = now;
    version = add64 p.version (pos 1);
  },
  none,
)

unfoldable pub reserve_refund : Payment → ℤ → ℕ → Payment × Option PaymentError
reserve_refund p amount now = if not (can_refund p amount) then (p, some not_refundable) else (
  record p {
    pending_refund_minor = add64 p.pending_refund_minor amount;
    updated_at = now;
    version = add64 p.version (pos 1);
  },
  none,
)

unfoldable pub commit_refund : Payment → ℤ → ℕ → Payment × Option PaymentError
commit_refund p amount now =
    if ltb_ℤ p.pending_refund_minor amount
    then (p, some not_refundable)
    else let total = add64 p.refunded_amount_minor amount in
      (
        record p {
          pending_refund_minor = sub64 p.pending_refund_minor amount;
          refunded_amount_minor = total;
          status = if leb_ℤ p.captured_amount_minor total then refunded else p.status;
          updated_at = now;
          version = add64 p.version (pos 1);
        },
        none,
      )

unfoldable pub release_refund_reservation : Payment → ℤ → ℕ → Payment × Option PaymentError
release_refund_reservation p amount now =
    if ltb_ℤ p.pending_refund_minor amount then (p, some not_refundable) else (
      record p {
        pending_refund_minor = sub64 p.pending_refund_minor amount;
        updated_at = now;
        version = add64 p.version (pos 1);
      },
      none,
    )

unfoldable pub is_terminal : Payment → Bool
is_terminal p = elim p.status [ pending ↦ false | authorized ↦ false | _ ↦ true ]
