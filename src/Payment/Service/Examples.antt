-- ===== src/Payment/Service/Examples.antt =====
-- services/payment-service/internal/application/services/payment_service.go: use cases on concrete
-- tables, and the theorems at them.
use realtime_delivery_micros.Prelude.{
  ◌≡◌, refl, Bool, true, false, none, some, [], ◌∷◌, arith, if◌then◌else◌,
}
use realtime_delivery_micros.Prelude.Int.{eq_ℤ, ◌+ℤ◌, pos, ◌-ℤ◌, leb_ℤ}
use realtime_delivery_micros.Prelude.Int64.{add64, sub64, wrap64}
use realtime_delivery_micros.Prelude.Result.{ok, err}
use realtime_delivery_micros.Payment.Currency.{
  authorized, captured, refunded, refund_pending, parse_currency,
}
use realtime_delivery_micros.Payment.Domain.{Payment, can_refund, remaining, invalid_amount}
use realtime_delivery_micros.Payment.Domain.Invariant.{IsValid}
use realtime_delivery_micros.Payment.Refund.{Refund, new_refund, complete}
use realtime_delivery_micros.Payment.Store.{Db, domain, find_payment, refund_create}
use realtime_delivery_micros.Prelude.Action.Gives.{Always, Gives}
use realtime_delivery_micros.Payment.Service.Env.{
  Env, Site, ProviderResult, NormalizedError, declined, Reply,
}
use realtime_delivery_micros.Payment.Service.Create.{CreatePaymentInput, create_payment}
use realtime_delivery_micros.Payment.Service.Operations.{
  CapturePaymentInput, capture_payment, AuthorizePaymentInput, authorize_payment,
  cancel_authorization,
}
use realtime_delivery_micros.Payment.Service.Refunds.{CreateRefundInput, create_refund}
use realtime_delivery_micros.Payment.Service.Validity.{Valid, IsCalm}
use realtime_delivery_micros.Payment.Service.Keeps.{
  create_payment-Gives, capture_payment-Gives, authorize_payment-Gives, cancel_authorization-Gives,
}
use realtime_delivery_micros.Payment.Service.RefundKeeps.{create_refund-Gives}
use realtime_delivery_micros.Payment.Service.RefundEffect.{
  disturbed, undisturbed, refused_refund_restores,
}
use realtime_delivery_micros.Payment.Service.CaptureLimit.{capture_past_authorized}
use realtime_delivery_micros.Payment.Service.RefundSettles.{
  completed_refund_settles, commit_is_lost,
}
use realtime_delivery_micros.Payment.Examples.{paid, returned}

abbrev success : ProviderResult
success = record {
  provider_transaction_id = "tx_1";
  provider_payment_id = "pi_1";
  status = "succeeded";
  checkout_url = "";
  client_secret = "cs_1";
}

abbrev refusal : NormalizedError
refusal = record { category = declined; message = "card declined"; retryable = false }

-- Another process empties the outbox before every statement, and the attempts cannot be written.
abbrev site_down : Site → Bool
site_down Site.at_attempt = true
site_down _ = false

abbrev env : Reply → Env
env reply = record {
  down = site_down;
  others = λ _ db. record db { outbox = [] };
  now = λ _. 50;
  payment_id = "p9";
  attempt_id = "a1";
  refund_id = "r1";
  authorize_reply = λ _. reply;
  capture_reply = λ _. reply;
  void_reply = λ _. reply;
  refund_reply = λ _. reply;
  has_nats = true;
}

env-IsCalm : (reply : Reply) → IsCalm (env reply)
env-IsCalm reply site db h = h

abbrev tables : Db
tables = record {
  payments = returned ∷ record paid { id = "p2" } ∷ [];
  refunds = [];
  attempts = [];
  outbox = [];
  processed = [];
  realtime = [];
}

abbrev creation : CreatePaymentInput
creation = record {
  delivery_id = "d9";
  user_id = "u9";
  amount_minor = pos 1200;
  currency = "USD";
  idempotency_key = "k9";
  correlation_id = "c9";
  causation_id = "";
}

create_payment-Gives_example : Gives Valid Always (create_payment (env (err refusal)) creation)
create_payment-Gives_example =
    create_payment-Gives (env (err refusal)) (env-IsCalm (err refusal)) creation (ground arith)

abbrev capturing : CapturePaymentInput
capturing = record {
  payment_id = "p2";
  amount_minor = pos 5;
  idempotency_key = "k2";
  correlation_id = "c2";
}

capture_payment-Gives_example : Gives Valid IsValid (capture_payment (env (ok success)) capturing)
capture_payment-Gives_example =
    capture_payment-Gives (env (ok success)) (env-IsCalm (ok success)) capturing

abbrev authorizing : AuthorizePaymentInput
authorizing = record { payment_id = "p2"; idempotency_key = "k2"; correlation_id = "c2" }

authorize_payment-Gives_example :
    Gives Valid IsValid (authorize_payment (env (ok success)) authorizing)
authorize_payment-Gives_example =
    authorize_payment-Gives (env (ok success)) (env-IsCalm (ok success)) authorizing

cancel_authorization-Gives_example :
    Gives Valid IsValid (cancel_authorization (env (ok success)) "p2" "k2")
cancel_authorization-Gives_example =
    cancel_authorization-Gives (env (ok success)) (env-IsCalm (ok success)) "p2" "k2"

abbrev refunding : CreateRefundInput
refunding = record {
  payment_id = "p2";
  amount_minor = pos 200;
  reason = "late";
  idempotency_key = "k3";
  correlation_id = "c3";
}

create_refund-Gives_example : Gives Valid Always (create_refund (env (ok success)) refunding)
create_refund-Gives_example =
    create_refund-Gives (env (ok success)) (env-IsCalm (ok success)) refunding

abbrev second : Payment
second = record paid { id = "p2" }

second-IsValid : IsValid second
second-IsValid = ground arith

second_found : find_payment "p2" tables.payments ≡ some second
unfolding find_payment
second_found = refl

second_can : can_refund second (pos 200) ≡ true
unfolding can_refund remaining sub64 wrap64 ◌-ℤ◌
second_can = refl

refused_refund_restores_example :
    find_payment "p2" (create_refund (undisturbed (env (err refusal))) refunding tables).1.payments
    ≡ some (record second { version = add64 (add64 (pos 4) (pos 1)) (pos 1); updated_at = 50 })
refused_refund_restores_example =
    refused_refund_restores (env (err refusal)) refunding second refusal tables second_found
      second-IsValid second_can (λ _. refl)

abbrev refund : Refund
refund = record {
  id = "r1";
  payment_id = "p2";
  delivery_id = "d1";
  amount_minor = pos 200;
  currency = "EGP";
  status = refund_pending;
  reason = "late";
  provider_refund_id = "";
  idempotency_key = "k3";
  correlation_id = "c3";
  causation_id = "p2";
  created_at = 50;
  updated_at = 50;
  completed_at = none;
  failed_at = none;
  failure_reason = "";
}

refund_made : new_refund "r1" "p2" "d1" (pos 200) "EGP" "late" "k3" "c3" "p2" 50 ≡ ok refund
unfolding new_refund parse_currency
refund_made = refl

refund_taken : (refund_create false refund tables).0 ≡ ok tt
unfolding refund_create
refund_taken = refl

completed_refund_settles_example :
    let out = create_refund (undisturbed (env (ok success))) refunding tables in
    (out.0 ≡ ok (complete refund "tx_1" 50))
    × (find_payment "p2" out.1.payments
        ≡ some (record second {
          refunded_amount_minor = add64 (pos 300) (pos 200);
          status = if leb_ℤ (pos 900) (add64 (pos 300) (pos 200)) then refunded else captured;
          version = add64 (add64 (pos 4) (pos 1)) (pos 1);
          updated_at = 50;
        }))
completed_refund_settles_example =
    completed_refund_settles (env (ok success)) refunding second refund success tables second_found
      second-IsValid second_can refund_made refund_taken (λ _. refl)

-- Another refund of the payment is reserved before the commit.
abbrev overtaken : Payment
overtaken = record second { pending_refund_minor = pos 350; version = pos 6 }

overtaken_found : find_payment "p2" (overtaken ∷ []) ≡ some overtaken
unfolding find_payment
overtaken_found = refl

overtaken_version : eq_ℤ (pos 6) (add64 (pos 4) (pos 1)) ≡ false
unfolding add64 wrap64 ◌+ℤ◌
overtaken_version = refl

commit_is_lost_example :
    let out =
      create_refund
        (disturbed (env (ok success)) (λ t. record t { payments = overtaken ∷ [] }))
        refunding
        tables in
    (out.0 ≡ ok (complete refund "tx_1" 50)) × (find_payment "p2" out.1.payments ≡ some overtaken)
commit_is_lost_example =
    commit_is_lost (env (ok success)) refunding second refund success tables
      (λ t. record t { payments = overtaken ∷ [] }) overtaken second_found second-IsValid second_can
      refund_made refund_taken (λ _. refl) (λ t h. overtaken_found) overtaken_version

abbrev awaiting : Payment
awaiting = record second {
  status = authorized;
  captured_amount_minor = pos 0;
  refunded_amount_minor = pos 0;
  pending_refund_minor = pos 0;
}

abbrev awaiting_tables : Db
awaiting_tables = record tables { payments = awaiting ∷ [] }

awaiting_found : find_payment "p2" (awaiting ∷ []) ≡ some awaiting
unfolding find_payment
awaiting_found = refl

abbrev past_authorized : CapturePaymentInput
past_authorized = record capturing { amount_minor = pos 1001 }

capture_past_authorized_example :
    let out = capture_payment (undisturbed (env (ok success))) past_authorized awaiting_tables in
    (out.0 ≡ err (domain invalid_amount)) × (out.1.payments ≡ awaiting ∷ [])
capture_past_authorized_example =
    capture_past_authorized (env (ok success)) past_authorized awaiting awaiting_tables
      awaiting_found refl refl
