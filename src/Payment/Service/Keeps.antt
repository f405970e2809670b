-- ===== src/Payment/Service/Keeps.antt =====
-- payment_service.go: each use case over the payments table.
use realtime_delivery_micros.Prelude.{◌≡◌, sym, String, Option}
use realtime_delivery_micros.Prelude.Int.{ℤ}
use realtime_delivery_micros.Prelude.Int64.{IsInt64}
use realtime_delivery_micros.Prelude.Result.{ok, err}
use realtime_delivery_micros.Payment.Currency.{succeeded, operation_failed, unknown}
use realtime_delivery_micros.Payment.Domain.{
  Payment, PaymentError, authorize, capture, cancel, fail, can_capture, can_authorize, can_cancel,
  not_captureable, invalid_status, provider_unknown_outcome,
}
use realtime_delivery_micros.Payment.Domain.Invariant.{
  IsValid, authorize-IsValid, capture-IsValid, cancel-IsValid, fail-IsValid, new_payment-IsValid,
  new_payment_amount,
}
use realtime_delivery_micros.Payment.Store.{Action, domain, provider_failed}
use realtime_delivery_micros.Prelude.Action.Gives.{
  Always, Gives, >>=-Gives, ignore-Gives, then-Gives, raise-Gives, pure-Gives, require-Gives,
}
use realtime_delivery_micros.Payment.Service.Env.{
  Env, at_create, at_created_event, at_update, at_event, at_completed_event, ErrorCategory,
  timed_out, NormalizedError, ProviderResult, Reply,
}
use realtime_delivery_micros.Payment.Service.Create.{
  CreatePaymentInput, create_payment, settle, refused, accepted,
}
use realtime_delivery_micros.Payment.Service.Operations.{
  provider_refused, write, CapturePaymentInput, capture_payment, capture_settle,
  AuthorizePaymentInput, authorize_payment, authorize_settle, cancel_authorization, cancel_settle,
}
use realtime_delivery_micros.Payment.Service.Validity.{
  Valid, IsCalm, payment_create-Gives, lift-Gives, checked-Gives, perform-Gives, find-Gives,
  update-Gives,
}
use realtime_delivery_micros.Payment.Service.Side.{
  dropped-Gives, outbox_insert-Spares, start_attempt-Gives, end_attempt-Gives, publish_event-Gives,
  publish_realtime-Gives,
}

module _ (env : Env) (calm : IsCalm env) where
  -- By the two cases of an error's category.
  category_step :
      {A : Type 0} {P : A → Type 0} (m n : Action A) (c : ErrorCategory)
      → Gives Valid P m
      → Gives Valid P n
      → Gives Valid P (elim c [ timed_out ↦ m | _ ↦ n ])
  category_step m n timed_out h k = h
  category_step m n _ h k = k

  provider_refused-Gives :
      {P : Payment → Type 0} (e : NormalizedError) → Gives Valid P (provider_refused env e)
  unfolding provider_refused
  provider_refused-Gives e =
      category_step _ _ e.category
        (then-Gives (end_attempt-Gives env calm unknown "")
          (λ _. raise-Gives (domain provider_unknown_outcome)))
        (then-Gives (end_attempt-Gives env calm operation_failed "")
          (λ _. raise-Gives (provider_failed e.message)))

  write-Gives :
      (change : Payment × Option PaymentError) (expected : ℤ) (tx : String)
      → IsValid change.0
      → Gives Valid IsValid (write env change expected tx)
  unfolding write
  write-Gives change expected tx v = >>=-Gives (checked-Gives change v) (λ p' v'.
      then-Gives (end_attempt-Gives env calm succeeded tx)
        (λ _. then-Gives (update-Gives env calm at_update p' expected v') (λ _. pure-Gives v')))

  module _ (input : CapturePaymentInput) where
    capture_settle-Gives :
        (p : Payment) (reply : Reply)
        → IsValid p
        → Gives Valid IsValid (capture_settle env input p reply)
    capture_settle-Gives p (err e) v = provider_refused-Gives e
    capture_settle-Gives p (ok res) v =
        >>=-Gives
          (write-Gives (capture p input.amount_minor (env.now at_update)) p.version _
            (capture-IsValid p _ _ v))
          (λ p' v'. then-Gives (publish_event-Gives env calm at_event _) (λ _.
            then-Gives (publish_event-Gives env calm at_completed_event _)
              (λ _. then-Gives (publish_realtime-Gives env calm p') (λ _. pure-Gives v'))))

    -- While the other processes keep the payments table valid, `CapturePayment` keeps it valid, and
    -- a payment it returns is valid, whatever the provider answers and whichever statements fail.
    pub capture_payment-Gives : Gives Valid IsValid (capture_payment env input)
    unfolding capture_payment
    capture_payment-Gives = >>=-Gives (find-Gives env calm input.payment_id) (λ p v.
        then-Gives (require-Gives (can_capture p) (domain not_captureable)) (λ _.
          then-Gives (start_attempt-Gives env calm p.id "CAPTURE" _)
            (λ _. capture_settle-Gives p _ v)))

  module _ (input : AuthorizePaymentInput) where
    authorize_settle-Gives :
        (p : Payment) (reply : Reply)
        → IsValid p
        → Gives Valid IsValid (authorize_settle env input p reply)
    authorize_settle-Gives p (err e) v = provider_refused-Gives e
    authorize_settle-Gives p (ok res) v =
        >>=-Gives
          (write-Gives (authorize p _ _ p.amount_minor (env.now at_update)) p.version _
            (authorize-IsValid p _ _ _ _ v.amount_positive.0 v))
          (λ p' v'.
            then-Gives (publish_event-Gives env calm at_event _)
              (λ _. then-Gives (publish_realtime-Gives env calm p') (λ _. pure-Gives v')))

    -- While the other processes keep the payments table valid, `AuthorizePayment` keeps it valid,
    -- and a payment it returns is valid, whatever the provider answers and whichever statements fail.
    pub authorize_payment-Gives : Gives Valid IsValid (authorize_payment env input)
    unfolding authorize_payment
    authorize_payment-Gives = >>=-Gives (find-Gives env calm input.payment_id) (λ p v.
        then-Gives (require-Gives (can_authorize p) (domain invalid_status)) (λ _.
          then-Gives (start_attempt-Gives env calm p.id "AUTHORIZE" _)
            (λ _. authorize_settle-Gives p _ v)))

  module _ (payment_id idempotency_key : String) where
    cancel_settle-Gives :
        (p : Payment) (reply : Reply)
        → IsValid p
        → Gives Valid IsValid (cancel_settle env payment_id idempotency_key p reply)
    cancel_settle-Gives p (err e) v = provider_refused-Gives e
    cancel_settle-Gives p (ok res) v =
        >>=-Gives (write-Gives (cancel p (env.now at_update)) p.version _ (cancel-IsValid p _ v))
          (λ p' v'.
            then-Gives (publish_event-Gives env calm at_event _)
              (λ _. then-Gives (publish_realtime-Gives env calm p') (λ _. pure-Gives v')))

    -- While the other processes keep the payments table valid, `CancelAuthorization` keeps it valid,
    -- and a payment it returns is valid, whatever the provider answers and whichever statements fail.
    pub cancel_authorization-Gives :
        Gives Valid IsValid (cancel_authorization env payment_id idempotency_key)
    unfolding cancel_authorization
    cancel_authorization-Gives = >>=-Gives (find-Gives env calm payment_id) (λ p v.
        then-Gives (require-Gives (can_cancel p) (domain invalid_status)) (λ _.
          then-Gives (start_attempt-Gives env calm p.id "CANCEL" _)
            (λ _. cancel_settle-Gives p _ v)))

  module _ (input : CreatePaymentInput) where
    accepted-Gives :
        (p : Payment) (res : ProviderResult)
        → IsValid p
        → p.amount_minor ≡ input.amount_minor
        → Gives Valid Always (accepted env input p res)
    unfolding accepted
    accepted-Gives p res v same =
        >>=-Gives
          (checked-Gives (authorize p _ _ input.amount_minor (env.now at_update))
            (authorize-IsValid p _ _ _ _ (rw (sym same) v.amount_positive.0) v))
          (λ p' v'. then-Gives (end_attempt-Gives env calm succeeded _) (λ _.
            then-Gives (update-Gives env calm at_update p' _ v') (λ _.
              then-Gives (publish_event-Gives env calm at_event _)
                (λ _. then-Gives (publish_realtime-Gives env calm p') (λ _. pure-Gives tt)))))

    refused-Gives :
        (p : Payment) (e : NormalizedError) → IsValid p → Gives Valid Always (refused env input p e)
    unfolding refused
    refused-Gives p e v =
        category_step _ _ e.category
          (then-Gives (end_attempt-Gives env calm unknown "") (λ _. pure-Gives tt))
          (then-Gives (end_attempt-Gives env calm operation_failed "") (λ _.
            then-Gives
              (ignore-Gives (
                update-Gives env calm at_update (fail p (env.now at_update)).0 _
                  (fail-IsValid p _ v)))
              (λ _. raise-Gives (provider_failed e.message))))

    settle-Gives :
        (p : Payment) (reply : Reply)
        → IsValid p
        → p.amount_minor ≡ input.amount_minor
        → Gives Valid Always (settle env input p reply)
    settle-Gives p (err e) v same = refused-Gives p e v
    settle-Gives p (ok res) v same = accepted-Gives p res v same

    -- While the other processes keep the payments table valid, `CreatePayment` with an int64 amount
    -- keeps it valid, whatever the provider answers and whichever statements fail.
    pub create_payment-Gives :
        IsInt64 input.amount_minor → Gives Valid Always (create_payment env input)
    unfolding create_payment
    create_payment-Gives range =
        >>=-Gives {P = λ (p : Payment). IsValid p × (p.amount_minor ≡ input.amount_minor)}
          (lift-Gives (λ p made. (
            new_payment-IsValid _ _ _ input.amount_minor _ _ _ _ range made,
            new_payment_amount _ _ _ input.amount_minor _ _ _ _ made,
          )))
          (λ p v.
            then-Gives (perform-Gives env calm at_create (λ down. payment_create-Gives down p v.0))
              (λ _.
                then-Gives
                  (dropped-Gives env calm at_created_event _ (λ down. outbox_insert-Spares down _))
                  (λ _.
                    then-Gives (start_attempt-Gives env calm env.payment_id "AUTHORIZE" _)
                      (λ _. settle-Gives p _ v.0 v.1))))
