-- ===== src/Payment/Service/CaptureLimit.antt =====
-- payment_service.go: `CapturePayment` with an amount above the authorized one.
use Prim.Native.String.{◌++◌ as str_append}
use realtime_delivery_micros.Prelude.{◌≡◌, ap, refl, ◌∙◌, true, false, some, arith, String}
use realtime_delivery_micros.Prelude.Int.{ltb_ℤ}
use realtime_delivery_micros.Prelude.Result.{Result, ok, err}
use realtime_delivery_micros.Payment.Currency.{authorized}
use realtime_delivery_micros.Payment.Domain.{
  Payment, capture, can_capture, invalid_amount, not_captureable, provider_unknown_outcome,
}
use realtime_delivery_micros.Payment.Refund.{new_attempt}
use realtime_delivery_micros.Prelude.Action.{◌>>=◌, ignore, require}
use realtime_delivery_micros.Payment.Store.{
  Db, ServiceError, domain, provider_failed, find_payment, payment_find_by_id,
  attempt_update_status,
}
use realtime_delivery_micros.Prelude.Action.Runs.{bind_ok, bind_err}
use realtime_delivery_micros.Payment.Service.Env.{
  Env, at_find, at_attempt, at_update, timed_out, NormalizedError, CaptureRequest, Reply, perform,
  start_attempt, end_attempt,
}
use realtime_delivery_micros.Payment.Service.Operations.{
  CapturePaymentInput, capture_payment, capture_settle, write, provider_refused,
}
use realtime_delivery_micros.Payment.Service.Side.{attempt_create-Spares}
use realtime_delivery_micros.Payment.Service.RefundEffect.{undisturbed}

capture-above :
    (p : Payment) (amount : _) (now : _)
    → p.status ≡ authorized
    → ltb_ℤ p.authorized_amount_minor amount ≡ true
    → capture p amount now ≡ (p, some invalid_amount)
unfolding capture can_capture
capture-above p amount now status above = ground arith

-- The error that a caller gets by the provider's answer.
abbrev pub outcome_of : Reply → ServiceError
outcome_of (ok res) = domain invalid_amount
outcome_of (err e) = elim e.category [
  | timed_out ↦ domain provider_unknown_outcome
  | _ ↦ provider_failed e.message
]

module _ (env : Env) (input : CapturePaymentInput) where
  -- The request that the source makes of the provider, for the amount that was asked for.
  abbrev pub request_of : Payment → CaptureRequest
  request_of p = record {
    provider_payment_id = p.provider_payment_id;
    amount_minor = input.amount_minor;
    idempotency_key = input.idempotency_key;
  }

  refused-above :
      (e : NormalizedError) (db : Db)
      → let out : Result ServiceError Payment × Db = provider_refused (undisturbed env) e db in
        (out.0 ≡ err (outcome_of (err e))) × (out.1.payments ≡ db.payments)
  unfolding provider_refused end_attempt ignore perform ◌>>=◌ attempt_update_status
  refused-above e db = ground arith

  settle-above :
      (p : Payment) (reply : Reply) (db : Db)
      → p.status ≡ authorized
      → ltb_ℤ p.authorized_amount_minor input.amount_minor ≡ true
      → let out = capture_settle (undisturbed env) input p reply db in
        (out.0 ≡ err (outcome_of reply)) × (out.1.payments ≡ db.payments)
  unfolding write
  settle-above p (err e) db status above = refused-above e db
  settle-above p (ok res) db status above =
      let ends : capture_settle (undisturbed env) input p (ok res) db
          ≡ (err (domain invalid_amount), db) =
        bind_err _ _ db (
          bind_err _ _ db
            (rw (capture-above p input.amount_minor (env.now at_update) status above) refl)) in
      (ap (λ out. out.0) ends, ap (λ out. out.1.payments) ends)

  find_runs :
      (p : Payment) (db : Db)
      → find_payment input.payment_id db.payments ≡ some p
      → perform (undisturbed env) at_find (λ down. payment_find_by_id down input.payment_id) db
        ≡ (ok p, db)
  unfolding perform payment_find_by_id
  find_runs p db found = rw found refl

  require_runs :
      (p : Payment) (db : Db)
      → p.status ≡ authorized
      → require (can_capture p) (domain not_captureable) db ≡ (ok tt, db)
  unfolding can_capture
  require_runs p db status = rw status refl

  start_runs :
      (id key : String) (db : Db)
      → let out = start_attempt (undisturbed env) id "CAPTURE" key db in out ≡ (ok tt, out.1)
  unfolding start_attempt ignore
  start_runs id key db = refl

  start_spares :
      (id key : String) (db : Db)
      → (start_attempt (undisturbed env) id "CAPTURE" key db).1.payments ≡ db.payments
  unfolding start_attempt ignore perform
  start_spares id key db =
      attempt_create-Spares false
        (new_attempt env.attempt_id id "CAPTURE" "stripe" key 1 (env.now at_attempt)) db

  -- A capture above the authorized amount fails by the provider's answer to the request for the whole
  -- of it: with the error on the amount if the provider accepts, with the provider's message if it
  -- refuses, and as an unknown outcome on a timeout. In each case the payments table is as before, and
  -- the payment stays authorized. The payment is in the table and authorized, the database answers and
  -- no other process interferes.
  pub capture_past_authorized :
      (p : Payment) (db : Db)
      → find_payment input.payment_id db.payments ≡ some p
      → p.status ≡ authorized
      → ltb_ℤ p.authorized_amount_minor input.amount_minor ≡ true
      → let out = capture_payment (undisturbed env) input db in
        (out.0 ≡ err (outcome_of (env.capture_reply (request_of p))))
        × (out.1.payments ≡ db.payments)
  unfolding capture_payment
  capture_past_authorized p db found status above =
      let key = str_append input.idempotency_key "-cap" in
      let started = (start_attempt (undisturbed env) p.id "CAPTURE" key db).1 in
      let reply = env.capture_reply (request_of p) in
      let runs =
        bind_ok _ _ db {a = p} {after = db} (find_runs p db found)
        ∙ bind_ok _ _ db {a = tt} {after = db} (require_runs p db status)
        ∙ bind_ok _ _ db {a = tt} {after = started} (start_runs p.id key db) in
      let (fails, spares) = settle-above p reply started status above in
      (
        ap (λ out. out.0) runs ∙ fails,
        ap (λ out. out.1.payments) runs ∙ spares ∙ start_spares p.id key db,
      )
