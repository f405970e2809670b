-- ===== src/Payment/Service/RefundEffect.antt =====
-- payment_service.go: what `CreateRefund` leaves in the payment's row when the database answers and
-- no other process interferes.
use mathlib.Core.Path.{subst}
use realtime_delivery_micros.Prelude.{ℕ, ◌≡◌, refl, sym, ◌∙◌, none, some, true, false, arith}
use realtime_delivery_micros.Prelude.Int.{ℤ, pos, eq_ℤ, eq_ℤ_refl, eq_of_parts, ltb_ℤ, ◌+ℤ◌, ◌-ℤ◌}
use realtime_delivery_micros.Prelude.Int64.{
  IsInt64, wrap64, IsAmount, add64-IsInt64, add64, sub64, add64_parts, sub64_parts,
}
use realtime_delivery_micros.Prelude.Result.{Result, ok, err}
use realtime_delivery_micros.Payment.Domain.{
  Payment, PaymentError, can_refund, reserve_refund, release_refund_reservation,
}
use realtime_delivery_micros.Payment.Domain.Invariant.{IsValid, can_refund_iff}
use realtime_delivery_micros.Payment.Service.Side.{refund_create-Spares}
use realtime_delivery_micros.Payment.Currency.{refund_failed}
use realtime_delivery_micros.Payment.Refund.{Refund, new_refund}
use realtime_delivery_micros.Prelude.Action.{◌>>=◌, ignore, handling}
use realtime_delivery_micros.Payment.Store.{
  Db, ServiceError, Action, domain, find_payment, payment_find_by_id, update_conditional,
  refund_create, refund_update_status,
}
use realtime_delivery_micros.Payment.Store.Rows.{update_conditional-writes, find_payment-id}
use realtime_delivery_micros.Prelude.Action.Runs.{bind_ok}
use realtime_delivery_micros.Payment.Service.Env.{
  Env, Site, at_commit, at_update, at_refund_create, at_refund_status, at_release, Reply, perform,
  NormalizedError, RefundRequest,
}
use realtime_delivery_micros.Payment.Service.Refunds.{
  CreateRefundInput, create_refund, release, refund_settle, after_refund_row, persist_refund,
  with_refund,
}

abbrev pub before_commit : (Db → Db) → Site → Db → Db
before_commit other at_commit db = other db
before_commit other _ db = db

-- The environment with a database that answers, and another process before the commit only.
abbrev pub disturbed : Env → (Db → Db) → Env
disturbed env other = record env { down = λ _. false; others = before_commit other }

-- The environment with a database that answers and no other process.
abbrev pub undisturbed : Env → Env
undisturbed env = disturbed env (λ db. db)

abbrev pub reserved : Payment → ℤ → ℕ → Payment
reserved p amount now = record p {
  pending_refund_minor = add64 p.pending_refund_minor amount;
  updated_at = now;
  version = add64 p.version (pos 1);
}

abbrev pub released : Payment → ℤ → ℕ → Payment
released p amount now = record p {
  pending_refund_minor = sub64 p.pending_refund_minor amount;
  updated_at = now;
  version = add64 p.version (pos 1);
}

reserve_refund-reserved :
    (p : Payment) (amount : ℤ) (now : ℕ)
    → can_refund p amount ≡ true
    → reserve_refund p amount now ≡ (reserved p amount now, none)
unfolding reserve_refund
reserve_refund-reserved p amount now h = rw h refl

sub64-add64_one : (v : ℤ) → IsInt64 v → eq_ℤ v (sub64 (add64 v (pos 1)) (pos 1)) ≡ true
unfolding sub64 add64 wrap64 ◌+ℤ◌ ◌-ℤ◌
sub64-add64_one v h = ground arith

-- What was reserved can be taken back, and leaves what was reserved before.
pub reservation_back :
    (p : Payment) (amount : ℤ)
    → IsValid p
    → can_refund p amount ≡ true
    → (ltb_ℤ (add64 p.pending_refund_minor amount) amount ≡ false)
      × (sub64 (add64 p.pending_refund_minor amount) amount ≡ p.pending_refund_minor)
reservation_back p amount v can =
    let fits = (can_refund_iff p amount v).0 can in
    let range : IsAmount amount = ground arith in
    let sum = add64_parts p.pending_refund_minor amount v.reserved_range range (omega arith) in
    let back =
      sub64_parts (add64 p.pending_refund_minor amount) amount (omega arith) range (omega arith) in
    (ground arith, eq_of_parts _ _ (omega arith))

module _ (env : Env) (input : CreateRefundInput) where
  release-restores :
      (p : Payment) (db : Db)
      → find_payment p.id db.payments ≡ some p
      → ltb_ℤ p.pending_refund_minor input.amount_minor ≡ false
      → IsInt64 p.version
      → find_payment p.id (release (undisturbed env) input p db).1.payments
        ≡ some (released p input.amount_minor (env.now at_release))
  unfolding release ignore perform release_refund_reservation
  release-restores p db h covers range =
      rw covers
        (update_conditional-writes (released p input.amount_minor (env.now at_release)) _ db h
          (sub64-add64_one p.version range)).1

  -- The row after the branches that give up.
  abbrev Restores : Payment → Action Refund → Type 0
  Restores p m =
      (db : Db)
      → find_payment p.id db.payments ≡ some p
      → find_payment p.id (m db).1.payments
        ≡ some (released p input.amount_minor (env.now at_release))

  module _ (p : Payment) (covers : ltb_ℤ p.pending_refund_minor input.amount_minor ≡ false)
      (range : IsInt64 p.version) where
    after_refund_row-Restores :
        (e : ServiceError) → Restores p (after_refund_row (undisturbed env) input p e)
    unfolding ◌>>=◌ release ignore perform
    after_refund_row-Restores e db h = release-restores p db h covers range

    refund_settle-Restores :
        (r : Refund) (e : NormalizedError)
        → Restores p (refund_settle (undisturbed env) input p r (err e))
    unfolding ◌>>=◌ release ignore perform refund_update_status
    refund_settle-Restores r e db h =
        release-restores p
          (refund_update_status false r.id refund_failed "" (env.now at_refund_status) db).1 h
          covers range

    answered_step :
        (r : Refund) (reply : Reply) (e : NormalizedError)
        → reply ≡ err e
        → (created : Result ServiceError (Unit {0})) (db : Db)
        → find_payment p.id db.payments ≡ some p
        → let out : Result ServiceError Refund × Db = elim created [
          | ok _ ↦ refund_settle (undisturbed env) input p r reply db
          | err d ↦ after_refund_row (undisturbed env) input p d db
        ] in
          find_payment p.id out.1.payments
          ≡ some (released p input.amount_minor (env.now at_release))
    answered_step r reply e refuses (ok _) db h = rw refuses (refund_settle-Restores r e db h)
    answered_step r reply e refuses (err d) db h = after_refund_row-Restores d db h

    with_refund-Restores :
        (r : Result PaymentError Refund) (e : NormalizedError)
        → ((q : RefundRequest) → env.refund_reply q ≡ err e)
        → Restores p (with_refund (undisturbed env) input p r)
    unfolding persist_refund handling perform
    with_refund-Restores (err d) e refuses db h = after_refund_row-Restores (domain d) db h
    with_refund-Restores (ok r) e refuses db h =
        answered_step r _ e (refuses _) (refund_create false r db).0 (refund_create false r db).1
          (rw (refund_create-Spares false r db) h)

  -- The refund's first half: the payment is read, reserved and written.
  pub reserve_runs :
      (other : Db → Db) (p : Payment) (db : Db)
      → find_payment p.id db.payments ≡ some p
      → input.payment_id ≡ p.id
      → can_refund p input.amount_minor ≡ true
      → let q = reserved p input.amount_minor (env.now at_update) in
        create_refund (disturbed env other) input db
        ≡ with_refund
            (disturbed env other)
            input
            q
            (new_refund env.refund_id q.id q.delivery_id input.amount_minor q.currency input.reason
              input.idempotency_key input.correlation_id input.payment_id
              (env.now at_refund_create))
            (update_conditional false q p.version db).1
  unfolding create_refund perform payment_find_by_id
  reserve_runs other p db found same can =
      let q : Payment = reserved p input.amount_minor (env.now at_update) in
      let wrote = (update_conditional-writes q p.version db found (eq_ℤ_refl p.version)).0 in
      bind_ok _ _ db {a = p} (rw (same, found) refl)
      ∙ bind_ok _ _ db {a = q}
          (rw (reserve_refund-reserved p input.amount_minor (env.now at_update) can) refl)
      ∙ bind_ok _ _ db (λ i. (wrote i, (update_conditional false q p.version db).1))

  -- When the provider refuses a refund that the payment can give, the payment's row has its money as
  -- before: what was reserved is released, and the version has counted both writes. The payment
  -- is valid, the database answers and no other process interferes.
  pub refused_refund_restores :
      (p : Payment) (e : NormalizedError) (db : Db)
      → find_payment input.payment_id db.payments ≡ some p
      → IsValid p
      → can_refund p input.amount_minor ≡ true
      → ((q : RefundRequest) → env.refund_reply q ≡ err e)
      → find_payment p.id (create_refund (undisturbed env) input db).1.payments
        ≡ some (record p {
          version = add64 (add64 p.version (pos 1)) (pos 1);
          updated_at = env.now at_release;
        })
  refused_refund_restores p e db found v can refuses =
      let same : p.id ≡ input.payment_id = find_payment-id input.payment_id db.payments found in
      let found' : find_payment p.id db.payments ≡ some p =
        subst (λ id. find_payment id db.payments ≡ some p) (sym same) found in
      let q : Payment = reserved p input.amount_minor (env.now at_update) in
      let wrote = update_conditional-writes q p.version db found' (eq_ℤ_refl p.version) in
      let back = reservation_back p input.amount_minor v can in
      rw (reserve_runs (λ db. db) p db found' (sym same) can) (
        with_refund-Restores q back.0 (add64-IsInt64 p.version (pos 1)) _ e refuses
          (update_conditional false q p.version db).1 wrote.1
        ∙ rw back.1 refl)
