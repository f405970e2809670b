-- ===== src/Payment/Service/RefundSettles.antt =====
-- payment_service.go: the row after a refund that `CreateRefund` completes.
use realtime_delivery_micros.Prelude.{
  ℕ, ◌≡◌, refl, sym, ◌∙◌, some, true, false, Bool-cases, inl, inr, if◌then◌else◌,
}
use mathlib.Core.Path.{subst}
use realtime_delivery_micros.Prelude.Int.{ℤ, pos, eq_ℤ, eq_ℤ_refl, ltb_ℤ, leb_ℤ}
use realtime_delivery_micros.Prelude.Int64.{add64, sub64}
use realtime_delivery_micros.Prelude.Result.{Result, ok}
use realtime_delivery_micros.Payment.Currency.{refunded, refund_completed}
use realtime_delivery_micros.Payment.Domain.{Payment, can_refund, commit_refund}
use realtime_delivery_micros.Payment.Domain.Invariant.{IsValid}
use realtime_delivery_micros.Payment.Refund.{Refund, new_refund, complete}
use realtime_delivery_micros.Prelude.Action.{◌>>=◌, ignore}
use realtime_delivery_micros.Payment.Store.{
  Db, ServiceError, find_payment, refund_create, refund_update_status, outbox_insert,
  update_conditional,
}
use realtime_delivery_micros.Payment.Store.Rows.{
  update_conditional-writes, update_conditional-misses, refund_create_reads,
  update_conditional_refunds, find_payment-id,
}
use realtime_delivery_micros.Prelude.Action.Runs.{handling_ok}
use realtime_delivery_micros.Payment.Service.Env.{
  Env, at_update, at_refund_create, at_refund_status, at_commit, ProviderResult, RefundRequest,
  perform, publish_event, publish_realtime, send_update,
}
use realtime_delivery_micros.Payment.Service.Refunds.{
  CreateRefundInput, create_refund, commit, refund_settle, persist_refund, with_refund,
}
use realtime_delivery_micros.Payment.Service.Side.{refund_create-Spares}
use realtime_delivery_micros.Payment.Service.RefundEffect.{
  disturbed, undisturbed, reserved, reserve_runs, reservation_back,
}

-- The payment after the second half of the refund.
abbrev pub committed : Payment → ℤ → ℕ → Payment
committed p amount now =
    let total = add64 p.refunded_amount_minor amount in
    record p {
      pending_refund_minor = sub64 p.pending_refund_minor amount;
      refunded_amount_minor = total;
      status = if leb_ℤ p.captured_amount_minor total then refunded else p.status;
      updated_at = now;
      version = add64 p.version (pos 1);
    }

-- A write of the payments does not matter to the refunds.
refund_create_after_update :
    (p : Payment) (r : Refund) (expected : ℤ) (db : Db)
    → (refund_create false r (update_conditional false p expected db).1).0
      ≡ (refund_create false r db).0
refund_create_after_update p r expected db =
    refund_create_reads r (update_conditional false p expected db).1 db
      (update_conditional_refunds false p expected db)

module _ (env : Env) (input : CreateRefundInput) where
  -- The call succeeds and the row is the given one.
  abbrev Settles : Payment → Payment → Refund → Result ServiceError Refund × Db → Type 0
  Settles p q r out = (out.0 ≡ ok r) × (find_payment p.id out.1.payments ≡ some q)

  -- The write of the commit, behind what the other process does to the tables.
  abbrev Ends : (Db → Db) → Payment → Payment → Type 0
  Ends other p row =
      (t : Db)
      → find_payment p.id t.payments ≡ some p
      → find_payment p.id
          (update_conditional false (committed p input.amount_minor (env.now at_commit)) p.version
            (other t)).1.payments
        ≡ some row

  module _ (p : Payment) (covers : ltb_ℤ p.pending_refund_minor input.amount_minor ≡ false)
      (other : Db → Db) (row : Payment) (ends : Ends other p row) where
    refund_settle-Settles :
        (r : Refund) (res : ProviderResult) (db : Db)
        → find_payment p.id db.payments ≡ some p
        → Settles p row
            (complete r res.provider_transaction_id (env.now at_refund_status))
            (refund_settle (disturbed env other) input p r (ok res) db)
    unfolding ◌>>=◌ commit commit_refund ignore perform refund_update_status publish_event
        publish_realtime outbox_insert send_update
    refund_settle-Settles r res db h =
        let tables =
          (refund_update_status false r.id refund_completed res.provider_transaction_id
            (env.now at_refund_status) db).1 in
        let wrote = ends tables h in
        elim (Bool-cases env.has_nats) [
          | inl e ↦ rw (e, covers) (refl, wrote)
          | inr e ↦ rw (e, covers) (refl, wrote)
        ]

    with_refund-Settles :
        (r : Refund) (res : ProviderResult) (db : Db)
        → find_payment p.id db.payments ≡ some p
        → (refund_create false r db).0 ≡ ok tt
        → ((q : RefundRequest) → env.refund_reply q ≡ ok res)
        → Settles p row
            (complete r res.provider_transaction_id (env.now at_refund_status))
            (with_refund (disturbed env other) input p (ok r) db)
    unfolding persist_refund perform
    with_refund-Settles r res db h created answer =
        let after = (refund_create false r db).1 in
        rw (handling_ok _ _ _ db {a = tt} {after = after} (λ i. (created i, after)), answer _)
          (refund_settle-Settles r res after (rw (refund_create-Spares false r db) h))

  -- The whole call, up to the row that it ends with.
  completed_step :
      (p : Payment) (r : Refund) (res : ProviderResult) (db : Db) (other : Db → Db) (row : Payment)
      → find_payment input.payment_id db.payments ≡ some p
      → IsValid p
      → can_refund p input.amount_minor ≡ true
      → new_refund env.refund_id p.id p.delivery_id input.amount_minor p.currency input.reason
          input.idempotency_key input.correlation_id input.payment_id
          (env.now at_refund_create)
        ≡ ok r
      → (refund_create false r db).0 ≡ ok tt
      → ((q : RefundRequest) → env.refund_reply q ≡ ok res)
      → Ends other (reserved p input.amount_minor (env.now at_update)) row
      → Settles p row
          (complete r res.provider_transaction_id (env.now at_refund_status))
          (create_refund (disturbed env other) input db)
  completed_step p r res db other row found v can made created answer ends =
      let same : p.id ≡ input.payment_id = find_payment-id input.payment_id db.payments found in
      let found' : find_payment p.id db.payments ≡ some p =
        subst (λ id. find_payment id db.payments ≡ some p) (sym same) found in
      let q : Payment = reserved p input.amount_minor (env.now at_update) in
      let wrote = update_conditional-writes q p.version db found' (eq_ℤ_refl p.version) in
      rw (reserve_runs env input other p db found' (sym same) can, made)
        (with_refund-Settles q (reservation_back p input.amount_minor v can).0 other row ends r res
          (update_conditional false q p.version db).1 wrote.1
          (refund_create_after_update q r p.version db ∙ created) answer)

  -- A refund that the payment can give, that the provider accepts and whose row the database takes,
  -- succeeds: the payment's row has the amount under what is refunded, as much reserved as before, is
  -- refunded once everything captured is, and has counted both writes. The payment is valid, the
  -- database answers and no other process interferes.
  pub completed_refund_settles :
      (p : Payment) (r : Refund) (res : ProviderResult) (db : Db)
      → find_payment input.payment_id db.payments ≡ some p
      → IsValid p
      → can_refund p input.amount_minor ≡ true
      → new_refund env.refund_id p.id p.delivery_id input.amount_minor p.currency input.reason
          input.idempotency_key input.correlation_id input.payment_id
          (env.now at_refund_create)
        ≡ ok r
      → (refund_create false r db).0 ≡ ok tt
      → ((q : RefundRequest) → env.refund_reply q ≡ ok res)
      → let total = add64 p.refunded_amount_minor input.amount_minor in
        let out = create_refund (undisturbed env) input db in
        (out.0 ≡ ok (complete r res.provider_transaction_id (env.now at_refund_status)))
        × (find_payment p.id out.1.payments
            ≡ some (record p {
              refunded_amount_minor = total;
              status = if leb_ℤ p.captured_amount_minor total then refunded else p.status;
              version = add64 (add64 p.version (pos 1)) (pos 1);
              updated_at = env.now at_commit;
            }))
  completed_refund_settles p r res db found v can made created answer =
      let q : Payment = reserved p input.amount_minor (env.now at_update) in
      let row : Payment = committed q input.amount_minor (env.now at_commit) in
      let settled =
        completed_step p r res db (λ t. t) row found v can made created answer
          (λ t h. (update_conditional-writes row q.version t h (eq_ℤ_refl q.version)).1) in
      (settled.0, settled.1 ∙ rw (reservation_back p input.amount_minor v can).1 refl)

  -- When the provider accepts a refund and another process has changed the payment's row and its
  -- version since the reservation, the call succeeds all the same, and the row stays as the other
  -- process left it: the refund is not committed to it. The payment is valid and can give the refund,
  -- whose row is made and taken, and the database answers.
  pub commit_is_lost :
      (p : Payment) (r : Refund) (res : ProviderResult) (db : Db) (other : Db → Db) (row : Payment)
      → find_payment input.payment_id db.payments ≡ some p
      → IsValid p
      → can_refund p input.amount_minor ≡ true
      → new_refund env.refund_id p.id p.delivery_id input.amount_minor p.currency input.reason
          input.idempotency_key input.correlation_id input.payment_id
          (env.now at_refund_create)
        ≡ ok r
      → (refund_create false r db).0 ≡ ok tt
      → ((q : RefundRequest) → env.refund_reply q ≡ ok res)
      → ((t : Db)
          → find_payment p.id t.payments ≡ some (reserved p input.amount_minor (env.now at_update))
          → find_payment p.id (other t).payments ≡ some row)
      → eq_ℤ row.version (add64 p.version (pos 1)) ≡ false
      → let out = create_refund (disturbed env other) input db in
        (out.0 ≡ ok (complete r res.provider_transaction_id (env.now at_refund_status)))
        × (find_payment p.id out.1.payments ≡ some row)
  commit_is_lost p r res db other row found v can made created answer changes newer =
      let q : Payment = reserved p input.amount_minor (env.now at_update) in
      completed_step p r res db other row found v can made created answer (λ t h.
        update_conditional-misses (committed q input.amount_minor (env.now at_commit)) q.version
          (other t) (changes t h) newer)
