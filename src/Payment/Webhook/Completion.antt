-- ===== src/Payment/Webhook/Completion.antt =====
-- handler.go: `completePayment` against the table `AllowedTransitions` of state.go.
use realtime_delivery_micros.Prelude.{
  ◌≡◌, ◌≢◌, refl, ap, ◌∙◌, [], ◌∷◌, ◌++◌, String, true, false, some, arith,
}
use realtime_delivery_micros.Prelude.Int.{eq_ℤ_refl}
use realtime_delivery_micros.Prelude.Result.{ok}
use realtime_delivery_micros.Payment.Currency.{captured}
use realtime_delivery_micros.Payment.Domain.{Payment, is_terminal, is_captured}
use realtime_delivery_micros.Payment.Domain.Transitions.{Follows}
use realtime_delivery_micros.Prelude.Action.{ignore}
use realtime_delivery_micros.Payment.Store.{Db, find_payment, outbox_insert, update_conditional}
use realtime_delivery_micros.Payment.Store.Rows.{update_conditional-writes}
use realtime_delivery_micros.Prelude.Action.Runs.{bind_ok}
use realtime_delivery_micros.Payment.Service.Env.{Env, perform, at_update, at_event}
use realtime_delivery_micros.Payment.Service.RefundEffect.{undisturbed}
use realtime_delivery_micros.Payment.Webhook.{complete_payment, completion_event, paid_in_full}

module _ (env : Env) (p : Payment) (tx : String) (db : Db)
    (found : find_payment p.id db.payments ≡ some p) where
  abbrev after : Db
  after = (update_conditional false (paid_in_full env p) p.version db).1

  updates :
      perform
        (undisturbed env)
        at_update
        (λ down. update_conditional down (paid_in_full env p) p.version)
        db
      ≡ (ok tt, after)
  unfolding perform
  updates =
      let wrote =
        (update_conditional-writes (paid_in_full env p) p.version db found
          (eq_ℤ_refl p.version)).0 in
      λ i. (wrote i, after)

  notifies :
      ignore
        (perform
          (undisturbed env)
          at_event
          (λ down. outbox_insert down (completion_event env p tx)))
        after
      ≡ (ok tt, record after { outbox = after.outbox ++ (completion_event env p tx ∷ []) })
  unfolding ignore perform outbox_insert
  notifies = refl

  completes :
      is_captured p.status ≡ false
      → complete_payment (undisturbed env) p tx db
        ≡ (ok tt, record after { outbox = after.outbox ++ (completion_event env p tx ∷ []) })
  unfolding complete_payment
  completes uncaptured = rw uncaptured (bind_ok _ _ db {a = tt} {after = after} updates ∙ notifies)

no_way_out :
    (p : Payment) → is_terminal p ≡ true → p.status ≢ captured → ¬ Follows p.status captured
unfolding is_terminal
no_way_out p ended other = ground arith

not_captured : (p : Payment) → p.status ≢ captured → is_captured p.status ≡ false
not_captured p other = ground arith

-- `completePayment` makes a payment captured whatever its status: on a terminal payment that is not
-- captured, which the table lets go nowhere, it succeeds and leaves the payment captured over its
-- whole amount. The database answers and no other process interferes.
pub completion_of_ended :
    (env : Env) (p : Payment) (tx : String) (db : Db)
    → find_payment p.id db.payments ≡ some p
    → is_terminal p ≡ true
    → p.status ≢ captured
    → let out = complete_payment (undisturbed env) p tx db in
      (out.0 ≡ ok tt)
      × (find_payment p.id out.1.payments ≡ some (paid_in_full env p))
      × ¬ Follows p.status captured
completion_of_ended env p tx db found ended other =
    let done = completes env p tx db found (not_captured p other) in
    let wrote =
      (update_conditional-writes (paid_in_full env p) p.version db found (eq_ℤ_refl p.version)).1 in
    (
      ap (λ out. out.0) done,
      ap (λ out. find_payment p.id out.1.payments) done ∙ wrote,
      no_way_out p ended other,
    )
