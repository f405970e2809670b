-- ===== src/Payment/Service/RefundKeeps.antt =====
-- payment_service.go: `CreateRefund` over the payments table.
use realtime_delivery_micros.Prelude.{◌≡◌, refl, Option, none, some, arith}
use realtime_delivery_micros.Prelude.Int.{ℤ}
use realtime_delivery_micros.Prelude.Result.{Result, ok, err}
use realtime_delivery_micros.Payment.Currency.{refund_completed, refund_failed}
use realtime_delivery_micros.Payment.Domain.{
  Payment, PaymentError, reserve_refund, commit_refund, release_refund_reservation,
}
use realtime_delivery_micros.Payment.Domain.Invariant.{
  IsValid, IsPositive, can_refund_iff, reserve_refund-IsValid, commit_refund-IsValid,
  release_refund_reservation-IsValid,
}
use realtime_delivery_micros.Payment.Refund.{Refund}
use realtime_delivery_micros.Payment.Store.{ServiceError, domain, provider_failed}
use realtime_delivery_micros.Prelude.Action.Gives.{
  Always, Gives, >>=-Gives, ignore-Gives, then-Gives, handling-Gives, raise-Gives, pure-Gives,
}
use realtime_delivery_micros.Payment.Service.Env.{
  Env, at_event, at_update, at_refund_create, at_refund_status, at_release, at_commit, Reply,
  checked,
}
use realtime_delivery_micros.Payment.Service.Refunds.{
  CreateRefundInput, create_refund, release, commit, refund_settle, after_refund_row,
  persist_refund, with_refund,
}
use realtime_delivery_micros.Payment.Service.Validity.{Valid, IsCalm, find-Gives, update-Gives}
use realtime_delivery_micros.Payment.Service.Side.{
  spared-Gives, dropped-Gives, refund_create-Spares, refund_update_status-Spares,
  publish_event-Gives, publish_realtime-Gives,
}

-- What is reserved successfully is a positive amount of 64 bits.
reserved_amount :
    (p : Payment) (amount : ℤ) (now : _)
    → IsValid p
    → (reserve_refund p amount now).1 ≡ none
    → IsPositive amount
unfolding reserve_refund
reserved_amount p amount now v h = ground (arith, (can_refund_iff p amount v).0)

accepted-Gives_if :
    {P : Payment → Type 0} (change : Payment × Option PaymentError)
    → (change.1 ≡ none → P change.0)
    → Gives Valid P (checked change)
accepted-Gives_if (p, none) h = record { gives = λ db i. (i, h refl) }
accepted-Gives_if (p, some e) h = record { gives = λ db i. (i, tt) }

module _ (env : Env) (calm : IsCalm env) (input : CreateRefundInput) where
  release-Gives :
      (p : Payment)
      → IsPositive input.amount_minor
      → IsValid p
      → Gives Valid Always (release env input p)
  unfolding release
  release-Gives p positive v = ignore-Gives (
      update-Gives env calm at_release
        (release_refund_reservation p input.amount_minor (env.now at_release)).0 _
        (release_refund_reservation-IsValid p _ _ positive v))

  commit-Gives :
      (p : Payment)
      → IsPositive input.amount_minor
      → IsValid p
      → Gives Valid IsValid (commit env input p)
  unfolding commit
  commit-Gives p positive v =
      let v' = commit_refund-IsValid p input.amount_minor (env.now at_commit) positive v in
      then-Gives
        (ignore-Gives (
          update-Gives env calm at_commit (commit_refund p input.amount_minor (env.now at_commit)).0
            _ v'))
        (λ _. pure-Gives v')

  refund_settle-Gives :
      (p : Payment) (r : Refund) (reply : Reply)
      → IsPositive input.amount_minor
      → IsValid p
      → Gives Valid Always (refund_settle env input p r reply)
  refund_settle-Gives p r (err e) positive v =
      then-Gives
        (dropped-Gives env calm at_refund_status _ (λ down.
          refund_update_status-Spares down r.id refund_failed "" (env.now at_refund_status)))
        (λ _.
          then-Gives (release-Gives p positive v) (λ _. raise-Gives (provider_failed e.message)))
  refund_settle-Gives p r (ok res) positive v =
      then-Gives
        (dropped-Gives env calm at_refund_status _ (λ down.
          refund_update_status-Spares down r.id refund_completed _ (env.now at_refund_status)))
        (λ _. >>=-Gives (commit-Gives p positive v) (λ p' v'.
          then-Gives (publish_event-Gives env calm at_event _)
            (λ _. then-Gives (publish_realtime-Gives env calm p') (λ _. pure-Gives tt))))

  after_refund_row-Gives :
      (p : Payment) (e : ServiceError)
      → IsPositive input.amount_minor
      → IsValid p
      → Gives Valid Always (after_refund_row env input p e)
  after_refund_row-Gives p e positive v =
      then-Gives (release-Gives p positive v) (λ _. raise-Gives e)

  with_refund-Gives :
      (p : Payment) (r : Result PaymentError Refund)
      → IsPositive input.amount_minor
      → IsValid p
      → Gives Valid Always (with_refund env input p r)
  unfolding persist_refund
  with_refund-Gives p (err e) positive v = after_refund_row-Gives p (domain e) positive v
  with_refund-Gives p (ok r) positive v =
      handling-Gives
        (spared-Gives env calm at_refund_create _ (λ down. refund_create-Spares down r))
        (λ e. after_refund_row-Gives p e positive v) (λ _ _. refund_settle-Gives p r _ positive v)

  -- While the other processes keep the payments table valid, `CreateRefund` keeps it valid, whatever
  -- the provider answers and whichever statements fail.
  pub create_refund-Gives : Gives Valid Always (create_refund env input)
  unfolding create_refund
  create_refund-Gives = >>=-Gives (find-Gives env calm input.payment_id) (λ p v.
      >>=-Gives {P = λ (q : Payment). IsPositive input.amount_minor × IsValid q}
        (accepted-Gives_if (reserve_refund p input.amount_minor (env.now at_update))
          (λ h. (reserved_amount p _ _ v h, reserve_refund-IsValid p _ _ v)))
        (λ q w.
          then-Gives (update-Gives env calm at_update q p.version w.1)
            (λ _. with_refund-Gives q _ w.0 w.1)))
