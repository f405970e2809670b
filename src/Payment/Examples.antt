-- ===== src/Payment/Examples.antt =====
-- services/payment-service/internal: concrete payments, and the theorems at them.
use realtime_delivery_micros.Prelude.{
  ℕ, ◌≡◌, ◌↔◌, ◌+◌, ◌≤◌, refl, true, false, none, some, List, [], ◌∷◌, arith,
}
use realtime_delivery_micros.Prelude.Int.{pos, pos_part, neg_part, ◌≤ℤ◌, ◌+ℤ◌, ◌-ℤ◌}
use realtime_delivery_micros.Prelude.Int64.{add64, sub64, wrap64}
use realtime_delivery_micros.Prelude.Result.{ok, err}
use realtime_delivery_micros.Payment.Currency.{egp, captured, refunded, failed, parse_currency}
use realtime_delivery_micros.Payment.Money.{Money, add}
use realtime_delivery_micros.Prelude.Text.{is_space}
use realtime_delivery_micros.Prelude.Text.Trim.{AllSpace}
use realtime_delivery_micros.Payment.Domain.{
  Payment, new_payment, fresh_payment, can_refund, authorize, capture, cancel, fail, reserve_refund,
  commit_refund, release_refund_reservation, remaining, is_terminal, concurrent_modification,
}
use realtime_delivery_micros.Payment.Domain.Invariant.{IsValid, can_refund_iff}
use realtime_delivery_micros.Payment.Domain.Transitions.{
  Call, authorize_call, capture_call, reserve_call, commit_call, release_call, apply, apply-Follows,
  Follows, fail_of_refunded, run, run_conserves,
}
use realtime_delivery_micros.Payment.Store.{Db, domain, update_conditional, rows_affected}
use realtime_delivery_micros.Payment.Store.Rows.{second_writer_refused}

abbrev pub paid : Payment
paid = record {
  id = "p1";
  delivery_id = "d1";
  user_id = "u1";
  amount_minor = pos 1000;
  currency = "EGP";
  status = captured;
  provider = "stripe";
  provider_payment_id = "pi_1";
  gateway_session_id = "cs_1";
  authorized_amount_minor = pos 1000;
  captured_amount_minor = pos 900;
  refunded_amount_minor = pos 300;
  pending_refund_minor = pos 100;
  version = pos 4;
  correlation_id = "c1";
  causation_id = "";
  created_at = 10;
  updated_at = 20;
  authorized_at = some 11;
  captured_at = some 12;
  cancelled_at = none;
  failed_at = none;
}

pub paid-IsValid : IsValid paid
paid-IsValid = ground arith

abbrev pub returned : Payment
returned = record paid {
  status = refunded;
  refunded_amount_minor = pos 900;
  pending_refund_minor = pos 0;
}

pub returned-IsValid : IsValid returned
returned-IsValid = ground arith

refunds_up_to_the_rest : (can_refund paid (pos 500) ≡ true) × (can_refund paid (pos 501) ≡ false)
unfolding can_refund remaining sub64 wrap64 ◌-ℤ◌
refunds_up_to_the_rest = (refl, refl)

can_refund_iff_example :
    (can_refund paid (pos 500) ≡ true)
    ↔ ((paid.status ≡ captured) × (pos 1 ≤ℤ pos 500) × (500 + 300 + 100 ≤ 900))
can_refund_iff_example = can_refund_iff paid (pos 500) paid-IsValid

abbrev calls : List (Call × ℕ)
calls =
    (capture_call (pos 1000), 21)
    ∷ (authorize_call "pi_1" "cs_1" (pos 1000), 22)
    ∷ (capture_call (pos 900), 23)
    ∷ (reserve_call (pos 400), 24)
    ∷ (commit_call (pos 400), 25)
    ∷ (reserve_call (pos 300), 26)
    ∷ (release_call (pos 300), 27)
    ∷ []

abbrev fresh : Payment
fresh = fresh_payment "p1" "d1" "u1" (pos 1000) egp "c1" "" 20

made : new_payment "p1" "d1" "u1" (pos 1000) "EGP" "c1" "" 20 ≡ ok fresh
unfolding new_payment parse_currency
made = refl

run_conserves_example :
    let q = run fresh calls in
    (pos_part q.refunded_amount_minor + pos_part q.pending_refund_minor
      ≤ pos_part q.captured_amount_minor)
    × (pos_part q.captured_amount_minor ≤ pos_part q.authorized_amount_minor)
    × (neg_part q.refunded_amount_minor ≡ 0)
    × (neg_part q.pending_refund_minor ≡ 0)
run_conserves_example =
    run_conserves "p1" "d1" "u1" (pos 1000) "EGP" "c1" "" 20 calls (ground arith) made
      (ground arith)

run_refunds : (run fresh calls).refunded_amount_minor ≡ pos 400
unfolding run apply authorize capture cancel reserve_refund commit_refund release_refund_reservation
    can_refund remaining sub64 add64 wrap64 ◌-ℤ◌ ◌+ℤ◌
run_refunds = refl

apply-Follows_example : Follows captured (apply (commit_call (pos 100)) paid 30).0.status
apply-Follows_example =
    apply-Follows (commit_call (pos 100)) paid 30 (ground arith) paid-IsValid (λ e. cc)

fail_of_refunded_example :
    ((fail returned 30).1 ≡ none)
    × ((fail returned 30).0.status ≡ failed)
    × ¬ Follows refunded (fail returned 30).0.status
fail_of_refunded_example = fail_of_refunded returned 30 refl

is_terminal-returned : is_terminal returned ≡ true
unfolding is_terminal
is_terminal-returned = refl

abbrev spaces : List ℕ
spaces = 32 ∷ 9 ∷ []

spaces-AllSpace : AllSpace spaces
unfolding is_space
spaces-AllSpace = (refl, (refl, tt))

abbrev money : ℕ → Money
money n = record { amount_minor = pos n; currency = "EGP" }

added : add (money 700) (money 300) ≡ ok (money 1000)
unfolding add add64 wrap64 ◌+ℤ◌
added = refl

abbrev tables : Db
tables = record {
  payments = returned ∷ record paid { id = "p2" } ∷ [];
  refunds = [];
  attempts = [];
  outbox = [];
  processed = [];
  realtime = [];
}

abbrev newer : Payment
newer = record paid { id = "p2"; version = pos 5; pending_refund_minor = pos 200 }

written_once : (update_conditional false newer (pos 4) tables).0 ≡ ok tt
unfolding update_conditional rows_affected
written_once = refl

second_writer_refused_example :
    let after = (update_conditional false newer (pos 4) tables).1 in
    update_conditional false newer (pos 4) after ≡ (err (domain concurrent_modification), after)
second_writer_refused_example =
    second_writer_refused newer newer (pos 4) tables refl refl written_once
