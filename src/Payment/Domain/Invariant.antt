-- ===== src/Payment/Domain/Invariant.antt =====
-- services/payment-service/internal/domain/payment.go: what holds of a payment between two calls.
use realtime_delivery_micros.Prelude.{ℕ, ◌+◌, ◌≤◌, ◌<◌, ◌≡◌, ◌↔◌, true, String, arith}
use realtime_delivery_micros.Prelude.Int.{ℤ, pos, ◌≤ℤ◌, pos_part, neg_part}
use realtime_delivery_micros.Prelude.Int64.{IsInt64, IsAmount, sub64, add64_parts, sub64_parts}
use realtime_delivery_micros.Prelude.Result.{ok}
use realtime_delivery_micros.Payment.Currency.{pending, authorized, captured, cancelled, refunded}
use realtime_delivery_micros.Payment.Domain.{
  Payment, new_payment, remaining, can_refund, authorize, capture, cancel, fail, reserve_refund,
  commit_refund, release_refund_reservation,
}

abbrev pub IsPositive : ℤ → Type 0
IsPositive a = IsAmount a × (0 < pos_part a)

-- The money of a payment: what is refunded or reserved for a refund was captured, and what is
-- captured was authorized; each status says which of these amounts there can be.
pub record IsValid (p : Payment) : Type 0 where
  pub amount_positive : IsPositive p.amount_minor
  pub authorized_range : IsAmount p.authorized_amount_minor
  pub captured_range : IsAmount p.captured_amount_minor
  pub refunded_range : IsAmount p.refunded_amount_minor
  pub reserved_range : IsAmount p.pending_refund_minor
  pub within : pos_part p.captured_amount_minor ≤ pos_part p.authorized_amount_minor
  pub covered :
      pos_part p.refunded_amount_minor + pos_part p.pending_refund_minor
      ≤ pos_part p.captured_amount_minor
  pub pending_clean : p.status ≡ pending → pos_part p.authorized_amount_minor ≡ 0
  pub authorized_clean : p.status ≡ authorized → pos_part p.captured_amount_minor ≡ 0
  pub cancelled_clean : p.status ≡ cancelled → pos_part p.captured_amount_minor ≡ 0
  pub captured_left :
      p.status ≡ captured → pos_part p.refunded_amount_minor < pos_part p.captured_amount_minor
  pub refunded_whole :
      p.status ≡ refunded
      → (pos_part p.refunded_amount_minor ≡ pos_part p.captured_amount_minor)
        × (0 < pos_part p.captured_amount_minor)
  pub reserved_captured : 0 < pos_part p.pending_refund_minor → p.status ≡ captured

pub new_payment-IsValid :
    (id delivery_id user_id : String) (amount : ℤ) (currency correlation_id causation_id : String)
    (now : ℕ) {p : Payment}
    → IsInt64 amount
    → new_payment id delivery_id user_id amount currency correlation_id causation_id now ≡ ok p
    → IsValid p
unfolding new_payment
new_payment-IsValid id delivery_id user_id amount currency correlation_id causation_id now range
      made =
    ground arith

pub new_payment_amount :
    (id delivery_id user_id : String) (amount : ℤ) (currency correlation_id causation_id : String)
    (now : ℕ) {p : Payment}
    → new_payment id delivery_id user_id amount currency correlation_id causation_id now ≡ ok p
    → p.amount_minor ≡ amount
unfolding new_payment
new_payment_amount id delivery_id user_id amount currency correlation_id causation_id now made =
    ground arith

pub authorize-IsValid :
    (p : Payment) (a b : String) (amount : ℤ) (now : ℕ)
    → IsAmount amount
    → IsValid p
    → IsValid (authorize p a b amount now).0
unfolding authorize
authorize-IsValid p a b amount now h v = ground arith

pub capture-IsValid :
    (p : Payment) (amount : ℤ) (now : ℕ) → IsValid p → IsValid (capture p amount now).0
unfolding capture
capture-IsValid p amount now v = ground arith

pub cancel-IsValid : (p : Payment) (now : ℕ) → IsValid p → IsValid (cancel p now).0
unfolding cancel
cancel-IsValid p now v = ground arith

pub fail-IsValid : (p : Payment) (now : ℕ) → IsValid p → IsValid (fail p now).0
unfolding fail
fail-IsValid p now v = ground arith

-- In a valid payment the rest that can be refunded is computed without wrapping around.
pub remaining_parts :
    (p : Payment)
    → IsValid p
    → (neg_part (remaining p) ≡ 0)
      × (pos_part (remaining p) + pos_part p.refunded_amount_minor + pos_part p.pending_refund_minor
          ≡ pos_part p.captured_amount_minor)
unfolding remaining
remaining_parts p v =
    let first =
      sub64_parts p.captured_amount_minor p.refunded_amount_minor v.captured_range v.refunded_range
        (omega arith) in
    let second =
      sub64_parts (sub64 p.captured_amount_minor p.refunded_amount_minor) p.pending_refund_minor
        (omega arith) v.reserved_range (omega arith) in
    omega arith

-- A valid payment can be refunded by exactly the positive amounts that its captured amount covers,
-- beside what is refunded and reserved already, and only while it is captured.
pub can_refund_iff :
    (p : Payment) (amount : ℤ)
    → IsValid p
    → (can_refund p amount ≡ true) ↔ (
        (p.status ≡ captured)
        × (pos 1 ≤ℤ amount)
        × (pos_part amount + pos_part p.refunded_amount_minor + pos_part p.pending_refund_minor
            ≤ pos_part p.captured_amount_minor))
unfolding can_refund
can_refund_iff p amount v =
    (λ h. ground (arith, remaining_parts p v), λ h. ground (arith, remaining_parts p v))

pub reserve_refund-IsValid :
    (p : Payment) (amount : ℤ) (now : ℕ) → IsValid p → IsValid (reserve_refund p amount now).0
unfolding reserve_refund
reserve_refund-IsValid p amount now v =
    ground (arith, (can_refund_iff p amount v).0, add64_parts p.pending_refund_minor amount)

pub commit_refund-IsValid :
    (p : Payment) (amount : ℤ) (now : ℕ)
    → IsPositive amount
    → IsValid p
    → IsValid (commit_refund p amount now).0
unfolding commit_refund
commit_refund-IsValid p amount now h v =
    ground
      (arith, add64_parts p.refunded_amount_minor amount, sub64_parts p.pending_refund_minor amount)

pub release_refund_reservation-IsValid :
    (p : Payment) (amount : ℤ) (now : ℕ)
    → IsPositive amount
    → IsValid p
    → IsValid (release_refund_reservation p amount now).0
unfolding release_refund_reservation
release_refund_reservation-IsValid p amount now h v =
    ground (arith, sub64_parts p.pending_refund_minor amount)
