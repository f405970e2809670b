-- ===== src/Payment/Domain/Transitions.antt =====
-- services/payment-service/internal/domain/payment.go against the table `AllowedTransitions` of
-- state.go: sequences of calls on one payment.
use realtime_delivery_micros.Prelude.{
  ℕ, ◌+◌, ◌≤◌, ◌≡◌, ◌≢◌, ◌⊎◌, refl, String, true, Option, none, some, List, [], ◌∷◌, arith,
}
use realtime_delivery_micros.Prelude.Int.{ℤ, pos, pos_part, neg_part}
use realtime_delivery_micros.Prelude.Int64.{IsInt64, IsAmount, add64}
use realtime_delivery_micros.Prelude.Result.{ok}
use realtime_delivery_micros.Payment.Currency.{
  PaymentStatus, captured, failed, refunded, allowed_transitions,
}
use realtime_delivery_micros.Payment.Domain.{
  Payment, PaymentError, new_payment, authorize, capture, cancel, fail, reserve_refund,
  commit_refund, release_refund_reservation, is_terminal,
}
use realtime_delivery_micros.Payment.Domain.Invariant.{
  IsValid, IsPositive, new_payment-IsValid, authorize-IsValid, capture-IsValid, cancel-IsValid,
  fail-IsValid, reserve_refund-IsValid, commit_refund-IsValid, release_refund_reservation-IsValid,
}

-- A call of one of the methods that change a payment, with its arguments.
pub data Call : Type 0 where
  authorize_call : String → String → ℤ → Call
  capture_call : ℤ → Call
  cancel_call fail_call : Call
  reserve_call commit_call release_call : ℤ → Call

unfoldable pub apply : Call → Payment → ℕ → Payment × Option PaymentError
apply (authorize_call id secret amount) p now = authorize p id secret amount now
apply (capture_call amount) p now = capture p amount now
apply cancel_call p now = cancel p now
apply fail_call p now = fail p now
apply (reserve_call amount) p now = reserve_refund p amount now
apply (commit_call amount) p now = commit_refund p amount now
apply (release_call amount) p now = release_refund_reservation p amount now

-- What the service passes: an authorized amount that is not negative, and to commit or to release a
-- positive amount. The other methods check their arguments themselves.
abbrev pub IsProper : Call → Type 0
IsProper (authorize_call _ _ amount) = IsAmount amount
IsProper (commit_call amount) = IsPositive amount
IsProper (release_call amount) = IsPositive amount
IsProper _ = Unit

-- Every proper call on a valid payment, whether it succeeds or fails, leaves a valid payment.
pub apply-IsValid :
    (c : Call) (p : Payment) (now : ℕ) → IsProper c → IsValid p → IsValid (apply c p now).0
unfolding apply
apply-IsValid (authorize_call id secret amount) p now h v =
    authorize-IsValid p id secret amount now h v
apply-IsValid (capture_call amount) p now h v = capture-IsValid p amount now v
apply-IsValid cancel_call p now h v = cancel-IsValid p now v
apply-IsValid fail_call p now h v = fail-IsValid p now v
apply-IsValid (reserve_call amount) p now h v = reserve_refund-IsValid p amount now v
apply-IsValid (commit_call amount) p now h v = commit_refund-IsValid p amount now h v
apply-IsValid (release_call amount) p now h v = release_refund_reservation-IsValid p amount now h v

-- Calls one after the other, at the times that go with them; errors are passed over.
unfoldable pub run : Payment → List (Call × ℕ) → Payment
run p [] = p
run p ((c, now) ∷ calls) = run (apply c p now).0 calls

abbrev pub AllProper : List (Call × ℕ) → Type 0
AllProper [] = Unit
AllProper ((c, now) ∷ calls) = IsProper c × AllProper calls

pub run-IsValid :
    (p : Payment) (calls : List (Call × ℕ)) → AllProper calls → IsValid p → IsValid (run p calls)
unfolding run
run-IsValid p [] h v = v
run-IsValid p ((c, now) ∷ calls) h v =
    run-IsValid (apply c p now).0 calls h.1 (apply-IsValid c p now h.0 v)

-- From a payment that `NewPayment` accepts on, after any proper calls in any order, neither what is
-- refunded nor what is reserved is negative; what is refunded and what is reserved
-- never exceed together what was captured, nor that what was authorized.
pub run_conserves :
    (id delivery_id user_id : String) (amount : ℤ) (currency correlation_id causation_id : String)
    (now : ℕ) {p : Payment} (calls : List (Call × ℕ))
    → IsInt64 amount
    → new_payment id delivery_id user_id amount currency correlation_id causation_id now ≡ ok p
    → AllProper calls
    → let q = run p calls in
      (pos_part q.refunded_amount_minor + pos_part q.pending_refund_minor
        ≤ pos_part q.captured_amount_minor)
      × (pos_part q.captured_amount_minor ≤ pos_part q.authorized_amount_minor)
      × (neg_part q.refunded_amount_minor ≡ 0)
      × (neg_part q.pending_refund_minor ≡ 0)
run_conserves id delivery_id user_id amount currency correlation_id causation_id now {p} calls range
      made proper =
    let v = run-IsValid p calls proper (
      new_payment-IsValid id delivery_id user_id amount currency correlation_id causation_id now
        range made) in
    (v.covered, v.within, v.refunded_range.0, v.reserved_range.0)

-- What a call has done to a payment, by its error.
abbrev pub Versioned : Payment → Payment × Option PaymentError → Type 0
Versioned p (q, none) = q.version ≡ add64 p.version (pos 1)
Versioned p (q, some _) = q ≡ p

-- A call that returns an error leaves the payment as it was; one that succeeds counts the version
-- up by one.
pub apply-Versioned : (c : Call) (p : Payment) (now : ℕ) → Versioned p (apply c p now)
unfolding apply authorize capture cancel fail reserve_refund commit_refund
    release_refund_reservation
apply-Versioned (authorize_call id secret amount) p now = ground arith
apply-Versioned _ p now = ground arith

abbrev pub OneOf : PaymentStatus → List PaymentStatus → Type 0
OneOf to [] = ⊥
OneOf to (s ∷ rest) = (to ≡ s) ⊎ OneOf to rest

-- The status stays, or moves along an edge of the table.
abbrev pub Follows : PaymentStatus → PaymentStatus → Type 0
Follows from to = (from ≡ to) ⊎ OneOf to (allowed_transitions from)

-- Every call on a valid payment but `Fail` on a refunded one follows the table, if it is proper: what is
-- authorized is not negative, and what a refund commits or releases is positive.
pub apply-Follows :
    (c : Call) (p : Payment) (now : ℕ)
    → IsProper c
    → IsValid p
    → (c ≡ fail_call → p.status ≢ refunded)
    → Follows p.status (apply c p now).0.status
unfolding apply authorize capture cancel fail reserve_refund commit_refund
    release_refund_reservation
apply-Follows (authorize_call id secret amount) p now proper v h = ground arith
apply-Follows (capture_call amount) p now proper v h = ground arith
apply-Follows cancel_call p now proper v h = ground arith
apply-Follows fail_call p now proper v h = ground (arith, h refl)
apply-Follows (reserve_call amount) p now proper v h = ground arith
apply-Follows (commit_call amount) p now proper v h = ground arith
apply-Follows (release_call amount) p now proper v h = ground arith

-- `Fail` turns every refunded payment into a failed one, where the table has no way out of the
-- refunded status.
pub fail_of_refunded :
    (p : Payment) (now : ℕ)
    → p.status ≡ refunded
    → ((fail p now).1 ≡ none)
      × ((fail p now).0.status ≡ failed)
      × ¬ Follows p.status (fail p now).0.status
unfolding fail
fail_of_refunded p now h = ground arith

-- A captured, cancelled, failed or refunded payment, which `IsTerminal` calls terminal.
-- No call but a refund's and, on a refunded payment, `Fail` moves it out of that status.
pub is_terminal_stays :
    (c : Call) (p : Payment) (now : ℕ)
    → IsProper c
    → IsValid p
    → is_terminal p ≡ true
    → ((apply c p now).0.status ≡ p.status)
      ⊎ ((p.status ≡ captured) × ((apply c p now).0.status ≡ refunded))
      ⊎ ((p.status ≡ refunded) × (c ≡ fail_call))
unfolding apply authorize capture cancel fail reserve_refund commit_refund
    release_refund_reservation is_terminal
is_terminal_stays (authorize_call id secret amount) p now proper v t = ground arith
is_terminal_stays _ p now proper v t = ground arith
