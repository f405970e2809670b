-- ===== src/Payment/Store.antt =====
-- services/payment-service/internal/adapters/postgres: the tables and the statements on them.
-- A statement's first argument says whether the database fails it, which changes nothing.
pub mod Rows
use text.Mathlib.Text.{◌==◌ as str_eq}
use realtime_delivery_micros.Prelude.{
  ℕ, suc, ◌+◌, String, Bool, true, false, ◌&&◌, Option, none, some, List, [], ◌∷◌, ◌++◌, map, ◌==◌,
  if◌then◌else◌,
}
use realtime_delivery_micros.Prelude.Int.{ℤ, eq_ℤ}
use realtime_delivery_micros.Prelude.Result.{Result, ok, err}
use realtime_delivery_micros.Prelude.Action.{Stateful}
use realtime_delivery_micros.Payment.Currency.{PaymentStatus, RefundStatus, OperationStatus}
use realtime_delivery_micros.Payment.Domain.{
  Payment, PaymentError, payment_not_found, concurrent_modification, duplicate_idempotency,
}
use realtime_delivery_micros.Payment.Refund.{Refund, Attempt}
use realtime_delivery_micros.Payment.Events.{PaymentEvent}

-- A message of `PublishPaymentStatusUpdated`.
pub record StatusUpdate : Type 0 where
  pub payment_id : String
  pub delivery_id : String
  pub user_id : String
  pub status : PaymentStatus
  pub updated_at : ℕ

pub record ProcessedEvent : Type 0 where
  pub provider : String
  pub provider_event_id : String
  pub event_type : String

pub record Db : Type 0 where
  pub payments : List Payment
  pub refunds : List Refund
  pub attempts : List Attempt
  pub outbox : List PaymentEvent
  pub processed : List ProcessedEvent
  pub realtime : List StatusUpdate

-- What a caller of the service gets as an error: one of the domain, one of the database, one of
-- decoding JSON, or the message of the provider in a new error.
pub data ServiceError : Type 0 where
  domain : PaymentError → ServiceError
  database undecodable : ServiceError
  provider_failed : String → ServiceError

-- A statement's result and the tables after it.
abbrev pub Action : Type 0 → Type 0
Action A = Stateful Db ServiceError A

-- `SELECT ... WHERE id = $1`
unfoldable pub find_payment : String → List Payment → Option Payment
find_payment id [] = none
find_payment id (p ∷ ps) = if str_eq p.id id then some p else find_payment id ps

unfoldable pub payment_create : Bool → Payment → Action (Unit {0})
payment_create down p db =
    if down then (err database, db) else elim (find_payment p.id db.payments) [
      | none ↦ (ok tt, record db { payments = db.payments ++ (p ∷ []) })
      | some _ ↦ (err database, db)
    ]

unfoldable pub payment_find_by_id : Bool → String → Action Payment
payment_find_by_id down id db =
    if down then (err database, db) else elim (find_payment id db.payments) [
      | none ↦ (err (domain payment_not_found), db)
      | some p ↦ (ok p, db)
    ]

-- The columns that the update sets; the others keep what the row has.
abbrev pub overlay : Payment → Payment → Payment
overlay p row = record row {
  status = p.status;
  provider_payment_id = p.provider_payment_id;
  gateway_session_id = p.gateway_session_id;
  authorized_amount_minor = p.authorized_amount_minor;
  captured_amount_minor = p.captured_amount_minor;
  refunded_amount_minor = p.refunded_amount_minor;
  pending_refund_minor = p.pending_refund_minor;
  version = p.version;
  updated_at = p.updated_at;
  authorized_at = p.authorized_at;
  captured_at = p.captured_at;
  cancelled_at = p.cancelled_at;
  failed_at = p.failed_at;
}

-- `WHERE id=$14 AND version=$15`
abbrev pub selects : Payment → ℤ → Payment → Bool
selects p expected row = str_eq row.id p.id && eq_ℤ row.version expected

pub update_rows : Payment → ℤ → List Payment → List Payment
update_rows p expected [] = []
update_rows p expected (row ∷ rows) =
    (if selects p expected row then overlay p row else row) ∷ update_rows p expected rows

unfoldable pub rows_affected : Payment → ℤ → List Payment → ℕ
rows_affected p expected [] = 0
rows_affected p expected (row ∷ rows) =
    (if selects p expected row then 1 else 0) + rows_affected p expected rows

unfoldable pub update_conditional : Bool → Payment → ℤ → Action (Unit {0})
update_conditional down p expected db =
    if down
    then (err database, db)
    else if rows_affected p expected db.payments == 0
    then (err (domain concurrent_modification), db)
    else (ok tt, record db { payments = update_rows p expected db.payments })

has_refund : String → List Refund → Bool
has_refund id [] = false
has_refund id (r ∷ rs) = if str_eq r.id id then true else has_refund id rs

unfoldable pub refund_create : Bool → Refund → Action (Unit {0})
unfolding has_refund
refund_create down r db =
    if down
    then (err database, db)
    else if has_refund r.id db.refunds
    then (err database, db)
    else (ok tt, record db { refunds = db.refunds ++ (r ∷ []) })

unfoldable pub refund_update_status : Bool → String → RefundStatus → String → ℕ → Action (Unit {0})
refund_update_status down id status provider_refund_id now db =
    if down then (err database, db) else (
      ok tt,
      record db {
        refunds =
            map
              (λ (r : Refund).
                if str_eq r.id id
                then record r {
                  status = status;
                  provider_refund_id = provider_refund_id;
                  updated_at = now;
                }
                else r)
              db.refunds;
      },
    )

has_attempt : String → List Attempt → Bool
has_attempt id [] = false
has_attempt id (a ∷ as') = if str_eq a.id id then true else has_attempt id as'

unfoldable pub attempt_create : Bool → Attempt → Action (Unit {0})
unfolding has_attempt
attempt_create down a db =
    if down
    then (err database, db)
    else if has_attempt a.id db.attempts
    then (err database, db)
    else (ok tt, record db { attempts = db.attempts ++ (a ∷ []) })

unfoldable pub attempt_update_status :
    Bool → String → OperationStatus → String → ℕ → Action (Unit {0})
attempt_update_status down id status provider_tx_id now db = if down then (err database, db) else (
  ok tt,
  record db {
    attempts =
        map
          (λ (a : Attempt).
            if str_eq a.id id
            then record a {
              status = status;
              provider_transaction_id = provider_tx_id;
              completed_at = some now;
            }
            else a)
          db.attempts;
  },
)

unfoldable pub outbox_insert : Bool → PaymentEvent → Action (Unit {0})
outbox_insert down event db =
    if down then (err database, db) else (ok tt, record db { outbox = db.outbox ++ (event ∷ []) })

unfoldable pub has_processed : String → String → List ProcessedEvent → Bool
has_processed provider id [] = false
has_processed provider id (e ∷ es) =
    if str_eq e.provider provider && str_eq e.provider_event_id id
    then true
    else has_processed provider id es

-- `ON CONFLICT (provider, provider_event_id) DO NOTHING`
unfoldable pub insert_processed_provider_event : Bool → ProcessedEvent → Action (Unit {0})
unfolding has_processed
insert_processed_provider_event down e db =
    if down
    then (err database, db)
    else if has_processed e.provider e.provider_event_id db.processed
    then (err (domain duplicate_idempotency), db)
    else (ok tt, record db { processed = db.processed ++ (e ∷ []) })
