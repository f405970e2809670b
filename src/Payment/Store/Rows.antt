-- ===== src/Payment/Store/Rows.antt =====
-- services/payment-service/internal/adapters/postgres/payment_repo.go: what the conditional update
-- does to the rows of the payments table.
use mathlib.Core.Path.{subst}
use text.Mathlib.Text.{◌==◌ as str_eq}
use text.Mathlib.TextEquality.{eq_iff}
use realtime_delivery_micros.Prelude.{
  ◌≡◌, refl, ◌∙◌, inl, inr, String, Bool, true, false, ◌==◌, Option, none, some, List, [], ◌∷◌,
  ◌++◌, All, arith, if◌then◌else◌, Bool-cases,
}
use realtime_delivery_micros.Prelude.Int.{ℤ, eq_ℤ}
use realtime_delivery_micros.Prelude.Result.{ok, err}
use realtime_delivery_micros.Payment.Domain.{
  Payment, concurrent_modification, duplicate_idempotency,
}
use realtime_delivery_micros.Payment.Domain.Invariant.{IsValid}
use realtime_delivery_micros.Payment.Refund.{Refund}
use realtime_delivery_micros.Payment.Store.{
  Db, ProcessedEvent, has_processed, insert_processed_provider_event, domain, find_payment,
  update_rows, rows_affected, selects, overlay, update_conditional, refund_create, has_refund,
}

pub str_eq_refl : (s : String) → str_eq s s ≡ true
str_eq_refl s = (eq_iff s s).1 refl

-- The row after the update, where there is one.
abbrev pub written : Payment → ℤ → Option Payment → Option Payment
written p expected none = none
written p expected (some row) = some (if eq_ℤ row.version expected then overlay p row else row)

-- A reader finds a written row as the writer left it, if the writer had its version; otherwise the
-- row is as before.
pub find-update_rows :
    (p : Payment) (expected : ℤ) (rows : List Payment)
    → find_payment p.id (update_rows p expected rows) ≡ written p expected (find_payment p.id rows)
unfolding find_payment update_rows
find-update_rows p expected [] = refl
find-update_rows p expected (r ∷ rows) =
    let rest = find-update_rows p expected rows in
    elim (Bool-cases (str_eq r.id p.id)) [
      | inl e ↦ elim (Bool-cases (eq_ℤ r.version expected)) [
        | inl v ↦ rw (e, v, e) refl
        | inr v ↦ rw (e, v, e) refl
      ]
      | inr e ↦ rw (e, e) rest
    ]

-- Rows of other payments stay.
pub find-update_rows_other :
    (p : Payment) (expected : ℤ) (id : String) (rows : List Payment)
    → str_eq p.id id ≡ false
    → find_payment id (update_rows p expected rows) ≡ find_payment id rows
unfolding find_payment update_rows
find-update_rows_other p expected id [] h = refl
find-update_rows_other p expected id (r ∷ rows) h =
    let rest = find-update_rows_other p expected id rows h in
    elim (Bool-cases (str_eq r.id p.id)) [
      | inl e ↦
          let apart : str_eq r.id id ≡ false = ground (arith, eq_iff r.id p.id) in
          elim (Bool-cases (eq_ℤ r.version expected)) [
            | inl v ↦ rw (e, v, apart) rest
            | inr v ↦ rw (e, v, apart) rest
          ]
      | inr e ↦ rw e (rw (rest) refl)
    ]

pub affected_after :
    (p q : Payment) (expected : ℤ) (rows : List Payment)
    → q.id ≡ p.id
    → eq_ℤ p.version expected ≡ false
    → rows_affected q expected (update_rows p expected rows) ≡ 0
unfolding rows_affected update_rows
affected_after p q expected [] same newer = refl
affected_after p q expected (r ∷ rows) same newer =
    let rest = affected_after p q expected rows same newer in
    elim (Bool-cases (str_eq r.id p.id)) [
      | inl e ↦ elim (Bool-cases (eq_ℤ r.version expected)) [
        | inl v ↦ ground arith
        | inr v ↦ ground arith
      ]
      | inr e ↦ ground arith
    ]

pub update_rows-IsValid :
    (p : Payment) (expected : ℤ) (rows : List Payment)
    → IsValid p
    → All IsValid rows
    → All IsValid (update_rows p expected rows)
unfolding update_rows
update_rows-IsValid p expected [] v h = tt
update_rows-IsValid p expected (r ∷ rows) v h =
    let rest = update_rows-IsValid p expected rows v h.1 in
    elim (Bool-cases (selects p expected r)) [ inl e ↦ ground arith | inr e ↦ ground arith ]

pub find_payment-IsValid :
    (id : String) (rows : List Payment) {p : Payment}
    → All IsValid rows
    → find_payment id rows ≡ some p
    → IsValid p
unfolding find_payment
find_payment-IsValid id [] h found = ground arith
find_payment-IsValid id (r ∷ rows) {p = p} h found = elim (Bool-cases (str_eq r.id id)) [
  | inl e ↦ let same : r ≡ p = ground arith in subst IsValid same h.0
  | inr e ↦ find_payment-IsValid id rows {p = p} h.1 (ground arith)
]

-- Two writers that have read the same version: the first write, if it is done and counts the
-- version up, makes the conditional write of the second fail and change nothing.
pub second_writer_refused :
    (p q : Payment) (expected : ℤ) (db : Db)
    → q.id ≡ p.id
    → eq_ℤ p.version expected ≡ false
    → (update_conditional false p expected db).0 ≡ ok tt
    → let after = (update_conditional false p expected db).1 in
      update_conditional false q expected after ≡ (err (domain concurrent_modification), after)
unfolding update_conditional
second_writer_refused p q expected db same newer done =
    elim (Bool-cases (rows_affected p expected db.payments == 0)) [
      | inl e ↦ ground arith
      | inr e ↦ rw (e, affected_after p q expected db.payments same newer) refl
    ]

found_affects :
    (p : Payment) (expected : ℤ) (rows : List Payment) {row : Payment}
    → find_payment p.id rows ≡ some row
    → eq_ℤ row.version expected ≡ true
    → (rows_affected p expected rows == 0) ≡ false
unfolding find_payment rows_affected
found_affects p expected [] h v = ground arith
found_affects p expected (r ∷ rows) {row = row} h v = elim (Bool-cases (str_eq r.id p.id)) [
  | inl e ↦ let same : r ≡ row = ground arith in ground arith
  | inr e ↦ ground (arith, found_affects p expected rows {row = row} (ground arith) v)
]

-- A conditional write on the version that the row has.
pub update_conditional-writes :
    (p : Payment) (expected : ℤ) (db : Db) {row : Payment}
    → find_payment p.id db.payments ≡ some row
    → eq_ℤ row.version expected ≡ true
    → ((update_conditional false p expected db).0 ≡ ok tt)
      × (find_payment p.id (update_conditional false p expected db).1.payments
          ≡ some (overlay p row))
unfolding update_conditional
update_conditional-writes p expected db {row = row} h v =
    rw (found_affects p expected db.payments h v)
      (refl, find-update_rows p expected db.payments ∙ rw (h, v) refl)

-- A conditional write on a version that the row does not have.
pub update_conditional-misses :
    (p : Payment) (expected : ℤ) (db : Db) {row : Payment}
    → find_payment p.id db.payments ≡ some row
    → eq_ℤ row.version expected ≡ false
    → find_payment p.id (update_conditional false p expected db).1.payments ≡ some row
unfolding update_conditional
update_conditional-misses p expected db {row = row} h v =
    elim (Bool-cases (rows_affected p expected db.payments == 0)) [
      | inl e ↦ rw e h
      | inr e ↦ rw e (find-update_rows p expected db.payments ∙ rw (h, v) refl)
    ]

pub find_payment-id :
    (id : String) (rows : List Payment) {p : Payment} → find_payment id rows ≡ some p → p.id ≡ id
unfolding find_payment
find_payment-id id [] h = ground arith
find_payment-id id (r ∷ rows) {p = p} h = elim (Bool-cases (str_eq r.id id)) [
  | inl e ↦ ground (arith, eq_iff r.id id)
  | inr e ↦ find_payment-id id rows {p = p} (ground arith)
]

-- Whether a refund's row is taken depends on the refunds only, which a write of the payments leaves.
pub refund_create_reads :
    (r : Refund) (a b : Db)
    → a.refunds ≡ b.refunds
    → (refund_create false r a).0 ≡ (refund_create false r b).0
unfolding refund_create
refund_create_reads r a b h = elim (Bool-cases (has_refund r.id b.refunds)) [
  | inl e ↦ let e' : has_refund r.id a.refunds ≡ true = rw h e in rw (e, e') refl
  | inr e ↦ let e' : has_refund r.id a.refunds ≡ false = rw h e in rw (e, e') refl
]

pub update_conditional_refunds :
    (down : Bool) (p : Payment) (expected : ℤ) (db : Db)
    → (update_conditional down p expected db).1.refunds ≡ db.refunds
unfolding update_conditional
update_conditional_refunds down p expected db = ground arith

pub insert-stored :
    (e : ProcessedEvent) (db : Db)
    → has_processed e.provider e.provider_event_id db.processed ≡ true
    → insert_processed_provider_event false e db ≡ (err (domain duplicate_idempotency), db)
unfolding insert_processed_provider_event
insert-stored e db h = rw h refl

pub insert-fresh :
    (e : ProcessedEvent) (db : Db)
    → has_processed e.provider e.provider_event_id db.processed ≡ false
    → insert_processed_provider_event false e db
      ≡ (ok tt, record db { processed = db.processed ++ (e ∷ []) })
unfolding insert_processed_provider_event
insert-fresh e db h = rw h refl
