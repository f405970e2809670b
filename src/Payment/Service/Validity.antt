-- ===== src/Payment/Service/Validity.antt =====
-- payment_service.go: the payments that the use cases leave in the table are valid, whatever the
-- provider answers and whichever statements the database fails.
use realtime_delivery_micros.Prelude.{
  ◌≡◌, refl, inl, inr, String, Bool, true, false, Option, none, some, [], ◌∷◌, ◌==◌, All,
  All-append, Bool-cases, Option-cases,
}
use realtime_delivery_micros.Prelude.Int.{ℤ}
use realtime_delivery_micros.Prelude.Result.{Result, ok, err}
use realtime_delivery_micros.Payment.Domain.{Payment, PaymentError}
use realtime_delivery_micros.Payment.Domain.Invariant.{IsValid}
use realtime_delivery_micros.Payment.Store.{
  Db, Action, find_payment, payment_find_by_id, payment_create, rows_affected, update_conditional,
}
use realtime_delivery_micros.Prelude.Action.Gives.{Holds, Always, any, Gives}
use realtime_delivery_micros.Payment.Store.Rows.{update_rows-IsValid, find_payment-IsValid}
use realtime_delivery_micros.Payment.Service.Env.{Env, Site, at_find, perform, lift, checked}

-- Every payment in the table is valid.
abbrev pub Valid : Db → Type 0
Valid db = All IsValid db.payments

-- The other processes keep the table valid.
abbrev pub IsCalm : Env → Type 0
IsCalm env = (site : Site) (db : Db) → Valid db → Valid (env.others site db)

payment_create_step :
    (down : Bool) (p : Payment)
    → IsValid p
    → (db : Db) → Valid db
    → Valid (payment_create down p db).1
unfolding payment_create
payment_create_step true p v db h = h
payment_create_step false p v db h = elim (Option-cases (find_payment p.id db.payments)) [
  | inl e ↦ rw e (All-append IsValid db.payments (p ∷ []) h (v, tt))
  | inr (q, e) ↦ rw e h
]

-- An action whose tables are valid afterwards, whatever it gives.
pub keeps-Gives :
    {A : Type 0} {m : Action A} → ((db : Db) → Valid db → Valid (m db).1) → Gives Valid Always m
keeps-Gives {m = m} h = record { gives = λ db i. (h db i, any (m db).0) }

pub payment_create-Gives :
    (down : Bool) (p : Payment) → IsValid p → Gives Valid Always (payment_create down p)
payment_create-Gives down p v = keeps-Gives (payment_create_step down p v)

find_step :
    (down : Bool) (id : String) (db : Db)
    → Valid db
    → let out = payment_find_by_id down id db in Valid out.1 × Holds IsValid out.0
unfolding payment_find_by_id
find_step true id db h = (h, tt)
find_step false id db h = elim (Option-cases (find_payment id db.payments)) [
  | inl e ↦ rw e (h, tt)
  | inr (p, e) ↦ rw e (h, find_payment-IsValid id db.payments h e)
]

pub payment_find_by_id-Gives :
    (down : Bool) (id : String) → Gives Valid IsValid (payment_find_by_id down id)
payment_find_by_id-Gives down id = record { gives = find_step down id }

update_step :
    (down : Bool) (p : Payment) (expected : ℤ)
    → IsValid p
    → (db : Db) → Valid db
    → Valid (update_conditional down p expected db).1
unfolding update_conditional
update_step true p expected v db h = h
update_step false p expected v db h =
    elim (Bool-cases (rows_affected p expected db.payments == 0)) [
      | inl e ↦ rw e h
      | inr e ↦ rw e (update_rows-IsValid p expected db.payments v h)
    ]

pub update_conditional-Gives :
    (down : Bool) (p : Payment) (expected : ℤ)
    → IsValid p
    → Gives Valid Always (update_conditional down p expected)
update_conditional-Gives down p expected v = keeps-Gives (update_step down p expected v)

-- An action that leaves the payments alone.
abbrev pub Spares : {A : Type 0} → Action A → Type 0
Spares m = (db : Db) → (m db).1.payments ≡ db.payments

pub Spares-Gives : {A : Type 0} {m : Action A} → Spares m → Gives Valid Always m
Spares-Gives spares = keeps-Gives (λ db i. rw (spares db) i)

pub lift-Gives :
    {A : Type 0} {P : A → Type 0} {r : Result PaymentError A}
    → ((a : A) → r ≡ ok a → P a)
    → Gives Valid P (lift r)
lift-Gives {r = ok a} h = record { gives = λ db i. (i, h a refl) }
lift-Gives {r = err e} h = record { gives = λ db i. (i, tt) }

-- A method that leaves a valid payment, behind the test of its error.
pub checked-Gives :
    (change : Payment × Option PaymentError)
    → IsValid change.0
    → Gives Valid IsValid (checked change)
checked-Gives (p, none) h = record { gives = λ db i. (i, h) }
checked-Gives (p, some e) h = record { gives = λ db i. (i, tt) }

module _ (env : Env) (calm : IsCalm env) where
  pub perform-Gives :
      {A : Type 0} {P : A → Type 0} (site : Site) {statement : Bool → Action A}
      → ((down : Bool) → Gives Valid P (statement down))
      → Gives Valid P (perform env site statement)
  unfolding perform
  perform-Gives site h = record {
    gives = λ db i. (h (env.down site)).gives (env.others site db) (calm site db i);
  }

  pub find-Gives :
      (id : String) → Gives Valid IsValid (perform env at_find (λ down. payment_find_by_id down id))
  find-Gives id = perform-Gives at_find (λ down. payment_find_by_id-Gives down id)

  pub update-Gives :
      (site : Site) (p : Payment) (expected : ℤ)
      → IsValid p
      → Gives Valid Always (perform env site (λ down. update_conditional down p expected))
  update-Gives site p expected v =
      perform-Gives site (λ down. update_conditional-Gives down p expected v)
