-- ===== src/Payment/Webhook/Redelivery.antt =====
-- handler.go: an event that the provider delivers again.
use realtime_delivery_micros.Prelude.{
  ◌≡◌, refl, sym, String, Bool, true, false, ◌&&◌, Option, none, some, List, [], ◌∷◌, ◌++◌, ◌∙◌,
  Bool-cases, inl, inr, arith, if◌then◌else◌,
}
use mathlib.Core.Path.{subst}
use text.Mathlib.Text.{◌==◌ as str_eq}
use realtime_delivery_micros.Prelude.Result.{ok}
use realtime_delivery_micros.Payment.Domain.{Payment, is_captured}
use realtime_delivery_micros.Payment.Events.{PaymentEvent}
use realtime_delivery_micros.Prelude.Int.{ℤ}
use realtime_delivery_micros.Prelude.Action.{◌>>=◌, pure, handling}
use realtime_delivery_micros.Payment.Store.{
  Db, ProcessedEvent, Action, undecodable, has_processed, payment_find_by_id, update_conditional,
  outbox_insert, insert_processed_provider_event,
}
use realtime_delivery_micros.Prelude.Action.Gives.{
  Always, Gives, any, handling-Gives, then-Gives, ignore-Gives, pure-Gives, raise-Gives,
}
use realtime_delivery_micros.Payment.Store.Rows.{str_eq_refl, insert-stored, insert-fresh}
use realtime_delivery_micros.Prelude.Action.Runs.{handling_ok, handling_err}
use realtime_delivery_micros.Payment.Service.Env.{
  Env, Site, at_find, at_update, at_event, at_processed, at_provider_find, perform,
}
use realtime_delivery_micros.Payment.Service.RefundEffect.{undisturbed}
use realtime_delivery_micros.Payment.Webhook.{
  WebhookEvent, EventObject, duplicate, not_processed, processed, payment_find_by_provider_id,
  found, find_by_provider, or_by_provider, find_payment_of, complete_payment, complete_found,
  paid_in_full, completion_event, handle_checkout_session_completed,
  handle_payment_intent_succeeded, handle_decoded, process_event, store_event, handle_event,
}

-- The event's identifier is stored.
abbrev pub IsStored : String → Db → Type 0
IsStored id db = has_processed "stripe" id db.processed ≡ true

module _ (id : String) where
  if-Gives :
      {A : Type 0} (b : Bool) (m n : Action A)
      → Gives (IsStored id) Always m
      → Gives (IsStored id) Always n
      → Gives (IsStored id) Always (if b then m else n)
  if-Gives true m n h k = h
  if-Gives false m n h k = k

-- The other processes leave a stored identifier in its table.
abbrev pub Remembers : Env → String → Type 0
Remembers env id = (site : Site) (db : Db) → IsStored id db → IsStored id (env.others site db)

module _ (env : Env) (id : String) (keeps : Remembers env id) where
  statement_spares :
      {A : Type 0} (site : Site) (statement : Bool → Action A)
      → ((down : Bool) (db : Db) → (statement down db).1.processed ≡ db.processed)
      → Gives (IsStored id) Always (perform env site statement)
  unfolding perform
  statement_spares site statement same = record {
    gives = λ db h. (
      rw (same (env.down site) (env.others site db)) (keeps site db h),
      any (statement (env.down site) (env.others site db)).0,
    );
  }

  find_spares :
      (key : String)
      → Gives (IsStored id) Always (perform env at_find (λ down. payment_find_by_id down key))
  unfolding payment_find_by_id
  find_spares key = statement_spares at_find _ (λ down db. ground arith)

  provider_find_spares :
      (key : String)
      → Gives
          (IsStored id)
          Always
          (perform env at_provider_find (λ down. payment_find_by_provider_id down key))
  unfolding payment_find_by_provider_id
  provider_find_spares key = statement_spares at_provider_find _ (λ down db. ground arith)

  found_spares :
      (m : Action Payment) → Gives (IsStored id) Always m → Gives (IsStored id) Always (found env m)
  found_spares m h = handling-Gives h (λ e. pure-Gives tt) (λ p _. pure-Gives tt)

  update_spares :
      (p : Payment) (version : ℤ)
      → Gives
          (IsStored id)
          Always
          (perform env at_update (λ down. update_conditional down p version))
  unfolding update_conditional
  update_spares p version = statement_spares at_update _ (λ down db. ground arith)

  event_spares :
      (e : PaymentEvent)
      → Gives (IsStored id) Always (perform env at_event (λ down. outbox_insert down e))
  unfolding outbox_insert
  event_spares e = statement_spares at_event _ (λ down db. ground arith)

  complete_spares :
      (p : Payment) (tx : String) → Gives (IsStored id) Always (complete_payment env p tx)
  unfolding complete_payment
  complete_spares p tx = if-Gives id (is_captured p.status) _ _ (pure-Gives tt) (
      then-Gives (update_spares (paid_in_full env p) p.version)
        (λ _. ignore-Gives (event_spares (completion_event env p tx))))

  object_spares :
      (object : EventObject) (intent : Option String)
      → Gives
          (IsStored id)
          Always
          (find_payment_of env object intent >>= complete_found env object.object_id)
  object_spares object intent =
      then-Gives
        (then-Gives
          (if-Gives id (str_eq object.metadata_payment_id "") _ _ (pure-Gives tt)
            (found_spares _ (find_spares object.metadata_payment_id)))
          (λ o. or_spares o intent))
        complete_found_spares
    where
      by_spares : (i : Option String) → Gives (IsStored id) Always (find_by_provider env i)
      by_spares none = pure-Gives tt
      by_spares (some key) = found_spares _ (provider_find_spares key)

      or_spares :
          (o : Option Payment) (i : Option String)
          → Gives (IsStored id) Always (or_by_provider env i o)
      or_spares none i = by_spares i
      or_spares (some p) i = pure-Gives tt

      complete_found_spares :
          (o : Option Payment) → Gives (IsStored id) Always (complete_found env object.object_id o)
      complete_found_spares none = pure-Gives tt
      complete_found_spares (some p) = complete_spares p object.object_id

  session_spares :
      (o : Option EventObject)
      → Gives (IsStored id) Always (handle_checkout_session_completed env o)
  session_spares none = raise-Gives undecodable
  session_spares (some o) = object_spares o o.payment_intent

  intent_spares :
      (o : Option EventObject) → Gives (IsStored id) Always (handle_payment_intent_succeeded env o)
  intent_spares none = raise-Gives undecodable
  intent_spares (some o) = object_spares o (some o.object_id)

  decoded_spares : (o : Option EventObject) → Gives (IsStored id) Always (handle_decoded env o)
  decoded_spares none = raise-Gives undecodable
  decoded_spares (some o) = pure-Gives tt

  process_spares : (event : WebhookEvent) → Gives (IsStored id) Always (process_event env event)
  unfolding process_event
  process_spares event =
      if-Gives id (str_eq event.kind "checkout.session.completed") _ _ (session_spares event.object)
        (if-Gives id (str_eq event.kind "payment_intent.succeeded") _ _ (intent_spares event.object)
          (if-Gives id (str_eq event.kind "payment_intent.payment_failed") _ _
            (decoded_spares event.object)
            (if-Gives id (str_eq event.kind "payment_intent.canceled") _ _
              (decoded_spares event.object)
              (if-Gives id (str_eq event.kind "charge.refunded") _ _ (decoded_spares event.object)
                (pure-Gives tt)))))

stored_once :
    (id : String) (e : ProcessedEvent) (es : List ProcessedEvent)
    → e.provider ≡ "stripe"
    → e.provider_event_id ≡ id
    → has_processed "stripe" id (es ++ (e ∷ [])) ≡ true
unfolding has_processed
stored_once id e [] he hi = rw (he, hi, str_eq_refl id) refl
stored_once id e (d ∷ es) he hi =
    let rest = stored_once id e es he hi in
    elim (Bool-cases (str_eq d.provider "stripe" && str_eq d.provider_event_id id)) [
      | inl m ↦ rw m refl
      | inr m ↦ rw m rest
    ]

module _ (env : Env) (event : WebhookEvent) (up : env.down at_processed ≡ false) where
  abbrev entry : ProcessedEvent
  entry = record {
    provider = "stripe";
    provider_event_id = event.event_id;
    event_type = event.kind;
  }

  store_runs :
      (db : Db)
      → store_event env event db
        ≡ insert_processed_provider_event false entry (env.others at_processed db)
  unfolding perform
  store_runs db = rw up refl

  handle_stored :
      (db : Db)
      → IsStored event.event_id (env.others at_processed db)
      → handle_event env event db ≡ (ok duplicate, env.others at_processed db)
  unfolding handle_event
  handle_stored db h =
      handling_err _ _ _ db (store_runs db ∙ insert-stored entry (env.others at_processed db) h)

  module _ (keeps : Remembers env event.event_id) where
    handle_fresh :
        (db : Db)
        → has_processed "stripe" event.event_id (env.others at_processed db).processed ≡ false
        → IsStored event.event_id (handle_event env event db).1
    unfolding handle_event
    handle_fresh db h =
        let before = env.others at_processed db in
        let after = record before { processed = before.processed ++ (entry ∷ []) } in
        let processing : Gives (IsStored event.event_id) Always
            (handling (process_event env event) (λ _. pure not_processed) (λ _. pure processed)) =
          handling-Gives (process_spares env event.event_id keeps event) (λ e. pure-Gives tt)
            (λ a _. pure-Gives tt) in
        rw
          (handling_ok _ _ _ db {a = tt} {after = after}
            (store_runs db ∙ insert-fresh entry before h))
          (processing.gives after (stored_once event.event_id entry before.processed refl refl)).0

    handle-stores : (db : Db) → IsStored event.event_id (handle_event env event db).1
    handle-stores db =
        let before = env.others at_processed db in
        elim (Bool-cases (has_processed "stripe" event.event_id before.processed)) [
          | inl h ↦ subst (λ out. IsStored event.event_id out.1) (sym (handle_stored db h)) h
          | inr h ↦ handle_fresh db h
        ]

-- An event whose identifier the first delivery could store is answered as a duplicate when it comes
-- again, and changes nothing then: also where the processing of the first failed, on whichever other
-- statement and whatever other processes did to the tables in it, as long as they leave a stored
-- identifier stored. During the second delivery the database answers and no other process interferes.
pub redelivered_is_duplicate :
    (first second : Env) (event : WebhookEvent) (db : Db)
    → first.down at_processed ≡ false
    → Remembers first event.event_id
    → let after = (handle_event first event db).1 in
      handle_event (undisturbed second) event after ≡ (ok duplicate, after)
redelivered_is_duplicate first second event db up keeps =
    handle_stored (undisturbed second) event refl (handle_event first event db).1
      (handle-stores first event up keeps db)
