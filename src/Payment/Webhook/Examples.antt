-- ===== src/Payment/Webhook/Examples.antt =====
-- handler.go: concrete events, and the theorems at them.
use realtime_delivery_micros.Prelude.{◌≡◌, refl, Bool, true, false, none, some, [], ◌∷◌}
use realtime_delivery_micros.Prelude.Result.{ok, err}
use realtime_delivery_micros.Payment.Currency.{captured, refunded}
use realtime_delivery_micros.Payment.Domain.{is_terminal}
use realtime_delivery_micros.Payment.Domain.Transitions.{Follows}
use realtime_delivery_micros.Prelude.Action.{◌>>=◌, handling}
use realtime_delivery_micros.Payment.Store.{
  Db, find_payment, insert_processed_provider_event, payment_find_by_id, update_conditional,
}
use realtime_delivery_micros.Payment.Service.Env.{Env, Site, Reply, uncategorized, perform}
use realtime_delivery_micros.Payment.Service.RefundEffect.{undisturbed}
use realtime_delivery_micros.Payment.Webhook.{
  WebhookEvent, duplicate, not_processed, handle_event, process_event, complete_payment,
  paid_in_full,
}
use realtime_delivery_micros.Payment.Webhook.Redelivery.{redelivered_is_duplicate}
use realtime_delivery_micros.Payment.Webhook.Completion.{completion_of_ended}
use realtime_delivery_micros.Payment.Examples.{returned}

abbrev refusing : Reply
refusing = err (record { category = uncategorized; message = ""; retryable = false })

abbrev env : Env
env = record {
  down = λ _. false;
  others = λ _ db. db;
  now = λ _. 70;
  payment_id = "";
  attempt_id = "";
  refund_id = "";
  authorize_reply = λ _. refusing;
  capture_reply = λ _. refusing;
  void_reply = λ _. refusing;
  refund_reply = λ _. refusing;
  has_nats = false;
}

abbrev event : WebhookEvent
event = record {
  event_id = "evt_1";
  kind = "payment_intent.succeeded";
  object = some (record { object_id = "pi_1"; metadata_payment_id = "p1"; payment_intent = none });
}

abbrev tables : Db
tables = record {
  payments = returned ∷ [];
  refunds = [];
  attempts = [];
  outbox = [];
  processed = [];
  realtime = [];
}

-- The update of the payment fails, and another process empties the outbox before every statement.
abbrev update_down : Site → Bool
update_down Site.at_update = true
update_down _ = false

abbrev failing : Env
failing = record env { down = update_down; others = λ _ db. record db { outbox = [] } }

first_fails : (handle_event failing event tables).0 ≡ ok not_processed
unfolding handle_event handling perform insert_processed_provider_event process_event ◌>>=◌
    payment_find_by_id find_payment complete_payment update_conditional
first_fails = refl

redelivered_is_duplicate_example :
    let after = (handle_event failing event tables).1 in
    handle_event (undisturbed env) event after ≡ (ok duplicate, after)
redelivered_is_duplicate_example =
    redelivered_is_duplicate failing env event tables refl (λ site db h. h)

returned_found : find_payment "p1" (returned ∷ []) ≡ some returned
unfolding find_payment
returned_found = refl

returned_ended : is_terminal returned ≡ true
unfolding is_terminal
returned_ended = refl

completion_of_ended_example :
    let out = complete_payment (undisturbed env) returned "pi_1" tables in
    (out.0 ≡ ok tt)
    × (find_payment "p1" out.1.payments ≡ some (paid_in_full env returned))
    × ¬ Follows refunded captured
completion_of_ended_example =
    completion_of_ended env returned "pi_1" tables returned_found returned_ended (λ e. cc)
