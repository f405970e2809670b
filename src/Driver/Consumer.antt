-- ===== src/Driver/Consumer.antt =====
-- services/driver-service/internal/adapters/kafka/delivery_consumer.go: a delivery that was created is
-- offered to the first candidate that can be reserved. The decoding of the message is a parameter.
use text.Mathlib.Text.{◌==◌ as str_eq}
use realtime_delivery_micros.Prelude.{◌+◌, String, Bool, true, false, List, [], ◌∷◌, if◌then◌else◌}
use realtime_delivery_micros.Prelude.Action.{◌>>=◌, pure, raise, ignore, handling}
use realtime_delivery_micros.Driver.Store.{
  Action, malformed, publish, find_rejected_driver_ids, count_by_delivery, no_driver_available,
}
use realtime_delivery_micros.Driver.Env.{Env, at_find_assignment, at_count, at_publish, perform}
use realtime_delivery_micros.Driver.Dispatch.{reserve_driver}
use realtime_delivery_micros.Driver.Policy.{Candidate, DispatchPolicy}
use realtime_delivery_micros.Driver.Search.{Nearby, Ranking, find_available_drivers}

-- What decoding the message gives: an envelope or a payload that is not JSON, an event of another
-- type, or a delivery, with what the location store answers for its pickup.
pub data Message (F : Type 0) : Type 0 where
  bad_envelope bad_payload other_event : Message F
  delivery_created : String → String → List (Nearby F) → Message F

module _ (env : Env) where
  -- `PublishNoDriverAvailable`, with the number of the attempt: 1 where the count fails or is 0.
  unfoldable pub announce_none : String → String → String → Action (Unit {0})
  announce_none delivery_id customer_id reason = do
    count ←
        handling (perform env at_count (λ down. count_by_delivery down delivery_id)) (λ _. pure 0)
          pure
    ignore (
        perform env at_publish
          (λ down. publish down (no_driver_available delivery_id customer_id (count + 1) reason)))

-- The loop over the candidates: whether one was reserved. Each meets an environment of its own.
unfoldable pub reserve_first :
    {F : Type 0} → (String → Env) → String → List (Candidate F) → Action Bool
reserve_first each delivery_id [] = pure false
reserve_first each delivery_id (c ∷ cs) =
    handling (reserve_driver (each c.driver_id) c.driver_id delivery_id)
      (λ _. reserve_first each delivery_id cs)
      (λ reserved. elim reserved [ true ↦ pure true | false ↦ reserve_first each delivery_id cs ])

module _ {F : Type 0} (env : Env) (each : String → Env) (ranking : Ranking F)
    (policy : DispatchPolicy) where
  abbrev pub offer_first : String → String → List (Candidate F) → Action (Unit {0})
  offer_first delivery_id customer_id [] =
      announce_none env delivery_id customer_id "NO_DRIVERS_NEARBY"
  offer_first delivery_id customer_id (c ∷ cs) = do
    reserved ← reserve_first each delivery_id (c ∷ cs)
    elim reserved [
      | true ↦ pure tt
      | false ↦ announce_none env delivery_id customer_id "ALL_DRIVERS_BUSY"
    ]

  -- The rest of `handleMessage` for a delivery: drivers that turned it down are left out, unless the
  -- read of them fails.
  unfoldable pub dispatch_delivery : String → String → List (Nearby F) → Action (Unit {0})
  dispatch_delivery delivery_id customer_id nearby = do
    excluded ←
        handling
          (perform env at_find_assignment (λ down. find_rejected_driver_ids down delivery_id))
          (λ _. pure []) pure
    candidates ← find_available_drivers env ranking policy nearby "" excluded
    offer_first delivery_id customer_id candidates

  -- `handleMessage`
  unfoldable pub handle_message : Message F → Action (Unit {0})
  handle_message bad_envelope = raise malformed
  handle_message bad_payload = raise malformed
  handle_message other_event = pure tt
  handle_message (delivery_created delivery_id customer_id nearby) =
      if str_eq delivery_id "" then pure tt else dispatch_delivery delivery_id customer_id nearby
