-- ===== src/Driver/Examples.antt =====
-- services/driver-service/internal/domain: concrete drivers and assignments, and the theorems at them.
use realtime_delivery_micros.Prelude.{
  ℕ, ◌+◌, ◌≤◌, ◌≡◌, ◌≢◌, ◌⊎◌, refl, true, false, none, List, [], ◌∷◌, arith,
}
use realtime_delivery_micros.Prelude.Int.{pos}
use realtime_delivery_micros.Driver.Profile.{
  Driver, available, busy, car, reserve, deactivate, complete_delivery, is_valid_driver_transition,
}
use realtime_delivery_micros.Driver.Profile.Laws.{
  DriverCall, go_online_call, go_offline_call, reserve_call, block_call, deactivate_call,
  IsUnfinished, apply-Moves, reserve_iff, reserve_excludes, complete_of_deactivated,
}
use realtime_delivery_micros.Driver.Profile.Laws as ProfileLaws
use realtime_delivery_micros.Driver.Assignment.{
  Assignment, unassigned, offered, cancelled, expire, is_valid_assignment_transition, cancel,
}
use realtime_delivery_micros.Driver.Assignment.Laws.{
  AssignmentCall, create_call, accept_call, reject_call, expire_call, start_call, complete_call,
  cancel_call, successes_bounded, successes, answered_once, cancel_off_map, stage, run, apply,
}

abbrev driver : Driver
driver = record {
  id = "d1";
  user_id = "u1";
  status = available;
  is_active = true;
  is_blocked = false;
  vehicle = record { vehicle_type = car; plate_number = "A1"; capacity_kg = pos 300 };
  capabilities = [];
  service_area = "cairo";
  rating = 0;
  rating_count = pos 0;
  version = pos 1;
  created_at = 1;
  updated_at = 1;
}

driver_reserves : (reserve driver 2).1 ≡ none
unfolding reserve is_valid_driver_transition
driver_reserves = refl

apply-Moves_example :
    let to = (ProfileLaws.apply deactivate_call driver 2).0.status in
    (to ≡ available) ⊎ (is_valid_driver_transition available to "GoOffline" ≡ true)
apply-Moves_example = apply-Moves deactivate_call driver 2

abbrev driver_calls : List (DriverCall × ℕ)
driver_calls =
    (go_offline_call, 3) ∷ (block_call, 4) ∷ (deactivate_call, 5) ∷ (go_online_call, 6) ∷ []

reserve_excludes_example :
    let after = ProfileLaws.run (reserve driver 2).0 driver_calls in
    (after.status ≡ busy) × ((reserve after 9).1 ≢ none)
reserve_excludes_example = reserve_excludes driver 2 9 driver_calls driver_reserves (ground arith)

complete_of_deactivated_example :
    let after = complete_delivery (deactivate (record driver { status = busy }) 2).0 3 in
    (after.1 ≡ none) × (after.0.status ≡ available) × (after.0.is_active ≡ false)
complete_of_deactivated_example = complete_of_deactivated (record driver { status = busy }) 2 3 refl

abbrev assignment : Assignment
assignment = record {
  id = "a1";
  driver_id = "d1";
  delivery_id = "x1";
  customer_id = "u2";
  status = unassigned;
  attempt_number = pos 0;
  offered_at = 0;
  expires_at = 0;
  accepted_at = none;
  rejected_at = none;
  completed_at = none;
  created_at = 0;
  updated_at = 0;
}

abbrev assignment_calls : List (AssignmentCall × ℕ)
assignment_calls =
    (create_call, 1)
    ∷ (complete_call, 2)
    ∷ (accept_call, 3)
    ∷ (reject_call, 4)
    ∷ (start_call, 5)
    ∷ (cancel_call, 6)
    ∷ (complete_call, 7)
    ∷ []

successes_bounded_example : successes assignment assignment_calls + stage unassigned ≤ 4
successes_bounded_example = successes_bounded assignment assignment_calls

abbrev offer : Assignment
offer = record assignment { status = offered }

expires : (apply expire_call offer 2 2 2).1 ≡ true
unfolding apply expire is_valid_assignment_transition
expires = refl

answered_once_example :
    (apply accept_call (run (apply expire_call offer 2 2 2).0 assignment_calls) 9 9 9).1 ≡ false
answered_once_example =
    answered_once expire_call accept_call offer 2 9 assignment_calls tt tt expires

cancel_off_map_example :
    ((cancel offer 1 2).1 ≡ true
      → is_valid_assignment_transition offered cancelled "cancel" ≡ false)
    × (is_valid_assignment_transition offered cancelled "cancel" ≡ true
        → (cancel offer 1 2).1 ≡ false)
cancel_off_map_example = cancel_off_map offer 1 2
