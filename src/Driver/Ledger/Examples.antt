-- ===== src/Driver/Ledger/Examples.antt =====
-- The driver service's operations on small stores.
use realtime_delivery_micros.Prelude.{
  ◌*◌, ◌^◌, ◌≤◌, ◌≡◌, ◌⊎◌, refl, String, true, false, none, some, [], ◌∷◌, arith, sym,
}
use realtime_delivery_micros.Prelude.Int.{pos}
use realtime_delivery_micros.Prelude.Action.Contract.{Ends}
use realtime_delivery_micros.Driver.Profile.{Driver, car, offline, available, same_status}
use realtime_delivery_micros.Driver.Assignment.{accepted, rejected}
use realtime_delivery_micros.Driver.Store.{Store}
use realtime_delivery_micros.Driver.Env.{Env, alone}
use realtime_delivery_micros.Driver.Dispatch.{
  offer, reserve_driver, accept_assignment, reject_assignment, release_driver,
  release_driver_by_assignment,
}
use realtime_delivery_micros.Driver.Commands.{
  RegisterDriverCommand, register_driver, go_online_command,
}
use realtime_delivery_micros.Driver.Policy.{new_dispatch_policy}
use realtime_delivery_micros.Driver.Search.Examples.{ranking, near}
use realtime_delivery_micros.Driver.Consumer.{dispatch_delivery}
use realtime_delivery_micros.Driver.Workers.{check_expired_assignments, reconcile}
use realtime_delivery_micros.Driver.Collection.{find_one}
use realtime_delivery_micros.Driver.Ledger.{IsSound, driver_row, open_of, busy_of}
use realtime_delivery_micros.Driver.Ledger.Reserve.{IsBooked, IsFit}
use realtime_delivery_micros.Driver.Ledger.Lookup.{Stands}
use realtime_delivery_micros.Driver.Ledger.Freeing.{IsFree}
use realtime_delivery_micros.Driver.Ledger.Release.{IsOver}
use realtime_delivery_micros.Driver.Ledger.Dispatching.{IsOffered, IsAnnounced}
use realtime_delivery_micros.Driver.Ledger.History.{
  IsReachable, starts, goes_on, registers, goes_online, reserves, reachable_sound,
  no_double_booking,
}
use realtime_delivery_micros.Driver.Ledger.Guarantees.{
  reserve_driver_books, reserve_driver_refuses, accept_assignment_accepts,
  reject_assignment_rejects, release_driver_frees, release_by_assignment_closes,
  reconcile_frees_stuck, expiry_frees_no_driver, delivery_not_lost,
}

-- Every call succeeds, a minute after the epoch.
abbrev calm : Env
calm = record { down = λ _. false; others = λ _ s. s; now = λ _. 60 * 10 ^ 9 }

-- An hour later.
abbrev later : Env
later = record { down = λ _. false; others = λ _ s. s; now = λ _. 3660 * 10 ^ 9 }

abbrev empty : Store
empty = record { drivers = []; assignments = []; locks = []; published = []; reviews = [] }

abbrev application : RegisterDriverCommand
application = record {
  user_id = "u1";
  vehicle_type = car;
  plate_number = "1234";
  capacity_kg = pos 300;
  capabilities = [];
  service_area = "Cairo";
  is_active = true;
}

-- A driver is registered, goes on line and is reserved.
abbrev registered_store : Store
registered_store = (register_driver (alone calm) none 0 "d1" application empty).1

abbrev online_store : Store
online_store = (go_online_command (alone calm) "d1" registered_store).1

abbrev booked_store : Store
booked_store = (reserve_driver (alone calm) "d1" "v1" online_store).1

online_history : IsReachable online_store
unfolding find_one
online_history =
    goes_on registered_store online_store
      (goes_on empty registered_store (starts empty refl refl)
        (registers calm none 0 "d1" application refl))
      (goes_online calm "d1")

booked_history : IsReachable booked_store
booked_history = goes_on online_store booked_store online_history (reserves calm "d1" "v1")

no_double_booking_example :
    (open_of "d1" booked_store ≤ 1) × (open_of "d1" booked_store ≤ busy_of "d1" booked_store)
no_double_booking_example = no_double_booking booked_store booked_history "d1"

reserve_driver_books_example :
    Ends
      (λ reserved t. (reserved ≡ true) × IsBooked IsFit (offer (60 * 10 ^ 9) "d1" "v1") t)
      (λ _ t. IsSound t)
      (reserve_driver (alone calm) "d1" "v1" online_store).0
      (reserve_driver (alone calm) "d1" "v1" online_store).1
reserve_driver_books_example =
    reserve_driver_books calm "d1" "v1" online_store (reachable_sound online_store online_history)

accept_assignment_accepts_example :
    Ends
      (λ _ t. IsSound t × Stands "v1-d1" accepted t.assignments)
      (λ _ t. IsSound t)
      (accept_assignment (alone calm) "v1-d1" "d1" booked_store).0
      (accept_assignment (alone calm) "v1-d1" "d1" booked_store).1
accept_assignment_accepts_example =
    accept_assignment_accepts calm "v1-d1" "d1" booked_store
      (reachable_sound booked_store booked_history)

reject_assignment_rejects_example :
    Ends
      (λ _ t. IsSound t × Stands "v1-d1" rejected t.assignments)
      (λ _ t. IsSound t)
      (reject_assignment (alone calm) "v1-d1" "d1" "too far" booked_store).0
      (reject_assignment (alone calm) "v1-d1" "d1" "too far" booked_store).1
reject_assignment_rejects_example =
    reject_assignment_rejects calm "v1-d1" "d1" "too far" booked_store
      (reachable_sound booked_store booked_history)

release_driver_frees_example :
    Ends
      (λ _ t. IsSound t × (open_of "d1" t ≡ 0) × IsFree (driver_row "d1" t))
      (λ _ t. IsSound t)
      (release_driver (alone calm) "d1" "v1" booked_store).0
      (release_driver (alone calm) "d1" "v1" booked_store).1
release_driver_frees_example =
    release_driver_frees calm "d1" "v1" booked_store (reachable_sound booked_store booked_history)

release_by_assignment_closes_example :
    Ends
      (λ _ t. IsSound t × IsOver "v1-d1" t.assignments)
      (λ _ t. IsSound t)
      (release_driver_by_assignment (alone calm) "v1-d1" booked_store).0
      (release_driver_by_assignment (alone calm) "v1-d1" booked_store).1
release_by_assignment_closes_example =
    release_by_assignment_closes calm "v1-d1" booked_store
      (reachable_sound booked_store booked_history)

reconcile_frees_stuck_example :
    Ends
      (λ _ t. IsSound t × ((id : String) → busy_of id t ≡ open_of id t))
      (λ _ _. ⊥)
      (reconcile (alone calm) (λ _. alone calm) booked_store).0
      (reconcile (alone calm) (λ _. alone calm) booked_store).1
reconcile_frees_stuck_example =
    reconcile_frees_stuck calm (λ _. calm) booked_store
      (reachable_sound booked_store booked_history) refl (λ _. refl) (λ _. refl)

expiry_frees_no_driver_example :
    Ends
      (λ _ t. (t.drivers ≡ booked_store.drivers) × (t.published ≡ booked_store.published))
      (λ _ _. ⊥)
      (check_expired_assignments true (alone later) (λ _. false) (λ _. alone later) booked_store).0
      (check_expired_assignments true (alone later) (λ _. false) (λ _. alone later) booked_store).1
expiry_frees_no_driver_example = expiry_frees_no_driver later (λ _. later) booked_store

-- A driver off line.
abbrev resting : Driver
resting = record {
  id = "d1";
  user_id = "u1";
  status = offline;
  is_active = true;
  is_blocked = false;
  vehicle = record { vehicle_type = car; plate_number = "1234"; capacity_kg = pos 300 };
  capabilities = [];
  service_area = "Cairo";
  rating = 0;
  rating_count = pos 0;
  version = pos 0;
  created_at = 0;
  updated_at = 0;
}

abbrev resting_store : Store
resting_store = record {
  drivers = resting ∷ [];
  assignments = [];
  locks = [];
  published = [];
  reviews = [];
}

resting_taken :
    (d : Driver) → driver_row "d1" resting_store ≡ some d → same_status d.status available ≡ false
unfolding find_one
resting_taken d h = let same : resting ≡ d = ground arith in rw (sym same) refl

reserve_driver_refuses_example :
    Ends
      (λ _ _. ⊥)
      (λ _ t. (t.drivers ≡ resting_store.drivers) × (t.assignments ≡ resting_store.assignments))
      (reserve_driver (alone calm) "d1" "v1" resting_store).0
      (reserve_driver (alone calm) "d1" "v1" resting_store).1
reserve_driver_refuses_example = reserve_driver_refuses calm "d1" "v1" resting_store resting_taken

delivery_not_lost_example :
    Ends
      (λ _ t. IsSound t × (IsOffered "v1" t ⊎ IsAnnounced "v1" "c1" t))
      (λ _ t. IsSound t)
      (dispatch_delivery
        (alone calm)
        (λ _. alone calm)
        ranking
        new_dispatch_policy
        "v1"
        "c1"
        near
        online_store).0
      (dispatch_delivery
        (alone calm)
        (λ _. alone calm)
        ranking
        new_dispatch_policy
        "v1"
        "c1"
        near
        online_store).1
delivery_not_lost_example =
    delivery_not_lost calm (λ _. calm) ranking new_dispatch_policy "v1" "c1" near online_store
      (reachable_sound online_store online_history) refl
