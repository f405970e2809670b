-- ===== src/Driver/Commands.antt =====
-- services/driver-service/internal/application/commands: what the API asks of one driver or of one
-- assignment. The user service is a parameter.
-- Driver/Rating has the rating of a driver.
use Prim.Native.String.{◌++◌ as str_append}
use text.Mathlib.Text.{◌==◌ as str_eq}
use realtime_delivery_micros.Prelude.{
  ℕ, ◌+◌, ◌*◌, ◌^◌, String, Bool, true, false, Option, none, some, List, if◌then◌else◌,
}
use realtime_delivery_micros.Prelude.Int.{ℤ, pos}
use realtime_delivery_micros.Prelude.Action.{
  ◌>>=◌, ◌>>◌, pure, raise, require, ignore, handling, deferring,
}
use realtime_delivery_micros.Driver.Profile.{
  Driver, VehicleType, offline, available, busy, same_status, block, unblock,
}
use realtime_delivery_micros.Driver.Assignment.{Assignment, offered}
use realtime_delivery_micros.Driver.Store.{
  driver_not_found, driver_already_online, driver_not_offline, driver_already_exists,
  driver_not_available_for_assignment, assignment_invalid_state, internal, Action,
  driver_find_by_id, driver_find_by_user_id, driver_save, assignment_save, lock_acquire,
  lock_release, publish, driver_available, driver_created, assignment_rejected,
}
use realtime_delivery_micros.Driver.Env.{
  Env, at_acquire, at_release, at_find, at_driver_save, at_assignment_save, at_publish, perform,
  present, checked,
}
use realtime_delivery_micros.Driver.Dispatch.{
  offer, freed, accept_offer, turned_down, place_offer, assignment_of, release_driver,
}

module _ (env : Env) where
  unfoldable pub driver_of : String → Action Driver
  driver_of driver_id = do
    found ← perform env at_find (λ down. driver_find_by_id down driver_id)
    present found driver_not_found

  -- `Save`, and the driver returned.
  unfoldable pub saved : Driver → Action Driver
  saved d = do perform env at_driver_save (λ down. driver_save down d); pure d

  -- `BlockDriverHandler.Execute`
  unfoldable pub block_driver : String → Action Driver
  block_driver driver_id = do
    d ← driver_of driver_id
    d' ← checked (block d (env.now at_find))
    saved d'

  -- `UnblockDriverHandler.Execute`
  unfoldable pub unblock_driver : String → Action Driver
  unblock_driver driver_id = do
    d ← driver_of driver_id
    d' ← checked (unblock d (env.now at_find))
    saved d'

  -- `GoOfflineCommand.Execute`, which asks the status itself and does not call `Driver.GoOffline`.
  unfoldable pub go_offline_command : String → Action (Unit {0})
  go_offline_command driver_id = do
    d ← driver_of driver_id
    require (same_status d.status available) driver_not_offline
    saved (record d { status = offline; updated_at = env.now at_driver_save })
    pure tt

  -- `GoOnlineCommand.Execute`, which does not call `Driver.GoOnline`.
  unfoldable pub go_online_command : String → Action (Unit {0})
  go_online_command driver_id = do
    d ← driver_of driver_id
    require (same_status d.status offline) driver_already_online
    saved (freed (env.now at_driver_save) d)
    ignore (perform env at_publish (λ down. publish down (driver_available driver_id)))

  -- `AcceptAssignmentCommand.Execute`: a second acceptance is an error here.
  unfoldable pub accept_assignment_command : String → String → Action (Unit {0})
  accept_assignment_command assignment_id driver_id = do
    a ← assignment_of env assignment_id driver_id
    elim a.status [
      | offered ↦ accept_offer env (env.now at_find) (env.now at_assignment_save) a
      | _ ↦ raise assignment_invalid_state
    ]

  -- The driver is left alone.
  unfoldable pub turn_down : Assignment → String → String → Action (Unit {0})
  turn_down a driver_id reason = do
    perform env at_assignment_save (λ down.
        assignment_save down (turned_down (env.now at_find) (env.now at_assignment_save) a))
    ignore (
        perform env at_publish
          (λ down. publish down (assignment_rejected a.id a.delivery_id driver_id reason)))

  -- `RejectAssignmentCommand.Execute`.
  unfoldable pub reject_assignment_command : String → String → String → Action (Unit {0})
  reject_assignment_command assignment_id driver_id reason = do
    a ← assignment_of env assignment_id driver_id
    elim a.status [ offered ↦ turn_down a driver_id reason | _ ↦ raise assignment_invalid_state ]

  -- `ReleaseDriverCommand.Execute`: the calls of `DispatchService.ReleaseDriver`.
  unfoldable pub release_driver_command : String → String → Action (Unit {0})
  release_driver_command driver_id delivery_id = release_driver env driver_id delivery_id

  -- The driver is not asked whether it is active or blocked; the offer stands for 20 seconds. The
  -- readings of the clock for the fields of the offer are one.
  unfoldable pub reserve_command_locked : String → String → Action Bool
  reserve_command_locked driver_id delivery_id = do
    d ← driver_of driver_id
    require (same_status d.status available) driver_not_available_for_assignment
    perform env at_driver_save
        (λ down. driver_save down (record d { status = busy; updated_at = env.now at_driver_save }))
    place_offer env (record d { status = busy; updated_at = env.now at_driver_save })
        (record (offer (env.now at_assignment_save) driver_id delivery_id) {
          expires_at = env.now at_assignment_save + 20 * 10 ^ 9;
        })

  -- `ReserveDriverCommand.Execute`
  unfoldable pub reserve_driver_command : String → String → Action Bool
  reserve_driver_command driver_id delivery_id = do
    acquired ←
        perform env at_acquire (λ down. lock_acquire down (str_append "lock:driver:" driver_id))
    elim acquired [
      | false ↦ pure false
      | true ↦
          deferring
            (perform env at_release
              (λ down. lock_release down (str_append "lock:driver:" driver_id) "temp-token"))
            (reserve_command_locked driver_id delivery_id)
    ]

-- The user service, as the registration sees it: the role of a user, where one is given, and whether
-- an update of the role is answered with success.
pub record UserService : Type 0 where
  pub role_of : String → Option String
  pub update_user_role : String → String → Bool

pub record RegisterDriverCommand : Type 0 where
  pub user_id : String
  pub vehicle_type : VehicleType
  pub plate_number : String
  pub capacity_kg : ℤ
  pub capabilities : List String
  pub service_area : String
  pub is_active : Bool

-- Step 1: the user must not be a driver, and becomes one. Without a client it is passed over.
abbrev pub claim_role : Option UserService → String → Action (Unit {0})
claim_role none user_id = pure tt
claim_role (some users) user_id = elim (users.role_of user_id) [
  | some role ↦
      if str_eq role "driver"
      then raise driver_already_exists
      else require (users.update_user_role user_id "DRIVER") internal
  | none ↦ require (users.update_user_role user_id "DRIVER") internal
]

-- The times of a new driver are Go's zero time.
abbrev pub registered : ℕ → String → RegisterDriverCommand → Driver
registered zero_time new_id cmd = record {
  id = new_id;
  user_id = cmd.user_id;
  status = offline;
  is_active = cmd.is_active;
  is_blocked = false;
  vehicle = record {
    vehicle_type = cmd.vehicle_type;
    plate_number = cmd.plate_number;
    capacity_kg = cmd.capacity_kg;
  };
  capabilities = cmd.capabilities;
  service_area = cmd.service_area;
  rating = 0;
  rating_count = pos 0;
  version = pos 0;
  created_at = zero_time;
  updated_at = zero_time;
}

-- A lookup that fails counts as no driver found.
abbrev pub absent : Option Driver → Action (Unit {0})
absent none = pure tt
absent (some d) = raise driver_already_exists

-- `RegisterDriverHandler.Execute`: `new_id` is the new UUID.
unfoldable pub register_driver :
    Env → Option UserService → ℕ → String → RegisterDriverCommand → Action Driver
register_driver env users zero_time new_id cmd = do
  handling (perform env at_find (λ down. driver_find_by_user_id down cmd.user_id)) (λ _. pure tt)
      absent
  claim_role users cmd.user_id
  perform env at_driver_save (λ down. driver_save down (registered zero_time new_id cmd))
  ignore (perform env at_publish (λ down. publish down (driver_created new_id cmd.user_id)))
  pure (registered zero_time new_id cmd)
