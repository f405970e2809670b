-- ===== src/Driver/Profile.antt =====
-- services/driver-service/internal/domain/driver.go and errors.go: the driver aggregate. A method
-- takes the time that `time.Now` gives it and returns the driver as the call leaves it, with its
-- error, `none` for nil; the mutex that it holds makes it one step.
pub mod Laws
use text.Mathlib.Text.{◌==◌ as str_eq}
use realtime_delivery_micros.Prelude.{
  ℕ, String, Bool, true, false, ◌&&◌, not, Option, none, some, List, [], ◌∷◌, if◌then◌else◌,
}
use realtime_delivery_micros.Prelude.Int.{ℤ}

-- The errors that a driver's methods return.
pub data DriverError : Type 0 where
  driver_blocked driver_not_active invalid_transition : DriverError

pub data DriverStatus : Type 0 where
  offline available busy suspended blocked : DriverStatus

abbrev pub driver_status_text : DriverStatus → String
driver_status_text offline = "OFFLINE"
driver_status_text available = "AVAILABLE"
driver_status_text busy = "BUSY"
driver_status_text suspended = "SUSPENDED"
driver_status_text blocked = "BLOCKED"

abbrev pub same_status : DriverStatus → DriverStatus → Bool
same_status a b = str_eq (driver_status_text a) (driver_status_text b)

pub data VehicleType : Type 0 where
  car motorcycle truck bicycle van : VehicleType

pub record VehicleInfo : Type 0 where
  pub vehicle_type : VehicleType
  pub plate_number : String
  pub capacity_kg : ℤ

-- The rating is kept as the bits of its float64, which the methods only store.
pub record Driver : Type 0 where
  pub id : String
  pub user_id : String
  pub status : DriverStatus
  pub is_active : Bool
  pub is_blocked : Bool
  pub vehicle : VehicleInfo
  pub capabilities : List String
  pub service_area : String
  pub rating : ℕ
  pub rating_count : ℤ
  pub version : ℤ
  pub created_at : ℕ
  pub updated_at : ℕ

pub record DriverStatusTransition : Type 0 where
  pub origin : DriverStatus
  pub action : String
  pub target : DriverStatus

abbrev edge : DriverStatus → String → DriverStatus → DriverStatusTransition
edge from action to = record { origin = from; action = action; target = to }

-- A status that the map has no entry for has no transitions.
abbrev pub driver_transition_map : DriverStatus → List DriverStatusTransition
driver_transition_map offline = edge offline "GoOnline" available ∷ []
driver_transition_map available =
    edge available "GoOffline" offline ∷ edge available "Reserve" busy ∷ []
driver_transition_map busy = edge busy "CompleteDelivery" available ∷ []
driver_transition_map _ = []

listed : DriverStatus → DriverStatus → String → List DriverStatusTransition → Bool
listed from to action [] = false
listed from to action (t ∷ ts) =
    if same_status t.origin from && (str_eq t.action action && same_status t.target to)
    then true
    else listed from to action ts

unfoldable pub is_valid_driver_transition : DriverStatus → DriverStatus → String → Bool
unfolding listed
is_valid_driver_transition from to action = listed from to action (driver_transition_map from)

-- The change that the methods with a row in the map end with.
abbrev pub move : Driver → DriverStatus → String → ℕ → Driver × Option DriverError
move d to action now =
    if not (is_valid_driver_transition d.status to action)
    then (d, some invalid_transition)
    else (record d { status = to; updated_at = now }, none)

unfoldable pub go_online : Driver → ℕ → Driver × Option DriverError
go_online d now =
    if d.is_blocked
    then (d, some driver_blocked)
    else if not d.is_active
    then (d, some driver_not_active)
    else move d available "GoOnline" now

unfoldable pub go_offline : Driver → ℕ → Driver × Option DriverError
go_offline d now = move d offline "GoOffline" now

unfoldable pub reserve : Driver → ℕ → Driver × Option DriverError
reserve d now =
    if d.is_blocked
    then (d, some driver_blocked)
    else if not d.is_active
    then (d, some driver_not_active)
    else move d busy "Reserve" now

unfoldable pub complete_delivery : Driver → ℕ → Driver × Option DriverError
complete_delivery d now = move d available "CompleteDelivery" now

unfoldable pub block : Driver → ℕ → Driver × Option DriverError
block d now = (record d { is_blocked = true; updated_at = now }, none)

unfoldable pub unblock : Driver → ℕ → Driver × Option DriverError
unblock d now = (record d { is_blocked = false; updated_at = now }, none)

unfoldable pub activate : Driver → ℕ → Driver × Option DriverError
activate d now = (record d { is_active = true; updated_at = now }, none)

unfoldable pub deactivate : Driver → ℕ → Driver × Option DriverError
deactivate d now = (
  record d {
    is_active = false;
    status = if same_status d.status available then offline else d.status;
    updated_at = now;
  },
  none,
)

unfoldable pub update_rating : Driver → ℕ → ℤ → ℕ → Driver
update_rating d average_rating total_reviews now = record d {
  rating = average_rating;
  rating_count = total_reviews;
  updated_at = now;
}

-- `validDriverStatuses`
unfoldable pub is_driver_status_valid : DriverStatus → Bool
is_driver_status_valid offline = true
is_driver_status_valid available = true
is_driver_status_valid busy = true
is_driver_status_valid _ = false
