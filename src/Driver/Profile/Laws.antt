-- ===== src/Driver/Profile/Laws.antt =====
-- services/driver-service/internal/domain/driver.go: sequences of calls on one driver.
use realtime_delivery_micros.Prelude.{
  ℕ, ◌≡◌, ◌≢◌, ◌⊎◌, ◌↔◌, refl, String, true, false, Option, none, List, [], ◌∷◌, All, arith,
}
use realtime_delivery_micros.Driver.Profile.{
  Driver, DriverStatus, DriverError, offline, available, busy, is_valid_driver_transition,
  go_online, go_offline, reserve, complete_delivery, block, unblock, activate, deactivate,
  same_status,
}

-- The map's rows, one by one.
edge_online :
    (s : DriverStatus) → (is_valid_driver_transition s available "GoOnline" ≡ true) ↔ (s ≡ offline)
unfolding is_valid_driver_transition
edge_online offline = ground arith
edge_online _ = ground arith

edge_offline :
    (s : DriverStatus) → (is_valid_driver_transition s offline "GoOffline" ≡ true) ↔ (s ≡ available)
unfolding is_valid_driver_transition
edge_offline offline = ground arith
edge_offline _ = ground arith

edge_reserve :
    (s : DriverStatus) → (is_valid_driver_transition s busy "Reserve" ≡ true) ↔ (s ≡ available)
unfolding is_valid_driver_transition
edge_reserve offline = ground arith
edge_reserve _ = ground arith

edge_complete :
    (s : DriverStatus)
    → (is_valid_driver_transition s available "CompleteDelivery" ≡ true) ↔ (s ≡ busy)
unfolding is_valid_driver_transition
edge_complete offline = ground arith
edge_complete _ = ground arith

is_available : (s : DriverStatus) → (same_status s available ≡ true) ↔ (s ≡ available)
is_available offline = ground arith
is_available _ = ground arith

-- A call of one of the methods that change a driver.
pub data DriverCall : Type 0 where
  go_online_call go_offline_call reserve_call complete_delivery_call : DriverCall
  block_call unblock_call activate_call deactivate_call : DriverCall

pub apply : DriverCall → Driver → ℕ → Driver × Option DriverError
apply go_online_call d now = go_online d now
apply go_offline_call d now = go_offline d now
apply reserve_call d now = reserve d now
apply complete_delivery_call d now = complete_delivery d now
apply block_call d now = block d now
apply unblock_call d now = unblock d now
apply activate_call d now = activate d now
apply deactivate_call d now = deactivate d now

-- The action of the map that a call goes by. `Deactivate` takes an available driver off line.
abbrev pub action_of : DriverCall → String
action_of go_online_call = "GoOnline"
action_of reserve_call = "Reserve"
action_of complete_delivery_call = "CompleteDelivery"
action_of _ = "GoOffline"

-- Every call leaves the status, or moves it along the edge of the map that has the call's action.
pub apply-Moves :
    (c : DriverCall) (d : Driver) (now : ℕ)
    → let to = (apply c d now).0.status in
      (to ≡ d.status) ⊎ (is_valid_driver_transition d.status to (action_of c) ≡ true)
unfolding apply go_online go_offline reserve complete_delivery block unblock activate deactivate
apply-Moves go_online_call d now = ground (
  arith,
  edge_online d.status,
  edge_offline d.status,
  edge_reserve d.status,
  edge_complete d.status,
  is_available d.status,
)
apply-Moves _ d now = ground (
  arith,
  edge_online d.status,
  edge_offline d.status,
  edge_reserve d.status,
  edge_complete d.status,
  is_available d.status,
)

-- `Reserve` succeeds on exactly the drivers that are available, active and not blocked.
pub reserve_iff :
    (d : Driver) (now : ℕ)
    → ((reserve d now).1 ≡ none)
      ↔ ((d.status ≡ available) × (d.is_active ≡ true) × (d.is_blocked ≡ false))
unfolding reserve
reserve_iff d now =
    (λ h. ground (arith, edge_reserve d.status), λ h. ground (arith, edge_reserve d.status))

pub run : Driver → List (DriverCall × ℕ) → Driver
run d [] = d
run d ((c, now) ∷ calls) = run (apply c d now).0 calls

abbrev pub IsUnfinished : DriverCall × ℕ → Type 0
IsUnfinished (c, _) = c ≢ complete_delivery_call

apply_stays_busy :
    (c : DriverCall) (d : Driver) (now : ℕ)
    → c ≢ complete_delivery_call
    → d.status ≡ busy
    → (apply c d now).0.status ≡ busy
unfolding apply go_online go_offline reserve complete_delivery block unblock activate deactivate
apply_stays_busy complete_delivery_call d now other h = ground (arith, other refl)
apply_stays_busy _ d now other h = ground (
  arith,
  edge_online d.status,
  edge_offline d.status,
  edge_reserve d.status,
  edge_complete d.status,
  is_available d.status,
)

run_stays_busy :
    (d : Driver) (calls : List (DriverCall × ℕ))
    → All IsUnfinished calls
    → d.status ≡ busy
    → (run d calls).status ≡ busy
unfolding run
run_stays_busy d [] all h = h
run_stays_busy d ((c, now) ∷ calls) all h =
    run_stays_busy (apply c d now).0 calls all.1 (apply_stays_busy c d now all.0 h)

reserve_of_busy : (d : Driver) (now : ℕ) → d.status ≡ busy → (reserve d now).1 ≢ none
unfolding reserve
reserve_of_busy d now h = ground (arith, edge_reserve d.status)

reserve_makes_busy :
    (d : Driver) (now : ℕ) → (reserve d now).1 ≡ none → (reserve d now).0.status ≡ busy
unfolding reserve
reserve_makes_busy d now h = ground arith

-- A reserved driver is reserved once: after a `Reserve` that succeeded, whatever calls but
-- `CompleteDelivery` follow, the driver is busy and `Reserve` fails.
pub reserve_excludes :
    (d : Driver) (now later : ℕ) (calls : List (DriverCall × ℕ))
    → (reserve d now).1 ≡ none
    → All IsUnfinished calls
    → let after = run (reserve d now).0 calls in
      (after.status ≡ busy) × ((reserve after later).1 ≢ none)
reserve_excludes d now later calls done all =
    let stays = run_stays_busy (reserve d now).0 calls all (reserve_makes_busy d now done) in
    (stays, reserve_of_busy (run (reserve d now).0 calls) later stays)

-- A driver deactivated during a delivery becomes available at its end, and stays inactive.
pub complete_of_deactivated :
    (d : Driver) (now later : ℕ)
    → d.status ≡ busy
    → let after = complete_delivery (deactivate d now).0 later in
      (after.1 ≡ none) × (after.0.status ≡ available) × (after.0.is_active ≡ false)
unfolding complete_delivery deactivate
complete_of_deactivated d now later h =
    ground (arith, edge_complete d.status, is_available d.status)
