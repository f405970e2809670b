-- ===== src/Driver/Dispatch.antt =====
-- services/driver-service/internal/application/services/dispatch_service.go: drivers reserved for
-- deliveries and freed again. The metrics and the log are left out: no result depends on them.
use Prim.Native.String.{◌++◌ as str_append}
use text.Mathlib.Text.{◌==◌ as str_eq}
use realtime_delivery_micros.Prelude.{
  ℕ, ◌+◌, ◌*◌, ◌^◌, String, Bool, true, false, Option, none, some,
}
use realtime_delivery_micros.Prelude.Int.{pos}
use realtime_delivery_micros.Prelude.Action.{
  ◌>>=◌, ◌>>◌, pure, raise, require, ignore, handling, deferring,
}
use realtime_delivery_micros.Driver.Profile.{
  Driver, available, same_status, driver_status_text, reserve,
}
use realtime_delivery_micros.Driver.Assignment.{
  Assignment, AssignmentStatus, offered, accepted, active, completed, rejected, expired,
}
use realtime_delivery_micros.Driver.Store.{
  ServiceError, driver_not_found, driver_not_available_for_assignment, driver_already_reserved,
  assignment_not_found, assignment_invalid_state, Action, driver_find_by_id, driver_find_by_user_id,
  driver_save, assignment_find_by_id, find_active_by_driver, assignment_save, update_status,
  lock_acquire, lock_release, publish, driver_available, assignment_offered, assignment_accepted,
  assignment_rejected, assignment_expired, assignment_released,
}
use realtime_delivery_micros.Driver.Env.{
  Env, at_acquire, at_release, at_find, at_driver_save, at_find_assignment, at_assignment_save,
  at_rollback, at_publish, at_second_publish, perform, present, checked,
}

-- The offer stands for 30 seconds.
abbrev pub offer : ℕ → String → String → Assignment
offer now driver_id delivery_id = record {
  id = str_append delivery_id (str_append "-" driver_id);
  driver_id = driver_id;
  delivery_id = delivery_id;
  customer_id = "";
  status = offered;
  attempt_number = pos 1;
  offered_at = now;
  expires_at = now + 30 * 10 ^ 9;
  accepted_at = none;
  rejected_at = none;
  completed_at = none;
  created_at = now;
  updated_at = now;
}

-- `driver.Status = domain.DriverStatusAvailable` and the time.
abbrev pub freed : ℕ → Driver → Driver
freed now d = record d { status = available; updated_at = now }

-- The assignment with the status REJECTED: the time of the rejection and that of the update.
abbrev pub turned_down : ℕ → ℕ → Assignment → Assignment
turned_down now now' a = record a { status = rejected; rejected_at = some now; updated_at = now' }

module _ (env : Env) where
  -- The assignment's write, and the driver as it was again if that fails.
  unfoldable pub place_offer : Driver → Assignment → Action Bool
  place_offer d a =
      handling (perform env at_assignment_save (λ down. assignment_save down a))
        (λ e. do
          ignore
              (perform env at_rollback (λ down. driver_save down (freed (env.now at_rollback) d)))
          raise e)
        (λ _. do
          ignore (
              perform env at_publish
                (λ down. publish down (assignment_offered a.id a.delivery_id a.driver_id)))
          pure true)

  -- What `reserveDriver` does while it holds the lock.
  unfoldable pub reserve_locked : String → String → Action Bool
  reserve_locked driver_id delivery_id = do
    found ← perform env at_find (λ down. driver_find_by_id down driver_id)
    d ← present found driver_not_found
    require (same_status d.status available) driver_not_available_for_assignment
    d' ← checked (reserve d (env.now at_find))
    perform env at_driver_save (λ down. driver_save down d')
    place_offer d' (offer (env.now at_assignment_save) driver_id delivery_id)

  -- `reserveDriver`
  unfoldable pub reserve_driver : String → String → Action Bool
  reserve_driver driver_id delivery_id = do
    acquired ← perform env at_acquire (λ down. lock_acquire down driver_id)
    require acquired driver_already_reserved
    deferring (perform env at_release (λ down. lock_release down driver_id ""))
        (reserve_locked driver_id delivery_id)

  -- `if driver != nil { ... }`: the driver is freed, and an error of the write is returned.
  unfoldable pub free_found : Option Driver → Action (Unit {0})
  free_found none = pure tt
  free_found (some d) =
      perform env at_driver_save (λ down. driver_save down (freed (env.now at_driver_save) d))

  -- `if err != nil || assignment == nil { return domain.ErrAssignmentNotFound }`
  unfoldable pub active_assignment : String → Action Assignment
  active_assignment driver_id =
      handling (perform env at_find_assignment (λ down. find_active_by_driver down driver_id))
        (λ _. raise assignment_not_found) (λ found. present found assignment_not_found)

  -- `ReleaseDriver`, which does not look at its `deliveryID`.
  unfoldable pub release_driver : String → String → Action (Unit {0})
  release_driver driver_id delivery_id = do
    a ← active_assignment driver_id
    perform env at_assignment_save
        (λ down. update_status down a.id completed (env.now at_assignment_save))
    found ← perform env at_find (λ down. driver_find_by_id down driver_id)
    free_found found
    ignore (perform env at_publish (λ down. publish down (driver_available driver_id)))

  -- The assignment, if it is the driver's.
  unfoldable pub assignment_of : String → String → Action Assignment
  assignment_of assignment_id driver_id = do
    found ← perform env at_find_assignment (λ down. assignment_find_by_id down assignment_id)
    a ← present found assignment_not_found
    require (str_eq a.driver_id driver_id) assignment_invalid_state
    pure a

  -- `now` is the time of the acceptance, `now'` that of the update.
  unfoldable pub accept_offer : ℕ → ℕ → Assignment → Action (Unit {0})
  accept_offer now now' a = do
    perform env at_assignment_save (λ down.
        assignment_save down
          (record a { status = accepted; accepted_at = some now; updated_at = now' }))
    ignore (
        perform env at_publish
          (λ down. publish down (assignment_accepted a.id a.delivery_id a.driver_id)))

  -- `AcceptAssignment`
  unfoldable pub accept_assignment : String → String → Action (Unit {0})
  accept_assignment assignment_id driver_id = do
    a ← assignment_of assignment_id driver_id
    elim a.status [
      | offered ↦ accept_offer (env.now at_assignment_save) (env.now at_assignment_save) a
      | accepted ↦ pure tt
      | _ ↦ raise assignment_invalid_state
    ]

  -- `if err == nil && driver != nil { ...; _ = s.driverRepo.Save(ctx, driver) }`
  unfoldable pub try_free : String → Action (Unit {0})
  try_free driver_id =
      ignore (do
        found ← perform env at_find (λ down. driver_find_by_id down driver_id)
        free_found found)

  unfoldable pub reject_offer : Assignment → String → String → Action (Unit {0})
  reject_offer a driver_id reason = do
    perform env at_assignment_save (λ down.
        assignment_save down
          (turned_down (env.now at_assignment_save) (env.now at_assignment_save) a))
    try_free driver_id
    ignore (
        perform env at_publish
          (λ down. publish down (assignment_rejected a.id a.delivery_id driver_id reason)))

  -- `RejectAssignment`
  unfoldable pub reject_assignment : String → String → String → Action (Unit {0})
  reject_assignment assignment_id driver_id reason = do
    a ← assignment_of assignment_id driver_id
    elim a.status [
      | offered ↦ reject_offer a driver_id reason
      | rejected ↦ pure tt
      | _ ↦ raise assignment_invalid_state
    ]

  -- A driver found is freed, an error of the write returned, and the driver announced.
  unfoldable pub free_announced : String → Option Driver → Action (Unit {0})
  free_announced driver_id none = pure tt
  free_announced driver_id (some d) = do
    free_found (some d)
    ignore (perform env at_publish (λ down. publish down (driver_available driver_id)))

  -- `if err == nil && driver != nil` in `ReleaseDriverByAssignment`: a failing read is passed over.
  unfoldable pub free_and_announce : String → Action (Unit {0})
  free_and_announce driver_id =
      handling (perform env at_find (λ down. driver_find_by_id down driver_id)) (λ _. pure tt)
        (free_announced driver_id)

  -- The assignment goes to `target`, the driver is freed, and the outcome is announced.
  unfoldable pub settle_assignment : Assignment → AssignmentStatus → Action (Unit {0})
  settle_assignment a target = do
    perform env at_assignment_save (λ down.
        assignment_save down
          (record a { status = target; updated_at = env.now at_assignment_save }))
    free_and_announce a.driver_id
    ignore (
        perform env at_second_publish (λ down. publish down (elim target [
          | expired ↦ assignment_expired a.id a.delivery_id
          | _ ↦ assignment_released a.id
        ])))

  -- `ReleaseDriverByAssignment`
  unfoldable pub release_driver_by_assignment : String → Action (Unit {0})
  release_driver_by_assignment assignment_id = do
    found ← perform env at_find_assignment (λ down. assignment_find_by_id down assignment_id)
    a ← present found assignment_not_found
    elim a.status [
      | active ↦ settle_assignment a completed
      | accepted ↦ settle_assignment a completed
      | offered ↦ settle_assignment a expired
      | _ ↦ pure tt
    ]

  -- `if err != nil || driver == nil { return false, "" }; return true, string(driver.Status)`
  abbrev known_status : Action (Option Driver) → Action (Bool × String)
  known_status lookup =
      handling lookup (λ _. pure (false, ""))
        (λ found. elim found [
          | none ↦ pure (false, "")
          | some d ↦ pure (true, driver_status_text d.status)
        ])

  unfoldable pub validate_driver_id : String → Action (Bool × String)
  validate_driver_id driver_id =
      known_status (perform env at_find (λ down. driver_find_by_id down driver_id))

  unfoldable pub validate_user_id : String → Action (Bool × String)
  validate_user_id user_id =
      known_status (perform env at_find (λ down. driver_find_by_user_id down user_id))

-- `dispatchFailureReason`, the label of the failure's metric.
unfoldable pub dispatch_failure_reason : ServiceError → String
dispatch_failure_reason driver_already_reserved = "already_reserved"
dispatch_failure_reason driver_not_found = "driver_not_found"
dispatch_failure_reason driver_not_available_for_assignment = "driver_not_available"
dispatch_failure_reason _ = "internal_error"
