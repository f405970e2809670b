-- ===== src/Driver/Ledger/History.antt =====
-- The driver service's operations in any order: dispatch_service.go, application/commands and workers,
-- one after the other, each under failures of its own and with no other process at work in it. The writes
-- that the GraphQL resolvers make themselves (SuspendDriver, ActivateDriver) are no steps here.
use realtime_delivery_micros.Prelude.{ℕ, ◌≤◌, ◌≡◌, String, Bool, false, Option, none, [], arith}
use realtime_delivery_micros.Prelude.Action.Contract.{Contract, ends_both, weaken}
use realtime_delivery_micros.Driver.Store.{Store, Action}
use realtime_delivery_micros.Driver.Env.{Env, at_find_assignment, alone}
use realtime_delivery_micros.Driver.Dispatch.{
  reserve_driver, release_driver, accept_assignment, reject_assignment,
  release_driver_by_assignment,
}
use realtime_delivery_micros.Driver.Commands.{
  UserService, RegisterDriverCommand, block_driver, unblock_driver, go_offline_command,
  go_online_command, accept_assignment_command, reject_assignment_command, release_driver_command,
  reserve_driver_command, register_driver,
}
use realtime_delivery_micros.Driver.Workers.{check_expired_assignments, reconcile}
use realtime_delivery_micros.Driver.Ledger.{IsSound, driver_row, open_of, busy_of, open_le_one}
use realtime_delivery_micros.Driver.Ledger.Reserve.{reserve_driver-IsBooked}
use realtime_delivery_micros.Driver.Ledger.Answers.{
  accept_assignment-Stands, reject_assignment-Stands,
}
use realtime_delivery_micros.Driver.Ledger.Release.{
  release_driver_by_assignment-IsOver, release_driver-IsFree,
}
use realtime_delivery_micros.Driver.Ledger.CommandsKeep.{
  block_driver-IsSound, unblock_driver-IsSound, go_offline_command-IsSound,
  go_online_command-IsSound,
}
use realtime_delivery_micros.Driver.Ledger.CommandsAnswer.{
  reserve_driver_command-IsSound, accept_assignment_command-IsSound,
  reject_assignment_command-IsSound,
}
use realtime_delivery_micros.Driver.Ledger.Repair.{reconcile-IsSound}
use realtime_delivery_micros.Driver.Ledger.Sweep.{
  check_expired_assignments-IsSound, register_driver-IsSound,
}

-- One operation, from the store before it to the store after it. Registering asks that the new id is
-- new, and the reconciliation that its reads of assignments succeed.
pub data Step (s : Store) : Store → Type 0 where
  reserves :
      (env : Env) (driver_id delivery_id : String)
      → Step s (reserve_driver (alone env) driver_id delivery_id s).1
  releases :
      (env : Env) (driver_id delivery_id : String)
      → Step s (release_driver (alone env) driver_id delivery_id s).1
  accepts :
      (env : Env) (assignment_id driver_id : String)
      → Step s (accept_assignment (alone env) assignment_id driver_id s).1
  rejects :
      (env : Env) (assignment_id driver_id reason : String)
      → Step s (reject_assignment (alone env) assignment_id driver_id reason s).1
  settles :
      (env : Env) (assignment_id : String)
      → Step s (release_driver_by_assignment (alone env) assignment_id s).1
  blocks : (env : Env) (driver_id : String) → Step s (block_driver (alone env) driver_id s).1
  unblocks : (env : Env) (driver_id : String) → Step s (unblock_driver (alone env) driver_id s).1
  goes_offline :
      (env : Env) (driver_id : String) → Step s (go_offline_command (alone env) driver_id s).1
  goes_online :
      (env : Env) (driver_id : String) → Step s (go_online_command (alone env) driver_id s).1
  api_accepts :
      (env : Env) (assignment_id driver_id : String)
      → Step s (accept_assignment_command (alone env) assignment_id driver_id s).1
  api_rejects :
      (env : Env) (assignment_id driver_id reason : String)
      → Step s (reject_assignment_command (alone env) assignment_id driver_id reason s).1
  api_releases :
      (env : Env) (driver_id delivery_id : String)
      → Step s (release_driver_command (alone env) driver_id delivery_id s).1
  api_reserves :
      (env : Env) (driver_id delivery_id : String)
      → Step s (reserve_driver_command (alone env) driver_id delivery_id s).1
  registers :
      (env : Env) (users : Option UserService) (zero_time : ℕ) (new_id : String)
      (cmd : RegisterDriverCommand)
      → driver_row new_id s ≡ none
      → Step s (register_driver (alone env) users zero_time new_id cmd s).1
  expires :
      (has_dispatch : Bool) (env : Env) (fails : String → Bool) (each : String → Env)
      → Step s
          (check_expired_assignments has_dispatch (alone env) fails (λ id. alone (each id)) s).1
  reconciles :
      (env : Env) (each : String → Env)
      → ((id : String) → (each id).down at_find_assignment ≡ false)
      → Step s (reconcile (alone env) (λ id. alone (each id)) s).1

-- The stores that operations lead to from one with no drivers and no assignments.
pub data IsReachable : Store → Type 0 where
  starts : (s : Store) → s.drivers ≡ [] → s.assignments ≡ [] → IsReachable s
  goes_on : (s s' : Store) → IsReachable s → Step s s' → IsReachable s'

-- A contract with the same end either way.
after :
    {A : Type 0} {P : Store → Type 0} {Q : A → Store → Type 0} (m : Action A) (s : Store)
    → Contract P m Q (λ _ s. IsSound s)
    → ((a : A) (s : Store) → Q a s → IsSound s)
    → P s
    → IsSound (m s).1
after m s h sound p =
    ends_both IsSound (m s).0 (m s).1 ((weaken h (λ s p. p) sound (λ _ _ i. i)).holds s p)

step_sound : (s s' : Store) → IsSound s → Step s s' → IsSound s'
unfolding release_driver_command
step_sound s _ h (reserves env d v) =
    after _ s (reserve_driver-IsBooked env d v) (λ _ _ q. q.1.sound) h
step_sound s _ h (releases env d v) = after _ s (release_driver-IsFree env d v) (λ _ _ q. q.0) h
step_sound s _ h (accepts env a d) = after _ s (accept_assignment-Stands env a d) (λ _ _ q. q.0) h
step_sound s _ h (rejects env a d r) =
    after _ s (reject_assignment-Stands env a d r) (λ _ _ q. q.0) h
step_sound s _ h (settles env a) =
    after _ s (release_driver_by_assignment-IsOver env a) (λ _ _ q. q.0) h
step_sound s _ h (blocks env d) = after _ s (block_driver-IsSound env d) (λ _ _ q. q) h
step_sound s _ h (unblocks env d) = after _ s (unblock_driver-IsSound env d) (λ _ _ q. q) h
step_sound s _ h (goes_offline env d) = after _ s (go_offline_command-IsSound env d) (λ _ _ q. q) h
step_sound s _ h (goes_online env d) = after _ s (go_online_command-IsSound env d) (λ _ _ q. q) h
step_sound s _ h (api_accepts env a d) =
    after _ s (accept_assignment_command-IsSound env a d) (λ _ _ q. q) h
step_sound s _ h (api_rejects env a d r) =
    after _ s (reject_assignment_command-IsSound env a d r) (λ _ _ q. q) h
step_sound s _ h (api_releases env d v) = after _ s (release_driver-IsFree env d v) (λ _ _ q. q.0) h
step_sound s _ h (api_reserves env d v) =
    after _ s (reserve_driver_command-IsSound env d v) (λ _ _ q. q) h
step_sound s _ h (registers env u z n c fresh) =
    after _ s (register_driver-IsSound env u z n c) (λ _ _ q. q) (h, fresh)
step_sound s _ h (expires b env f each) =
    after _ s (check_expired_assignments-IsSound b env f each) (λ _ _ q. q) h
step_sound s _ h (reconciles env each up) = after _ s (reconcile-IsSound env each up) (λ _ _ q. q) h

start_sound : (s : Store) → s.drivers ≡ [] → s.assignments ≡ [] → IsSound s
start_sound s no_drivers no_assignments = record {
  unique_drivers = λ id. rw no_drivers (omega arith);
  unique_assignments = λ id. rw no_assignments (omega arith);
  held = λ id. rw no_assignments (omega arith);
}

pub reachable_sound : (s : Store) → IsReachable s → IsSound s
reachable_sound s (starts _ d a) = start_sound s d a
reachable_sound s (goes_on t _ r step) = step_sound t s (reachable_sound t r) step

-- In every store that the operations of `Step` reach, one after the other and with no other process at
-- work in any, a driver has at most one open assignment, and has none unless BUSY. A registration asks
-- for a new id, and in a reconciliation every read of an assignment succeeds; whatever other calls fail
-- on the way. Writes to drivers that the GraphQL resolvers make themselves are not among the steps.
pub no_double_booking :
    (s : Store) → IsReachable s → (id : String) → (open_of id s ≤ 1) × (open_of id s ≤ busy_of id s)
no_double_booking s r id =
    let sound : IsSound s = reachable_sound s r in (open_le_one s id sound, sound.held id)
