-- ===== src/Driver/Workers.antt =====
-- services/driver-service/internal/workers: what the assignment expiry worker and the reconciliation
-- worker do at a tick. Each round of a loop meets an environment of its own, given by the id it is about.
use realtime_delivery_micros.Prelude.{String, Bool, true, false, Option, none, some, List, [], ◌∷◌}
use realtime_delivery_micros.Prelude.Action.{◌>>◌, pure, ignore, handling}
use realtime_delivery_micros.Driver.Profile.{Driver, busy}
use realtime_delivery_micros.Driver.Assignment.{Assignment, expired}
use realtime_delivery_micros.Driver.Store.{
  Action, driver_find_by_status, driver_save, find_active_by_driver, expire_offers, update_status,
}
use realtime_delivery_micros.Driver.Env.{
  Env, at_find, at_find_assignment, at_assignment_save, at_driver_save, perform,
}
use realtime_delivery_micros.Driver.Dispatch.{freed, release_driver_by_assignment}

-- One id of the sweep's: released by the dispatch service if the worker has one, and otherwise marked
-- again. An error is logged.
abbrev pub expire_one : Bool → Env → String → Action (Unit {0})
expire_one true env id = ignore (release_driver_by_assignment env id)
expire_one false env id = ignore (
    perform env at_assignment_save
      (λ down. update_status down id expired (env.now at_assignment_save)))

unfoldable pub expire_all : Bool → (String → Env) → List String → Action (Unit {0})
expire_all has_dispatch each [] = pure tt
expire_all has_dispatch each (id ∷ ids) = do
  expire_one has_dispatch (each id) id
  expire_all has_dispatch each ids

-- `checkExpiredAssignments`: `fails` tells which of the updates of `ExpireOffers` the database fails.
unfoldable pub check_expired_assignments :
    Bool → Env → (String → Bool) → (String → Env) → Action (Unit {0})
check_expired_assignments has_dispatch env fails each =
    handling
      (perform env at_find
        (λ down. expire_offers down fails (env.now at_find) (env.now at_assignment_save)))
      (λ _. pure tt) (expire_all has_dispatch each)

unfoldable pub repair : Env → Driver → Action (Unit {0})
repair env d =
    ignore
      (perform env at_driver_save (λ down. driver_save down (freed (env.now at_driver_save) d)))

-- `if err != nil || assignment == nil { ... }`
unfoldable pub repair_found : Env → Driver → Option Assignment → Action (Unit {0})
repair_found env d none = repair env d
repair_found env d (some a) = pure tt

unfoldable pub repair_all : (String → Env) → List Driver → Action (Unit {0})
repair_all each [] = pure tt
repair_all each (d ∷ ds) = do
  handling (perform (each d.id) at_find_assignment (λ down. find_active_by_driver down d.id))
      (λ _. repair (each d.id) d) (repair_found (each d.id) d)
  repair_all each ds

-- `reconcile`
unfoldable pub reconcile : Env → (String → Env) → Action (Unit {0})
reconcile env each =
    handling (perform env at_find (λ down. driver_find_by_status down busy)) (λ _. pure tt)
      (repair_all each)
