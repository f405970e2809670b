-- ===== src/Driver/Ledger/Guarantees.antt =====
-- dispatch_service.go, workers and adapters/kafka/delivery_consumer.go: what a call guarantees, from the
-- store before it to the store after it.
use mathlib.Core.List.{Permᴰ}
use realtime_delivery_micros.Prelude.{◌≡◌, ◌⊎◌, refl, String, Bool, true, false, some, List, All}
use realtime_delivery_micros.Prelude.Action.Contract.{Ends}
use realtime_delivery_micros.Driver.Profile.{Driver, available, same_status}
use realtime_delivery_micros.Driver.Assignment.{accepted, rejected}
use realtime_delivery_micros.Driver.Store.{Store}
use realtime_delivery_micros.Driver.Env.{
  Env, at_find, at_find_assignment, at_driver_save, at_assignment_save, at_publish, alone,
}
use realtime_delivery_micros.Driver.Dispatch.{
  offer, reserve_driver, accept_assignment, reject_assignment, release_driver,
  release_driver_by_assignment,
}
use realtime_delivery_micros.Driver.Policy.{Candidate, DispatchPolicy}
use realtime_delivery_micros.Driver.Search.{Nearby, Ranking, find_available_drivers}
use realtime_delivery_micros.Driver.Search.Laws.{IsOfferable, find_available_drivers-IsOfferable}
use realtime_delivery_micros.Driver.Consumer.{dispatch_delivery}
use realtime_delivery_micros.Driver.Workers.{check_expired_assignments, reconcile}
use realtime_delivery_micros.Driver.Ledger.{IsSound, driver_row, open_of, busy_of}
use realtime_delivery_micros.Driver.Ledger.Reserve.{IsBooked, IsFit, reserve_driver-IsBooked}
use realtime_delivery_micros.Driver.Ledger.Exclusive.{reserve_driver-refused}
use realtime_delivery_micros.Driver.Ledger.Lookup.{Stands}
use realtime_delivery_micros.Driver.Ledger.Answers.{
  accept_assignment-Stands, reject_assignment-Stands,
}
use realtime_delivery_micros.Driver.Ledger.Freeing.{IsFree}
use realtime_delivery_micros.Driver.Ledger.Release.{
  IsOver, release_driver-IsFree, release_driver_by_assignment-IsOver,
}
use realtime_delivery_micros.Driver.Ledger.Repair.{reconcile-frees}
use realtime_delivery_micros.Driver.Ledger.Expiry.{check_expired_assignments-drivers}
use realtime_delivery_micros.Driver.Ledger.Dispatching.{
  IsOffered, IsAnnounced, dispatch_delivery-handles,
}

-- A reservation from a sound store, with no other process at work in it: if it returns a result, it
-- returns true, and the driver is BUSY, active and not blocked and is held by an offer of the
-- delivery; if it returns an error, the store is sound. This is so whatever calls fail in it.
pub reserve_driver_books :
    (env : Env) (driver_id delivery_id : String) (s : Store)
    → IsSound s
    → let after = reserve_driver (alone env) driver_id delivery_id s in
      Ends
        (λ reserved t.
          (reserved ≡ true)
          × IsBooked IsFit (offer (env.now at_assignment_save) driver_id delivery_id) t)
        (λ _ t. IsSound t)
        after.0
        after.1
reserve_driver_books env driver_id delivery_id s sound =
    (reserve_driver-IsBooked env driver_id delivery_id).holds s sound

-- If the driver that a reader finds is not AVAILABLE, or none is found, a reservation with no other
-- process at work in it never returns a result, and its error leaves drivers and assignments as they
-- were, whatever calls fail in it.
pub reserve_driver_refuses :
    (env : Env) (driver_id delivery_id : String) (s : Store)
    → ((d : Driver) → driver_row driver_id s ≡ some d → same_status d.status available ≡ false)
    → let after = reserve_driver (alone env) driver_id delivery_id s in
      Ends
        (λ _ _. ⊥)
        (λ _ t. (t.drivers ≡ s.drivers) × (t.assignments ≡ s.assignments))
        after.0
        after.1
reserve_driver_refuses env driver_id delivery_id s taken =
    (reserve_driver-refused s.drivers s.assignments env driver_id delivery_id taken).holds s
      (refl, refl)

-- An assignment that its driver accepts without an error stands as ACCEPTED, offered before or
-- accepted already, and the store is sound after the call with an error or without, if it was sound
-- before and no other process is at work in the call, whatever calls fail in it.
pub accept_assignment_accepts :
    (env : Env) (assignment_id driver_id : String) (s : Store)
    → IsSound s
    → let after = accept_assignment (alone env) assignment_id driver_id s in
      Ends
        (λ _ t. IsSound t × Stands assignment_id accepted t.assignments)
        (λ _ t. IsSound t)
        after.0
        after.1
accept_assignment_accepts env assignment_id driver_id s sound =
    (accept_assignment-Stands env assignment_id driver_id).holds s sound

-- An assignment that its driver rejects without an error stands as REJECTED, offered before or
-- rejected already, and the store is sound after the call with an error or without, if it was sound
-- before and no other process is at work in the call, whatever calls fail in it.
pub reject_assignment_rejects :
    (env : Env) (assignment_id driver_id reason : String) (s : Store)
    → IsSound s
    → let after = reject_assignment (alone env) assignment_id driver_id reason s in
      Ends
        (λ _ t. IsSound t × Stands assignment_id rejected t.assignments)
        (λ _ t. IsSound t)
        after.0
        after.1
reject_assignment_rejects env assignment_id driver_id reason s sound =
    (reject_assignment-Stands env assignment_id driver_id reason).holds s sound

-- A driver released without an error has no open assignment left and is AVAILABLE, if a reader finds
-- the driver at all, and the store is sound after the call with an error or without, if it was sound
-- before and no other process is at work in the call, whatever calls fail in it.
pub release_driver_frees :
    (env : Env) (driver_id delivery_id : String) (s : Store)
    → IsSound s
    → let after = release_driver (alone env) driver_id delivery_id s in
      Ends
        (λ _ t. IsSound t × (open_of driver_id t ≡ 0) × IsFree (driver_row driver_id t))
        (λ _ t. IsSound t)
        after.0
        after.1
release_driver_frees env driver_id delivery_id s sound =
    (release_driver-IsFree env driver_id delivery_id).holds s sound

-- An assignment released by its id without an error stands and is not open, and the store is sound
-- after the call with an error or without, if it was sound before and no other process is at work in
-- the call, whatever calls fail in it.
pub release_by_assignment_closes :
    (env : Env) (assignment_id : String) (s : Store)
    → IsSound s
    → let after = release_driver_by_assignment (alone env) assignment_id s in
      Ends
        (λ _ t. IsSound t × IsOver assignment_id t.assignments)
        (λ _ t. IsSound t)
        after.0
        after.1
release_by_assignment_closes env assignment_id s sound =
    (release_driver_by_assignment-IsOver env assignment_id).holds s sound

-- A tick of the reconciliation worker in which no call fails, from a sound store and with no other
-- process at work, ends without an error in a sound store in which a driver is BUSY exactly when the
-- driver has an open assignment: every driver that was stuck is free.
pub reconcile_frees_stuck :
    (env : Env) (each : String → Env) (s : Store)
    → IsSound s
    → env.down at_find ≡ false
    → ((id : String) → (each id).down at_find_assignment ≡ false)
    → ((id : String) → (each id).down at_driver_save ≡ false)
    → let after = reconcile (alone env) (λ id. alone (each id)) s in
      Ends
        (λ _ t. IsSound t × ((id : String) → busy_of id t ≡ open_of id t))
        (λ _ _. ⊥)
        after.0
        after.1
reconcile_frees_stuck env each s sound up reads writes =
    (reconcile-frees env each up reads writes).holds s sound

-- A tick of the expiry worker that has the dispatch service, in which every update of the offers
-- succeeds and no other process is at work, ends without an error, changes no driver and sends no
-- message, whatever other calls fail in it: the drivers of the offers that ran out stay BUSY.
pub expiry_frees_no_driver :
    (env : Env) (each : String → Env) (s : Store)
    → let after =
        check_expired_assignments true (alone env) (λ _. false) (λ id. alone (each id)) s in
      Ends (λ _ t. (t.drivers ≡ s.drivers) × (t.published ≡ s.published)) (λ _ _. ⊥) after.0 after.1
expiry_frees_no_driver env each s =
    (check_expired_assignments-drivers s.drivers s.published env each).holds s (refl, refl)

-- Every candidate that the search gives is made from a driver of the store who is AVAILABLE, not
-- blocked and active, has a vehicle of the type wanted, if one is, and is not an excluded one; with a
-- result or with an error the store is as before. This is so whatever the location store answers and
-- whatever calls fail, with a sort that permutes its argument and no other process at work in the
-- search.
pub search_offers_available :
    {F : Type 0} (env : Env) (ranking : Ranking F) (policy : DispatchPolicy)
    (nearby : List (Nearby F)) (wanted : String) (excluded : List String) (s : Store)
    → ((before : Candidate F → Candidate F → Bool) (xs : List (Candidate F))
        → Permᴰ xs (ranking.sort before xs))
    → let after = find_available_drivers (alone env) ranking policy nearby wanted excluded s in
      Ends
        (λ out t. All (IsOfferable wanted excluded s.drivers) out × (t ≡ s))
        (λ _ t. t ≡ s)
        after.0
        after.1
search_offers_available env ranking policy nearby wanted excluded s permutes =
    (find_available_drivers-IsOfferable wanted excluded s env ranking policy nearby permutes).holds
      s refl

-- A delivery handled without an error, from a sound store, with no other process at work in a call and
-- with the last message sent where one is due, is offered to a driver who is held by the offer or is
-- announced as having none; the store is sound with an error or without, whatever other calls fail.
pub delivery_not_lost :
    {F : Type 0} (env : Env) (each : String → Env) (ranking : Ranking F) (policy : DispatchPolicy)
    (delivery_id customer_id : String) (nearby : List (Nearby F)) (s : Store)
    → IsSound s
    → env.down at_publish ≡ false
    → let after =
        dispatch_delivery
          (alone env)
          (λ id. alone (each id))
          ranking
          policy
          delivery_id
          customer_id
          nearby
          s in
      Ends
        (λ _ t. IsSound t × (IsOffered delivery_id t ⊎ IsAnnounced delivery_id customer_id t))
        (λ _ t. IsSound t)
        after.0
        after.1
delivery_not_lost env each ranking policy delivery_id customer_id nearby s sound up =
    (dispatch_delivery-handles env each ranking policy delivery_id customer_id up nearby).holds s
      sound
