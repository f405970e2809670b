-- ===== src/Driver/Ledger/Exclusive.antt =====
-- dispatch_service.go: what a reservation refuses.
use realtime_delivery_micros.Prelude.{◌≡◌, sym, ◌∙◌, String, false, some, List, arith}
use realtime_delivery_micros.Prelude.Action.Contract.{
  Contract, >>=-Contract, require-Contract, deferring-Contract, by_state, weaken,
}
use realtime_delivery_micros.Driver.Profile.{Driver, available, same_status}
use realtime_delivery_micros.Driver.Assignment.{Assignment}
use realtime_delivery_micros.Driver.Collection.{find_one, has_id}
use realtime_delivery_micros.Driver.Store.{
  Store, driver_id_of, driver_not_found, driver_not_available_for_assignment,
  driver_already_reserved, lock_release,
}
use realtime_delivery_micros.Driver.Env.{Env, at_acquire, at_release, at_find, perform, alone}
use realtime_delivery_micros.Driver.Dispatch.{reserve_locked, reserve_driver}
use realtime_delivery_micros.Driver.Ledger.Calls.{
  perform-Contract, driver_find-Contract, present-Contract, lock_acquire-Contract,
  lock_release-keeps,
}

-- The collections as they were.
abbrev Same : List Driver → List Assignment → Store → Type 0
Same ds rows s = (s.drivers ≡ ds) × (s.assignments ≡ rows)

module _ (ds : List Driver) (rows : List Assignment) (env : Env)
    (driver_id delivery_id : String) where
  locked_refused :
      ((d : Driver)
        → find_one (has_id driver_id_of driver_id) ds ≡ some d
        → same_status d.status available ≡ false)
      → Contract
          (Same ds rows)
          (reserve_locked (alone env) driver_id delivery_id)
          (λ _ _. ⊥)
          (λ _ s. Same ds rows s)
  unfolding reserve_locked
  locked_refused taken =
      >>=-Contract
        (perform-Contract env at_find _ (λ down. driver_find-Contract driver_id down (λ s h. h)))
        (λ found. >>=-Contract (present-Contract found driver_not_found (λ s h _. h.0)) (λ d.
          >>=-Contract
            (require-Contract (same_status d.status available) driver_not_available_for_assignment
              (λ s h. h.0.0))
            (λ _. by_state (λ s h.
              let row : find_one (has_id driver_id_of driver_id) ds ≡ some d =
                rw (sym h.0.0.0.0) (sym h.0.0.1 ∙ h.0.1) in
              let no : same_status d.status available ≡ false = taken d row in
              let never : ⊥ = ground (arith, no, h.1) in elim never [ ]))))

  -- A driver that is not AVAILABLE is never reserved: whatever fails, with no other process at work in
  -- the call, it ends in an error and leaves drivers and assignments as they were.
  pub reserve_driver-refused :
      ((d : Driver)
        → find_one (has_id driver_id_of driver_id) ds ≡ some d
        → same_status d.status available ≡ false)
      → Contract
          (λ s. (s.drivers ≡ ds) × (s.assignments ≡ rows))
          (reserve_driver (alone env) driver_id delivery_id)
          (λ _ _. ⊥)
          (λ _ s. (s.drivers ≡ ds) × (s.assignments ≡ rows))
  unfolding reserve_driver
  reserve_driver-refused taken =
      >>=-Contract {M = λ _ s. Same ds rows s}
        (perform-Contract env at_acquire _
          (λ down. lock_acquire-Contract driver_id down (λ s h. h) (λ s h. h) (λ s h. h)))
        (λ acquired.
          >>=-Contract (require-Contract acquired driver_already_reserved (λ s h. h)) (λ _.
            weaken
              (deferring-Contract {R = λ _ s. Same ds rows s} {Q = λ _ _. ⊥}
                (perform (alone env) at_release (λ down. lock_release down driver_id ""))
                (locked_refused taken) (λ r s never. never)
                (λ e s h.
                  lock_release-keeps (Same ds rows) env at_release driver_id "" s h (λ _. h)))
              (λ s h. h.0) (λ _ _ h. h) (λ _ _ h. h)))
