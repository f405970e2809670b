-- ===== src/Driver/Ledger/Release.antt =====
-- dispatch_service.go: a driver released, by the assignment or by the driver.
use realtime_delivery_micros.Prelude.{◌≡◌, refl, sym, ◌∙◌, String, true, false, some, List}
use realtime_delivery_micros.Prelude.Action.{pure}
use realtime_delivery_micros.Prelude.Action.Contract.{
  Contract, >>=-Contract, handling-Contract, pure-Contract, raise-Contract, weaken,
}
use realtime_delivery_micros.Driver.Assignment.{
  Assignment, AssignmentStatus, unassigned, offered, accepted, active, completed, rejected, expired,
  cancelled,
}
use realtime_delivery_micros.Driver.Collection.{find_one, has_id}
use realtime_delivery_micros.Driver.Store.{
  Store, Action, assignment_id_of, assignment_not_found, is_open, holds_driver,
}
use realtime_delivery_micros.Driver.Env.{
  Env, at_find_assignment, at_assignment_save, at_publish, at_second_publish, alone,
}
use realtime_delivery_micros.Driver.Dispatch.{
  settle_assignment, release_driver_by_assignment, active_assignment, release_driver,
}
use realtime_delivery_micros.Driver.Ledger.{
  IsSound, driver_row, open_of, with_status-IsSound, completed_last,
}
use realtime_delivery_micros.Driver.Ledger.Calls.{
  perform-Contract, assignment_save-Contract, find_active-Contract, update_status-Contract,
  present-Contract, announce-Contract,
}
use realtime_delivery_micros.Driver.Ledger.Freeing.{
  IsIdle, IsFree, sent-IsIdle, free_found-Contract, find-Contract, free_and_announce-Contract,
}
use realtime_delivery_micros.Driver.Ledger.Lookup.{
  Stands, Sound, Found, row_at, ended, find_present, lookup,
}

-- The assignment stands, and is not open.
abbrev pub IsOver : String → List Assignment → Type 0
IsOver id rows =
    (a : Assignment) × (find_one (has_id assignment_id_of id) rows ≡ some a)
    × (is_open a.status ≡ false)

module _ (env : Env) (assignment_id : String) where
  abbrev Over : Unit {0} → Store → Type 0
  Over _ s = IsSound s × IsOver assignment_id s.assignments

  settle-Contract :
      (a : Assignment) (target : AssignmentStatus)
      → is_open a.status ≡ true
      → is_open target ≡ false
      → Contract (Found assignment_id a) (settle_assignment (alone env) a target) Over Sound
  unfolding settle_assignment
  settle-Contract a target was over =
      let b : Assignment = record a { status = target; updated_at = env.now at_assignment_save } in
      >>=-Contract {M = λ _ s. IsIdle (Stands assignment_id target) a.driver_id s}
        (perform-Contract env at_assignment_save _ (λ down.
          assignment_save-Contract b down (λ s h. h.0)
            (λ s h. ended assignment_id a.driver_id a b s h.0 h.1 h.2 refl refl refl was over)))
        (λ _.
          >>=-Contract
            (weaken (free_and_announce-Contract env a.driver_id) (λ s h. h) (λ _ _ h. h)
              (λ e s h. h.sound))
            (λ _.
              weaken (announce-Contract env at_second_publish _ (sent-IsIdle env a.driver_id))
                (λ s h. h) (λ _ s h. (h.sound, (h.known.0, h.known.1, rw h.known.2 over)))
                (λ _ _ h. h)))

  settled :
      (a : Assignment) (t : AssignmentStatus) (s : Store)
      → a.status ≡ t
      → is_open t ≡ false
      → Found assignment_id a s
      → Over tt s
  settled a t s was over h = (h.0, (a, row_at assignment_id a.id a s (sym h.1) h.2, rw was over))

  settle_step :
      (a : Assignment) (t : AssignmentStatus)
      → a.status ≡ t
      → let next : Action (Unit {0}) = elim t [
        | active ↦ settle_assignment (alone env) a completed
        | accepted ↦ settle_assignment (alone env) a completed
        | offered ↦ settle_assignment (alone env) a expired
        | _ ↦ pure tt
      ] in
        Contract (Found assignment_id a) next Over Sound
  settle_step a active was = settle-Contract a completed (rw was refl) refl
  settle_step a accepted was = settle-Contract a completed (rw was refl) refl
  settle_step a offered was = settle-Contract a expired (rw was refl) refl
  settle_step a unassigned was = pure-Contract (λ s h. settled a unassigned s was refl h)
  settle_step a completed was = pure-Contract (λ s h. settled a completed s was refl h)
  settle_step a rejected was = pure-Contract (λ s h. settled a rejected s was refl h)
  settle_step a expired was = pure-Contract (λ s h. settled a expired s was refl h)
  settle_step a cancelled was = pure-Contract (λ s h. settled a cancelled s was refl h)

  -- From a sound store and with no other process at work in the call, an assignment released without
  -- an error stands and is not open, and the store is sound after the call, with an error or without,
  -- under any failures.
  pub release_driver_by_assignment-IsOver :
      Contract IsSound
        (release_driver_by_assignment (alone env) assignment_id)
        (λ _ s. IsSound s × IsOver assignment_id s.assignments)
        Sound
  unfolding release_driver_by_assignment
  release_driver_by_assignment-IsOver = >>=-Contract (lookup env assignment_id) (λ found.
      >>=-Contract (find_present env assignment_id (λ e s h. h) found)
        (λ a. settle_step a a.status refl))

module _ (env : Env) (driver_id delivery_id : String) where
  abbrev Known : List Assignment → Type 0
  Known rows = Unit

  abbrev Active : Assignment → Store → Type 0
  Active a s = IsSound s × (find_one (holds_driver driver_id) s.assignments ≡ some a)

  active_assignment-Contract :
      Contract IsSound (active_assignment (alone env) driver_id) Active Sound
  unfolding active_assignment
  active_assignment-Contract =
      handling-Contract
        (perform-Contract {R = Sound} env at_find_assignment _
          (λ down. find_active-Contract driver_id down (λ s h. h)))
        (λ _. raise-Contract (λ s h. h))
        (λ found.
          weaken (present-Contract {R = Sound} found assignment_not_found (λ s h _. h.0)) (λ s h. h)
            (λ a s h. (h.0.0, sym h.0.1 ∙ h.1)) (λ _ _ h. h))

  -- From a sound store and with no other process at work in the call, a driver released without an
  -- error has no open assignment left and is AVAILABLE, if the driver is known at all, and the store
  -- is sound after the call, with an error or without, under any failures.
  pub release_driver-IsFree :
      Contract IsSound
        (release_driver (alone env) driver_id delivery_id)
        (λ _ s. IsSound s × (open_of driver_id s ≡ 0) × IsFree (driver_row driver_id s))
        Sound
  unfolding release_driver
  release_driver-IsFree = >>=-Contract active_assignment-Contract (λ a.
      >>=-Contract {M = λ _ s. IsIdle Known driver_id s}
        (perform-Contract env at_assignment_save _ (λ down.
          update_status-Contract a.id completed (env.now at_assignment_save) down (λ s h. h.0)
            (λ s h. record {
              sound = with_status-IsSound a.id completed (env.now at_assignment_save) s h.0 refl;
              idle =
                  completed_last driver_id completed (env.now at_assignment_save) a s h.0 h.1 refl;
              known = tt;
            })))
        (λ _. >>=-Contract (find-Contract env driver_id (λ e s h. h.sound)) (λ found.
          >>=-Contract
            (weaken (free_found-Contract env driver_id found) (λ s h. h) (λ _ _ h. h)
              (λ e s h. h.sound))
            (λ _.
              weaken
                (announce-Contract env at_publish _
                  (λ s sent h. (sent-IsIdle env driver_id s sent h.0, h.1)))
                (λ s h. h) (λ _ s h. (h.0.sound, h.0.idle, h.1)) (λ _ _ h. h)))))
