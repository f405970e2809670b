-- ===== src/Driver/Ledger/CommandsAnswer.antt =====
-- application/commands: reserve_driver.go, accept_assignment.go and reject_assignment.go over a sound
-- store.
use Prim.Native.String.{◌++◌ as str_append}
use realtime_delivery_micros.Prelude.{◌+◌, ◌*◌, ◌^◌, ◌≡◌, refl, String, Bool, true, false, ◌∷◌}
use realtime_delivery_micros.Prelude.Action.{pure, raise, deferring}
use realtime_delivery_micros.Prelude.Action.Contract.{
  Contract, >>=-Contract, pure-Contract, raise-Contract, require-Contract, weaken,
}
use realtime_delivery_micros.Driver.Profile.{Driver, available, busy, same_status}
use realtime_delivery_micros.Driver.Assignment.{Assignment, AssignmentStatus, offered}
use realtime_delivery_micros.Driver.Store.{
  Store, ServiceError, driver_not_available_for_assignment, Action, lock_key, lock_release,
  assignment_invalid_state,
}
use realtime_delivery_micros.Driver.Env.{
  Env, at_acquire, at_release, at_find, at_driver_save, at_assignment_save, perform, alone,
}
use realtime_delivery_micros.Driver.Dispatch.{offer, accept_offer}
use realtime_delivery_micros.Driver.Commands.{
  reserve_driver_command, reserve_command_locked, turn_down, accept_assignment_command,
  reject_assignment_command,
}
use realtime_delivery_micros.Driver.Ledger.{IsSound, open_of}
use realtime_delivery_micros.Driver.Ledger.Calls.{
  perform-Contract, driver_save-Contract, lock_acquire-Contract,
}
use realtime_delivery_micros.Driver.Ledger.Answers.{
  Mine, assignment_of-Contract, accept_offer-Contract, turn_down-Contract,
}
use realtime_delivery_micros.Driver.Ledger.Reserve.{
  IsBooked, idle_lem, relocked-IsSound, Held, hold, place_offer-Contract, unlocking-Contract,
  not_available,
}
use realtime_delivery_micros.Driver.Ledger.CommandsKeep.{driver_of-Contract}

abbrev Sound : ServiceError → Store → Type 0
Sound e s = IsSound s

module _ (env : Env) (driver_id delivery_id : String) where
  -- The offer that the command makes.
  abbrev pub command_offer : Assignment
  command_offer = record (offer (env.now at_assignment_save) driver_id delivery_id) {
    expires_at = env.now at_assignment_save + 20 * 10 ^ 9;
  }

  abbrev Anyone : Driver → Type 0
  Anyone d = Unit

  locked-Contract :
      Contract IsSound
        (reserve_command_locked (alone env) driver_id delivery_id)
        (λ r s. (r ≡ true) × IsBooked Anyone command_offer s)
        Sound
  unfolding reserve_command_locked
  locked-Contract = >>=-Contract (driver_of-Contract env driver_id) (λ d.
      let d' : Driver = record d { status = busy; updated_at = env.now at_driver_save } in
      >>=-Contract
        (require-Contract (same_status d.status available) driver_not_available_for_assignment
          (λ s h. h.0))
        (λ _.
          >>=-Contract {M = λ _ s. Held Anyone command_offer d' s}
            (perform-Contract env at_driver_save _ (λ down.
              driver_save-Contract d' down (λ s h. h.0.0)
                (λ s h.
                  let who : (d.id ≡ driver_id) × (open_of driver_id s ≡ 0) =
                    idle_lem d driver_id s h.0.0 h.0.1 (not_available d.status h.1) in
                  hold Anyone command_offer d' s (h.0.0, who.0, who.1, refl, tt))))
            (λ _. place_offer-Contract Anyone command_offer env d')))

  acquired_step :
      (acquired : Bool)
      → let next : Action Bool = elim acquired [
        | false ↦ pure false
        | true ↦
            deferring
              (perform
                (alone env)
                at_release
                (λ down. lock_release down (str_append "lock:driver:" driver_id) "temp-token"))
              (reserve_command_locked (alone env) driver_id delivery_id)
      ] in
        Contract IsSound next (λ r s. IsSound s) Sound
  acquired_step false = pure-Contract (λ s h. h)
  acquired_step true =
      weaken
        (unlocking-Contract Anyone command_offer env
          (reserve_command_locked (alone env) driver_id delivery_id) _ _ locked-Contract)
        (λ s h. h) (λ r s h. h.1.sound) (λ _ _ h. h)

  pub reserve_driver_command-IsSound :
      Contract IsSound
        (reserve_driver_command (alone env) driver_id delivery_id)
        (λ _ s. IsSound s)
        Sound
  unfolding reserve_driver_command
  reserve_driver_command-IsSound =
      >>=-Contract {M = λ _ s. IsSound s}
        (perform-Contract env at_acquire _ (λ down.
          lock_acquire-Contract (str_append "lock:driver:" driver_id) down (λ s h. h) (λ s h. h)
            (λ s h.
              relocked-IsSound s (lock_key (str_append "lock:driver:" driver_id) ∷ s.locks) h)))
        acquired_step

module _ (env : Env) (assignment_id driver_id : String) where
  accept_step :
      (a : Assignment) (t : AssignmentStatus)
      → a.status ≡ t
      → let next : Action (Unit {0}) = elim t [
        | offered ↦ accept_offer (alone env) (env.now at_find) (env.now at_assignment_save) a
        | _ ↦ raise assignment_invalid_state
      ] in
        Contract (Mine env assignment_id driver_id a) next (λ _ s. IsSound s) Sound
  accept_step a offered was =
      weaken (accept_offer-Contract env assignment_id driver_id a _ _ was) (λ s h. h) (λ _ s h. h.0)
        (λ _ _ h. h)
  accept_step a _ was = raise-Contract (λ s h. h.0.0)

  pub accept_assignment_command-IsSound :
      Contract IsSound
        (accept_assignment_command (alone env) assignment_id driver_id)
        (λ _ s. IsSound s)
        Sound
  unfolding accept_assignment_command
  accept_assignment_command-IsSound =
      >>=-Contract (assignment_of-Contract env assignment_id driver_id)
        (λ a. accept_step a a.status refl)

  reject_step :
      (a : Assignment) (reason : String) (t : AssignmentStatus)
      → a.status ≡ t
      → let next : Action (Unit {0}) = elim t [
        | offered ↦ turn_down (alone env) a driver_id reason
        | _ ↦ raise assignment_invalid_state
      ] in
        Contract (Mine env assignment_id driver_id a) next (λ _ s. IsSound s) Sound
  reject_step a reason offered was =
      weaken (turn_down-Contract env assignment_id driver_id a reason was) (λ s h. h) (λ _ s h. h.0)
        (λ _ _ h. h)
  reject_step a reason _ was = raise-Contract (λ s h. h.0.0)

  pub reject_assignment_command-IsSound :
      (reason : String)
      → Contract IsSound
          (reject_assignment_command (alone env) assignment_id driver_id reason)
          (λ _ s. IsSound s)
          Sound
  unfolding reject_assignment_command
  reject_assignment_command-IsSound reason =
      >>=-Contract (assignment_of-Contract env assignment_id driver_id)
        (λ a. reject_step a reason a.status refl)
