-- ===== src/Driver/Ledger/Answers.antt =====
-- dispatch_service.go: an assignment accepted or rejected by its driver.
use text.Mathlib.Text.{◌==◌ as str_eq}
use text.Mathlib.TextEquality.{eq_iff}
use realtime_delivery_micros.Prelude.{ℕ, ◌≡◌, refl, sym, String, some}
use realtime_delivery_micros.Prelude.Action.{pure, raise, ignore}
use realtime_delivery_micros.Prelude.Action.Contract.{
  Contract, >>=-Contract, pure-Contract, raise-Contract, require-Contract, weaken,
}
use realtime_delivery_micros.Driver.Assignment.{
  Assignment, AssignmentStatus, offered, accepted, rejected,
}
use realtime_delivery_micros.Driver.Collection.Ids.{find_one-replace_same}
use realtime_delivery_micros.Driver.Store.{
  Store, Action, DriverEvent, publish, assignment_save, assignment_id_of, assignment_invalid_state,
}
use realtime_delivery_micros.Driver.Env.{Env, at_assignment_save, at_publish, perform, alone}
use realtime_delivery_micros.Driver.Dispatch.{
  assignment_of, turned_down, accept_offer, accept_assignment, reject_offer, reject_assignment,
}
use realtime_delivery_micros.Driver.Commands.{turn_down}
use realtime_delivery_micros.Driver.Ledger.{
  IsSound, assignment_row, with_assignment, with_assignment-IsSound,
}
use realtime_delivery_micros.Driver.Ledger.Calls.{
  perform-Contract, assignment_save-Contract, announce-Contract,
}
use realtime_delivery_micros.Driver.Ledger.Freeing.{
  IsIdle, sent-IsSound, sent-IsIdle, try_free-Contract,
}
use realtime_delivery_micros.Driver.Ledger.Lookup.{
  Stands, Sound, Found, row_at, kept_open, ended, find_present, lookup,
}

module _ (env : Env) (assignment_id driver_id : String) where
  abbrev pub Mine : Assignment → Store → Type 0
  Mine a s = Found assignment_id a s × (a.driver_id ≡ driver_id)

  pub assignment_of-Contract :
      Contract IsSound (assignment_of (alone env) assignment_id driver_id) Mine Sound
  unfolding assignment_of
  assignment_of-Contract = >>=-Contract (lookup env assignment_id) (λ found.
      >>=-Contract (find_present env assignment_id (λ e s h. h) found) (λ a.
        >>=-Contract
          (require-Contract (str_eq a.driver_id driver_id) assignment_invalid_state (λ s h. h.0))
          (λ _. pure-Contract (λ s h. (h.0, (eq_iff a.driver_id driver_id).0 h.1)))))

  pub accept_offer-Contract :
      (a : Assignment) (now now' : ℕ)
      → a.status ≡ offered
      → Contract
          (Mine a)
          (accept_offer (alone env) now now' a)
          (λ _ s. IsSound s × Stands assignment_id accepted s.assignments)
          Sound
  unfolding accept_offer
  accept_offer-Contract a now now' was =
      let b : Assignment = record a {
        status = accepted;
        accepted_at = some now;
        updated_at = now';
      } in
      >>=-Contract
        (perform-Contract env at_assignment_save _ (λ down.
          assignment_save-Contract b down (λ s h. h.0.0)
            (λ s h.
              let row : assignment_row a.id (with_assignment b s) ≡ some b =
                find_one-replace_same assignment_id_of b s.assignments in
              (
                with_assignment-IsSound b a s h.0.0 h.0.2
                    (λ id. kept_open a b id refl (rw was refl)),
                (b, row_at assignment_id a.id b (with_assignment b s) (sym h.0.1) row, refl),
              ))))
        (λ _. announce-Contract env at_publish _ (λ s sent h. (sent-IsSound s sent h.0, h.1)))

  accept_step :
      (a : Assignment) (t : AssignmentStatus)
      → a.status ≡ t
      → let next : Action (Unit {0}) = elim t [
        | offered ↦
            accept_offer (alone env) (env.now at_assignment_save) (env.now at_assignment_save) a
        | accepted ↦ pure tt
        | _ ↦ raise assignment_invalid_state
      ] in
        Contract
          (Mine a)
          next
          (λ _ s. IsSound s × Stands assignment_id accepted s.assignments)
          Sound
  accept_step a offered was = accept_offer-Contract a _ _ was
  accept_step a accepted was =
      pure-Contract (λ s h. (h.0.0, (a, row_at assignment_id a.id a s (sym h.0.1) h.0.2, was)))
  accept_step a _ was = raise-Contract (λ s h. h.0.0)

  -- From a sound store and with no other process at work in the call, an assignment that its driver
  -- accepts without an error stands as ACCEPTED, whether it was offered or accepted before, and the
  -- store is sound after the call, with an error or without, under any failures.
  pub accept_assignment-Stands :
      Contract IsSound
        (accept_assignment (alone env) assignment_id driver_id)
        (λ _ s. IsSound s × Stands assignment_id accepted s.assignments)
        Sound
  unfolding accept_assignment
  accept_assignment-Stands = >>=-Contract assignment_of-Contract (λ a. accept_step a a.status refl)

  turned_down-Contract :
      (a : Assignment) (now now' : ℕ)
      → a.status ≡ offered
      → Contract
          (Mine a)
          (perform
            (alone env)
            at_assignment_save
            (λ down. assignment_save down (turned_down now now' a)))
          (λ _ s. IsIdle (Stands assignment_id rejected) driver_id s)
          Sound
  turned_down-Contract a now now' was = perform-Contract env at_assignment_save _ (λ down.
      assignment_save-Contract (turned_down now now' a) down (λ s h. h.0.0)
        (λ s h.
          ended assignment_id driver_id a (turned_down now now' a) s h.0.0 h.0.1 h.0.2 h.1 refl refl
            (rw was refl) refl))

  told :
      (event : DriverEvent)
      → Contract
          (IsIdle (Stands assignment_id rejected) driver_id)
          (ignore (perform (alone env) at_publish (λ down. publish down event)))
          (λ _ s. IsSound s × Stands assignment_id rejected s.assignments)
          Sound
  told event =
      weaken (announce-Contract env at_publish event (sent-IsIdle env driver_id)) (λ s h. h)
        (λ _ s h. (h.sound, h.known)) (λ _ _ h. h)

  reject_offer-Contract :
      (a : Assignment) (reason : String)
      → a.status ≡ offered
      → Contract
          (Mine a)
          (reject_offer (alone env) a driver_id reason)
          (λ _ s. IsSound s × Stands assignment_id rejected s.assignments)
          Sound
  unfolding reject_offer
  reject_offer-Contract a reason was =
      >>=-Contract (turned_down-Contract a _ _ was)
        (λ _. >>=-Contract (try_free-Contract env driver_id) (λ _. told _))

  pub turn_down-Contract :
      (a : Assignment) (reason : String)
      → a.status ≡ offered
      → Contract
          (Mine a)
          (turn_down (alone env) a driver_id reason)
          (λ _ s. IsSound s × Stands assignment_id rejected s.assignments)
          Sound
  unfolding turn_down
  turn_down-Contract a reason was = >>=-Contract (turned_down-Contract a _ _ was) (λ _. told _)

  reject_step :
      (a : Assignment) (reason : String) (t : AssignmentStatus)
      → a.status ≡ t
      → let next : Action (Unit {0}) = elim t [
        | offered ↦ reject_offer (alone env) a driver_id reason
        | rejected ↦ pure tt
        | _ ↦ raise assignment_invalid_state
      ] in
        Contract
          (Mine a)
          next
          (λ _ s. IsSound s × Stands assignment_id rejected s.assignments)
          Sound
  reject_step a reason offered was = reject_offer-Contract a reason was
  reject_step a reason rejected was =
      pure-Contract (λ s h. (h.0.0, (a, row_at assignment_id a.id a s (sym h.0.1) h.0.2, was)))
  reject_step a reason _ was = raise-Contract (λ s h. h.0.0)

  -- From a sound store and with no other process at work in the call, an assignment that its driver
  -- rejects without an error stands as REJECTED, whether it was offered or rejected before, and the
  -- store is sound after the call, with an error or without, under any failures.
  pub reject_assignment-Stands :
      (reason : String)
      → Contract IsSound
          (reject_assignment (alone env) assignment_id driver_id reason)
          (λ _ s. IsSound s × Stands assignment_id rejected s.assignments)
          Sound
  unfolding reject_assignment
  reject_assignment-Stands reason =
      >>=-Contract assignment_of-Contract (λ a. reject_step a reason a.status refl)
