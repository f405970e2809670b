-- ===== src/Driver/Ledger/Sweep.antt =====
-- workers/assignment_expiry.go and application/commands/register_driver.go over a sound store.
use text.Mathlib.Text.{◌==◌ as str_eq}
use realtime_delivery_micros.Prelude.{
  ℕ, ◌≡◌, refl, String, Bool, true, false, Option, none, some, List, [], ◌∷◌, arith, Bool-cases,
  inl, inr, if◌then◌else◌,
}
use realtime_delivery_micros.Prelude.Action.{raise, require}
use realtime_delivery_micros.Prelude.Action.Contract.{
  Contract, >>=-Contract, handling-Contract, pure-Contract, raise-Contract, require-Contract,
  ignore-Contract, weaken,
}
use realtime_delivery_micros.Driver.Profile.{Driver}
use realtime_delivery_micros.Driver.Assignment.{Assignment, expired}
use realtime_delivery_micros.Driver.Collection.{find_all, update_one}
use realtime_delivery_micros.Driver.Store.{
  Store, ServiceError, Action, assignment_id_of, set_status, is_stale, expire_each, expire_offers,
  driver_already_exists, internal, driver_find_by_user_id,
}
use realtime_delivery_micros.Driver.Env.{
  Env, at_find, at_driver_save, at_publish, at_assignment_save, perform, alone,
}
use realtime_delivery_micros.Driver.Workers.{expire_one, expire_all, check_expired_assignments}
use realtime_delivery_micros.Driver.Commands.{
  UserService, RegisterDriverCommand, registered, absent, claim_role, register_driver,
}
use realtime_delivery_micros.Driver.Ledger.{
  IsSound, driver_row, open_of, busy_of, with_driver-IsSound, with_status-IsSound,
}
use realtime_delivery_micros.Driver.Ledger.Calls.{
  perform-Contract, driver_save-Contract, update_status-Contract, announce-Contract,
}
use realtime_delivery_micros.Driver.Ledger.Freeing.{sent-IsSound}
use realtime_delivery_micros.Driver.Ledger.Release.{release_driver_by_assignment-IsOver}

abbrev Sound : ServiceError → Store → Type 0
Sound e s = IsSound s

abbrev with_assignments : List Assignment → Store → Store
with_assignments rows s = record s { assignments = rows }

marking :
    (failed : Bool) (id : String) (now : ℕ) (s : Store) (rows : List Assignment)
    → IsSound (with_assignments rows s)
    → IsSound (
        with_assignments
          (if failed then rows else update_one assignment_id_of id (set_status expired now) rows)
          s)
marking true id now s rows h = h
marking false id now s rows h = with_status-IsSound id expired now (with_assignments rows s) h refl

expire_each-IsSound :
    (fails : String → Bool) (now : ℕ) (stale rows : List Assignment) (s : Store)
    → IsSound (with_assignments rows s)
    → IsSound (with_assignments (expire_each fails now stale rows) s)
unfolding expire_each
expire_each-IsSound fails now [] rows s h = h
expire_each-IsSound fails now (a ∷ stale) rows s h =
    expire_each-IsSound fails now stale _ s (marking (fails a.id) a.id now s rows h)

expire_offers-Contract :
    (down : Bool) (fails : String → Bool) (cutoff now : ℕ)
    → Contract IsSound (expire_offers down fails cutoff now) (λ _ s. IsSound s) Sound
unfolding expire_offers
expire_offers-Contract true fails cutoff now = record { holds = λ s h. h }
expire_offers-Contract false fails cutoff now = record {
  holds = λ s h.
      expire_each-IsSound fails now (find_all (is_stale cutoff) s.assignments) s.assignments s h;
}

expire_one-IsSound :
    (has_dispatch : Bool) (env : Env) (id : String)
    → Contract IsSound (expire_one has_dispatch (alone env) id) (λ _ s. IsSound s) Sound
expire_one-IsSound true env id =
    ignore-Contract
      (weaken (release_driver_by_assignment-IsOver env id) (λ s h. h) (λ _ s h. h.0) (λ _ _ h. h))
expire_one-IsSound false env id = ignore-Contract (
    perform-Contract env at_assignment_save _ (λ down.
      update_status-Contract id expired (env.now at_assignment_save) down (λ s h. h)
        (λ s h. with_status-IsSound id expired (env.now at_assignment_save) s h refl)))

expire_all-IsSound :
    (has_dispatch : Bool) (each : String → Env) (ids : List String)
    → Contract IsSound
        (expire_all has_dispatch (λ id. alone (each id)) ids)
        (λ _ s. IsSound s)
        Sound
unfolding expire_all
expire_all-IsSound has_dispatch each [] = pure-Contract (λ s h. h)
expire_all-IsSound has_dispatch each (id ∷ ids) =
    >>=-Contract (expire_one-IsSound has_dispatch (each id) id)
      (λ _. expire_all-IsSound has_dispatch each ids)

pub check_expired_assignments-IsSound :
    (has_dispatch : Bool) (env : Env) (fails : String → Bool) (each : String → Env)
    → Contract IsSound
        (check_expired_assignments has_dispatch (alone env) fails (λ id. alone (each id)))
        (λ _ s. IsSound s)
        Sound
unfolding check_expired_assignments
check_expired_assignments-IsSound has_dispatch env fails each =
    handling-Contract {M = λ _ s. IsSound s} {N = λ _ s. IsSound s}
      (perform-Contract env at_find _
        (λ down. expire_offers-Contract down fails (env.now at_find) (env.now at_assignment_save)))
      (λ e. pure-Contract (λ s h. h)) (expire_all-IsSound has_dispatch each)

module _ (env : Env) (users : Option UserService) (zero_time : ℕ) (new_id : String)
    (cmd : RegisterDriverCommand) where
  -- Sound, with no driver under the new id.
  abbrev Fresh : Store → Type 0
  Fresh s = IsSound s × (driver_row new_id s ≡ none)

  abbrev FreshError : ServiceError → Store → Type 0
  FreshError e s = Fresh s

  absent-Contract :
      (found : Option Driver) → Contract Fresh (absent found) (λ _ s. Fresh s) FreshError
  absent-Contract none = pure-Contract (λ s h. h)
  absent-Contract (some d) = raise-Contract (λ s h. h)

  answered :
      (b : Bool) (e : ServiceError) → Contract Fresh (require b e) (λ _ s. Fresh s) FreshError
  answered b e =
      weaken (require-Contract {P = Fresh} {R = FreshError} b e (λ s h. h)) (λ s h. h)
        (λ _ s h. h.0) (λ _ _ h. h)

  role_step :
      (users : UserService) (role : Option String)
      → let next : Action (Unit {0}) = elim role [
        | some role ↦
            if str_eq role "driver"
            then raise driver_already_exists
            else require (users.update_user_role cmd.user_id "DRIVER") internal
        | none ↦ require (users.update_user_role cmd.user_id "DRIVER") internal
      ] in
        Contract Fresh next (λ _ s. Fresh s) FreshError
  role_step users none = answered _ _
  role_step users (some role) = elim (Bool-cases (str_eq role "driver")) [
    | inl e ↦ rw e (raise-Contract (λ s h. h))
    | inr e ↦ rw e (answered _ _)
  ]

  claim_role-Contract :
      (users : Option UserService)
      → Contract Fresh (claim_role users cmd.user_id) (λ _ s. Fresh s) FreshError
  claim_role-Contract none = pure-Contract (λ s h. h)
  claim_role-Contract (some users) = role_step users (users.role_of cmd.user_id)

  new_id_weight : (s : Store) → Fresh s → open_of new_id s ≡ 0
  new_id_weight s h =
      let idle : busy_of new_id s ≡ 0 = rw h.1 refl in omega (arith, h.0.held new_id, idle)

  find_user_step :
      (down : Bool)
      → Contract Fresh (driver_find_by_user_id down cmd.user_id) (λ _ s. Fresh s) FreshError
  unfolding driver_find_by_user_id
  find_user_step true = record { holds = λ s h. h }
  find_user_step false = record { holds = λ s h. h }

  find_user-Contract :
      Contract Fresh
        (perform (alone env) at_find (λ down. driver_find_by_user_id down cmd.user_id))
        (λ _ s. Fresh s)
        FreshError
  find_user-Contract = perform-Contract env at_find _ (λ down. find_user_step down)

  -- A driver registered under a new id leaves a sound store sound, with an error or without.
  pub register_driver-IsSound :
      Contract Fresh
        (register_driver (alone env) users zero_time new_id cmd)
        (λ _ s. IsSound s)
        Sound
  unfolding register_driver
  register_driver-IsSound =
      >>=-Contract {M = λ _ s. Fresh s}
        (handling-Contract {M = λ _ s. Fresh s} {N = λ _ s. Fresh s} find_user-Contract
          (λ e. pure-Contract (λ s h. h))
          (λ found. weaken (absent-Contract found) (λ s h. h) (λ _ _ h. h) (λ _ s h. h.0)))
        (λ _.
          >>=-Contract {M = λ _ s. Fresh s}
            (weaken (claim_role-Contract users) (λ s h. h) (λ _ _ h. h) (λ _ s h. h.0))
            (λ _.
              >>=-Contract {M = λ _ s. IsSound s}
                (perform-Contract env at_driver_save _ (λ down.
                  driver_save-Contract (registered zero_time new_id cmd) down (λ s h. h.0)
                    (λ s h.
                      with_driver-IsSound (registered zero_time new_id cmd) s h.0
                        (omega (arith, new_id_weight s h)))))
                (λ _.
                  >>=-Contract (announce-Contract env at_publish _ sent-IsSound)
                    (λ _. pure-Contract (λ s h. h)))))
