-- ===== src/Driver/Ledger/CommandsKeep.antt =====
-- services/driver-service/internal/application/commands: the commands over a sound store.
use realtime_delivery_micros.Prelude.{◌≤◌, ◌≡◌, refl, sym, ap, ◌∙◌, String, true, some, arith}
use realtime_delivery_micros.Prelude.Action.Contract.{
  Contract, >>=-Contract, pure-Contract, require-Contract, weaken,
}
use realtime_delivery_micros.Driver.Profile.{
  Driver, DriverStatus, offline, available, busy, same_status, block, unblock,
}
use realtime_delivery_micros.Driver.Collection.Ids.{same_id}
use realtime_delivery_micros.Driver.Collection.Laws.{bit, find_one-passes}
use realtime_delivery_micros.Driver.Store.{
  Store, ServiceError, driver_not_found, driver_already_online, driver_not_offline, driver_id_of,
}
use realtime_delivery_micros.Driver.Env.{Env, at_find, at_driver_save, at_publish, alone}
use realtime_delivery_micros.Driver.Dispatch.{freed}
use realtime_delivery_micros.Driver.Commands.{
  driver_of, saved, block_driver, unblock_driver, go_offline_command, go_online_command,
}
use realtime_delivery_micros.Driver.Ledger.{
  IsSound, driver_row, open_of, busy_of, with_driver-IsSound,
}
use realtime_delivery_micros.Driver.Ledger.Calls.{
  perform-Contract, driver_find-Contract, driver_save-Contract, present-Contract, checked-Contract,
  announce-Contract,
}
use realtime_delivery_micros.Driver.Ledger.Freeing.{sent-IsSound}
use realtime_delivery_micros.Driver.Ledger.Reserve.{idle_lem, not_available}

abbrev Sound : ServiceError → Store → Type 0
Sound e s = IsSound s

not_offline : (t : DriverStatus) → same_status t offline ≡ true → bit (same_status t busy) ≡ 0
not_offline offline h = refl
not_offline _ h = ground arith

module _ (env : Env) (driver_id : String) where
  pub driver_of-Contract :
      Contract IsSound
        (driver_of (alone env) driver_id)
        (λ d s. IsSound s × (driver_row driver_id s ≡ some d))
        Sound
  unfolding driver_of
  driver_of-Contract =
      >>=-Contract
        (perform-Contract env at_find _ (λ down. driver_find-Contract driver_id down (λ s h. h)))
        (λ found.
          weaken (present-Contract {R = Sound} found driver_not_found (λ s h _. h.0)) (λ s h. h)
            (λ d s h. (h.0.0, sym h.0.1 ∙ h.1)) (λ _ _ h. h))

  -- A driver may be written if it is BUSY enough for its assignments.
  saved-Contract :
      (d : Driver)
      → Contract
          (λ s. IsSound s × (open_of d.id s ≤ bit (same_status d.status busy)))
          (saved (alone env) d)
          (λ _ s. IsSound s)
          Sound
  unfolding saved
  saved-Contract d =
      >>=-Contract {M = λ _ s. IsSound s}
        (perform-Contract env at_driver_save _ (λ down.
          driver_save-Contract d down (λ s h. h.0) (λ s h. with_driver-IsSound d s h.0 h.1)))
        (λ _. pure-Contract (λ s h. h))

  -- The same driver with the same status.
  same_weight :
      (d d' : Driver) (s : Store)
      → IsSound s
      → driver_row driver_id s ≡ some d
      → d'.id ≡ d.id
      → d'.status ≡ d.status
      → open_of d'.id s ≤ bit (same_status d'.status busy)
  same_weight d d' s sound found same_ids same =
      let its : d.id ≡ driver_id =
        same_id driver_id_of driver_id d (find_one-passes _ s.drivers found) in
      let weight : busy_of driver_id s ≡ bit (same_status d.status busy) = rw found refl in
      rw (same_ids ∙ its, same) (omega (arith, sound.held driver_id, weight))

  pub block_driver-IsSound :
      Contract IsSound (block_driver (alone env) driver_id) (λ _ s. IsSound s) Sound
  unfolding block_driver block
  block_driver-IsSound = >>=-Contract driver_of-Contract (λ d.
      >>=-Contract (checked-Contract (block d (env.now at_find)) (λ e s h. h.0)) (λ d'.
        weaken (saved-Contract d')
          (λ s h. (
            h.0.0,
            same_weight d d' s h.0.0 h.0.1 (ap (λ o. o.0.id) (sym h.1))
                (ap (λ o. o.0.status) (sym h.1)),
          ))
          (λ _ _ h. h) (λ _ _ h. h)))

  pub unblock_driver-IsSound :
      Contract IsSound (unblock_driver (alone env) driver_id) (λ _ s. IsSound s) Sound
  unfolding unblock_driver unblock
  unblock_driver-IsSound = >>=-Contract driver_of-Contract (λ d.
      >>=-Contract (checked-Contract (unblock d (env.now at_find)) (λ e s h. h.0)) (λ d'.
        weaken (saved-Contract d')
          (λ s h. (
            h.0.0,
            same_weight d d' s h.0.0 h.0.1 (ap (λ o. o.0.id) (sym h.1))
                (ap (λ o. o.0.status) (sym h.1)),
          ))
          (λ _ _ h. h) (λ _ _ h. h)))

  idle_weight :
      (d d' : Driver) (s : Store)
      → IsSound s
      → driver_row driver_id s ≡ some d
      → bit (same_status d.status busy) ≡ 0
      → d'.id ≡ d.id
      → open_of d'.id s ≤ bit (same_status d'.status busy)
  idle_weight d d' s sound found idle same_ids =
      let who : (d.id ≡ driver_id) × (open_of driver_id s ≡ 0) =
        idle_lem d driver_id s sound found idle in
      let none_open : open_of d'.id s ≡ 0 = rw (same_ids ∙ who.0) who.1 in omega (arith, none_open)

  pub go_offline_command-IsSound :
      Contract IsSound (go_offline_command (alone env) driver_id) (λ _ s. IsSound s) Sound
  unfolding go_offline_command
  go_offline_command-IsSound = >>=-Contract driver_of-Contract (λ d.
      >>=-Contract
        (require-Contract (same_status d.status available) driver_not_offline (λ s h. h.0))
        (λ _.
          >>=-Contract
            (weaken
              (saved-Contract (record d { status = offline; updated_at = env.now at_driver_save }))
              (λ s h. (
                h.0.0,
                idle_weight d (record d { status = offline; updated_at = env.now at_driver_save }) s
                    h.0.0 h.0.1 (not_available d.status h.1) refl,
              ))
              (λ _ _ h. h) (λ _ _ h. h))
            (λ _. pure-Contract (λ s h. h))))

  pub go_online_command-IsSound :
      Contract IsSound (go_online_command (alone env) driver_id) (λ _ s. IsSound s) Sound
  unfolding go_online_command
  go_online_command-IsSound = >>=-Contract driver_of-Contract (λ d.
      >>=-Contract
        (require-Contract (same_status d.status offline) driver_already_online (λ s h. h.0))
        (λ _.
          >>=-Contract
            (weaken (saved-Contract (freed (env.now at_driver_save) d))
              (λ s h. (
                h.0.0,
                idle_weight d (freed (env.now at_driver_save) d) s h.0.0 h.0.1
                    (not_offline d.status h.1) refl,
              ))
              (λ _ _ h. h) (λ _ _ h. h))
            (λ _. announce-Contract env at_publish _ sent-IsSound)))
