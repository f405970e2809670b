-- ===== src/Driver/Ledger/Freeing.antt =====
-- dispatch_service.go: a driver freed once no open assignment is left, in each of the ways in which the
-- service does it, and the messages that follow.
use realtime_delivery_micros.Prelude.{ℕ, ◌≡◌, refl, sym, String, Option, none, some, List, arith}
use realtime_delivery_micros.Prelude.Action.Contract.{
  Contract, >>=-Contract, handling-Contract, pure-Contract, ignore-Contract, weaken,
}
use realtime_delivery_micros.Driver.Profile.{Driver, available}
use realtime_delivery_micros.Driver.Assignment.{Assignment}
use realtime_delivery_micros.Driver.Collection.Ids.{same_id, find_one-replace_same}
use realtime_delivery_micros.Driver.Collection.Laws.{find_one-passes}
use realtime_delivery_micros.Driver.Store.{
  Store, ServiceError, DriverEvent, driver_id_of, driver_find_by_id,
}
use realtime_delivery_micros.Driver.Env.{Env, at_find, at_driver_save, at_publish, perform, alone}
use realtime_delivery_micros.Driver.Dispatch.{
  freed, free_found, try_free, free_announced, free_and_announce,
}
use realtime_delivery_micros.Driver.Ledger.{
  IsSound, driver_row, open_of, with_driver, with_driver-IsSound,
}
use realtime_delivery_micros.Driver.Ledger.Calls.{
  perform-Contract, driver_find-Contract, driver_save-Contract, announce-Contract,
}

-- Sound, with no open assignment of a driver, and with what else is known of the assignments.
pub record IsIdle (K : List Assignment → Type 0) (driver_id : String) (s : Store) : Type 0 where
  pub sound : IsSound s
  pub idle : open_of driver_id s ≡ 0
  pub known : K s.assignments

-- The driver, if there is one, is AVAILABLE.
abbrev pub IsFree : Option Driver → Type 0
IsFree none = Unit
IsFree (some d) = d.status ≡ available

pub sent-IsSound :
    (s : Store) (sent : List DriverEvent) → IsSound s → IsSound (record s { published = sent })
sent-IsSound s sent h = record {
  unique_drivers = h.unique_drivers;
  unique_assignments = h.unique_assignments;
  held = h.held;
}

module _ {K : List Assignment → Type 0} (env : Env) (driver_id : String) where
  pub sent-IsIdle :
      (s : Store) (sent : List DriverEvent)
      → IsIdle K driver_id s
      → IsIdle K driver_id (record s { published = sent })
  sent-IsIdle s sent h = record {
    sound = sent-IsSound s sent h.sound;
    idle = h.idle;
    known = h.known;
  }

  freed-IsIdle :
      (d : Driver) (now : ℕ) (s : Store)
      → IsIdle K driver_id s
      → d.id ≡ driver_id
      → IsIdle K driver_id (with_driver (freed now d) s)
  freed-IsIdle d now s h its = record {
    sound =
        let idle' : open_of d.id s ≡ 0 = rw its h.idle in
        with_driver-IsSound (freed now d) s h.sound (omega (arith, idle'));
    idle = h.idle;
    known = h.known;
  }

  -- A write that fails leaves the driver as it was, one that succeeds leaves it AVAILABLE.
  pub free_found-Contract :
      (found : Option Driver)
      → Contract
          (λ s. IsIdle K driver_id s × (found ≡ driver_row driver_id s))
          (free_found (alone env) found)
          (λ _ s. IsIdle K driver_id s × IsFree (driver_row driver_id s))
          (λ _ s. IsIdle K driver_id s)
  unfolding free_found
  free_found-Contract none = pure-Contract (λ s h. (h.0, rw (sym h.1) tt))
  free_found-Contract (some d) = perform-Contract env at_driver_save _ (λ down.
      driver_save-Contract (freed (env.now at_driver_save) d) down (λ s h. h.0)
        (λ s h.
          let its : d.id ≡ driver_id =
            same_id driver_id_of driver_id d (find_one-passes _ s.drivers (sym h.1)) in
          let row : driver_row d.id (with_driver (freed (env.now at_driver_save) d) s)
              ≡ some (freed (env.now at_driver_save) d) =
            find_one-replace_same driver_id_of (freed (env.now at_driver_save) d) s.drivers in
          (freed-IsIdle d (env.now at_driver_save) s h.0 its, rw (sym its) (rw row refl))))

  pub find-Contract :
      {R : ServiceError → Store → Type 0}
      → ((e : ServiceError) (s : Store) → IsIdle K driver_id s → R e s)
      → Contract
          (IsIdle K driver_id)
          (perform (alone env) at_find (λ down. driver_find_by_id down driver_id))
          (λ found s. IsIdle K driver_id s × (found ≡ driver_row driver_id s))
          R
  find-Contract h =
      perform-Contract env at_find _ (λ down. driver_find-Contract driver_id down (h _))

  pub try_free-Contract :
      {R : ServiceError → Store → Type 0}
      → Contract
          (IsIdle K driver_id)
          (try_free (alone env) driver_id)
          (λ _ s. IsIdle K driver_id s)
          R
  unfolding try_free
  try_free-Contract = ignore-Contract (
      >>=-Contract (find-Contract (λ e s h. h))
        (λ found. weaken (free_found-Contract found) (λ s h. h) (λ _ s h. h.0) (λ _ s h. h)))

  announced :
      (found : Option Driver)
      → Contract
          (λ s. IsIdle K driver_id s × (found ≡ driver_row driver_id s))
          (free_announced (alone env) driver_id found)
          (λ _ s. IsIdle K driver_id s)
          (λ _ s. IsIdle K driver_id s)
  unfolding free_announced
  announced none = pure-Contract (λ s h. h.0)
  announced (some d) =
      >>=-Contract (weaken (free_found-Contract (some d)) (λ s h. h) (λ _ s h. h.0) (λ _ s h. h))
        (λ _. announce-Contract env at_publish _ sent-IsIdle)

  pub free_and_announce-Contract :
      Contract
        (IsIdle K driver_id)
        (free_and_announce (alone env) driver_id)
        (λ _ s. IsIdle K driver_id s)
        (λ _ s. IsIdle K driver_id s)
  unfolding free_and_announce
  free_and_announce-Contract =
      handling-Contract (find-Contract (λ e s h. h)) (λ e. pure-Contract (λ s h. h)) announced
