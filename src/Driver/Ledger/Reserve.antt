-- ===== src/Driver/Ledger/Reserve.antt =====
-- dispatch_service.go: a driver reserved for a delivery.
use realtime_delivery_micros.Prelude.{
  ℕ, ◌≡◌, refl, sym, ◌∙◌, inl, inr, String, Bool, true, false, none, some, List, ◌∷◌, arith,
  Bool-cases,
}
use realtime_delivery_micros.Prelude.Action.{deferring}
use realtime_delivery_micros.Prelude.Action.Contract.{
  Contract, >>=-Contract, handling-Contract, pure-Contract, raise-Contract, require-Contract,
  ignore-Contract, deferring-Contract, weaken,
}
use realtime_delivery_micros.Driver.Profile.{
  Driver, DriverStatus, available, busy, same_status, reserve,
}
use realtime_delivery_micros.Driver.Assignment.{Assignment}
use realtime_delivery_micros.Driver.Collection.Ids.{find_one-replace_same, same_id}
use realtime_delivery_micros.Driver.Collection.Laws.{bit, find_one-passes}
use realtime_delivery_micros.Driver.Store.{
  Store, ServiceError, driver_not_found, driver_not_available_for_assignment,
  driver_already_reserved, Action, DriverEvent, driver_id_of, assignment_id_of, lock_release,
  lock_key,
}
use realtime_delivery_micros.Driver.Env.{
  Env, at_acquire, at_release, at_find, at_driver_save, at_assignment_save, at_rollback, at_publish,
  perform, alone,
}
use realtime_delivery_micros.Driver.Dispatch.{
  offer, freed, place_offer, reserve_locked, reserve_driver,
}
use realtime_delivery_micros.Driver.Ledger.{
  IsSound, driver_row, assignment_row, open_of, busy_of, with_driver, with_assignment,
  with_driver-IsSound, offer-IsSound,
}
use realtime_delivery_micros.Driver.Ledger.Calls.{
  perform-Contract, driver_find-Contract, driver_save-Contract, assignment_save-Contract,
  announce-Contract, present-Contract, checked-Contract, lock_acquire-Contract, lock_release-keeps,
}

row_of_driver :
    (id id' : String) (d : Driver) (s : Store)
    → id ≡ id'
    → driver_row id' s ≡ some d
    → driver_row id s ≡ some d
row_of_driver id id' d s same h = rw same h

-- A driver held by an offer: what is known of the driver is `K`.
pub record IsBooked (K : Driver → Type 0) (a : Assignment) (s : Store) : Type 0 where
  pub sound : IsSound s
  pub driver : Driver
  pub driver_found : driver_row a.driver_id s ≡ some driver
  pub driver_busy : driver.status ≡ busy
  pub driver_known : K driver
  pub offer_found : assignment_row a.id s ≡ some a

pub not_available :
    (t : DriverStatus) → same_status t available ≡ true → bit (same_status t busy) ≡ 0
not_available available h = refl
not_available _ h = ground arith

busy_lem : (t : DriverStatus) → t ≡ busy → bit (same_status t busy) ≡ 1
busy_lem busy h = refl
busy_lem _ h = ground arith

-- A driver that is not BUSY has no open assignment.
pub idle_lem :
    (d : Driver) (id : String) (s : Store)
    → IsSound s
    → driver_row id s ≡ some d
    → bit (same_status d.status busy) ≡ 0
    → (d.id ≡ id) × (open_of id s ≡ 0)
idle_lem d id s sound found h =
    let its : d.id ≡ id = same_id driver_id_of id d (find_one-passes _ s.drivers found) in
    let idle : busy_of id s ≡ 0 = rw found h in (its, omega (arith, sound.held id, idle))

pub relocked-IsSound :
    (s : Store) (locks : List String) → IsSound s → IsSound (record s { locks = locks })
relocked-IsSound s locks h = record {
  unique_drivers = h.unique_drivers;
  unique_assignments = h.unique_assignments;
  held = h.held;
}

abbrev Sound : ServiceError → Store → Type 0
Sound e s = IsSound s

module _ (K : Driver → Type 0) (a : Assignment) where
  -- Between the two writes: BUSY, with no open assignment.
  abbrev pub Held : Driver → Store → Type 0
  Held d s =
      IsSound s
      × (d.id ≡ a.driver_id)
      × (open_of a.driver_id s ≡ 0)
      × (driver_row a.driver_id s ≡ some d)
      × (d.status ≡ busy)
      × K d

  pub hold :
      (d : Driver) (s : Store)
      → IsSound s × (d.id ≡ a.driver_id) × (open_of a.driver_id s ≡ 0) × (d.status ≡ busy) × K d
      → Held d (with_driver d s)
  hold d s (sound, its, idle, is_busy, known) =
      let idle' : open_of d.id s ≡ 0 = rw its idle in
      let row : driver_row d.id (with_driver d s) ≡ some d =
        find_one-replace_same driver_id_of d s.drivers in
      (
        with_driver-IsSound d s sound (omega (arith, idle')),
        its,
        idle,
        row_of_driver a.driver_id d.id d (with_driver d s) (sym its) row,
        is_busy,
        known,
      )

  book : (d : Driver) (s : Store) → Held d s → IsBooked K a (with_assignment a s)
  book d s (sound, its, idle, row, is_busy, known) =
      let is_held : busy_of a.driver_id s ≡ 1 = rw row (busy_lem d.status is_busy) in
      record {
        sound = offer-IsSound a s sound idle is_held;
        driver = d;
        driver_found = row;
        driver_busy = is_busy;
        driver_known = known;
        offer_found = find_one-replace_same assignment_id_of a s.assignments;
      }

  -- Another list of messages or of locks is no matter.
  pub resent :
      (s : Store) (locks : List String) (sent : List DriverEvent)
      → IsBooked K a s
      → IsBooked K a (record s { locks = locks; published = sent })
  resent s locks sent b = record {
    sound = record {
      unique_drivers = b.sound.unique_drivers;
      unique_assignments = b.sound.unique_assignments;
      held = b.sound.held;
    };
    driver = b.driver;
    driver_found = b.driver_found;
    driver_busy = b.driver_busy;
    driver_known = b.driver_known;
    offer_found = b.offer_found;
  }

  -- Freed again, the driver is as sound as before.
  free_again : (d : Driver) (now : ℕ) (s : Store) → Held d s → IsSound (with_driver (freed now d) s)
  free_again d now s (sound, its, idle, row, is_busy, known) =
      let idle' : open_of d.id s ≡ 0 = rw its idle in
      with_driver-IsSound (freed now d) s sound (omega (arith, idle'))

  abbrev pub Booked : Bool → Store → Type 0
  Booked r s = (r ≡ true) × IsBooked K a s

  pub place_offer-Contract :
      (env : Env) (d : Driver) → Contract (Held d) (place_offer (alone env) d a) Booked Sound
  unfolding place_offer
  place_offer-Contract env d =
      handling-Contract {M = λ _ s. IsBooked K a s} {N = λ _ s. Held d s}
        (perform-Contract env at_assignment_save _
          (λ down. assignment_save-Contract a down (λ s h. h) (λ s h. book d s h)))
        (λ e.
          >>=-Contract {M = λ _ s. IsSound s}
            (ignore-Contract (
              perform-Contract env at_rollback _ (λ down.
                driver_save-Contract (freed (env.now at_rollback) d) down (λ s h. h.0)
                  (λ s h. free_again d (env.now at_rollback) s h))))
            (λ _. raise-Contract (λ s h. h)))
        (λ _.
          >>=-Contract {M = λ _ s. IsBooked K a s}
            (announce-Contract env at_publish _ (λ s sent h. resent s s.locks sent h))
            (λ _. pure-Contract (λ s h. (refl, h))))

  -- Whatever happens to the lock afterwards.
  pub unlocking-Contract :
      (env : Env) (m : Action Bool) (resource token : String)
      → Contract IsSound m Booked Sound
      → Contract IsSound
          (deferring (perform (alone env) at_release (λ down. lock_release down resource token)) m)
          Booked
          Sound
  unlocking-Contract env m resource token h =
      deferring-Contract {R = Sound} {Q = Booked}
        (perform (alone env) at_release (λ down. lock_release down resource token)) h
        (λ r s b.
          lock_release-keeps (Booked r) env at_release resource token s b
            (λ locks. (b.0, resent s locks s.published b.1)))
        (λ e s b.
          lock_release-keeps IsSound env at_release resource token s b
            (λ locks. relocked-IsSound s locks b))

-- What `Reserve` asks of a driver.
abbrev pub IsFit : Driver → Type 0
IsFit d = (d.is_active ≡ true) × (d.is_blocked ≡ false)

reserve_lem :
    (d d' : Driver) (now : ℕ)
    → reserve d now ≡ (d', none)
    → (d'.id ≡ d.id) × (d'.status ≡ busy) × IsFit d'
unfolding reserve
reserve_lem d d' now h = elim (Bool-cases d.is_blocked) [
  | inl e ↦ ground arith
  | inr e ↦ elim (Bool-cases d.is_active) [
    | inl f ↦ (ground arith, ground arith, (ground arith, ground arith))
    | inr f ↦ ground arith
  ]
]

module _ (env : Env) (driver_id delivery_id : String) where
  reserve_locked-Contract :
      Contract IsSound
        (reserve_locked (alone env) driver_id delivery_id)
        (Booked IsFit (offer (env.now at_assignment_save) driver_id delivery_id))
        Sound
  unfolding reserve_locked
  reserve_locked-Contract =
      let a : Assignment = offer (env.now at_assignment_save) driver_id delivery_id in
      >>=-Contract
        (perform-Contract env at_find _ (λ down. driver_find-Contract driver_id down (λ s h. h)))
        (λ found. >>=-Contract (present-Contract found driver_not_found (λ s h _. h.0)) (λ d.
          >>=-Contract
            (require-Contract (same_status d.status available) driver_not_available_for_assignment
              (λ s h. h.0.0))
            (λ _.
              >>=-Contract (checked-Contract (reserve d (env.now at_find)) (λ e s h. h.0.0.0))
                (λ d'.
                  >>=-Contract {M = λ _ s. Held IsFit a d' s}
                    (perform-Contract env at_driver_save _ (λ down.
                      driver_save-Contract d' down (λ s h. h.0.0.0.0)
                        (λ s h.
                          let who : (d.id ≡ driver_id) × (open_of driver_id s ≡ 0) =
                            idle_lem d driver_id s h.0.0.0.0 (sym h.0.0.0.1 ∙ h.0.0.1)
                              (not_available d.status h.0.1) in
                          let now_held : (d'.id ≡ d.id) × (d'.status ≡ busy) × IsFit d' =
                            reserve_lem d d' (env.now at_find) h.1 in
                          hold IsFit a d' s
                            (h.0.0.0.0, now_held.0 ∙ who.0, who.1, now_held.1, now_held.2))))
                    (λ _. place_offer-Contract IsFit a env d')))))

  -- A driver reserved is BUSY, active and not blocked, and is held by an offer of the delivery: from a
  -- sound store and with no other process at work in the call, a call that returns a result returns
  -- true and leaves the store so, and one that returns an error leaves it sound, under any failures.
  pub reserve_driver-IsBooked :
      Contract IsSound
        (reserve_driver (alone env) driver_id delivery_id)
        (λ r s.
          (r ≡ true) × IsBooked IsFit (offer (env.now at_assignment_save) driver_id delivery_id) s)
        (λ _ s. IsSound s)
  unfolding reserve_driver
  reserve_driver-IsBooked =
      >>=-Contract {M = λ _ s. IsSound s}
        (perform-Contract env at_acquire _ (λ down.
          lock_acquire-Contract driver_id down (λ s h. h) (λ s h. h)
            (λ s h. relocked-IsSound s (lock_key driver_id ∷ s.locks) h)))
        (λ acquired.
          >>=-Contract (require-Contract acquired driver_already_reserved (λ s h. h)) (λ _.
            weaken
              (unlocking-Contract IsFit (offer (env.now at_assignment_save) driver_id delivery_id)
                env (reserve_locked (alone env) driver_id delivery_id) driver_id ""
                reserve_locked-Contract)
              (λ s h. h.0) (λ _ _ h. h) (λ _ _ h. h)))
