-- ===== src/Driver/Ledger/Dispatching.antt =====
-- adapters/kafka/delivery_consumer.go: what becomes of a delivery that was created.
use realtime_delivery_micros.Prelude.{
  ℕ, ◌+◌, ◌≡◌, refl, ◌⊎◌, inl, inr, String, Bool, true, false, List, [], ◌∷◌, ◌++◌, arith,
}
use realtime_delivery_micros.Prelude.Action.{pure, ignore}
use realtime_delivery_micros.Prelude.Action.Contract.{
  Contract, >>=-Contract, handling-Contract, pure-Contract, ignore-Contract, weaken,
}
use realtime_delivery_micros.Driver.Store.{
  Store, ServiceError, Action, DriverEvent, no_driver_available, publish, driver_find_by_ids,
  find_rejected_driver_ids, count_by_delivery,
}
use realtime_delivery_micros.Driver.Env.{
  Env, at_find, at_find_assignment, at_second_find, at_count, at_publish, at_assignment_save,
  perform, alone,
}
use realtime_delivery_micros.Driver.Dispatch.{offer}
use realtime_delivery_micros.Driver.Policy.{Candidate, DispatchPolicy}
use realtime_delivery_micros.Driver.Search.{
  Nearby, Ranking, candidate_ids, find_available_by_location, or_anywhere, find_available_drivers,
}
use realtime_delivery_micros.Driver.Consumer.{
  announce_none, reserve_first, offer_first, dispatch_delivery,
}
use realtime_delivery_micros.Driver.Ledger.{IsSound}
use realtime_delivery_micros.Driver.Ledger.Calls.{perform-Contract, perform_up}
use realtime_delivery_micros.Driver.Ledger.Freeing.{sent-IsSound}
use realtime_delivery_micros.Driver.Ledger.Reserve.{IsBooked, IsFit, reserve_driver-IsBooked}

-- A driver is held by an offer of the delivery.
abbrev pub IsOffered : String → Store → Type 0
IsOffered delivery_id s =
    (driver_id : String) × (now : ℕ) × IsBooked IsFit (offer now driver_id delivery_id) s

-- The last message says that the delivery has no driver.
abbrev pub IsAnnounced : String → String → Store → Type 0
IsAnnounced delivery_id customer_id s =
    (before : List DriverEvent) × (attempt : ℕ) × (reason : String) × (s.published
      ≡ before ++ (no_driver_available delivery_id customer_id attempt reason ∷ []))

abbrev Sound : ServiceError → Store → Type 0
Sound e s = IsSound s

module _ (delivery_id : String) where
  abbrev Tried : Bool → Store → Type 0
  Tried r s = IsSound s × (r ≡ true → IsOffered delivery_id s)

  module _ {F : Type 0} (each : String → Env) where
    reserve_step :
        (c : Candidate F) (cs : List (Candidate F)) (reserved : Bool)
        → Contract IsSound (reserve_first (λ id. alone (each id)) delivery_id cs) Tried Sound
        → let next : Action Bool = elim reserved [
          | true ↦ pure true
          | false ↦ reserve_first (λ id. alone (each id)) delivery_id cs
        ] in
          Contract
            (λ s.
              (reserved ≡ true)
              × IsBooked IsFit
                  (offer ((each c.driver_id).now at_assignment_save) c.driver_id delivery_id)
                  s)
            next
            Tried
            Sound
    reserve_step c cs true rest =
        pure-Contract
          (λ s h. (h.1.sound, λ _. (c.driver_id, (each c.driver_id).now at_assignment_save, h.1)))
    reserve_step c cs false rest = weaken rest (λ s h. h.1.sound) (λ _ _ h. h) (λ _ _ h. h)

    -- The loop over the candidates: from a sound store, with no other process at work in a
    -- reservation, it ends without an error in a sound store, and if it says so, with a driver held by
    -- an offer of the delivery, under any failures.
    pub reserve_first-IsOffered :
        (cs : List (Candidate F))
        → Contract IsSound (reserve_first (λ id. alone (each id)) delivery_id cs) Tried Sound
    unfolding reserve_first
    reserve_first-IsOffered [] = pure-Contract (λ s h. (h, λ e. ground arith))
    reserve_first-IsOffered (c ∷ cs) =
        handling-Contract (reserve_driver-IsBooked (each c.driver_id) c.driver_id delivery_id)
          (λ e. reserve_first-IsOffered cs)
          (λ reserved. reserve_step c cs reserved (reserve_first-IsOffered cs))

module _ (env : Env) where
  counted :
      (delivery_id : String) (down : Bool)
      → Contract IsSound (count_by_delivery down delivery_id) (λ _ s. IsSound s) Sound
  unfolding count_by_delivery
  counted delivery_id true = record { holds = λ s h. h }
  counted delivery_id false = record { holds = λ s h. h }

  said :
      (delivery_id customer_id reason : String) (attempt : ℕ)
      → env.down at_publish ≡ false
      → Contract IsSound
          (ignore (
            perform
              (alone env)
              at_publish
              (λ down. publish down (no_driver_available delivery_id customer_id attempt reason))))
          (λ _ s. IsSound s × IsAnnounced delivery_id customer_id s)
          Sound
  unfolding publish
  said delivery_id customer_id reason attempt up =
      ignore-Contract {I = λ s. IsSound s × IsAnnounced delivery_id customer_id s} (
        perform_up env at_publish _ up
          (record { holds = λ s h. (sent-IsSound s _ h, (s.published, attempt, reason, refl)) }))

  announce_none-IsAnnounced :
      (delivery_id customer_id reason : String)
      → env.down at_publish ≡ false
      → Contract IsSound
          (announce_none (alone env) delivery_id customer_id reason)
          (λ _ s. IsSound s × IsAnnounced delivery_id customer_id s)
          Sound
  unfolding announce_none
  announce_none-IsAnnounced delivery_id customer_id reason up =
      >>=-Contract {M = λ _ s. IsSound s}
        (handling-Contract {M = λ _ s. IsSound s} {N = λ _ s. IsSound s}
          (perform-Contract env at_count _ (counted delivery_id)) (λ e. pure-Contract (λ s h. h))
          (λ n. pure-Contract (λ s h. h)))
        (λ count. said delivery_id customer_id reason (count + 1) up)

  module _ {F : Type 0} (each : String → Env) (ranking : Ranking F) (policy : DispatchPolicy) where
    rejected_read :
        (delivery_id : String) (down : Bool)
        → Contract IsSound (find_rejected_driver_ids down delivery_id) (λ _ s. IsSound s) Sound
    unfolding find_rejected_driver_ids
    rejected_read delivery_id true = record { holds = λ s h. h }
    rejected_read delivery_id false = record { holds = λ s h. h }

    ids_read :
        (ids : List String) (down : Bool)
        → Contract IsSound (driver_find_by_ids down ids) (λ _ s. IsSound s) Sound
    unfolding driver_find_by_ids
    ids_read [] down = record { holds = λ s h. h }
    ids_read (x ∷ xs) true = record { holds = λ s h. h }
    ids_read (x ∷ xs) false = record { holds = λ s h. h }

    location_read :
        (wanted : String) (down : Bool)
        → Contract IsSound (find_available_by_location down wanted) (λ _ s. IsSound s) Sound
    unfolding find_available_by_location
    location_read wanted true = record { holds = λ s h. h }
    location_read wanted false = record { holds = λ s h. h }

    anywhere_keeps :
        (wanted : String) (excluded : List String) (cs : List (Candidate F))
        → Contract IsSound
            (or_anywhere (alone env) ranking policy wanted excluded cs)
            (λ _ s. IsSound s)
            Sound
    anywhere_keeps wanted excluded (c ∷ cs) = pure-Contract (λ s h. h)
    anywhere_keeps wanted excluded [] =
        >>=-Contract (perform-Contract env at_second_find _ (location_read wanted))
          (λ ds. pure-Contract (λ s h. h))

    search_keeps :
        (nearby : List (Nearby F)) (wanted : String) (excluded : List String)
        → Contract IsSound
            (find_available_drivers (alone env) ranking policy nearby wanted excluded)
            (λ _ s. IsSound s)
            Sound
    unfolding find_available_drivers
    search_keeps nearby wanted excluded =
        >>=-Contract (perform-Contract env at_find _ (ids_read (candidate_ids nearby excluded)))
          (λ ds. >>=-Contract (anywhere_keeps wanted excluded _) (λ cs. pure-Contract (λ s h. h)))

    module _ (delivery_id customer_id : String) (up : env.down at_publish ≡ false) where
      abbrev Handled : Unit {0} → Store → Type 0
      Handled _ s = IsSound s × (IsOffered delivery_id s ⊎ IsAnnounced delivery_id customer_id s)

      announced :
          (reason : String)
          → Contract IsSound
              (announce_none (alone env) delivery_id customer_id reason)
              Handled
              Sound
      announced reason =
          weaken (announce_none-IsAnnounced delivery_id customer_id reason up) (λ s h. h)
            (λ _ s h. (h.0, inr h.1)) (λ _ _ h. h)

      decided :
          (reserved : Bool)
          → let next : Action (Unit {0}) = elim reserved [
            | true ↦ pure tt
            | false ↦ announce_none (alone env) delivery_id customer_id "ALL_DRIVERS_BUSY"
          ] in
            Contract (Tried delivery_id reserved) next Handled Sound
      decided true = pure-Contract (λ s h. (h.0, inl (h.1 refl)))
      decided false = weaken (announced "ALL_DRIVERS_BUSY") (λ s h. h.0) (λ _ _ h. h) (λ _ _ h. h)

      offered_first :
          (cs : List (Candidate F))
          → Contract IsSound
              (offer_first
                (alone env)
                (λ id. alone (each id))
                ranking
                policy
                delivery_id
                customer_id
                cs)
              Handled
              Sound
      offered_first [] = announced "NO_DRIVERS_NEARBY"
      offered_first (c ∷ cs) =
          >>=-Contract (reserve_first-IsOffered delivery_id each (c ∷ cs)) decided

      -- If the last message can be sent, a delivery handled without an error, from a sound store and
      -- with no other process at work in a call, is offered to a driver who is BUSY with it or
      -- announced as having none, and the store is sound, with an error or without, whatever else
      -- fails.
      pub dispatch_delivery-handles :
          (nearby : List (Nearby F))
          → Contract IsSound
              (dispatch_delivery
                (alone env)
                (λ id. alone (each id))
                ranking
                policy
                delivery_id
                customer_id
                nearby)
              (λ _ s. IsSound s × (IsOffered delivery_id s ⊎ IsAnnounced delivery_id customer_id s))
              (λ _ s. IsSound s)
      unfolding dispatch_delivery
      dispatch_delivery-handles nearby =
          >>=-Contract {M = λ _ s. IsSound s}
            (handling-Contract {M = λ _ s. IsSound s} {N = λ _ s. IsSound s}
              (perform-Contract env at_find_assignment _ (rejected_read delivery_id))
              (λ e. pure-Contract (λ s h. h)) (λ ids. pure-Contract (λ s h. h)))
            (λ excluded. >>=-Contract (search_keeps nearby "" excluded) offered_first)
