-- ===== src/Driver/Search/Laws.antt =====
-- dispatch_service.go: `FindAvailableDrivers`, whom it finds.
use mathlib.Core.Path.{subst}
use mathlib.Core.List.{Permᴰ}
use realtime_delivery_micros.Prelude.{
  ◌≡◌, refl, String, Bool, true, false, not, List, [], ◌∷◌, map, All, All-take, IsIn,
}
use realtime_delivery_micros.Prelude.Action.Contract.{
  Contract, >>=-Contract, pure-Contract, by_state, weaken,
}
use realtime_delivery_micros.Driver.Profile.{Driver}
use realtime_delivery_micros.Driver.Collection.{find_all}
use realtime_delivery_micros.Driver.Store.{Store, ServiceError, driver_find_by_ids, listed_id}
use realtime_delivery_micros.Driver.Env.{Env, at_find, at_second_find, alone}
use realtime_delivery_micros.Driver.Policy.{Candidate, DispatchPolicy, rank_candidates, with_score}
use realtime_delivery_micros.Driver.Policy.Laws.{All-Permᴰ}
use realtime_delivery_micros.Driver.Search.{
  Nearby, Ranking, candidate_ids, near_candidate, far_candidate, is_eligible,
  find_available_by_location, or_anywhere, find_available_drivers,
}
use realtime_delivery_micros.Driver.Search.Fitting.{
  IsFitting, eligible-IsFitting, false_of_not, find_all-All, All-map, All-imp, ids_allowed,
  each_own,
}
use realtime_delivery_micros.Driver.Ledger.Calls.{perform-Contract}

-- A candidate is made from a driver among the rows who may be offered the delivery.
pub record IsOfferable {F : Type 0} (wanted : String) (excluded : List String) (rows : List Driver)
    (c : Candidate F) : Type 0 where
  pub driver : Driver
  pub row : IsIn driver rows
  pub fitting : IsFitting wanted driver
  pub allowed : listed_id driver.id excluded ≡ false
  pub same_id : c.driver_id ≡ driver.id
  pub same_vehicle : c.vehicle_type ≡ driver.vehicle.vehicle_type
  pub same_status : c.status ≡ driver.status

module _ (wanted : String) (excluded : List String) (rows : List Driver) where
  -- What is known of a driver after each of the two reads.
  abbrev IsAsked : Driver → Type 0
  IsAsked d = IsIn d rows × (listed_id d.id excluded ≡ false)

  abbrev IsNear : Driver → Type 0
  IsNear d = IsIn d rows × IsFitting wanted d

  module _ {F : Type 0} where
    near_allowed :
        (ranking : Ranking F) (nearby : List (Nearby F)) (ds : List Driver)
        → All IsAsked ds
        → All
            (IsOfferable wanted excluded rows)
            (map (near_candidate ranking.zero nearby) (find_all (is_eligible wanted) ds))
    near_allowed ranking nearby ds h =
        All-map (IsOfferable wanted excluded rows) (near_candidate ranking.zero nearby) _ (
          find_all-All (is_eligible wanted)
            (λ d. IsOfferable wanted excluded rows (near_candidate ranking.zero nearby d)) ds
            (All-imp IsAsked _ ds
              (λ d asked eligible. record {
                driver = d;
                row = asked.0;
                fitting = eligible-IsFitting wanted d eligible;
                allowed = asked.1;
                same_id = refl;
                same_vehicle = refl;
                same_status = refl;
              })
              h))

    far_allowed :
        (ranking : Ranking F) (ds : List Driver)
        → All IsNear ds
        → All (IsOfferable wanted excluded rows) (
            map
              (far_candidate ranking.zero ranking.far)
              (find_all (λ d. not (listed_id d.id excluded)) ds))
    far_allowed ranking ds h =
        All-map (IsOfferable wanted excluded rows) (far_candidate ranking.zero ranking.far) _ (
          find_all-All (λ d. not (listed_id d.id excluded))
            (λ d. IsOfferable wanted excluded rows (far_candidate ranking.zero ranking.far d)) ds
            (All-imp IsNear _ ds
              (λ d known free. record {
                driver = d;
                row = known.0;
                fitting = known.1;
                allowed = false_of_not (listed_id d.id excluded) free;
                same_id = refl;
                same_vehicle = refl;
                same_status = refl;
              })
              h))

    scored_allowed :
        (ranking : Ranking F) (cs : List (Candidate F))
        → All (IsOfferable wanted excluded rows) cs
        → All (IsOfferable wanted excluded rows) (map (with_score ranking.is_zero) cs)
    scored_allowed ranking [] h = tt
    scored_allowed ranking (c ∷ cs) h = (
      record {
        driver = h.0.driver;
        row = h.0.row;
        fitting = h.0.fitting;
        allowed = h.0.allowed;
        same_id = h.0.same_id;
        same_vehicle = h.0.same_vehicle;
        same_status = h.0.same_status;
      },
      scored_allowed ranking cs h.1,
    )

module _ (wanted : String) (excluded : List String) (start : Store) where
  -- The store is as at the start, with an error too.
  abbrev Same : Store → Type 0
  Same s = s ≡ start

  abbrev SameOnError : ServiceError → Store → Type 0
  SameOnError e s = s ≡ start

  known_rows : (s : Store) → s ≡ start → All (λ d. IsIn d start.drivers) s.drivers
  known_rows s e = subst (λ t. All (λ d. IsIn d t.drivers) s.drivers) e (each_own s.drivers)

  by_location :
      (down : Bool)
      → Contract Same
          (find_available_by_location down wanted)
          (λ ds s. All (IsNear wanted excluded start.drivers) ds × (s ≡ start))
          SameOnError
  unfolding find_available_by_location
  by_location true = record { holds = λ s e. e }
  by_location false = record {
    holds = λ s e. (
      find_all-All (is_eligible wanted) (IsNear wanted excluded start.drivers) s.drivers (
          All-imp (λ d. IsIn d start.drivers) _ s.drivers
            (λ d row eligible. (row, eligible-IsFitting wanted d eligible)) (known_rows s e)),
      e,
    );
  }

  found_by_ids :
      (down : Bool) (ids : List String)
      → ((id : String) → listed_id id ids ≡ true → listed_id id excluded ≡ false)
      → Contract Same
          (driver_find_by_ids down ids)
          (λ ds s. All (IsAsked wanted excluded start.drivers) ds × (s ≡ start))
          SameOnError
  unfolding driver_find_by_ids
  found_by_ids down [] h = record { holds = λ s e. (tt, e) }
  found_by_ids true (x ∷ xs) h = record { holds = λ s e. e }
  found_by_ids false (x ∷ xs) h = record {
    holds = λ s e. (
      find_all-All (λ d. listed_id d.id (x ∷ xs)) (IsAsked wanted excluded start.drivers) s.drivers
          (All-imp (λ d. IsIn d start.drivers) _ s.drivers (λ d row listed. (row, h d.id listed))
            (known_rows s e)),
      e,
    );
  }

  module _ {F : Type 0} (env : Env) (ranking : Ranking F) (policy : DispatchPolicy) where
    anywhere_allowed :
        (cs : List (Candidate F))
        → All (IsOfferable wanted excluded start.drivers) cs
        → Contract Same
            (or_anywhere (alone env) ranking policy wanted excluded cs)
            (λ out s. All (IsOfferable wanted excluded start.drivers) out × (s ≡ start))
            SameOnError
    anywhere_allowed (c ∷ cs) h = pure-Contract (λ s e. (h, e))
    anywhere_allowed [] h =
        >>=-Contract {M = λ ds s. All (IsNear wanted excluded start.drivers) ds × (s ≡ start)}
          (perform-Contract env at_second_find _ by_location)
          (λ ds.
            pure-Contract
              (λ s known. (far_allowed wanted excluded start.drivers ranking ds known.0, known.1)))

    -- Under a sort that permutes its argument, with no other process at work in the call, the search
    -- changes nothing, and every candidate that it gives is made from a driver of the store who may be
    -- offered the delivery, whatever the location store answers and whatever fails.
    pub find_available_drivers-IsOfferable :
        (nearby : List (Nearby F))
        → ((before : Candidate F → Candidate F → Bool) (xs : List (Candidate F))
            → Permᴰ xs (ranking.sort before xs))
        → Contract Same
            (find_available_drivers (alone env) ranking policy nearby wanted excluded)
            (λ out s. All (IsOfferable wanted excluded start.drivers) out × (s ≡ start))
            SameOnError
    unfolding find_available_drivers rank_candidates
    find_available_drivers-IsOfferable nearby permutes =
        let Offerable : Candidate F → Type 0 = IsOfferable wanted excluded start.drivers in
        >>=-Contract {M = λ ds s. All (IsAsked wanted excluded start.drivers) ds × (s ≡ start)}
          (perform-Contract env at_find _ (λ down.
            found_by_ids down (candidate_ids nearby excluded) (ids_allowed excluded nearby)))
          (λ ds. by_state (λ s asked.
            >>=-Contract
              (weaken
                (anywhere_allowed _
                  (near_allowed wanted excluded start.drivers ranking nearby ds asked.0))
                (λ _ h. h.1) (λ _ _ h. h) (λ _ _ h. h))
              (λ cs. pure-Contract (λ t h. (
                All-take Offerable policy.candidate_count _ (
                    All-Permᴰ Offerable (permutes _ _)
                      (scored_allowed wanted excluded start.drivers ranking cs h.0)),
                h.1,
              )))))
