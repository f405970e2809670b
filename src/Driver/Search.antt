-- ===== src/Driver/Search.antt =====
-- dispatch_service.go: `FindAvailableDrivers`, the candidates for a delivery, the nearest first. The
-- answer of the location store is a parameter, as are the float64 and the sort of Driver/Policy.
pub mod Fitting
pub mod Laws
pub mod Examples
use text.Mathlib.Text.{◌==◌ as str_eq}
use realtime_delivery_micros.Prelude.{
  ℕ, String, Bool, true, false, ◌&&◌, ◌||◌, not, Option, none, some, List, [], ◌∷◌, map,
  if◌then◌else◌,
}
use realtime_delivery_micros.Prelude.Action.{◌>>=◌, pure}
use realtime_delivery_micros.Driver.Profile.{
  Driver, VehicleType, car, motorcycle, truck, bicycle, van, available, same_status,
}
use realtime_delivery_micros.Driver.Collection.{find_all}
use realtime_delivery_micros.Driver.Store.{Store, Action, reading, driver_find_by_ids, listed_id}
use realtime_delivery_micros.Driver.Env.{Env, at_find, at_second_find, perform}
use realtime_delivery_micros.Driver.Policy.{Candidate, DispatchPolicy, Sort, rank_candidates}

abbrev pub vehicle_text : VehicleType → String
vehicle_text car = "CAR"
vehicle_text motorcycle = "MOTORCYCLE"
vehicle_text truck = "TRUCK"
vehicle_text bicycle = "BICYCLE"
vehicle_text van = "VAN"

-- `vehicleType == "" || d.Vehicle.Type == vehicleType`
abbrev pub suits : String → Driver → Bool
suits wanted d = str_eq wanted "" || str_eq (vehicle_text d.vehicle.vehicle_type) wanted

-- A driver that may be offered a delivery.
abbrev pub is_eligible : String → Driver → Bool
is_eligible wanted d =
    same_status d.status available && (not d.is_blocked && (d.is_active && suits wanted d))

unfoldable pub find_available_by_location : Bool → String → Action (List Driver)
find_available_by_location down wanted = reading down (λ s. find_all (is_eligible wanted) s.drivers)

-- A driver that the location store finds near the pickup.
pub record Nearby (F : Type 0) : Type 0 where
  pub driver_id : String
  pub distance_meters : F

-- The float64 values that the search writes out itself, and what ranks the candidates.
pub record Ranking (F : Type 0) : Type 0 where
  pub zero : F
  pub far : F
  pub is_zero : F → Bool
  pub lt : F → F → Bool
  pub sort : Sort (Candidate F)

module _ {F : Type 0} where
  -- `distanceMap`: of two entries with an id the later one stays; a missing one reads as 0.
  abbrev last_distance : String → List (Nearby F) → Option F
  last_distance id [] = none
  last_distance id (g ∷ gs) =
      let later = last_distance id gs in
      elim later [
        | some f ↦ some f
        | none ↦ if str_eq g.driver_id id then some g.distance_meters else none
      ]

  abbrev distance_of : F → String → List (Nearby F) → F
  distance_of zero id nearby = elim (last_distance id nearby) [ some f ↦ f | none ↦ zero ]

  abbrev not_excluded : List String → Nearby F → Bool
  not_excluded excluded g = not (listed_id g.driver_id excluded)

  abbrev pub id_of : Nearby F → String
  id_of g = g.driver_id

  -- `candidateIDs`
  abbrev pub candidate_ids : List (Nearby F) → List String → List String
  candidate_ids nearby excluded = map id_of (find_all (not_excluded excluded) nearby)

  abbrev pub near_candidate : F → List (Nearby F) → Driver → Candidate F
  near_candidate zero nearby d = record {
    driver_id = d.id;
    distance_meters = distance_of zero d.id nearby;
    vehicle_type = d.vehicle.vehicle_type;
    status = d.status;
    ranking_score = distance_of zero d.id nearby;
  }

  abbrev pub far_candidate : F → F → Driver → Candidate F
  far_candidate zero far d = record {
    driver_id = d.id;
    distance_meters = zero;
    vehicle_type = d.vehicle.vehicle_type;
    status = d.status;
    ranking_score = far;
  }

  module _ (env : Env) (ranking : Ranking F) (policy : DispatchPolicy) where
    -- `if len(candidates) == 0`: any eligible driver that is not excluded.
    abbrev pub or_anywhere : String → List String → List (Candidate F) → Action (List (Candidate F))
    or_anywhere wanted excluded (c ∷ cs) = pure (c ∷ cs)
    or_anywhere wanted excluded [] = do
      drivers ← perform env at_second_find (λ down. find_available_by_location down wanted)
      pure (
          map (far_candidate ranking.zero ranking.far)
            (find_all (λ d. not (listed_id d.id excluded)) drivers))

    -- `FindAvailableDrivers`: `nearby` is the answer of the location store, empty where it fails.
    unfoldable pub find_available_drivers :
        List (Nearby F) → String → List String → Action (List (Candidate F))
    find_available_drivers nearby wanted excluded = do
      drivers ←
          perform env at_find (λ down. driver_find_by_ids down (candidate_ids nearby excluded))
      candidates ←
          or_anywhere wanted excluded
            (map (near_candidate ranking.zero nearby) (find_all (is_eligible wanted) drivers))
      pure (rank_candidates ranking.is_zero ranking.lt ranking.sort policy candidates)
