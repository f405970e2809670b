-- ===== src/Driver/Search/Examples.antt =====
-- The search for drivers and the dispatch of a delivery on small stores, with distances as numbers and
-- an insertion sort by the score.
use mathlib.Core.List.{Permᴰ}
use realtime_delivery_micros.Prelude.{
  ℕ, ◌≤◌, ◌≡◌, ◌⊎◌, String, true, false, List, [], ◌∷◌, ◌++◌, All, length, arith, ltb, ◌==◌,
}
use realtime_delivery_micros.Prelude.Int.{pos}
use realtime_delivery_micros.Prelude.Action.Contract.{Ends}
use realtime_delivery_micros.Driver.Profile.{Driver, car, available}
use realtime_delivery_micros.Driver.Store.{Store}
use realtime_delivery_micros.Driver.Env.{Env, alone}
use realtime_delivery_micros.Driver.Policy.{
  Candidate, DispatchPolicy, Sort, new_dispatch_policy, rank_candidates,
}
use realtime_delivery_micros.Driver.Policy.Laws.{
  Ordered, IsStrictWeak, Scored, rank_candidates_best,
}
use realtime_delivery_micros.Driver.Policy.Insertion.{
  insertion_sort, sort_permutes, insertion_sort-IsSort,
}
use realtime_delivery_micros.Driver.Search.{Nearby, Ranking, find_available_drivers}
use realtime_delivery_micros.Driver.Search.Laws.{IsOfferable}
use realtime_delivery_micros.Driver.Ledger.Guarantees.{search_offers_available}

abbrev sort : Sort (Candidate ℕ)
sort before xs = insertion_sort before xs

ltb-IsStrictWeak : IsStrictWeak ltb
ltb-IsStrictWeak = record {
  asymmetric = λ x y h. ground arith;
  negatively_transitive = λ x y z h k. ground arith;
}

abbrev pub ranking : Ranking ℕ
ranking = record { zero = 0; far = 999999; is_zero = λ n. n == 0; lt = ltb; sort = sort }

abbrev candidate : String → ℕ → Candidate ℕ
candidate id distance = record {
  driver_id = id;
  distance_meters = distance;
  vehicle_type = car;
  status = available;
  ranking_score = 0;
}

abbrev three : List (Candidate ℕ)
three = candidate "d1" 900 ∷ candidate "d2" 200 ∷ candidate "d3" 500 ∷ []

abbrev two_only : DispatchPolicy
two_only = record new_dispatch_policy { candidate_count = 2 }

rank_candidates_best_example :
    let ranked = rank_candidates ranking.is_zero ltb sort two_only three in
    (scored left : List (Candidate ℕ)) × Scored ranking.is_zero three scored
    × Permᴰ scored (ranked ++ left)
    × (length ranked ≤ 2)
    × ((left ≡ []) ⊎ (length ranked ≡ 2))
    × Ordered (λ c d. ltb c.ranking_score d.ranking_score) ranked
    × All (λ c. All (λ d. ltb d.ranking_score c.ranking_score ≡ false) left) ranked
rank_candidates_best_example =
    rank_candidates_best ranking.is_zero ltb sort two_only three insertion_sort-IsSort
      ltb-IsStrictWeak

abbrev calm : Env
calm = record { down = λ _. false; others = λ _ s. s; now = λ _. 0 }

abbrev driver : String → Driver
driver id = record {
  id = id;
  user_id = id;
  status = available;
  is_active = true;
  is_blocked = false;
  vehicle = record { vehicle_type = car; plate_number = "1234"; capacity_kg = pos 300 };
  capabilities = [];
  service_area = "Cairo";
  rating = 0;
  rating_count = pos 0;
  version = pos 0;
  created_at = 0;
  updated_at = 0;
}

abbrev town : Store
town = record {
  drivers = driver "d1" ∷ driver "d2" ∷ [];
  assignments = [];
  locks = [];
  published = [];
  reviews = [];
}

abbrev pub near : List (Nearby ℕ)
near =
    record { driver_id = "d1"; distance_meters = 900 }
    ∷ record { driver_id = "d2"; distance_meters = 200 }
    ∷ []

search_offers_available_example :
    Ends
      (λ (out : List (Candidate ℕ)) t.
        All (IsOfferable "CAR" ("d2" ∷ []) town.drivers) out × (t ≡ town))
      (λ _ t. t ≡ town)
      (find_available_drivers
        (alone calm)
        ranking
        new_dispatch_policy
        near
        "CAR"
        ("d2" ∷ [])
        town).0
      (find_available_drivers
        (alone calm)
        ranking
        new_dispatch_policy
        near
        "CAR"
        ("d2" ∷ [])
        town).1
search_offers_available_example =
    search_offers_available calm ranking new_dispatch_policy near "CAR" ("d2" ∷ []) town
      sort_permutes
