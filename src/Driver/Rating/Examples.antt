-- ===== src/Driver/Rating/Examples.antt =====
-- A driver rated on a small store, with ratings as numbers from 1 to 5.
use realtime_delivery_micros.Prelude.{
  ℕ, Bool, true, false, ◌&&◌, none, some, List, [], ◌∷◌, leb, if◌then◌else◌,
}
use text.Mathlib.Text.{◌==◌ as str_eq}
use realtime_delivery_micros.Prelude.Int.{ℤ, pos}
use realtime_delivery_micros.Driver.Profile.{car, available}
use realtime_delivery_micros.Driver.Review.{Review}
use realtime_delivery_micros.Driver.Store.{Store}
use realtime_delivery_micros.Driver.Env.{Env}
use realtime_delivery_micros.Driver.Rating.{RateDriverCommand, DeliveryClient}

abbrev calm : Env
calm = record { down = λ _. false; others = λ _ s. s; now = λ _. 0 }

abbrev in_range : ℕ → Bool
in_range n = leb 1 n && leb n 5

abbrev average : List Review → ℕ × ℤ
average [] = (0, pos 0)
average (r ∷ rs) = (r.rating, pos 1)

abbrev client : DeliveryClient
client id =
    if str_eq id "v1"
    then some (some (record { delivery_id = "v1"; customer_id = "c1"; driver_id = "d1" }))
    else some none

abbrev five_stars : RateDriverCommand
five_stars = record {
  driver_id = "d1";
  user_id = "c1";
  delivery_id = "v1";
  rating = 5;
  comment = "fast";
}

abbrev town : Store
town = record {
  drivers =
      record {
        id = "d1";
        user_id = "u1";
        status = available;
        is_active = true;
        is_blocked = false;
        vehicle = record { vehicle_type = car; plate_number = "1234"; capacity_kg = pos 300 };
        capabilities = [];
        service_area = "Cairo";
        rating = 0;
        rating_count = pos 0;
        version = pos 0;
        created_at = 0;
        updated_at = 0;
      }
      ∷ [];
  assignments = [];
  locks = [];
  published = [];
  reviews = [];
}
