-- ===== src/Driver/Rating/Laws.antt =====
-- commands/rate_driver.go: who may rate a driver, and how often.
use text.Mathlib.Text.{◌==◌ as str_eq}
use realtime_delivery_micros.Prelude.{ℕ, ◌≡◌, String, Bool, true, none, some, List, [], ◌∷◌, ◌++◌}
use realtime_delivery_micros.Prelude.Int.{ℤ}
use realtime_delivery_micros.Prelude.Result.{Result}
use realtime_delivery_micros.Prelude.Action.Contract.{Contract}
use realtime_delivery_micros.Driver.Collection.{find_one}
use realtime_delivery_micros.Driver.Review.{Review}
use realtime_delivery_micros.Driver.Store.{Store}
use realtime_delivery_micros.Driver.Env.{Env}
use realtime_delivery_micros.Driver.Rating.{RateDriverCommand, DeliveryInfo, DeliveryClient}
use realtime_delivery_micros.Driver.Rating.Checks.{Kept}

module _ (env : Env) (in_range : ℕ → Bool) (average : List Review → ℕ × ℤ) (new_id : String) where
  module _ (rs : List Review) (client : DeliveryClient) (cmd : RateDriverCommand) where
    -- A review that is new, in range, and by the customer of the delivery.
    abbrev pub Rated : Review → Store → Type 0
    Rated r t =
        (t.reviews ≡ rs ++ (r ∷ []))
        × (in_range r.rating ≡ true)
        × (r.delivery_id ≡ cmd.delivery_id)
        × (find_one (λ q. str_eq q.delivery_id cmd.delivery_id) rs ≡ none)
        × ((info : DeliveryInfo) × (client cmd.delivery_id ≡ some (some info))
            × (info.customer_id ≡ cmd.user_id))

    abbrev SoFar : Store → Type 0
    SoFar s =
        Kept rs s
        × ((info : DeliveryInfo) × (client cmd.delivery_id ≡ some (some info))
            × (info.customer_id ≡ cmd.user_id))
