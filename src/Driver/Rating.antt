-- ===== src/Driver/Rating.antt =====
-- services/driver-service/internal/application/commands/rate_driver.go and domain/review.go
-- (NewReview): a driver rated by the customer of a delivery. The delivery service, the range test on
-- the rating's float64 and the database's average are parameters.
pub mod Checks
pub mod Laws
mod Examples
use text.Mathlib.Text.{◌==◌ as str_eq}
use realtime_delivery_micros.Prelude.{
  ℕ, String, Bool, true, false, ◌&&◌, ◌||◌, not, Option, none, some, List, if◌then◌else◌,
}
use realtime_delivery_micros.Prelude.Int.{ℤ}
use realtime_delivery_micros.Prelude.Result.{Result, ok, err}
use realtime_delivery_micros.Prelude.Action.{◌>>=◌, ◌>>◌, pure, raise, require, ignore, handling}
use realtime_delivery_micros.Driver.Profile.{Driver}
use realtime_delivery_micros.Driver.Assignment.{Assignment}
use realtime_delivery_micros.Driver.Review.{Review}
use realtime_delivery_micros.Driver.Store.{
  Action, ServiceError, unreachable, invalid_argument, invalid_rating, duplicate_review,
  delivery_not_found, not_delivery_owner, not_assigned_driver, panicked, driver_find_by_id,
  assignment_find_by_delivery_id, review_create, review_find_by_delivery_id, reviews_of_driver,
  driver_update_rating,
}
use realtime_delivery_micros.Driver.Env.{
  Env, at_find, at_second_find, at_find_assignment, at_assignment_save, at_publish, at_driver_save,
  perform,
}

pub record RateDriverCommand : Type 0 where
  pub driver_id : String
  pub user_id : String
  pub delivery_id : String
  pub rating : ℕ
  pub comment : String

pub record DeliveryInfo : Type 0 where
  pub delivery_id : String
  pub customer_id : String
  pub driver_id : String

-- `GetDelivery`: `none` for its error.
abbrev pub DeliveryClient : Type 0
DeliveryClient = String → Option (Option DeliveryInfo)

-- `id == cmd.DriverID || id == driver.UserID`: without a driver the second test is a nil pointer.
abbrev pub is_driver : Option Driver → String → String → Option Bool
is_driver driver wanted id =
    if str_eq id wanted
    then some true
    else elim driver [ none ↦ none | some d ↦ some (str_eq id d.user_id) ]

abbrev pub or_panic : Option Bool → Action Bool
or_panic none = raise panicked
or_panic (some b) = pure b

-- `NewReview`
unfoldable pub new_review : (ℕ → Bool) → String → ℕ → RateDriverCommand → Result ServiceError Review
new_review in_range new_id now cmd =
    if str_eq cmd.driver_id "" || (str_eq cmd.user_id "" || str_eq cmd.delivery_id "")
    then err invalid_argument
    else if not (in_range cmd.rating)
    then err invalid_rating
    else ok (record {
      id = new_id;
      driver_id = cmd.driver_id;
      user_id = cmd.user_id;
      delivery_id = cmd.delivery_id;
      rating = cmd.rating;
      comment = cmd.comment;
      created_at = now;
      updated_at = now;
    })

module _ (env : Env) (cmd : RateDriverCommand) (driver : Option Driver) where
  -- The assignment of the delivery, where the delivery service names another driver.
  unfoldable pub matches_assignment : Action Bool
  matches_assignment =
      handling
        (perform env at_find_assignment
          (λ down. assignment_find_by_delivery_id down cmd.delivery_id))
        (λ _. pure false)
        (λ found. elim found [
          | none ↦ pure false
          | some a ↦ or_panic (is_driver driver cmd.driver_id a.driver_id)
        ])

  unfoldable pub matches_delivery : DeliveryInfo → Action Bool
  matches_delivery info = do
    named ←
        if str_eq info.driver_id ""
        then pure false
        else or_panic (is_driver driver cmd.driver_id info.driver_id)
    elim named [ true ↦ pure true | false ↦ matches_assignment ]

  -- Step 2, for the answer of the delivery service.
  unfoldable pub check_delivery : Option (Option DeliveryInfo) → Action (Unit {0})
  check_delivery none = raise unreachable
  check_delivery (some none) = raise delivery_not_found
  check_delivery (some (some info)) = do
    require (not (str_eq info.delivery_id "")) delivery_not_found
    require (str_eq info.customer_id cmd.user_id) not_delivery_owner
    matches ← matches_delivery info
    require matches not_assigned_driver

  abbrev pub check_client : Option DeliveryClient → Action (Unit {0})
  check_client none = pure tt
  check_client (some client) = check_delivery (client cmd.delivery_id)

abbrev pub unrated : Option Review → Action (Unit {0})
unrated none = pure tt
unrated (some r) = raise duplicate_review

abbrev pub lifted : {A : Type 0} → Result ServiceError A → Action A
lifted (ok a) = pure a
lifted (err e) = raise e

module _ (env : Env) (in_range : ℕ → Bool) (average : List Review → ℕ × ℤ) (new_id : String) where
  -- Step 6: the driver's rating, whose errors are dropped.
  unfoldable pub refresh_rating : String → Action (Unit {0})
  refresh_rating driver_id = ignore (do
    reviews ← perform env at_publish (λ down. reviews_of_driver down driver_id)
    perform env at_driver_save (λ down.
        driver_update_rating down driver_id (average reviews).0 (average reviews).1
          (env.now at_driver_save)))

  -- `RateDriverHandler.Execute`
  unfoldable pub rate_driver : Option DeliveryClient → RateDriverCommand → Action Review
  rate_driver client cmd = do
    driver ← perform env at_find (λ down. driver_find_by_id down cmd.driver_id)
    check_client env cmd driver client
    existing ← perform env at_second_find (λ down. review_find_by_delivery_id down cmd.delivery_id)
    unrated existing
    review ← lifted (new_review in_range new_id (env.now at_assignment_save) cmd)
    perform env at_assignment_save (λ down. review_create down review)
    refresh_rating cmd.driver_id
    pure review
