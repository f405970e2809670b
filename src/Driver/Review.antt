-- ===== src/Driver/Review.antt =====
-- services/driver-service/internal/domain/review.go: a customer's review of a driver.
use realtime_delivery_micros.Prelude.{ℕ, String}

-- The rating is kept as the bits of its float64.
pub record Review : Type 0 where
  pub id : String
  pub driver_id : String
  pub user_id : String
  pub delivery_id : String
  pub rating : ℕ
  pub comment : String
  pub created_at : ℕ
  pub updated_at : ℕ
