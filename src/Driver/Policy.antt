-- ===== src/Driver/Policy.antt =====
-- services/driver-service/internal/domain/dispatch.go: how many drivers are tried for a delivery, and
-- which first. A float64 is a parameter, with the tests on it that the source makes: `== 0` and `<`.
-- `sort.Sort` is one too, a function of the `Less` that it is given, since it promises an order and not
-- which of two equal candidates comes first.
pub mod Laws
pub mod Insertion
use text.Mathlib.Text.{◌==◌ as str_eq}
use realtime_delivery_micros.Prelude.{
  ℕ, ◌*◌, ◌^◌, String, Bool, true, false, ◌||◌, List, map, take, if◌then◌else◌,
}
use realtime_delivery_micros.Prelude.Int.{ℤ, pos, leb_ℤ}
use realtime_delivery_micros.Prelude.Result.{Result, ok, err}
use realtime_delivery_micros.Driver.Profile.{DriverStatus, VehicleType}
use realtime_delivery_micros.Driver.Store.{ServiceError, invalid_argument, max_attempts_reached}

pub record Candidate (F : Type 0) : Type 0 where
  pub driver_id : String
  pub distance_meters : F
  pub vehicle_type : VehicleType
  pub status : DriverStatus
  pub ranking_score : F

-- The radius is kept as the bits of its float64, the timeout in nanoseconds. The count of candidates is
-- not negative: a negative one makes the source's slice panic.
pub record DispatchPolicy : Type 0 where
  pub max_attempts : ℤ
  pub search_radius_km : ℕ
  pub assignment_timeout : ℤ
  pub candidate_count : ℕ

-- `NewDispatchPolicy`
abbrev pub new_dispatch_policy : DispatchPolicy
new_dispatch_policy = record {
  max_attempts = pos 5;
  search_radius_km = 0x4014000000000000;
  assignment_timeout = pos (30 * 10 ^ 9);
  candidate_count = 10;
}

-- A candidate with no score of its own is ranked by its distance.
abbrev pub with_score : {F : Type 0} → (F → Bool) → Candidate F → Candidate F
with_score is_zero c = record c {
  ranking_score = if is_zero c.ranking_score then c.distance_meters else c.ranking_score;
}

-- `ByRankingScore.Less`
abbrev pub less : {F : Type 0} → (F → F → Bool) → Candidate F → Candidate F → Bool
less lt c d = lt c.ranking_score d.ranking_score

-- `sort.Sort`, by its `Less`.
abbrev pub Sort : Type 0 → Type 0
Sort A = (A → A → Bool) → List A → List A

module _ {F : Type 0} (is_zero : F → Bool) (lt : F → F → Bool) (sort : Sort (Candidate F)) where
  unfoldable pub rank_candidates : DispatchPolicy → List (Candidate F) → List (Candidate F)
  rank_candidates p candidates =
      take p.candidate_count (sort (less lt) (map (with_score is_zero) candidates))

unfoldable pub attempt_reservation : DispatchPolicy → String → String → ℤ → Result ServiceError Bool
attempt_reservation p driver_id delivery_id current_attempts =
    if str_eq driver_id "" || str_eq delivery_id ""
    then err invalid_argument
    else if leb_ℤ p.max_attempts current_attempts
    then err max_attempts_reached
    else ok true
