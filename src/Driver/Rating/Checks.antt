-- ===== src/Driver/Rating/Checks.antt =====
-- commands/rate_driver.go: the checks before a rating, which leave the reviews alone.
use text.Mathlib.Text.{◌==◌ as str_eq}
use text.Mathlib.TextEquality.{eq_iff}
use realtime_delivery_micros.Prelude.{
  ◌≡◌, refl, ap, String, Bool, true, false, not, Option, none, some, List, if◌then◌else◌,
}
use realtime_delivery_micros.Prelude.Action.{pure}
use realtime_delivery_micros.Prelude.Action.Contract.{
  Contract, >>=-Contract, handling-Contract, pure-Contract, raise-Contract, require-Contract,
  weaken, by_state,
}
use realtime_delivery_micros.Driver.Profile.{Driver}
use realtime_delivery_micros.Driver.Assignment.{Assignment}
use realtime_delivery_micros.Driver.Collection.{find_one}
use realtime_delivery_micros.Driver.Review.{Review}
use realtime_delivery_micros.Driver.Store.{
  Store, ServiceError, Action, delivery_not_found, not_delivery_owner, not_assigned_driver,
  driver_find_by_id, assignment_find_by_delivery_id, review_find_by_delivery_id,
}
use realtime_delivery_micros.Driver.Env.{Env, at_find_assignment, alone}
use realtime_delivery_micros.Driver.Rating.{
  RateDriverCommand, DeliveryInfo, is_driver, or_panic, matches_assignment, matches_delivery,
  check_delivery,
}
use realtime_delivery_micros.Driver.Ledger.Calls.{perform-Contract}

-- What a call does that leaves the reviews alone.
module _ (rs : List Review) where
  abbrev pub Kept : Store → Type 0
  Kept s = s.reviews ≡ rs

  abbrev pub KeptError : ServiceError → Store → Type 0
  KeptError e s = s.reviews ≡ rs

  pub driver_read :
      (id : String) (down : Bool)
      → Contract Kept (driver_find_by_id down id) (λ _ s. Kept s) KeptError
  unfolding driver_find_by_id
  driver_read id true = record { holds = λ s h. h }
  driver_read id false = record { holds = λ s h. h }

  assignment_read :
      (id : String) (down : Bool)
      → Contract Kept (assignment_find_by_delivery_id down id) (λ _ s. Kept s) KeptError
  unfolding assignment_find_by_delivery_id
  assignment_read id true = record { holds = λ s h. h }
  assignment_read id false = record { holds = λ s h. h }

  pub review_read :
      (id : String) (down : Bool)
      → Contract Kept
          (review_find_by_delivery_id down id)
          (λ found s. Kept s × (found ≡ find_one (λ r. str_eq r.delivery_id id) rs))
          KeptError
  unfolding review_find_by_delivery_id
  review_read id true = record { holds = λ s h. h }
  review_read id false = record {
    holds = λ s h. (h, ap (find_one (λ (r : Review). str_eq r.delivery_id id)) h);
  }

  panic_or : (o : Option Bool) → Contract Kept (or_panic o) (λ _ s. Kept s) KeptError
  panic_or none = raise-Contract (λ s h. h)
  panic_or (some b) = pure-Contract (λ s h. h)

  module _ (env : Env) (cmd : RateDriverCommand) (driver : Option Driver) where
    found_step :
        (found : Option Assignment)
        → let next : Action Bool = elim found [
          | none ↦ pure false
          | some a ↦ or_panic (is_driver driver cmd.driver_id a.driver_id)
        ] in
          Contract Kept next (λ _ s. Kept s) KeptError
    found_step none = pure-Contract (λ s h. h)
    found_step (some a) = panic_or (is_driver driver cmd.driver_id a.driver_id)

    assignment_keeps :
        Contract Kept (matches_assignment (alone env) cmd driver) (λ _ s. Kept s) KeptError
    unfolding matches_assignment
    assignment_keeps =
        handling-Contract {M = λ _ s. Kept s} {N = λ _ s. Kept s}
          (perform-Contract env at_find_assignment _ (assignment_read cmd.delivery_id))
          (λ e. pure-Contract (λ s h. h)) found_step

    named_step :
        (b : Bool) (id : String)
        → let next : Action Bool =
            if b then pure false else or_panic (is_driver driver cmd.driver_id id) in
          Contract Kept next (λ _ s. Kept s) KeptError
    named_step true id = pure-Contract (λ s h. h)
    named_step false id = panic_or (is_driver driver cmd.driver_id id)

    second_step :
        (named : Bool)
        → let next : Action Bool = elim named [
          | true ↦ pure true
          | false ↦ matches_assignment (alone env) cmd driver
        ] in
          Contract Kept next (λ _ s. Kept s) KeptError
    second_step true = pure-Contract (λ s h. h)
    second_step false = assignment_keeps

    matches_keeps :
        (info : DeliveryInfo)
        → Contract Kept (matches_delivery (alone env) cmd driver info) (λ _ s. Kept s) KeptError
    unfolding matches_delivery
    matches_keeps info =
        >>=-Contract {M = λ _ s. Kept s} (named_step (str_eq info.driver_id "") info.driver_id)
          second_step

    -- The delivery service answers with a delivery of the customer's.
    abbrev pub IsCustomers : Option (Option DeliveryInfo) → Type 0
    IsCustomers reply =
        (info : DeliveryInfo) × (reply ≡ some (some info)) × (info.customer_id ≡ cmd.user_id)

    pub checked_delivery :
        (reply : Option (Option DeliveryInfo))
        → Contract Kept
            (check_delivery (alone env) cmd driver reply)
            (λ _ s. Kept s × IsCustomers reply)
            KeptError
    unfolding check_delivery
    checked_delivery none = raise-Contract (λ s h. h)
    checked_delivery (some none) = raise-Contract (λ s h. h)
    checked_delivery (some (some info)) =
        >>=-Contract
          (require-Contract (not (str_eq info.delivery_id "")) delivery_not_found (λ s h. h))
          (λ _.
            >>=-Contract
              (require-Contract (str_eq info.customer_id cmd.user_id) not_delivery_owner
                (λ s h. h.0))
              (λ _. by_state (λ s h.
                let own : info.customer_id ≡ cmd.user_id =
                  (eq_iff info.customer_id cmd.user_id).0 h.1 in
                >>=-Contract {M = λ _ s. Kept s}
                  (weaken (matches_keeps info) (λ s h. h.0.0) (λ _ _ h. h) (λ _ _ h. h))
                  (λ matches.
                    weaken
                      (require-Contract {P = Kept} {R = KeptError} matches not_assigned_driver
                        (λ s h. h))
                      (λ s h. h) (λ _ s h. (h.0, (info, refl, own))) (λ _ _ h. h)))))
